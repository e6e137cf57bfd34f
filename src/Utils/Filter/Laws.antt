-- ===== src/Utils/Filter/Laws.antt =====
-- When a filter accepts an item, and when evaluating one panics.
use text.Mathlib.TextEquality.{Char-path}
use tinyauth.Base.{
  ap, ◌||◌, String, ◌≡◌, refl, ◌≢◌, ◌↔◌, true, false, ◌&&◌, List, [], ◌∷◌, none, some, ok, err,
  ◌==◌, eq_iff, arith, Bool-cases, Option-cases, inl, inr,
}
use tinyauth.Base.Lists.{any}
use tinyauth.Text.{trim_space, split, first_is, last_is}
use tinyauth.Utils.Filter.{Compile, invalid_regex, between, check_items, check_filter}

between-none : (s : String) → first_is b'/' s ≡ true → between s ≡ none → s ≡ "/"
unfolding first_is
between-none String.[] h e = absurd (ground arith)
between-none (String.◌∷◌ c String.[]) h e =
    ap (λ x. String.◌∷◌ x "") (Char-path c "/" (ground arith))
between-none (String.◌∷◌ c (String.◌∷◌ d s)) h e = cc

-- Evaluating a filter panics exactly on the filter "/", whatever the input: its first and its
-- last character are the same slash, and the bounds of the slice between them have crossed.
pub check_filter-eq-none_iff :
    (compile : Compile) (filter input : String)
    → (check_filter compile filter input ≡ none) ↔ (filter ≡ "/")
unfolding check_filter
check_filter-eq-none_iff compile filter input = (
  λ h. elim (Option-cases (between filter)) [
    | inl e ↦ between-none filter (ground arith) e
    | inr (p, e) ↦ absurd (ground arith)
  ],
  λ e. rw e (unfold trim_space first_is last_is in refl),
)

-- Some item of the list, trimmed, is the input.
pub data Lists (input : String) : List String → Type 0 where
  here :
      {item : String} {items : List String} → trim_space item ≡ input → Lists input (item ∷ items)
  there : {item : String} {items : List String} → Lists input items → Lists input (item ∷ items)

any-Lists :
    (input : String) (items : List String)
    → any (λ item. trim_space item == input) items ≡ true
    → Lists input items
any-Lists input [] h = absurd (ground arith)
any-Lists input (x ∷ xs) h = elim (Bool-cases (trim_space x == input)) [
  | inl e ↦ here ((eq_iff _ _).0 e)
  | inr e ↦ there (any-Lists input xs (rw e at h))
]

Lists-any :
    {input : String} {items : List String}
    → Lists input items
    → any (λ item. trim_space item == input) items ≡ true
Lists-any (here {item} {items} e) = rw ((eq_iff _ _).1 e) refl
Lists-any {input} (there {item} {items} l) = rw (Lists-any l) (ground arith)

-- A filter that is not written between slashes accepts exactly the items that it lists, separated
-- by commas and trimmed, and a blank filter accepts nothing.
pub check_filter-plain_iff :
    (compile : Compile) (filter input : String)
    → first_is b'/' filter && last_is b'/' filter ≡ false
    → (check_filter compile filter input ≡ some (ok true))
      ↔ ((trim_space filter ≢ "") × Lists input (split b',' filter))
unfolding check_filter check_items
check_filter-plain_iff compile filter input plain = (
  λ h. elim (Bool-cases (trim_space filter == "")) [
    | inl e ↦ absurd (ground arith)
    | inr e ↦ (
      λ blank. absurd (ground (arith, eq_iff (trim_space filter) "")),
      any-Lists input (split b',' filter) (ground arith),
    )
  ],
  λ (filled, l). ground (arith, eq_iff (trim_space filter) "", Lists-any l),
)

-- A filter that is not blank and stands between two slashes is a regular expression first: if it matches, the input is accepted, if
-- it does not compile, the filter is refused, and if it does not match, the whole text, slashes
-- included, is still tried as a list.
pub check_filter-regex :
    (compile : Compile) (filter pattern input : String)
    → trim_space filter ≢ ""
    → first_is b'/' filter && last_is b'/' filter ≡ true
    → between filter ≡ some pattern
    → check_filter compile filter input ≡ elim (compile pattern) [
      | none ↦ some (err invalid_regex)
      | some re ↦ some (ok (re input || check_items filter input))
    ]
unfolding check_filter
check_filter-regex compile filter pattern input filled slashes mid =
    ground (arith, eq_iff (trim_space filter) "")
