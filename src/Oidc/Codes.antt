-- ===== src/Oidc/Codes.antt =====
-- internal/service/oidc_service.go: an authorization code works once, for its client, in time.
use tinyauth.Base.{
  ℕ, ◌+◌, ◌*◌, ◌≤◌, ◌≡◌, refl, ◌≢◌, ◌↔◌, ◌⊎◌, inl, inr, true, false, ◌&&◌, none, some, ◌==◌, eq_iff,
  eq_refl, if◌then◌else◌, arith, leb, Bool-cases, String-cases, Option-cases, String, ==-ne, ap,
  sym, Option, List,
}
use tinyauth.Model.Context.{UserContext, LocalContext, LdapContext, OAuthContext}
use tinyauth.Cache.{set_callback, get_callback}
use tinyauth.Cache.Lookup.{get_callback-set_callback_self, get_callback-delete_callback}
use tinyauth.Auth.{second}
use tinyauth.Oidc.{
  Digests, Caches, AuthorizeCodeEntry, AuthorizeRequest, UserinfoResponse, create_sub,
  userinfo_from_context, kept_challenge, code_entry, create_with, create_code, take_entry,
  get_code_entry, validate_pkce, details_of, with_local, with_groups,
}

get_callback-create_code :
    (digests : Digests) (req : AuthorizeRequest) (user : UserContext) (code : String)
    (now later : ℕ) (caches caches' : Caches) (info : UserinfoResponse)
    → userinfo_from_context user (create_sub digests user req.client_id) now ≡ some info
    → create_code digests req user code now caches ≡ some caches'
    → get_callback (digests.hash code) later caches'.code ≡ (
        if leb later (now + 60 * second)
        then some (code_entry digests req user code info)
        else none)
unfolding create_code create_with
get_callback-create_code digests req user code now later caches caches' info e h =
    let entry = code_entry digests req user code info in
    let same : set_callback (digests.hash code) entry (60 * second) now caches.code ≡ caches'.code =
      ground arith in
    rw
      (
        ← same,
        get_callback-set_callback_self (digests.hash code) entry (60 * second) now later
            caches.code,
      )
      (ground arith)

-- For a user whose details are there, a code is worth its entry to the client that it was made for, within a minute, and nothing to any
-- other client or later. Once it has been asked for by its client, no client ever gets it again.
pub get_code_entry-create_code :
    (digests : Digests) (req : AuthorizeRequest) (user : UserContext) (code client other : String)
    (now later again : ℕ) (caches caches' : Caches) (info : UserinfoResponse)
    → userinfo_from_context user (create_sub digests user req.client_id) now ≡ some info
    → create_code digests req user code now caches ≡ some caches'
    → later ≤ again
    → let entry = code_entry digests req user code info in
      let hash = digests.hash code in
      ((get_code_entry hash client later caches').0
        ≡ (if req.client_id == client && leb later (now + 60 * second) then some entry else none))
      × ((get_code_entry hash other again (get_code_entry hash req.client_id later caches').1).0
          ≡ none)
unfolding get_code_entry take_entry code_entry
get_code_entry-create_code digests req user code client other now later again caches caches' info e
      h order =
    let seen =
      λ (t : ℕ). get_callback-create_code digests req user code now t caches caches' info e h in
    elim (Bool-cases (leb later (now + 60 * second))) [
      | inl in_time ↦
          rw (seen later, in_time)
            (
              ground arith,
              rw
                  (
                    eq_refl req.client_id,
                    get_callback-delete_callback (digests.hash code) (digests.hash code) again
                        caches'.code,
                    eq_refl (digests.hash code),
                  )
                  refl,
            )
      | inr late ↦
          let too_late : leb again (now + 60 * second) ≡ false = ground arith in
          rw (seen later, late) (ground arith, rw (seen again, too_late) refl)
    ]

-- With digests that are not empty, a verifier is accepted exactly if no challenge was sent, or its
-- digest is the challenge for the method "S256", or the digest of the challenge for any other.
pub validate_pkce-kept_challenge_iff :
    (digests : Digests) (req : AuthorizeRequest) (verifier : String)
    → ((s : String) → digests.hash_and_encode_pkce s ≢ "")
    → (validate_pkce digests (kept_challenge digests req) verifier ≡ true) ↔ (
        (req.code_challenge ≡ "")
        ⊎ (((req.code_challenge_method ≡ "S256")
              × (req.code_challenge ≡ digests.hash_and_encode_pkce verifier))
            ⊎ ((req.code_challenge_method ≢ "S256")
                × (digests.hash_and_encode_pkce req.code_challenge
                    ≡ digests.hash_and_encode_pkce verifier))))
unfolding validate_pkce kept_challenge
validate_pkce-kept_challenge_iff digests req verifier filled =
    elim (String-cases req.code_challenge "") [
      | inl (e, p) ↦ rw e (λ h. inl p, λ h. refl)
      | inr (e, p) ↦ elim (String-cases req.code_challenge_method "S256") [
        | inl (f, q) ↦
            rw (e, f, e)
              (
                λ h. inr (inl (q, (eq_iff _ _).0 h)),
                λ h. elim h [
                  | inl n ↦ absurd (p n)
                  | inr (inl (_, same)) ↦ (eq_iff _ _).1 same
                  | inr (inr (ne, _)) ↦ absurd (ne q)
                ],
              )
        | inr (f, q) ↦
            rw (e, f, ==-ne _ _ (filled req.code_challenge))
              (
                λ h. inr (inr (q, (eq_iff _ _).0 h)),
                λ h. elim h [
                  | inl n ↦ absurd (p n)
                  | inr (inl (method, _)) ↦ absurd (q method)
                  | inr (inr (_, same)) ↦ (eq_iff _ _).1 same
                ],
              )
      ]
    ]

-- A code that was taken is gone.
pub get_code_entry-taken :
    (hash client : String) (now later : ℕ) (caches : Caches) (entry : AuthorizeCodeEntry)
    → (get_code_entry hash client now caches).0 ≡ some entry
    → get_callback hash later (get_code_entry hash client now caches).1.code ≡ none
unfolding get_code_entry take_entry
get_code_entry-taken hash client now later caches entry h =
    let gone = get_callback-delete_callback hash hash later caches.code in
    elim (Option-cases (get_callback hash now caches.code)) [
      | inl e ↦ absurd (ground (arith, e))
      | inr (found, e) ↦ elim (Bool-cases (found.client_id == client)) [
        | inl c ↦ ground (arith, e, c, gone, eq_refl hash)
        | inr c ↦ absurd (ground (arith, e, c))
      ]
    ]

pub get_code_entry-missing :
    (hash client : String) (now : ℕ) (caches : Caches)
    → get_callback hash now caches.code ≡ none
    → get_code_entry hash client now caches ≡ (none, caches)
unfolding get_code_entry take_entry
get_code_entry-missing hash client now caches e = rw e refl

pub create_code-made :
    (digests : Digests) (req : AuthorizeRequest) (user : UserContext) (code : String) (now : ℕ)
    (caches : Caches) (info : UserinfoResponse)
    → userinfo_from_context user (create_sub digests user req.client_id) now ≡ some info
    → (caches' : Caches) × (create_code digests req user code now caches ≡ some caches')
unfolding create_code create_with
create_code-made digests req user code now caches info e = rw e (_, refl)

with_local-sub :
    (local : Option LocalContext) (info info' : UserinfoResponse)
    → with_local local info ≡ some info'
    → info'.sub ≡ info.sub
unfolding with_local
with_local-sub none info info' e = absurd (ground (arith, e))
with_local-sub (some local) info info' e =
    ap (λ (o : Option UserinfoResponse). elim o [ none ↦ info.sub | some i ↦ i.sub ]) (sym e)

with_groups-sub {ℓ} :
    {A : Type ℓ} (f : A → List String) (a : Option A) (info info' : UserinfoResponse)
    → with_groups f a info ≡ some info'
    → info'.sub ≡ info.sub
unfolding with_groups
with_groups-sub f none info info' e = absurd (ground (arith, e))
with_groups-sub f (some a) info info' e =
    ap (λ (o : Option UserinfoResponse). elim o [ none ↦ info.sub | some i ↦ i.sub ]) (sym e)

details_of-sub :
    (user : UserContext) (info info' : UserinfoResponse)
    → details_of user info ≡ some info'
    → info'.sub ≡ info.sub
unfolding details_of
details_of-sub user info info' e = ground (
  arith,
  e,
  with_local-sub user.local info info',
  with_groups-sub (λ (l : LdapContext). l.groups) user.ldap info info',
  with_groups-sub (λ (o : OAuthContext). o.groups) user.oauth info info',
)

-- The details of a user keep the `sub` that they are made for.
pub userinfo_from_context-sub :
    (user : UserContext) (sub : String) (now : ℕ) (info : UserinfoResponse)
    → userinfo_from_context user sub now ≡ some info
    → info.sub ≡ sub
unfolding userinfo_from_context
userinfo_from_context-sub user sub now info e = details_of-sub user _ info e
