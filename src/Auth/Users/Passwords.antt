-- ===== src/Auth/Users/Passwords.antt =====
-- internal/service/auth_service.go: whose password is accepted.
use tinyauth.Base.{
  ◌≡◌, refl, ◌↔◌, ◌⊎◌, inl, inr, String, Bool, true, List, Option, none, some, ok, arith,
  Option-cases, sym,
}
use tinyauth.Model.{LocalUser, user_local, user_ldap, UserSearch}
use mathlib.Core.Path.{subst}
use tinyauth.Auth.Users.{
  Ldap, get_local_user, search_ldap, search_from, search_user, check_local, check_ldap, check_type,
  check_user_password,
}

-- What LDAP has to say for a name and its password to be accepted.
abbrev pub Binds : Option Ldap → String → String → Type 0
Binds ldap username password =
    (l : Ldap) × (dn : String) × (email : String) × (ldap ≡ some l)
    × (l.get_user_info username ≡ some (dn, email))
    × (l.bind dn password ≡ true)
    × (l.bind_service true ≡ true)

check_ldap-Binds :
    (ldap : Option Ldap) (username password : String) (search : UserSearch)
    (compare : String → String → Bool) (users : List LocalUser)
    → search_ldap ldap username ≡ ok search
    → check_user_password compare users ldap search password ≡ none
    → Binds ldap username password
unfolding search_ldap check_user_password check_type check_ldap
check_ldap-Binds none username password search compare users p q = absurd (ground arith)
check_ldap-Binds (some l) username password search compare users p q =
    elim (Option-cases (l.get_user_info username)) [
      | inl e ↦ absurd (ground arith)
      | inr ((dn, email), e) ↦
          let found : UserSearch = record {
            username = dn;
            email = email;
            search_type = user_ldap;
          } in
          let same : found ≡ search = ground arith in
          let checked : check_user_password compare users (some l) found password ≡ none =
            subst (λ x. check_user_password compare users (some l) x password ≡ none) (sym same)
              q in
          (l, dn, email, refl, e, ground (arith, checked), ground (arith, checked))
    ]

-- A password is accepted for a name exactly if the name is that of a local user and the password
-- fits the hash of the first such user, or it is not and LDAP knows it, binds its DN with the
-- password, and binds the service account again. So a local user hides an LDAP user of the name.
pub check_user_password-search_user_iff :
    (compare : String → String → Bool) (users : List LocalUser) (ldap : Option Ldap)
    (username password : String)
    → ((search : UserSearch) × (search_user users ldap username ≡ ok search)
        × (check_user_password compare users ldap search password ≡ none))
      ↔ (((user : LocalUser) × (get_local_user users username ≡ some user)
            × (compare user.password password ≡ true))
          ⊎ ((get_local_user users username ≡ none) × Binds ldap username password))
unfolding search_user search_from search_ldap check_user_password check_type check_local check_ldap
check_user_password-search_user_iff compare users ldap username password =
    let accepts : UserSearch → Type 0 =
      λ search. check_user_password compare users ldap search password ≡ none in
    elim (Option-cases (get_local_user users username)) [
      | inr (user, e) ↦ (
        λ (search, p, q).
            let local : UserSearch = record {
              username = username;
              email = "";
              search_type = user_local;
            } in
            let same : local ≡ search = ground arith in
            let checked : accepts local = subst accepts (sym same) q in
            inl (user, e, ground (arith, checked)),
        λ h. elim h [
          | inl (u, p, q) ↦ (
            record { username = username; email = ""; search_type = user_local },
            ground arith,
            ground arith,
          )
          | inr (p, (l, dn, email, a, b, c, d)) ↦ absurd (ground arith)
        ],
      )
      | inl e ↦ (
        λ (search, p, q).
            inr (e, check_ldap-Binds ldap username password search compare users (ground arith) q),
        λ h. elim h [
          | inl (u, p, q) ↦ absurd (ground arith)
          | inr (p, (l, dn, email, a, b, c, d)) ↦ (
            record { username = dn; email = email; search_type = user_ldap },
            ground arith,
            ground arith,
          )
        ],
      )
    ]

-- A local user is found by the name alone.
pub search_user-local :
    (users : List LocalUser) (ldap : Option Ldap) (username : String) (user : LocalUser)
    → get_local_user users username ≡ some user
    → search_user users ldap username
      ≡ ok (record { username = username; email = ""; search_type = user_local })
unfolding search_user search_from
search_user-local users ldap username user found = rw found refl

pub check_user_password-local :
    (compare : String → String → Bool) (users : List LocalUser) (ldap : Option Ldap)
    (username password : String) (user : LocalUser)
    → get_local_user users username ≡ some user
    → compare user.password password ≡ true
    → check_user_password compare users ldap
        (record { username = username; email = ""; search_type = user_local })
        password
      ≡ none
unfolding check_user_password check_type check_local
check_user_password-local compare users ldap username password user found fits =
    rw (found, fits) refl
