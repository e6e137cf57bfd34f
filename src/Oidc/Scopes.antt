-- ===== src/Oidc/Scopes.antt =====
-- internal/service/oidc_service.go: what a client learns of a user, by the scopes it was granted.
use tinyauth.Base.{
  String, ◌≡◌, refl, ◌≢◌, ◌↔◌, ◌⊎◌, inl, inr, Bool, true, false, not, ◌&&◌, [], none, some, ◌==◌,
  eq_iff, if◌then◌else◌, arith, Option-cases, Bool-cases,
}
use tinyauth.Base.Dict.{lookup}
use tinyauth.Base.Lists.{contains, any}
use tinyauth.Text.{split, trim_space}
use tinyauth.Oidc.{
  UserinfoResponse, empty_userinfo, OidcClientConfig, AuthorizeRequest, Clients, check_request,
  check_client, get_client, validate_authorize_params, invalid_request_uri,
}

-- The fields of each scope.
add_profile : Bool → UserinfoResponse → UserinfoResponse → UserinfoResponse
add_profile false user info = info
add_profile true user info = record info {
  name = user.name;
  preferred_username = user.preferred_username;
  given_name = user.given_name;
  family_name = user.family_name;
  middle_name = user.middle_name;
  nickname = user.nickname;
  profile = user.profile;
  picture = user.picture;
  website = user.website;
  gender = user.gender;
  birthdate = user.birthdate;
  zoneinfo = user.zoneinfo;
  locale = user.locale;
}

add_email : Bool → UserinfoResponse → UserinfoResponse → UserinfoResponse
add_email false user info = info
add_email true user info = record info {
  email = user.email;
  email_verified = not (user.email == "");
}

add_groups : Bool → UserinfoResponse → UserinfoResponse → UserinfoResponse
add_groups false user info = info
add_groups true user info = record info { groups = user.groups }

add_phone : Bool → UserinfoResponse → UserinfoResponse → UserinfoResponse
add_phone false user info = info
add_phone true user info = record info {
  phone_number = user.phone_number;
  phone_number_verified = some (not (user.phone_number == ""));
}

add_address : Bool → UserinfoResponse → UserinfoResponse → UserinfoResponse
add_address false user info = info
add_address true user info = record info { address = user.address }

compile_for : (String → Bool) → UserinfoResponse → UserinfoResponse
unfolding add_profile add_email add_groups add_phone add_address
compile_for granted user = add_address (granted "address") user (
    add_phone (granted "phone") user (
      add_groups (granted "groups") user (
        add_email (granted "email") user (
          add_profile (granted "profile") user
            (record empty_userinfo { sub = user.sub; updated_at = user.updated_at })))))

unfoldable pub compile_userinfo : UserinfoResponse → String → UserinfoResponse
unfolding compile_for
compile_userinfo user scope = compile_for (λ s. contains s (split 32 scope)) user

abbrev pub has_scope : String → String → Bool
has_scope scope s = contains s (split 32 scope)

-- What a client is told holds the email, the groups, the phone number and the address exactly by
-- the scope of that name, and the names by "profile"; the subject is always told. What
-- it is told once holds all that it would be told of it.
pub compile_userinfo_lem :
    (user : UserinfoResponse) (scope : String)
    → let info = compile_userinfo user scope in
      (info.sub ≡ user.sub)
      × (info.email ≡ (if has_scope scope "email" then user.email else ""))
      × (info.email_verified ≡ (has_scope scope "email" && not (user.email == "")))
      × (info.groups ≡ (if has_scope scope "groups" then user.groups else []))
      × (info.phone_number ≡ (if has_scope scope "phone" then user.phone_number else ""))
      × (info.address ≡ (if has_scope scope "address" then user.address else none))
      × (info.name ≡ (if has_scope scope "profile" then user.name else ""))
      × (info.preferred_username
          ≡ (if has_scope scope "profile" then user.preferred_username else ""))
      × (compile_userinfo info scope ≡ info)
unfolding compile_userinfo compile_for add_profile add_email add_groups add_phone add_address
compile_userinfo_lem user scope = (
  ground arith,
  ground arith,
  ground arith,
  ground arith,
  ground arith,
  ground arith,
  ground arith,
  ground arith,
  ground arith,
)

-- What a request to the client must be like.
abbrev pub IsAcceptable : OidcClientConfig → AuthorizeRequest → Type 0
IsAcceptable client req =
    (contains req.redirect_uri client.trusted_redirect_uris ≡ true)
    × (trim_space req.scope ≢ "")
    × (any (λ scope. trim_space scope == "") (split 32 req.scope) ≡ false)
    × (req.response_type ≡ "code")
    × ((req.code_challenge ≡ "")
        ⊎ ((req.code_challenge_method ≡ "")
            ⊎ ((req.code_challenge_method ≡ "S256") ⊎ (req.code_challenge_method ≡ "plain"))))

check_request_iff :
    (client : OidcClientConfig) (req : AuthorizeRequest)
    → (check_request client req ≡ none) ↔ IsAcceptable client req
unfolding check_request contains
check_request_iff client req = ground (
  arith,
  eq_iff (trim_space req.scope) "",
  eq_iff "code" req.response_type,
  eq_iff req.code_challenge "",
  eq_iff req.code_challenge_method "",
  eq_iff req.code_challenge_method "S256",
  eq_iff req.code_challenge_method "plain",
)

-- An authorization request passes exactly if its client is known and trusts the address to send the
-- code to, its scopes are there and none is blank, it asks for a code, and the method of a
-- challenge that it sends is missing, "S256" or "plain".
pub validate_authorize_params_iff :
    (clients : Clients) (req : AuthorizeRequest)
    → (validate_authorize_params clients req ≡ none) ↔ (
        (client : OidcClientConfig) × (lookup req.client_id clients ≡ some client)
        × IsAcceptable client req)
unfolding validate_authorize_params check_client get_client
validate_authorize_params_iff clients req = elim (Option-cases (lookup req.client_id clients)) [
  | inl e ↦ rw e (λ h. absurd (ground arith), λ (c, p, good). absurd (ground arith))
  | inr (client, e) ↦ rw e (
    λ h. (client, refl, (check_request_iff client req).0 h),
    λ (c, p, good).
        let same : client ≡ c = ground arith in rw same ((check_request_iff c req).1 good),
  )
]

-- Of a known client, only a request with an address that it has registered gets past the test of
-- the address.
pub validate_authorize_params-trusted :
    (clients : Clients) (req : AuthorizeRequest) (client : OidcClientConfig)
    → get_client clients req.client_id ≡ some client
    → (validate_authorize_params clients req ≡ some invalid_request_uri)
      ⊎ (contains req.redirect_uri client.trusted_redirect_uris ≡ true)
unfolding validate_authorize_params check_client check_request
validate_authorize_params-trusted clients req client known =
    elim (Bool-cases (contains req.redirect_uri client.trusted_redirect_uris)) [
      | inl t ↦ inr t
      | inr f ↦ inl (rw (known, check_client, f) refl)
    ]
