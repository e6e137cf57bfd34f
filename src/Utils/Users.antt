-- ===== src/Utils/Users.antt =====
-- internal/utils/user_utils.go and string_utils.go: the list of local users.
pub mod Laws
use tinyauth.Base.{
  String, ◌≡◌, Bool, true, false, List, [], ◌∷◌, ◌++◌, Option, none, some, Result, ok, err, ◌==◌,
  if◌then◌else◌,
}
use tinyauth.Base.Dict.{lookup}
use tinyauth.Base.Lists.{any}
use tinyauth.Text.{trim_space, split, split_n, has_part, halve_dollars}
use tinyauth.Model.{LocalUser, UserAttributes, empty_attributes}

pub data UserError : Type 0 where
  invalid_user_format unreadable_file : UserError

-- The trimmed pieces, if none of them is blank.
trim_parts : List String → Option (List String)
trim_parts [] = some []
trim_parts (part ∷ parts) =
    let rest = trim_parts parts in
    if trim_space part == ""
    then none
    else elim rest [ none ↦ none | some ps ↦ some (trim_space part ∷ ps) ]

user_of : Option (List String) → Result UserError LocalUser
user_of (some (name ∷ password ∷ [])) = ok (record {
  username = name;
  password = password;
  totp_secret = "";
  attributes = empty_attributes;
})
user_of (some (name ∷ password ∷ totp ∷ [])) = ok (record {
  username = name;
  password = password;
  totp_secret = totp;
  attributes = empty_attributes;
})
user_of _ = err invalid_user_format

unfoldable pub parse_user : String → Result UserError LocalUser
unfolding trim_parts user_of
parse_user user_str =
    let str = if has_part "$$" user_str then halve_dollars user_str else user_str in
    user_of (trim_parts (split_n b':' 4 str))

with_attributes : Option UserAttributes → LocalUser → LocalUser
with_attributes none user = user
with_attributes (some attrs) user = record user { attributes = attrs }

add_user :
    List (String × UserAttributes)
    → Result UserError LocalUser
    → Result UserError (List LocalUser)
    → Result UserError (List LocalUser)
unfolding with_attributes
add_user attributes (err e) rest = err e
add_user attributes (ok user) (err e) = err e
add_user attributes (ok user) (ok users) =
    ok (with_attributes (lookup user.username attributes) user ∷ users)

-- The loop of `ParseUsers`: the first user that cannot be read ends it.
unfoldable pub parse_users_from :
    List (String × UserAttributes) → List String → Result UserError (List LocalUser)
unfolding add_user
parse_users_from attributes [] = ok []
parse_users_from attributes (user ∷ users) =
    let rest = parse_users_from attributes users in
    if trim_space user == "" then rest else add_user attributes (parse_user (trim_space user)) rest

-- `ok none` is the nil pointer that stands for no configuration.
unfoldable pub parse_users :
    List (String × UserAttributes) → List String → Result UserError (Option (List LocalUser))
parse_users attributes [] = ok none
parse_users attributes (user ∷ users) = elim (parse_users_from attributes (user ∷ users)) [
  | ok parsed ↦ ok (some parsed)
  | err e ↦ err e
]

unfoldable pub non_blank : List String → List String
non_blank [] = []
non_blank (line ∷ lines) =
    let rest = non_blank lines in if trim_space line == "" then rest else trim_space line ∷ rest

unfoldable pub parse_non_empty_lines : String → List String
unfolding non_blank
parse_non_empty_lines contents = non_blank (split 10 contents)

-- The files are a parameter; `none` cannot be read.
unfoldable pub get_string_list :
    (String → Option String) → List String → String → Option (List String)
unfolding parse_non_empty_lines
get_string_list read_file values_cfg values_path =
    if values_path == "" then some (non_blank values_cfg) else elim (read_file values_path) [
      | none ↦ none
      | some contents ↦ some (non_blank values_cfg ++ parse_non_empty_lines contents)
    ]

unfoldable pub get_users :
    (String → Option String)
    → List String
    → String
    → List (String × UserAttributes)
    → Result UserError (Option (List LocalUser))
get_users read_file users_cfg users_path attributes =
    elim (get_string_list read_file users_cfg users_path) [
      | none ↦ err unreadable_file
      | some strs ↦ parse_users attributes strs
    ]
