-- ===== src/Utils/Secrets.antt =====
-- internal/utils/security_utils.go: secrets and basic authentication. Files and Base64 are
-- parameters; `none` is a file that cannot be read.
use Prim.Native.String.{◌++◌}
use tinyauth.Base.{String, not, ◌&&◌, List, [], ◌∷◌, Option, none, some, ◌==◌, if◌then◌else◌}
use tinyauth.Text.{trim_space, split}

-- The first line that is not blank, trimmed.
first_line : List String → String
first_line [] = ""
first_line (line ∷ lines) = if trim_space line == "" then first_line lines else trim_space line

unfoldable pub parse_secret_file : String → String
unfolding first_line
parse_secret_file contents = first_line (split 10 contents)

read_secret : Option String → String
unfolding parse_secret_file
read_secret none = ""
read_secret (some contents) = parse_secret_file contents

unfoldable pub get_secret : (String → Option String) → String → String → String
unfolding read_secret
get_secret read_file conf file =
    if conf == "" && file == ""
    then ""
    else (if not (conf == "") then conf else read_secret (read_file file))

unfoldable pub encode_basic_auth : (String → String) → String → String → String
encode_basic_auth base64 username password = base64 (username ++ (":" ++ password))
