-- ===== src/Utils/Filter.antt =====
-- internal/utils/security_utils.go: `CheckFilter` and `CheckIPFilter`. The engines of `regexp` and
-- `net` are parameters.
pub mod Laws
use Prim.Native.String
use tinyauth.Base.{
  ℕ, String, ◌≡◌, Bool, true, false, ◌&&◌, List, [], Option, none, some, Result, ok, err, ◌==◌,
  if◌then◌else◌,
}
use tinyauth.Base.Lists.{any}
use tinyauth.Text.{trim_space, split, first_is, last_is, drop_last, has_char, replace_char}

-- `regexp.Compile`, with `MatchString` of the result; `none` is a syntax error.
abbrev pub Compile : Type 0
Compile = String → Option (String → Bool)

pub data FilterError : Type 0 where
  filter_empty invalid_regex : FilterError

-- `filter[1 : len(filter)-1]`. With the one-character filter "/" the bounds cross, and Go panics.
abbrev pub between : String → Option String
between String.[] = none
between (String.◌∷◌ c String.[]) = none
between (String.◌∷◌ c (String.◌∷◌ d s)) = some (drop_last (String.◌∷◌ d s))

unfoldable pub check_items : String → String → Bool
check_items filter input = any (λ item. trim_space item == input) (split b',' filter)

check_compiled : Option (String → Bool) → String → String → Result FilterError Bool
check_compiled none filter input = err invalid_regex
check_compiled (some re) filter input = if re input then ok true else ok (check_items filter input)

check_regex : Compile → Option String → String → String → Option (Result FilterError Bool)
unfolding check_compiled
check_regex compile none filter input = none
check_regex compile (some pattern) filter input =
    some (check_compiled (compile pattern) filter input)

-- `none` is a panic.
unfoldable pub check_filter : Compile → String → String → Option (Result FilterError Bool)
unfolding check_regex
check_filter compile filter input =
    if trim_space filter == ""
    then some (err filter_empty)
    else (if first_is b'/' filter && last_is b'/' filter
        then check_regex compile (between filter) filter input
        else some (ok (check_items filter input)))

-- A `net.IP` is its bytes, and nil is the empty slice.
abbrev pub Ip : Type 0
Ip = List ℕ

-- `net.ParseIP` (nil for no address), `IP.String`, `IP.Equal`, and `net.ParseCIDR` with
-- `IPNet.Contains` of its result.
pub record Net : Type 0 where
  pub parse_ip : String → Ip
  pub ip_string : Ip → String
  pub ip_equal : Ip → Ip → Bool
  pub parse_cidr : String → Option (Ip → Bool)

pub data IpFilterError : Type 0 where
  invalid_ip_address invalid_cidr_notation : IpFilterError

abbrev pub is_nil : Ip → Bool
is_nil ip = elim ip [ [] ↦ true | _ ↦ false ]

check_cidr : Option (Ip → Bool) → Ip → Result IpFilterError Bool
check_cidr none ip = err invalid_cidr_notation
check_cidr (some covers) ip = ok (covers ip)

unfoldable pub check_ip_filter : Net → String → String → Result IpFilterError Bool
unfolding check_cidr
check_ip_filter net filter ip =
    let ip_addr = net.parse_ip ip in
    let filter' = replace_char b'-' "/" filter in
    let ip_filter = net.parse_ip filter' in
    if is_nil ip_addr
    then err invalid_ip_address
    else (if has_char b'/' filter'
        then check_cidr (net.parse_cidr filter') ip_addr
        else (if is_nil ip_filter
            then err invalid_ip_address
            else ok (net.ip_equal ip_filter ip_addr)))
