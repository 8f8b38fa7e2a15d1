-- ===== src/Config.antt =====
-- src/config.rs and the flags of src/main.rs: sizes, hosts, and the merge of the file with the flags.
-- Reading the file and decoding TOML are not part of it: `ConfigFile` says what came of them.
-- Paths are texts; `DOCKER_HOST` is an argument of `load`.
use dockdoe.Prelude.{
  ℕ, zero, suc, ◌+◌, ◌-◌, ◌*◌, ◌/◌, ◌%◌, Bool, true, false, not, ◌&&◌, ◌||◌, Option, none, some,
  List, [], ◌∷◌, ◌++◌, if◌then◌else◌, ltb, leb, nat_eq, ◌==◌, u64_max, Text, text, text_eq,
  contains, all, drop, length, is_empty, trim, trim_end_matches, is_digit, is_lower, is_upper,
  to_ascii_uppercase, eq_ignore_ascii_case, has_substring, strip_prefix, starts_with,
  parse_unsigned,
}
pub mod Size
pub mod Hosts
pub mod Load
pub mod Loaded
mod Tests

pub data ScaleMode : Type 0 where
  linear sqrt log : ScaleMode

pub data SizeError : Type 0 where
  invalid_size invalid_suffix overflows : SizeError

pub data ConfigError : Type 0 where
  unreadable malformed : ConfigError
  no_hosts : ConfigError
  invalid_name duplicate_name : (name : Text) → ConfigError
  empty_docker no_http_url both_endpoints no_endpoint : (name : Text) → ConfigError
  only_for_nodes empty_token zero_interval : (name : Text) → ConfigError
  invalid_mem_cap : SizeError → ConfigError
  mem_cap_too_small empty_api_token : ConfigError

pub data Result {ℓ κ} (E : Type ℓ) (A : Type κ) : Type (ℓ ⊔ κ) where
  ok : A → Result E A
  err : E → Result E A

abbrev pub pow2 : ℕ → ℕ
pow2 zero = 1
pow2 (suc k) = 2 * pow2 k

-- `u64::leading_zeros`, from the number of bits.
unfoldable pub bit_length : ℕ → ℕ → ℕ
bit_length zero v = 0
bit_length (suc fuel) v = let rest = bit_length fuel (v / 2) in if v == 0 then 0 else suc rest

unfoldable pub leading_zeros : ℕ → ℕ
unfolding bit_length
leading_zeros v = 64 - bit_length 64 v

unfoldable pub shift_of : Text → Option ℕ
shift_of unit =
    if unit == [] || unit == text "B"
    then some 0
    else if unit == text "K" || (unit == text "KB" || unit == text "KIB")
    then some 10
    else if unit == text "M" || (unit == text "MB" || unit == text "MIB")
    then some 20
    else if unit == text "G" || (unit == text "GB" || unit == text "GIB")
    then some 30
    else if unit == text "T" || (unit == text "TB" || unit == text "TIB")
    then some 40
    else none

-- The check in front of `value << shift`, which drops the bits from the 64th on.
unfoldable pub shifted : ℕ → ℕ → Result SizeError ℕ
unfolding leading_zeros
shifted value shift =
    if ltb (leading_zeros value) shift then err overflows else ok ((value * pow2 shift) % pow2 64)

abbrev pub with_unit : Option ℕ → Option ℕ → Result SizeError ℕ
with_unit none shift = err invalid_size
with_unit (some value) none = err invalid_suffix
with_unit (some value) (some shift) = shifted value shift

unfoldable pub size_digits : Text → Text
unfolding trim trim_end_matches is_digit
size_digits s = trim_end_matches (λ c. not (is_digit c)) (trim s)

unfoldable pub size_unit : Text → Text
unfolding trim size_digits to_ascii_uppercase
size_unit s = to_ascii_uppercase (trim (drop (length (size_digits s)) (trim s)))

unfoldable pub parse_size : Text → Result SizeError ℕ
unfolding size_digits size_unit shift_of shifted parse_unsigned
parse_size s = with_unit (parse_unsigned u64_max (size_digits s)) (shift_of (size_unit s))

pub record HostConfig : Type 0 where
  pub name : Text
  pub docker : Option Text
  pub dockdoe : Option Text
  pub token : Option Text
  pub node_host : Option Text
  pub public_host : Option Text
  pub interval_secs : Option ℕ
  pub tls_ca : Option Text
  pub tls_insecure : Bool

abbrev pub remote_default_interval_secs : ℕ
remote_default_interval_secs = 10

abbrev pub unwrap_or {ℓ} : {A : Type ℓ} → Option A → A → A
unwrap_or none a = a
unwrap_or (some b) a = b

abbrev pub or_else {ℓ} : {A : Type ℓ} → Option A → Option A → Option A
or_else none o = o
or_else (some a) o = some a

abbrev pub is_some {ℓ} : {A : Type ℓ} → Option A → Bool
is_some none = false
is_some (some _) = true

-- `none` is the panic of `expect`.
unfoldable pub endpoint_url : HostConfig → Option Text
endpoint_url h = or_else h.docker h.dockdoe

-- The part before "://", or all of it.
unfoldable pub scheme_of : Text → Text
scheme_of [] = []
scheme_of (c ∷ s) =
    let rest = scheme_of s in if starts_with (text "://") (c ∷ s) then [] else c ∷ rest

unfoldable pub is_local_endpoint : Text → Bool
unfolding scheme_of trim eq_ignore_ascii_case
is_local_endpoint url =
    let scheme = scheme_of (trim url) in
    eq_ignore_ascii_case scheme (text "unix") || eq_ignore_ascii_case scheme (text "npipe")

abbrev pub interval_for : ℕ → Option Text → Option ℕ
unfolding is_local_endpoint
interval_for global_default none = none
interval_for global_default (some url) =
    some (if is_local_endpoint url then global_default else remote_default_interval_secs)

unfoldable pub effective_interval_secs : HostConfig → ℕ → Option ℕ
unfolding endpoint_url is_local_endpoint
effective_interval_secs h global_default = elim h.interval_secs [
  | some secs ↦ some secs
  | none ↦ interval_for global_default (endpoint_url h)
]

unfoldable pub is_valid_slug : Text → Bool
unfolding is_digit is_lower is_upper
is_valid_slug s =
    not (is_empty s)
    && all
        (λ c. (is_digit c || (is_lower c || is_upper c)) || (c == b'.' || (c == b'_' || c == b'-')))
        s

abbrev pub is_http_url : Text → Bool
is_http_url n = starts_with (text "http://") n || starts_with (text "https://") n

unfoldable pub endpoint_error : Text → Option Text → Option Text → Option ConfigError
unfolding trim
endpoint_error name (some d) none = if is_empty (trim d) then some (empty_docker name) else none
endpoint_error name none (some n) = if is_http_url (trim n) then none else some (no_http_url name)
endpoint_error name (some _) (some _) = some (both_endpoints name)
endpoint_error name none none = some (no_endpoint name)

abbrev pub is_blank : Option Text → Bool
is_blank none = false
is_blank (some t) = is_empty (trim t)

abbrev pub is_zero : Option ℕ → Bool
is_zero none = false
is_zero (some n) = n == 0

unfoldable pub host_error : List Text → HostConfig → Option ConfigError
unfolding is_valid_slug endpoint_error
host_error seen h =
    if not (is_valid_slug h.name)
    then some (invalid_name h.name)
    else if contains seen h.name
    then some (duplicate_name h.name)
    else or_else (endpoint_error h.name h.docker h.dockdoe) (
        if not (is_some h.dockdoe) && (is_some h.token || is_some h.node_host)
        then some (only_for_nodes h.name)
        else if is_blank h.token
        then some (empty_token h.name)
        else if is_zero h.interval_secs
        then some (zero_interval h.name)
        else none)

unfoldable pub hosts_error : List Text → List HostConfig → Option ConfigError
unfolding host_error
hosts_error seen [] = none
hosts_error seen (h ∷ hs) = or_else (host_error seen h) (hosts_error (h.name ∷ seen) hs)

unfoldable pub validate_hosts : List HostConfig → Option ConfigError
unfolding hosts_error
validate_hosts [] = some no_hosts
validate_hosts (h ∷ hs) = hosts_error [] (h ∷ hs)
