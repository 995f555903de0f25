-- ===== src/Config.antt =====
-- The configuration of src/lib.rs: `Config` and `Config::from_env`. The environment is a function
-- from a variable's name to its value, `none` if it is not set or no Unicode.
pub mod Limit
mod Examples
use o_llm.Common.{
  ℕ, zero, suc, ◌+◌, ◌-◌, ◌*◌, ◌^◌, Bool, true, false, ◌&&◌, Option, none, some, List, [], ◌∷◌,
  ◌++◌, ltb, leb, nat_eq, if◌then◌else◌, get_or,
}
use o_llm.Common.Text.{Text, codes}

pub record Config : Type 0 where
  pub backend : Text
  pub bind : Text
  pub cache_dir : Text
  pub cache_limit_mb : ℕ
  pub backend_api_key : Option Text
  pub session_header : Text

-- `char::is_ascii_digit`
abbrev pub is_digit : ℕ → Bool
is_digit c = leb b'0' c && leb c b'9'

-- The loop of `u64::from_str`, which stops at a character that is no digit and where the number
-- would not fit.
unfoldable pub parse_digits : ℕ → Text → Option ℕ
parse_digits n [] = some n
parse_digits n (c ∷ s) =
    let m = n * 10 + (c - b'0') in
    let rest = parse_digits m s in
    if is_digit c then (if ltb m (2 ^ 64) then rest else none) else none

-- A sign may stand before the digits, of which there is at least one.
unfoldable pub parse_u64 : Text → Option ℕ
parse_u64 [] = none
parse_u64 (c ∷ []) = parse_digits 0 (c ∷ [])
parse_u64 (c ∷ d ∷ s) = if nat_eq c b'+' then parse_digits 0 (d ∷ s) else parse_digits 0 (c ∷ d ∷ s)

-- `PathBuf::from(home).join(path)` for a relative path.
unfoldable pub join : Text → Text → Text
join [] path = path
join (c ∷ []) path = if nat_eq c b'/' then c ∷ path else c ∷ b'/' ∷ path
join (c ∷ d ∷ home) path = c ∷ join (d ∷ home) path

abbrev and_parse : Option Text → Option ℕ
and_parse none = none
and_parse (some v) = parse_u64 v

-- `.filter(|s| !s.is_empty())`
abbrev not_empty : Option Text → Option Text
not_empty none = none
not_empty (some []) = none
not_empty (some (c ∷ s)) = some (c ∷ s)

module _ (var : Text → Option Text) where
  unfoldable pub from_env : Config
  from_env =
      let home = get_or (var (codes "HOME")) (codes "/tmp") in
      record {
        backend = get_or (var (codes "OLLM_BACKEND_URL")) (codes "http://127.0.0.1:1245");
        bind = get_or (var (codes "OLLM_BIND")) (codes "0.0.0.0:1247");
        cache_dir = get_or (var (codes "OLLM_CACHE_DIR")) (join home (codes ".ollm/cache"));
        cache_limit_mb = get_or (and_parse (var (codes "OLLM_CACHE_LIMIT_MB"))) 51200;
        backend_api_key = not_empty (var (codes "OLLM_BACKEND_API_KEY"));
        session_header = get_or (var (codes "OLLM_SESSION_HEADER")) (codes "x-session-id");
      }
