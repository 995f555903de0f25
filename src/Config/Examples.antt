-- ===== src/Config/Examples.antt =====
-- Environments, and the theorems at them.
use o_llm.Common.{◌≡◌, refl, Option, none, some, [], if◌then◌else◌}
use o_llm.Common.Text.{Text, codes, text_eq}
use o_llm.Config.{parse_u64, parse_digits, join, from_env}
use o_llm.Config.Limit.{limit_name}

abbrev only : Text → Text → Text → Option Text
only name v n = if text_eq name n then some v else none

parse_u64_examples :
    (parse_u64 (codes "+7") ≡ some 7)
    × (parse_u64 (codes "") ≡ none)
    × (parse_u64 (codes "+") ≡ none)
    × (parse_u64 (codes "-7") ≡ none)
    × (parse_u64 (codes "7 ") ≡ none)
    × (parse_u64 (codes "18446744073709551615") ≡ some 18446744073709551615)
    × (parse_u64 (codes "18446744073709551616") ≡ none)
unfolding parse_u64 parse_digits
parse_u64_examples = (refl, refl, refl, refl, refl, refl, refl)

join_examples :
    (join (codes "/home/a") (codes ".ollm/cache") ≡ codes "/home/a/.ollm/cache")
    × (join (codes "/") (codes ".ollm/cache") ≡ codes "/.ollm/cache")
unfolding join
join_examples = (refl, refl)

-- A key that is set but empty is no key.
from_env-empty_key : (from_env (only (codes "OLLM_BACKEND_API_KEY") [])).backend_api_key ≡ none
unfolding from_env
from_env-empty_key = refl

-- 20 digits that do not fit: the default is taken.
from_env-too_large :
    (from_env (only limit_name (codes "18446744073709551616"))).cache_limit_mb ≡ 51200
unfolding from_env parse_u64 parse_digits
from_env-too_large = refl
