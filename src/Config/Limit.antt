-- ===== src/Config/Limit.antt =====
-- How `from_env` of src/lib.rs reads `OLLM_CACHE_LIMIT_MB`: the number that digits stand for, as a
-- reference, beside the reading that stops where the number does not fit in a `u64`.
use o_llm.Common.{
  ℕ, zero, suc, ◌+◌, ◌-◌, ◌*◌, ◌/◌, ◌%◌, ◌^◌, ◌≤◌, ◌<◌, ◌≡◌, ◌∙◌, ap, refl, arith, inl, inr, Bool,
  true, ◌&&◌, Option, none, some, [], ◌∷◌, Bool-cases, ltb, ltb→lt, if◌then◌else◌, get_or,
}
use o_llm.Common.Text.{Text, codes}
use o_llm.Backend.Llama.{decimal_from}
use o_llm.Config.{is_digit, parse_digits, parse_u64, from_env}

abbrev pub all_digits : Text → Bool
all_digits [] = true
all_digits (c ∷ s) = is_digit c && all_digits s

-- The number that digits stand for after those of `n`, of any size.
unfoldable pub value_from : ℕ → Text → ℕ
value_from n [] = n
value_from n (c ∷ s) = value_from (n * 10 + (c - b'0')) s

-- The same if it fits.
abbrev pub if_fits : ℕ → Option ℕ
if_fits n = if ltb n (2 ^ 64) then some n else none

le-value_from : (n : ℕ) (s : Text) → n ≤ value_from n s
unfolding value_from
le-value_from n [] = omega arith
le-value_from n (c ∷ s) = omega (arith, le-value_from (n * 10 + (c - b'0')) s)

parse_digits_lem :
    (n : ℕ) (s : Text)
    → n < 2 ^ 64
    → all_digits s ≡ true
    → parse_digits n s ≡ if_fits (value_from n s)
unfolding parse_digits value_from
parse_digits_lem n [] h d = ground arith
parse_digits_lem n (c ∷ s) h d = elim (Bool-cases (ltb (n * 10 + (c - b'0')) (2 ^ 64))) [
  | inl e ↦ ground (arith, parse_digits_lem (n * 10 + (c - b'0')) s)
  | inr e ↦ ground (arith, le-value_from (n * 10 + (c - b'0')) s)
]

parse_u64_lem :
    (c : ℕ) (s : Text)
    → all_digits (c ∷ s) ≡ true
    → parse_u64 (c ∷ s) ≡ if_fits (value_from 0 (c ∷ s))
unfolding parse_u64
parse_u64_lem c [] d = parse_digits_lem 0 (c ∷ []) (omega arith) d
parse_u64_lem c (b ∷ s) d = ground (arith, parse_digits_lem 0 (c ∷ b ∷ s) (omega arith) d)

abbrev pub limit_name : Text
limit_name = codes "OLLM_CACHE_LIMIT_MB"

-- A limit that is written with digits only is the configured limit if it is below 2^64, and
-- otherwise the default of 51200 MB is taken.
pub from_env-digits :
    (var : Text → Option Text) (c : ℕ) (s : Text)
    → var limit_name ≡ some (c ∷ s)
    → all_digits (c ∷ s) ≡ true
    → (from_env var).cache_limit_mb ≡ get_or (if_fits (value_from 0 (c ∷ s))) 51200
unfolding from_env
from_env-digits var c s h d = ground (arith, h, parse_u64_lem c s)

-- The digits of a number are digits, and stand for it.
decimal_from-cons :
    (fuel n : ℕ) (tail : Text)
    → all_digits tail ≡ true
    → n < 10 ^ suc fuel
    → (c : ℕ) × (s : Text) × (decimal_from (suc fuel) n tail ≡ c ∷ s)
      × (all_digits (c ∷ s) ≡ true)
      × (value_from 0 (c ∷ s) ≡ value_from n tail)
unfolding decimal_from value_from
decimal_from-cons zero n tail d h =
    (b'0' + n % 10, tail, ground arith, ground arith, ap (λ m. value_from m tail) (omega arith))
decimal_from-cons (suc fuel) n tail d h = elim (Bool-cases (ltb n 10)) [
  | inl e ↦ (
    b'0' + n % 10,
    tail,
    ground arith,
    ground arith,
    ap (λ m. value_from m tail) (omega (arith, ltb→lt n 10 e)),
  )
  | inr e ↦
      let (c, s, p, q, r) =
        decimal_from-cons fuel (n / 10) ((b'0' + n % 10) ∷ tail) (ground arith) (omega arith) in
      (c, s, ground arith, q, r ∙ ap (λ m. value_from m tail) (omega arith))
]

-- If OLLM_CACHE_LIMIT_MB holds a number below 2^64 in decimal digits, that number is the
-- configured limit.
pub from_env-decimal :
    (var : Text → Option Text) (n : ℕ)
    → n < 2 ^ 64
    → var limit_name ≡ some (decimal_from 20 n [])
    → (from_env var).cache_limit_mb ≡ n
unfolding value_from
from_env-decimal var n h e =
    let (c, s, p, q, r) = decimal_from-cons 19 n [] refl (omega arith) in
    ground (arith, from_env-digits var c s)
