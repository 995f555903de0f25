-- ===== src/Key/Sanitize.antt =====
-- What `sanitize` guarantees of its result.
use mathlib.Core.List.{[], ◌∷◌, map}
use o_llm.Common.{
  ℕ, zero, suc, ◌≤◌, ◌<◌, ◌≡◌, refl, ◌≢◌, true, false, inl, inr, arith, length, take, All,
  length-take, take_all, Bool-cases,
}
use o_llm.Common.Text.{Text}
use o_llm.Key.{
  is_kept, replace_char, contains_dots, replace_dots, collapse_dots, max_len, or_session, sanitize,
}

abbrev pub Kept : ℕ → Type 0
Kept c = is_kept c ≡ true

-- A safe file name component: kept characters only, no "..", 1 to 96 characters.
pub record IsSafe (s : Text) : Type 0 where
  pub kept : All Kept s
  pub single_dots : contains_dots s ≡ false
  pub bounded : length s ≤ 96
  pub nonempty : s ≢ []

replace_char-Kept : (c : ℕ) → Kept (replace_char c)
unfolding replace_char
replace_char-Kept c = ground arith

map-replace_char-Kept : (s : Text) → All Kept (map replace_char s)
map-replace_char-Kept [] = tt
map-replace_char-Kept (c ∷ s) = (replace_char-Kept c, map-replace_char-Kept s)

replace_dots-Kept : (s : Text) → All Kept s → All Kept (replace_dots s)
unfolding replace_dots
replace_dots-Kept [] k = tt
replace_dots-Kept (x ∷ []) k = k
replace_dots-Kept (x ∷ y ∷ s) k =
    ground (arith, replace_dots-Kept s k.1.1, replace_dots-Kept (y ∷ s) k.1)

-- The replacement is shorter if there was something to replace.
replace_dots-le : (s : Text) → length (replace_dots s) ≤ length s
unfolding replace_dots
replace_dots-le [] = omega arith
replace_dots-le (x ∷ []) = omega arith
replace_dots-le (x ∷ y ∷ s) = ground (arith, replace_dots-le s, replace_dots-le (y ∷ s))

replace_dots-lt : (s : Text) → contains_dots s ≡ true → length (replace_dots s) < length s
unfolding replace_dots contains_dots
replace_dots-lt [] h = cc
replace_dots-lt (x ∷ []) h = cc
replace_dots-lt (x ∷ y ∷ s) h = ground (arith, replace_dots-le s, replace_dots-lt (y ∷ s))

collapse_dots-Kept : (fuel : ℕ) (s : Text) → All Kept s → All Kept (collapse_dots fuel s)
unfolding collapse_dots
collapse_dots-Kept zero s k = k
collapse_dots-Kept (suc fuel) s k = elim (Bool-cases (contains_dots s)) [
  | inl e ↦ rw (e, collapse_dots) (collapse_dots-Kept fuel (replace_dots s) (replace_dots-Kept s k))
  | inr e ↦ rw (e, collapse_dots) k
]

-- Fuel for each character is enough: the loop ends by its test.
pub collapse_dots_total :
    (fuel : ℕ) (s : Text) → length s ≤ fuel → contains_dots (collapse_dots fuel s) ≡ false
unfolding collapse_dots
collapse_dots_total zero [] h = unfold contains_dots in refl
collapse_dots_total zero (x ∷ s) h = absurd (omega arith)
collapse_dots_total (suc fuel) s h = elim (Bool-cases (contains_dots s)) [
  | inl e ↦
      rw (e, collapse_dots)
        (collapse_dots_total fuel (replace_dots s) (omega (arith, replace_dots-lt s e)))
  | inr e ↦ rw (e, collapse_dots) e
]

collapse_dots_id : (fuel : ℕ) (s : Text) → contains_dots s ≡ false → collapse_dots fuel s ≡ s
unfolding collapse_dots
collapse_dots_id zero s h = refl
collapse_dots_id (suc fuel) s h = rw (h, collapse_dots)

take-single_dots : (n : ℕ) (s : Text) → contains_dots s ≡ false → contains_dots (take n s) ≡ false
unfolding contains_dots
take-single_dots zero s h = refl
take-single_dots (suc n) [] h = refl
take-single_dots (suc zero) (x ∷ s) h = refl
take-single_dots (suc (suc n)) (x ∷ []) h = refl
take-single_dots (suc (suc n)) (x ∷ y ∷ s) h = ground (arith, take-single_dots (suc n) (y ∷ s))

take-Kept : (n : ℕ) (s : Text) → All Kept s → All Kept (take n s)
take-Kept zero s k = tt
take-Kept (suc n) [] k = tt
take-Kept (suc n) (x ∷ s) k = (k.0, take-Kept n s k.1)

or_session-IsSafe :
    (s : Text) → All Kept s → contains_dots s ≡ false → length s ≤ 96 → IsSafe (or_session s)
or_session-IsSafe [] k d b = record {
  kept = (refl, (refl, (refl, (refl, (refl, (refl, (refl, tt)))))));
  single_dots = unfold contains_dots in refl;
  bounded = omega arith;
  nonempty = λ e. cc;
}
or_session-IsSafe (c ∷ s) k d b = record {
  kept = k;
  single_dots = d;
  bounded = b;
  nonempty = λ e. cc;
}

-- Whatever the header holds, the sanitized key is a safe file name component: letters, digits,
-- '.', '_' and '-' only, no "..", between 1 and 96 characters.
pub sanitize-IsSafe : (s : Text) → IsSafe (sanitize s)
unfolding sanitize
sanitize-IsSafe s =
    let out : Text = map replace_char s in
    let done : Text = collapse_dots (length out) out in
    or_session-IsSafe (take max_len done)
      (take-Kept max_len done (collapse_dots-Kept (length out) out (map-replace_char-Kept s)))
      (take-single_dots max_len done (collapse_dots_total (length out) out (omega arith)))
      (omega (arith, length-take max_len done))

replace_char_id : (c : ℕ) → Kept c → replace_char c ≡ c
unfolding replace_char
replace_char_id c k = rw k

map-replace_char_id : (s : Text) → All Kept s → map replace_char s ≡ s
map-replace_char_id [] k = refl
map-replace_char_id (c ∷ s) k = cc (replace_char_id c k.0, map-replace_char_id s k.1)

or_session_id : (s : Text) → s ≢ [] → or_session s ≡ s
or_session_id [] h = absurd (h refl)
or_session_id (c ∷ s) h = refl

-- A name that is already safe is kept as it is, so distinct safe headers have distinct keys.
pub sanitize_of_IsSafe : (s : Text) → IsSafe s → sanitize s ≡ s
unfolding sanitize
sanitize_of_IsSafe s v =
    rw
      (
        map-replace_char_id s v.kept,
        collapse_dots_id (length s) s v.single_dots,
        take_all max_len s v.bounded,
      )
      (or_session_id s v.nonempty)
