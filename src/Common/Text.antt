-- ===== src/Common/Text.antt =====
-- Texts as lists of code points (bytes, where the text is ASCII), with the tests of Rust's `str`
-- that the program uses.
use Prim.Native.Char.{code}
use Prim.Native.String.{String}
use mathlib.Core.List.{reverse, reverse-append}
use mathlib.Core.Path.{◌≡◌, refl, sym, ap, ◌∙◌}
use mathlib.Core.Logic.{◌↔◌, ◌⊎◌, inl, inr, ◌≢◌}
use mathlib.Core.Bool.{Bool, true, false, ◌&&◌}
use mathlib.Core.Option.{Option, none, some}
use mathlib.Core.Option
use mathlib.Core.List.{List, [], ◌∷◌, ◌++◌}
use Prim.Native.Nat.{ℕ}
use native.Mathlib.Omega.{arith}
use o_llm.Common.Tests.{nat_eq, if◌then◌else◌, Bool-cases, Option-cases}
use o_llm.Common.Lists.{length, length-append}

abbrev pub Text : Type 0
Text = List ℕ

abbrev pub codes : String → Text
codes String.[] = []
codes (String.◌∷◌ c s) = code c ∷ codes s

abbrev pub text_eq : Text → Text → Bool
text_eq [] [] = true
text_eq (x ∷ xs) (y ∷ ys) = nat_eq x y && text_eq xs ys
text_eq _ _ = false

pub text_eq→eq : (s t : Text) → text_eq s t ≡ true → s ≡ t
text_eq→eq [] [] h = refl
text_eq→eq [] (y ∷ ys) h = cc
text_eq→eq (x ∷ xs) [] h = cc
text_eq→eq (x ∷ xs) (y ∷ ys) h = ground (arith, text_eq→eq xs ys)

pub text_eq_refl : (s : Text) → text_eq s s ≡ true
text_eq_refl [] = refl
text_eq_refl (x ∷ xs) = ground (arith, text_eq_refl xs)

pub text_eq_iff : (s t : Text) → (text_eq s t ≡ true) ↔ (s ≡ t)
text_eq_iff s t = (text_eq→eq s t, λ e. rw e (text_eq_refl t))

pub text_eq_of_ne : (s t : Text) → s ≢ t → text_eq s t ≡ false
text_eq_of_ne s t h = ground (arith, text_eq_iff s t)

-- `strip_suffix`: what stands before the suffix, if the text ends in it.
unfoldable pub strip_suffix : Text → Text → Option Text
strip_suffix [] suffix = if text_eq [] suffix then some [] else none
strip_suffix (c ∷ s) suffix =
    if text_eq (c ∷ s) suffix then some [] else Option.map (λ b. c ∷ b) (strip_suffix s suffix)

-- `ends_with`
unfoldable pub ends_with : Text → Text → Bool
ends_with [] suffix = text_eq [] suffix
ends_with (c ∷ s) suffix = if text_eq (c ∷ s) suffix then true else ends_with s suffix

length-cons-ne : (c : ℕ) (b s : Text) → c ∷ (b ++ s) ≢ s
length-cons-ne c b s e = omega (arith, ap length e, length-append {0} b s)

pub strip_suffix-append : (b suffix : Text) → strip_suffix (b ++ suffix) suffix ≡ some b
unfolding strip_suffix
strip_suffix-append [] [] = refl
strip_suffix-append [] (c ∷ s) = rw (text_eq_refl (c ∷ s))
strip_suffix-append (c ∷ b) s =
    rw (text_eq_of_ne (c ∷ (b ++ s)) s (length-cons-ne c b s), strip_suffix-append b s)

pub strip_suffix-eq_some : (t suffix b : Text) → strip_suffix t suffix ≡ some b → t ≡ b ++ suffix
unfolding strip_suffix
strip_suffix-eq_some [] s b h = elim (Bool-cases (text_eq [] s)) [
  | inl e ↦ ground (arith, text_eq_iff [] s)
  | inr e ↦ ground arith
]
strip_suffix-eq_some (c ∷ t) s b h = elim (Bool-cases (text_eq (c ∷ t) s)) [
  | inl e ↦ ground (arith, text_eq_iff (c ∷ t) s)
  | inr e ↦ elim (Option-cases (strip_suffix t s)) [
    | inl n ↦ ground arith
    | inr (r, n) ↦ ground (arith, strip_suffix-eq_some t s r)
  ]
]

pub ends_with_iff_strip :
    (t suffix : Text)
    → ((ends_with t suffix ≡ true) × ((b : Text) × (strip_suffix t suffix ≡ some b)))
      ⊎ ((ends_with t suffix ≡ false) × (strip_suffix t suffix ≡ none))
unfolding ends_with strip_suffix
ends_with_iff_strip [] s = elim (Bool-cases (text_eq [] s)) [
  | inl e ↦ rw e (inl (refl, ([], refl)))
  | inr e ↦ rw e (inr (refl, refl))
]
ends_with_iff_strip (c ∷ t) s = elim (Bool-cases (text_eq (c ∷ t) s)) [
  | inl e ↦ rw e (inl (refl, ([], refl)))
  | inr e ↦ elim (ends_with_iff_strip t s) [
    | inl (h, (b, k)) ↦ rw (e, h, k) (inl (refl, (c ∷ b, refl)))
    | inr (h, k) ↦ rw (e, h, k) (inr (refl, refl))
  ]
]

pub ends_with-append : (b suffix : Text) → ends_with (b ++ suffix) suffix ≡ true
ends_with-append b s = elim (ends_with_iff_strip (b ++ s) s) [
  | inl (h, k) ↦ h
  | inr (h, k) ↦ ground (arith, strip_suffix-append b s)
]

pub ends_with_inv : (t suffix : Text) → ends_with t suffix ≡ true → (b : Text) × (t ≡ b ++ suffix)
ends_with_inv t s e = elim (ends_with_iff_strip t s) [
  | inl (h, (b, k)) ↦ (b, strip_suffix-eq_some t s b k)
  | inr (h, k) ↦ absurd (ground arith)
]

-- Two texts with different last characters are different.
pub last-ne : (a b : Text) {x y : ℕ} → x ≢ y → a ++ (x ∷ []) ≢ b ++ (y ∷ [])
last-ne a b {x} {y} h e =
    h (ground (arith, sym (reverse-append a (x ∷ [])) ∙ (ap reverse e ∙ reverse-append b (y ∷ []))))
