-- ===== src/Common/Membership.antt =====
-- Membership, distinctness and "for all members", by recursion on the list.
use mathlib.Core.Path.{◌≡◌, refl, sym, ap, subst, ◌∙◌}
use mathlib.Core.Logic.{◌⊎◌, inl, inr}
use mathlib.Core.Bool.{Bool, true, false}
use mathlib.Core.List.{List, [], ◌∷◌, ◌++◌, map}
use mathlib.Core.Option.{none, some}
use native.Mathlib.Omega.{arith}
use o_llm.Common.Tests.{Bool-cases}
use o_llm.Common.Lists.{find, filter, flat_map}

module _ {A : Type 0} where
  abbrev pub In : A → List A → Type 0
  In a [] = ⊥
  In a (x ∷ xs) = (a ≡ x) ⊎ In a xs

  abbrev pub Distinct : List A → Type 0
  Distinct [] = Unit
  Distinct (x ∷ xs) = (¬ In x xs) × Distinct xs

  abbrev pub All : (A → Type 0) → List A → Type 0
  All P [] = Unit
  All P (x ∷ xs) = P x × All P xs

  pub All-In : (P : A → Type 0) (a : A) (xs : List A) → All P xs → In a xs → P a
  All-In P a [] h m = elim m [ ]
  All-In P a (x ∷ xs) (p, h) (inl e) = rw e p
  All-In P a (x ∷ xs) (p, h) (inr m) = All-In P a xs h m

  pub All_intro : (P : A → Type 0) (xs : List A) → ((a : A) → In a xs → P a) → All P xs
  All_intro P [] h = tt
  All_intro P (x ∷ xs) h = (h x (inl refl), All_intro P xs (λ a m. h a (inr m)))

  pub All-append : (P : A → Type 0) (xs ys : List A) → All P xs → All P ys → All P (xs ++ ys)
  All-append P [] ys hx hy = hy
  All-append P (x ∷ xs) ys hx hy = (hx.0, All-append P xs ys hx.1 hy)

  pub In-append : (a : A) (xs ys : List A) → In a (xs ++ ys) → In a xs ⊎ In a ys
  In-append a [] ys m = inr m
  In-append a (x ∷ xs) ys (inl e) = inl (inl e)
  In-append a (x ∷ xs) ys (inr m) = elim (In-append a xs ys m) [
    | inl l ↦ inl (inr l)
    | inr r ↦ inr r
  ]

  pub In-append_left : (a : A) (xs ys : List A) → In a xs → In a (xs ++ ys)
  In-append_left a [] ys m = elim m [ ]
  In-append_left a (x ∷ xs) ys (inl e) = inl e
  In-append_left a (x ∷ xs) ys (inr m) = inr (In-append_left a xs ys m)

  pub In-append_right : (a : A) (xs ys : List A) → In a ys → In a (xs ++ ys)
  In-append_right a [] ys m = m
  In-append_right a (x ∷ xs) ys m = inr (In-append_right a xs ys m)

  -- The members of a filtered list.
  pub In-filter : (p : A → Bool) (a : A) (xs : List A) → In a (filter p xs) → In a xs × (p a ≡ true)
  In-filter p a [] m = elim m [ ]
  In-filter p a (x ∷ xs) m = elim (Bool-cases (p x)) [
    | inl hit ↦ kept hit (In-filter p a xs) (rw hit at m)
    | inr miss ↦ let r = In-filter p a xs (rw miss at m) in (inr r.0, r.1)
  ]
    where
      kept :
          p x ≡ true
          → (In a (filter p xs) → In a xs × (p a ≡ true))
          → In a (x ∷ filter p xs)
          → In a (x ∷ xs) × (p a ≡ true)
      kept hit ih (inl e) = (inl e, ap p e ∙ hit)
      kept hit ih (inr t) = let r = ih t in (inr r.0, r.1)

  pub In-filter_intro :
      (p : A → Bool) (a : A) (xs : List A) → In a xs → p a ≡ true → In a (filter p xs)
  In-filter_intro p a [] m h = elim m [ ]
  In-filter_intro p a (x ∷ xs) (inl e) h = rw (ap p (sym e) ∙ h) (inl e)
  In-filter_intro p a (x ∷ xs) (inr m) h = elim (Bool-cases (p x)) [
    | inl hit ↦ rw hit (inr (In-filter_intro p a xs m h))
    | inr miss ↦ rw miss (In-filter_intro p a xs m h)
  ]

  -- What `find` returns is a member that passes the test.
  pub find-some : (p : A → Bool) (a : A) (xs : List A) → find p xs ≡ some a → In a xs × (p a ≡ true)
  find-some p a [] h = cc
  find-some p a (x ∷ xs) h = elim (Bool-cases (p x)) [
    | inl hit ↦ let e : a ≡ x = ground arith in (inl e, ap p e ∙ hit)
    | inr miss ↦ let r = find-some p a xs (rw miss at h) in (inr r.0, r.1)
  ]

  pub find-none : (p : A → Bool) (a : A) (xs : List A) → find p xs ≡ none → In a xs → p a ≡ false
  find-none p a [] h m = elim m [ ]
  find-none p a (x ∷ xs) h (inl e) = elim (Bool-cases (p x)) [
    | inl hit ↦ ground arith
    | inr miss ↦ ap p e ∙ miss
  ]
  find-none p a (x ∷ xs) h (inr m) = elim (Bool-cases (p x)) [
    | inl hit ↦ ground arith
    | inr miss ↦ find-none p a xs (rw miss at h) m
  ]

module _ {A B : Type 0} (f : A → B) where
  pub In-map : (a : A) (xs : List A) → In a xs → In (f a) (map f xs)
  In-map a [] m = elim m [ ]
  In-map a (x ∷ xs) (inl e) = inl (ap f e)
  In-map a (x ∷ xs) (inr m) = inr (In-map a xs m)

  pub In-map_inv : (b : B) (xs : List A) → In b (map f xs) → (a : A) × In a xs × (b ≡ f a)
  In-map_inv b [] m = elim m [ ]
  In-map_inv b (x ∷ xs) (inl e) = (x, inl refl, e)
  In-map_inv b (x ∷ xs) (inr m) = let (a, i, e) = In-map_inv b xs m in (a, inr i, e)

module _ {A B : Type 0} (f : A → List B) where
  pub In-flat_map : (b : B) (xs : List A) → In b (flat_map f xs) → (a : A) × In a xs × In b (f a)
  In-flat_map b [] m = elim m [ ]
  In-flat_map b (x ∷ xs) m = elim (In-append b (f x) (flat_map f xs) m) [
    | inl h ↦ (x, inl refl, h)
    | inr t ↦ let (a, i, h) = In-flat_map b xs t in (a, inr i, h)
  ]

  pub In-flat_map_intro :
      (a : A) (b : B) (xs : List A) → In a xs → In b (f a) → In b (flat_map f xs)
  In-flat_map_intro a b [] m h = elim m [ ]
  In-flat_map_intro a b (x ∷ xs) (inl e) h =
      In-append_left b (f x) (flat_map f xs) (subst (λ z. In b (f z)) e h)
  In-flat_map_intro a b (x ∷ xs) (inr m) h =
      In-append_right b (f x) (flat_map f xs) (In-flat_map_intro a b xs m h)
