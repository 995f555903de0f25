-- ===== src/Common/InOrder.antt =====
-- Lists whose earlier members stand in a relation to the later ones.
use mathlib.Core.Path.{refl, sym, subst}
use mathlib.Core.Bool.{Bool}
use mathlib.Core.Logic.{inl, inr}
use mathlib.Core.List.{List, [], ◌∷◌, ◌++◌}
use o_llm.Common.Tests.{Bool-cases}
use o_llm.Common.Lists.{filter}
use o_llm.Common.Membership.{In, All, All-In, All_intro, All-append, In-append_right, In-filter}

module _ {A : Type 0} (R : A → A → Type 0) where
  abbrev pub InOrder : List A → Type 0
  InOrder [] = Unit {0}
  InOrder (x ∷ xs) = All (R x) xs × InOrder xs

  pub InOrder-intro : (xs : List A) → ((a b : A) → In a xs → In b xs → R a b) → InOrder xs
  InOrder-intro [] h = tt
  InOrder-intro (x ∷ xs) h = (
    All_intro (R x) xs (λ b m. h x b (inl refl) (inr m)),
    InOrder-intro xs (λ a b ma mb. h a b (inr ma) (inr mb)),
  )

  pub InOrder-append :
      (xs ys : List A)
      → InOrder xs
      → InOrder ys
      → ((a b : A) → In a xs → In b ys → R a b)
      → InOrder (xs ++ ys)
  InOrder-append [] ys ox oy h = oy
  InOrder-append (x ∷ xs) ys ox oy h = (
    All-append (R x) xs ys ox.0 (All_intro (R x) ys (λ b m. h x b (inl refl) m)),
    InOrder-append xs ys ox.1 oy (λ a b ma mb. h a b (inr ma) mb),
  )

  pub InOrder-filter : (p : A → Bool) (xs : List A) → InOrder xs → InOrder (filter p xs)
  InOrder-filter p [] o = tt
  InOrder-filter p (x ∷ xs) o = elim (Bool-cases (p x)) [
    | inl e ↦ rw e (
      All_intro (R x) (filter p xs) (λ a m. All-In (R x) a xs o.0 (In-filter p a xs m).0),
      InOrder-filter p xs o.1,
    )
    | inr e ↦ rw e (InOrder-filter p xs o.1)
  ]

  -- Any member of the first part stands in the relation to any of the second.
  pub InOrder-split : (xs ys : List A) (a b : A) → InOrder (xs ++ ys) → In a xs → In b ys → R a b
  InOrder-split [] ys a b o ma mb = elim ma [ ]
  InOrder-split (x ∷ xs) ys a b o (inl e) mb =
      subst (λ z. R z b) (sym e) (All-In (R x) b (xs ++ ys) o.0 (In-append_right b xs ys mb))
  InOrder-split (x ∷ xs) ys a b o (inr m) mb = InOrder-split xs ys a b o.1 m mb
