-- ===== src/Common/NoRepeat.antt =====
-- Lists without repetition: built by filter, sort, map and concatenation, and their sums.
use Prim.Native.Nat.{ℕ, ◌≤◌}
use mathlib.Core.Path.{◌≡◌, refl, sym, ap, subst}
use mathlib.Core.Logic.{inl, inr, ◌≢◌}
use mathlib.Core.Bool.{Bool}
use mathlib.Core.List.{List, [], ◌∷◌, ◌++◌, map}
use native.Mathlib.Omega.{arith}
use o_llm.Common.Tests.{leb, Bool-cases}
use o_llm.Common.Lists.{filter, flat_map, sum_by, sum_by-append}
use o_llm.Common.Membership.{
  In, Distinct, In-append, In-append_left, In-append_right, In-filter, In-map_inv, In-flat_map,
}
use o_llm.Common.Sorting.{insert_by, sort_by_key, insert_by-In, sort_by_key-In}

module _ {A : Type 0} where
  pub Distinct-append :
      (xs ys : List A)
      → Distinct xs
      → Distinct ys
      → ((a : A) → In a xs → In a ys → ⊥)
      → Distinct (xs ++ ys)
  Distinct-append [] ys dx dy h = dy
  Distinct-append (x ∷ xs) ys dx dy h = (
    λ m. elim (In-append x xs ys m) [ inl l ↦ dx.0 l | inr r ↦ h x (inl refl) r ],
    Distinct-append xs ys dx.1 dy (λ a mx my. h a (inr mx) my),
  )

  pub Distinct-of_append : (xs ys : List A) → Distinct (xs ++ ys) → Distinct xs
  Distinct-of_append [] ys d = tt
  Distinct-of_append (x ∷ xs) ys d =
      ((λ m. d.0 (In-append_left x xs ys m)), Distinct-of_append xs ys d.1)

  pub Distinct-filter : (p : A → Bool) (xs : List A) → Distinct xs → Distinct (filter p xs)
  Distinct-filter p [] d = tt
  Distinct-filter p (x ∷ xs) d = elim (Bool-cases (p x)) [
    | inl e ↦ rw e ((λ m. d.0 (In-filter p x xs m).0), Distinct-filter p xs d.1)
    | inr e ↦ rw e (Distinct-filter p xs d.1)
  ]

  Distinct-insert_by :
      (key : A → ℕ) (x : A) (xs : List A)
      → (¬ In x xs)
      → Distinct xs
      → Distinct (insert_by key x xs)
  unfolding insert_by
  Distinct-insert_by key x [] n d = ((λ m. m), tt)
  Distinct-insert_by key x (y ∷ ys) n d = elim (Bool-cases (leb (key x) (key y))) [
    | inl e ↦ rw e (n, d)
    | inr e ↦ rw e (
      λ m. elim (insert_by-In key y x ys m) [ inl h ↦ n (inl (sym h)) | inr t ↦ d.0 t ],
      Distinct-insert_by key x ys (λ m. n (inr m)) d.1,
    )
  ]

  pub Distinct-sort_by_key :
      (key : A → ℕ) (xs : List A) → Distinct xs → Distinct (sort_by_key key xs)
  unfolding sort_by_key
  Distinct-sort_by_key key [] d = tt
  Distinct-sort_by_key key (x ∷ xs) d =
      Distinct-insert_by key x (sort_by_key key xs) (λ m. d.0 (sort_by_key-In key x xs m))
        (Distinct-sort_by_key key xs d.1)

  split_In : (x : A) (ys : List A) → In x ys → (l r : List A) × (ys ≡ l ++ (x ∷ r))
  split_In x [] m = elim m [ ]
  split_In x (y ∷ ys) (inl e) = ([], ys, ap (λ z. z ∷ ys) (sym e))
  split_In x (y ∷ ys) (inr m) = let (l, r, e) = split_In x ys m in (y ∷ l, r, ap (◌∷◌ y) e)

  In-middle : (a x : A) (l r : List A) → a ≢ x → In a (l ++ (x ∷ r)) → In a (l ++ r)
  In-middle a x l r n m = elim (In-append a l (x ∷ r) m) [
    | inl h ↦ In-append_left a l r h
    | inr h ↦ elim h [ inl e ↦ absurd (n e) | inr t ↦ In-append_right a l r t ]
  ]

  -- Distinct members of a list weigh no more than the list.
  pub sum_by-le :
      (f : A → ℕ) (xs ys : List A)
      → Distinct xs
      → ((a : A) → In a xs → In a ys)
      → sum_by f xs ≤ sum_by f ys
  sum_by-le f [] ys d h = omega arith
  sum_by-le f (x ∷ xs) ys d h =
      let (l, r, e) = split_In x ys (h x (inl refl)) in
      let ih = sum_by-le f xs (l ++ r) d.1 (λ a m.
        In-middle a x l r (λ q. d.0 (subst (λ z. In z xs) q m)) (subst (In a) e (h a (inr m)))) in
      omega (arith, ih, ap (sum_by f) e, sum_by-append f l (x ∷ r), sum_by-append f l r)

module _ {A B : Type 0} where
  pub Distinct-map :
      (f : A → B) (xs : List A)
      → ((a b : A) → In a xs → In b xs → f a ≡ f b → a ≡ b)
      → Distinct xs
      → Distinct (map f xs)
  Distinct-map f [] inj d = tt
  Distinct-map f (x ∷ xs) inj d = (
    λ m.
        let (a, i, e) = In-map_inv f (f x) xs m in
        d.0 (subst (λ z. In z xs) (sym (inj x a (inl refl) (inr i) e)) i),
    Distinct-map f xs (λ a b ma mb. inj a b (inr ma) (inr mb)) d.1,
  )

  -- A list whose image is distinct is distinct.
  pub Distinct-of_map : (f : A → B) (xs : List A) → Distinct (map f xs) → Distinct xs
  Distinct-of_map f [] d = tt
  Distinct-of_map f (x ∷ xs) d = (λ m. d.0 (In_map_self x xs m), Distinct-of_map f xs d.1)
    where
      In_map_self : (a : A) (ys : List A) → In a ys → In (f a) (map f ys)
      In_map_self a [] m = elim m [ ]
      In_map_self a (y ∷ ys) (inl e) = inl (ap f e)
      In_map_self a (y ∷ ys) (inr m) = inr (In_map_self a ys m)

  pub Distinct-flat_map :
      (f : A → List B) (xs : List A)
      → Distinct xs
      → ((a : A) → In a xs → Distinct (f a))
      → ((a b : A) (y : B) → In a xs → In b xs → In y (f a) → In y (f b) → a ≡ b)
      → Distinct (flat_map f xs)
  Distinct-flat_map f [] d df own = tt
  Distinct-flat_map f (x ∷ xs) d df own =
      Distinct-append (f x) (flat_map f xs) (df x (inl refl))
        (Distinct-flat_map f xs d.1 (λ a m. df a (inr m))
          (λ a b y ma mb. own a b y (inr ma) (inr mb)))
        (λ y hx ht.
          let (a, i, h) = In-flat_map f y xs ht in
          d.0 (subst (λ z. In z xs) (sym (own x a y (inl refl) (inr i) hx h)) i))
