-- ===== src/Common/Sorting.antt =====
-- `sort_by_key`: the standard library's stable sort, as insertion from the right.
use Prim.Native.Nat.{ℕ, ◌+◌, ◌≤◌}
use mathlib.Core.Path.{◌≡◌, refl}
use mathlib.Core.Logic.{◌⊎◌, inl, inr}
use mathlib.Core.List.{List, [], ◌∷◌, Perm, map}
use mathlib.Core.List.Perm
use native.Mathlib.Omega.{arith}
use o_llm.Common.Tests.{leb, if◌then◌else◌, Bool-cases}
use o_llm.Common.Lists.{sum_by}
use o_llm.Common.Membership.{In, All}

module _ {A : Type 0} (key : A → ℕ) where
  -- Before the first element whose key is not smaller: equal keys keep their order.
  unfoldable pub insert_by : A → List A → List A
  insert_by x [] = x ∷ []
  insert_by x (y ∷ ys) = if leb (key x) (key y) then x ∷ y ∷ ys else y ∷ insert_by x ys

  unfoldable pub sort_by_key : List A → List A
  sort_by_key [] = []
  sort_by_key (x ∷ xs) = insert_by x (sort_by_key xs)

  pub insert_by-In : (a x : A) (xs : List A) → In a (insert_by x xs) → (a ≡ x) ⊎ In a xs
  unfolding insert_by
  insert_by-In a x [] m = m
  insert_by-In a x (y ∷ ys) m = ground (arith, insert_by-In a x ys)

  pub insert_by-In_intro : (a x : A) (xs : List A) → (a ≡ x) ⊎ In a xs → In a (insert_by x xs)
  unfolding insert_by
  insert_by-In_intro a x [] m = m
  insert_by-In_intro a x (y ∷ ys) m =
      ground (arith, λ (h : (a ≡ x) ⊎ In a ys). insert_by-In_intro a x ys h)

  pub sort_by_key-In : (a : A) (xs : List A) → In a (sort_by_key xs) → In a xs
  unfolding sort_by_key
  sort_by_key-In a [] m = m
  sort_by_key-In a (x ∷ xs) m = elim (insert_by-In a x (sort_by_key xs) m) [
    | inl e ↦ inl e
    | inr t ↦ inr (sort_by_key-In a xs t)
  ]

  pub sort_by_key-In_intro : (a : A) (xs : List A) → In a xs → In a (sort_by_key xs)
  unfolding sort_by_key
  sort_by_key-In_intro a [] m = m
  sort_by_key-In_intro a (x ∷ xs) (inl e) = insert_by-In_intro a x (sort_by_key xs) (inl e)
  sort_by_key-In_intro a (x ∷ xs) (inr t) =
      insert_by-In_intro a x (sort_by_key xs) (inr (sort_by_key-In_intro a xs t))

  -- Ascending keys.
  abbrev pub IsSorted : List A → Type 0
  IsSorted [] = Unit {0}
  IsSorted (x ∷ xs) = All (λ y. key x ≤ key y) xs × IsSorted xs

  insert_by-All :
      (n : ℕ) (x : A) (xs : List A)
      → n ≤ key x
      → All (λ y. n ≤ key y) xs
      → All (λ y. n ≤ key y) (insert_by x xs)
  unfolding insert_by
  insert_by-All n x [] h a = (h, tt)
  insert_by-All n x (y ∷ ys) h a = ground (arith, insert_by-All n x ys h a.1)

  All-le : (m n : ℕ) (xs : List A) → m ≤ n → All (λ y. n ≤ key y) xs → All (λ y. m ≤ key y) xs
  All-le m n [] h a = tt
  All-le m n (x ∷ xs) h a = (omega arith, All-le m n xs h a.1)

  insert_by-IsSorted : (x : A) (xs : List A) → IsSorted xs → IsSorted (insert_by x xs)
  unfolding insert_by
  insert_by-IsSorted x [] s = (tt, tt)
  insert_by-IsSorted x (y ∷ ys) s = elim (Bool-cases (leb (key x) (key y))) [
    | inl e ↦ rw e ((ground arith, All-le (key x) (key y) ys (ground arith) s.0), s)
    | inr e ↦ rw e (insert_by-All (key y) x ys (ground arith) s.0, insert_by-IsSorted x ys s.1)
  ]

  pub sort_by_key-IsSorted : (xs : List A) → IsSorted (sort_by_key xs)
  unfolding sort_by_key
  sort_by_key-IsSorted [] = tt
  sort_by_key-IsSorted (x ∷ xs) = insert_by-IsSorted x (sort_by_key xs) (sort_by_key-IsSorted xs)

  insert_by-sum : (f : A → ℕ) (x : A) (xs : List A) → sum_by f (insert_by x xs) ≡ f x + sum_by f xs
  unfolding insert_by
  insert_by-sum f x [] = refl
  insert_by-sum f x (y ∷ ys) = ground (arith, insert_by-sum f x ys)

  pub sort_by_key-sum : (f : A → ℕ) (xs : List A) → sum_by f (sort_by_key xs) ≡ sum_by f xs
  unfolding sort_by_key
  sort_by_key-sum f [] = refl
  sort_by_key-sum f (x ∷ xs) =
      omega (arith, insert_by-sum f x (sort_by_key xs), sort_by_key-sum f xs)

  insert_by-perm : (x : A) (xs : List A) → Perm (insert_by x xs) (x ∷ xs)
  unfolding insert_by
  insert_by-perm x [] = Perm.refl (x ∷ [])
  insert_by-perm x (y ∷ ys) = elim (Bool-cases (leb (key x) (key y))) [
    | inl e ↦ rw e (Perm.refl (x ∷ y ∷ ys))
    | inr e ↦ rw e (Perm.trans (Perm.cons y (insert_by-perm x ys)) (Perm.swap x y ys))
  ]

  pub sort_by_key-perm : (xs : List A) → Perm (sort_by_key xs) xs
  unfolding sort_by_key
  sort_by_key-perm [] = Perm.refl []
  sort_by_key-perm (x ∷ xs) =
      Perm.trans (insert_by-perm x (sort_by_key xs)) (Perm.cons x (sort_by_key-perm xs))

-- Sorting commutes with a map that keeps the key.
module _ {A B : Type 0} (key : A → ℕ) (key' : B → ℕ) (f : A → B)
    (same : (a : A) → key' (f a) ≡ key a) where
  insert_by-map :
      (x : A) (xs : List A) → insert_by key' (f x) (map f xs) ≡ map f (insert_by key x xs)
  unfolding insert_by
  insert_by-map x [] = refl
  insert_by-map x (y ∷ ys) = rw (same x, same y) (ground (arith, insert_by-map x ys))

  pub sort_by_key-map : (xs : List A) → sort_by_key key' (map f xs) ≡ map f (sort_by_key key xs)
  unfolding sort_by_key
  sort_by_key-map [] = refl
  sort_by_key-map (x ∷ xs) = rw (sort_by_key-map xs) (insert_by-map x (sort_by_key key xs))
