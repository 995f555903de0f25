-- ===== src/Slots/Distinct.antt =====
-- The registry of src/lib.rs is a map: a slot has one entry, whatever is done to it.
use o_llm.Common.{
  ℕ, ◌≡◌, refl, sym, ap, ◌∙◌, inl, inr, Bool, true, false, ◌||◌, none, some, List, [], ◌∷◌, In,
  if◌then◌else◌, nat_eq, nat_eq_iff, arith, Bool-cases, Option-cases,
}
use o_llm.Common.Text.{Text}
use o_llm.Common.Dict.{lookup, insert, lookup-insert, id_eq}
use o_llm.Backend.{SlotState}
use o_llm.Slots.{
  Slots, SlotInfo, entry_of, see, update, mark_dirty, mark_clean, claim, abandon, pick_free,
  pick_dirty,
}

-- No slot is listed twice.
abbrev pub IsMap : Slots → Type 0
IsMap [] = Unit
IsMap ((id, s) ∷ g) = (lookup id g ≡ none) × IsMap g

-- The entry that a slot is listed with is the one that is found.
pub lookup-In : (id : ℕ) (s : SlotInfo) (g : Slots) → IsMap g → In (id, s) g → lookup id g ≡ some s
unfolding lookup
lookup-In id s [] map m = absurd m
lookup-In id s ((j, t) ∷ g) (absent, map) (inl e) =
    let p : j ≡ id = ap (λ x. x.0) (sym e) in
    let q : t ≡ s = ap (λ x. x.1) (sym e) in rw ((nat_eq_iff j id).1 p) (ap (λ x. some x) q)
lookup-In id s ((j, t) ∷ g) (absent, map) (inr m) = elim (Bool-cases (nat_eq j id)) [
  | inl e ↦
      let p : j ≡ id = (nat_eq_iff j id).0 e in
      let z : none ≡ some s = sym absent ∙ (ap (λ x. lookup x g) p ∙ lookup-In id s g map m) in
      absurd cc
  | inr e ↦ rw (e) (lookup-In id s g map m)
]

nat_eq-ne : (i j : ℕ) → nat_eq j i ≡ false → nat_eq i j ≡ false
nat_eq-ne i j e = ground (arith, nat_eq_iff i j, nat_eq_iff j i)

pub insert-IsMap : (id : ℕ) (s : SlotInfo) (g : Slots) → IsMap g → IsMap (insert id s g)
unfolding insert lookup
insert-IsMap id s [] map = (refl, tt)
insert-IsMap id s ((j, t) ∷ g) (absent, map) = elim (Bool-cases (nat_eq j id)) [
  | inl e ↦ rw (e) (absent, map)
  | inr e ↦
      rw (e) (lookup-insert id j s g ∙ (rw (nat_eq-ne id j e) absent), insert-IsMap id s g map)
]

update-IsMap : (f : SlotInfo → SlotInfo) (id : ℕ) (g : Slots) → IsMap g → IsMap (update id f g)
unfolding update
update-IsMap f id g map = elim (Option-cases (lookup id g)) [
  | inl e ↦ rw (e, update) map
  | inr (s, e) ↦ rw (e, update) (insert-IsMap id (f s) g map)
]

pub mark_clean-IsMap : (id : ℕ) (g : Slots) → IsMap g → IsMap (mark_clean id g)
unfolding mark_clean
mark_clean-IsMap id g map = update-IsMap (λ s. record s { dirty = false }) id g map

pub mark_dirty-IsMap :
    (id : ℕ) (session : Text) (g : Slots) → IsMap g → IsMap (mark_dirty id session g)
unfolding mark_dirty
mark_dirty-IsMap id session g map =
    insert-IsMap id (record (entry_of id g) { session = some session; dirty = true }) g map

pub claim-IsMap : (id : ℕ) (session : Text) (g : Slots) → IsMap g → IsMap (claim id session g)
unfolding claim
claim-IsMap id session g map = update-IsMap (λ s. record s { session = some session }) id g map

pub abandon-IsMap : (id : ℕ) (g : Slots) → IsMap g → IsMap (abandon id g)
unfolding abandon
abandon-IsMap id g map = update-IsMap (λ s. record s { dirty = false; session = none }) id g map

-- Both scans only see slots.
abbrev seen : SlotState → Slots → Slots
seen s g = insert s.id (see s (entry_of s.id g)) g

seen-IsMap : (s : SlotState) (g : Slots) → IsMap g → IsMap (seen s g)
seen-IsMap s g map = insert-IsMap s.id (see s (entry_of s.id g)) g map

pub pick_free-IsMap : (arr : List SlotState) (g : Slots) → IsMap g → IsMap (pick_free arr g).1
unfolding pick_free
pick_free-IsMap [] g map = map
pick_free-IsMap (s ∷ arr) g map =
    by_test (s.is_processing || (entry_of s.id g).dirty)
      (pick_free-IsMap arr (seen s g) (seen-IsMap s g map))
  where
    by_test :
        (b : Bool)
        → IsMap (pick_free arr (seen s g)).1
        → IsMap (if b then pick_free arr (seen s g) else (some s.id, seen s g)).1
    by_test true rest = rest
    by_test false rest = seen-IsMap s g map

pub pick_dirty-IsMap : (arr : List SlotState) (g : Slots) → IsMap g → IsMap (pick_dirty arr g).1
unfolding pick_dirty
pick_dirty-IsMap [] g map = map
pick_dirty-IsMap (s ∷ arr) g map =
    by_tests s.is_processing (entry_of s.id g).dirty
      (pick_dirty-IsMap arr (seen s g) (seen-IsMap s g map))
  where
    by_tests :
        (b c : Bool)
        → IsMap (pick_dirty arr (seen s g)).1
        → IsMap
            (if b
              then pick_dirty arr (seen s g)
              else (if c
                  then (some (s.id, (entry_of s.id g).session), seen s g)
                  else pick_dirty arr (seen s g))).1
    by_tests true c rest = rest
    by_tests false true rest = seen-IsMap s g map
    by_tests false false rest = rest
