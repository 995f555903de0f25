-- ===== src/Slots/Scans.antt =====
-- The scans over the backend's report: what they find and what they do to the registry.

use o_llm.Common.{
  ℕ, ◌≡◌, refl, sym, ap, subst, ◌∙◌, inl, inr, Bool, true, false, ◌||◌, Option, none, some, List,
  [], ◌∷◌, if◌then◌else◌, arith, Bool-cases, In,
}
use o_llm.Common.Text.{Text, text_eq_iff}
use o_llm.Common.Dict.{insert, id_eq}
use o_llm.Slots.{SlotInfo, Slots, entry_of, see, pick_free, pick_dirty, owned_slot, is_session}
use o_llm.Slots.Views.{hold_of, owner, is_dirty, Agree, see-Agree}
use o_llm.Backend.{SlotState}

-- The report says that the slot is idle.
abbrev pub IsIdle : ℕ → List SlotState → Type 0
IsIdle id arr = (s : SlotState) × In s arr × (s.id ≡ id) × (s.is_processing ≡ false)

IsIdle-later : (id : ℕ) (s : SlotState) (arr : List SlotState) → IsIdle id arr → IsIdle id (s ∷ arr)
IsIdle-later id s arr (t, i, e, f) = (t, inr i, e, f)

Agree-trans : (g h k : Slots) → Agree g h → Agree h k → Agree g k
Agree-trans g h k p q j = q j ∙ p j

-- What a scan that starts at `g` may find: nothing, or an idle slot whose dirty flag is `flag`.
abbrev Free : List SlotState → Slots → Option ℕ × Slots → Type 0
Free arr g p = Agree g p.1 × ((id : ℕ) → p.0 ≡ some id → IsIdle id arr × (is_dirty id g ≡ false))

abbrev Dirty : List SlotState → Slots → Option (ℕ × Option Text) × Slots → Type 0
Dirty arr g p =
    Agree g p.1
    × ((id : ℕ) (v : Option Text)
        → p.0 ≡ some (id, v)
        → IsIdle id arr × (is_dirty id g ≡ true) × (owner id g ≡ v))

-- A slot that is passed over, and the one where the scan stops.
module _ (s : SlotState) (arr : List SlotState) (g : Slots) where
  abbrev seen : Slots
  seen = insert s.id (see s (entry_of s.id g)) g

  later-Free : (p : Option ℕ × Slots) → Free arr seen p → Free (s ∷ arr) g p
  later-Free p (a, f) = (
    Agree-trans g seen p.1 (see-Agree s g) a,
    λ id e.
        let (i, d) = f id e in
        (IsIdle-later id s arr i, sym (ap (λ h. h.1) (see-Agree s g id)) ∙ d),
  )

  here-Free :
      s.is_processing ≡ false → (entry_of s.id g).dirty ≡ false → Free (s ∷ arr) g (some s.id, seen)
  unfolding hold_of
  here-Free p d = (
    see-Agree s g,
    λ id e. let k : s.id ≡ id = cc in ((s, inl refl, k, p), subst (λ k. is_dirty k g ≡ false) k d),
  )

  later-Dirty : (p : Option (ℕ × Option Text) × Slots) → Dirty arr seen p → Dirty (s ∷ arr) g p
  later-Dirty p (a, f) = (
    Agree-trans g seen p.1 (see-Agree s g) a,
    λ id v e.
        let (i, d, o) = f id v e in
        (
          IsIdle-later id s arr i,
          sym (ap (λ h. h.1) (see-Agree s g id)) ∙ d,
          sym (ap (λ h. h.0) (see-Agree s g id)) ∙ o,
        ),
  )

  here-Dirty :
      s.is_processing ≡ false
      → (entry_of s.id g).dirty ≡ true
      → Dirty (s ∷ arr) g (some (s.id, (entry_of s.id g).session), seen)
  unfolding hold_of
  here-Dirty p d = (
    see-Agree s g,
    λ id v e.
        let k : s.id ≡ id = cc in
        let o : (entry_of s.id g).session ≡ v = cc in
        ((s, inl refl, k, p), subst (λ k. is_dirty k g ≡ true) k d, subst (λ k. owner k g ≡ v) k o),
  )

  step-Free :
      (b c : Bool)
      → s.is_processing ≡ b
      → (entry_of s.id g).dirty ≡ c
      → (p : Option ℕ × Slots) → Free arr seen p
      → Free (s ∷ arr) g (if b || c then p else (some s.id, seen))
  step-Free true c h k p f = later-Free p f
  step-Free false true h k p f = later-Free p f
  step-Free false false h k p f = here-Free h k

  step-Dirty :
      (b c : Bool)
      → s.is_processing ≡ b
      → (entry_of s.id g).dirty ≡ c
      → (p : Option (ℕ × Option Text) × Slots) → Dirty arr seen p
      → Dirty
          (s ∷ arr)
          g
          (if b then p else (if c then (some (s.id, (entry_of s.id g).session), seen) else p))
  step-Dirty true c h k p f = later-Dirty p f
  step-Dirty false true h k p f = here-Dirty h k
  step-Dirty false false h k p f = later-Dirty p f

pub pick_free-Free : (arr : List SlotState) (g : Slots) → Free arr g (pick_free arr g)
unfolding pick_free
pick_free-Free [] g = (λ j. refl, λ id e. ground arith)
pick_free-Free (s ∷ arr) g =
    step-Free s arr g s.is_processing (entry_of s.id g).dirty refl refl
      (pick_free arr (seen s arr g)) (pick_free-Free arr (seen s arr g))

pub pick_dirty-Dirty : (arr : List SlotState) (g : Slots) → Dirty arr g (pick_dirty arr g)
unfolding pick_dirty
pick_dirty-Dirty [] g = (λ j. refl, λ id v e. ground arith)
pick_dirty-Dirty (s ∷ arr) g =
    step-Dirty s arr g s.is_processing (entry_of s.id g).dirty refl refl
      (pick_dirty arr (seen s arr g)) (pick_dirty-Dirty arr (seen s arr g))

is_session-some :
    (session : Text) (o : Option Text) → is_session session o ≡ true → o ≡ some session
unfolding is_session
is_session-some session none k = absurd cc
is_session-some session (some t) k = ap (λ x. some x) ((text_eq_iff t session).0 k)

-- The slot that `pick_slot` calls hot has an entry with the session.
pub owned_slot-In :
    (session : Text) (g : Slots) (id : ℕ)
    → owned_slot session g ≡ some id
    → (s : SlotInfo) × In (id, s) g × (s.session ≡ some session)
unfolding owned_slot
owned_slot-In session [] id e = absurd cc
owned_slot-In session ((i, s) ∷ g) id e = elim (Bool-cases (is_session session s.session)) [
  | inl t ↦ (
    s,
    inl (ap (λ k. (k, s)) (sym (some_inj (rw (t, owned_slot) at e)))),
    is_session-some session s.session t,
  )
  | inr t ↦ let (x, m, f) = owned_slot-In session g id (rw (t, owned_slot) at e) in (x, inr m, f)
]
  where
    some_inj : {a b : ℕ} → some a ≡ some b → a ≡ b
    some_inj k = cc

-- The scan looks at the dirty flags only, so registries that agree on those give the same slot.
pub pick_free-Agree :
    (arr : List SlotState) (g h : Slots) → Agree g h → (pick_free arr h).0 ≡ (pick_free arr g).0
unfolding pick_free hold_of
pick_free-Agree [] g h a = refl
pick_free-Agree (s ∷ arr) g h a =
    by_tests s.is_processing (entry_of s.id g).dirty (entry_of s.id h).dirty
      (ap (λ x. x.1) (a s.id))
      (pick_free-Agree arr (seen s arr g) (seen s arr h)
        (λ j. see-Agree s h j ∙ (a j ∙ sym (see-Agree s g j))))
  where
    by_tests :
        (b c d : Bool)
        → d ≡ c
        → (pick_free arr (seen s arr h)).0 ≡ (pick_free arr (seen s arr g)).0
        → (if b || d then pick_free arr (seen s arr h) else (some s.id, seen s arr h)).0
          ≡ (if b || c then pick_free arr (seen s arr g) else (some s.id, seen s arr g)).0
    by_tests true c d e rest = rest
    by_tests false true true e rest = rest
    by_tests false false false e rest = refl
    by_tests false true false e rest = absurd cc
    by_tests false false true e rest = absurd cc
