-- ===== src/Slots/Views.antt =====
-- What the registry says of a slot, its session and whether it is dirty, and how each operation
-- on an entry changes that.

use o_llm.Common.{
  ℕ, ◌≢◌, ◌≡◌, refl, sym, ap, ◌∙◌, ◌⊎◌, inl, inr, Bool, true, false, Option, none, some,
  if◌then◌else◌, nat_eq, nat_eq_iff, Option-cases, Bool-cases, get_or,
}
use o_llm.Common.Text.{Text}
use o_llm.Common.Dict.{lookup, insert, lookup-insert, id_eq}
use o_llm.Slots.{
  SlotInfo, Slots, fresh, entry_of, see, mark_dirty, mark_clean, claim, abandon, update,
}
use o_llm.Backend.{SlotState}

-- The session and the dirty flag of a slot: what no scan may change.
abbrev pub hold : SlotInfo → Option Text × Bool
hold s = (s.session, s.dirty)

unfoldable pub hold_of : ℕ → Slots → Option Text × Bool
hold_of id g = hold (entry_of id g)

abbrev pub owner : ℕ → Slots → Option Text
owner id g = (hold_of id g).0

abbrev pub is_dirty : ℕ → Slots → Bool
is_dirty id g = (hold_of id g).1

-- Two registries that say the same of every slot.
abbrev pub Agree : Slots → Slots → Type 0
Agree g g' = (j : ℕ) → hold_of j g' ≡ hold_of j g

pub hold_of-insert :
    (i j : ℕ) (s : SlotInfo) (g : Slots)
    → hold_of j (insert i s g) ≡ (if nat_eq i j then hold s else hold_of j g)
unfolding hold_of entry_of
hold_of-insert i j s g = rw (lookup-insert i j s g) (by_test (Bool-cases (nat_eq i j)))
  where
    by_test :
        (nat_eq i j ≡ true) ⊎ (nat_eq i j ≡ false)
        → hold (get_or (if nat_eq i j then some s else lookup j g) fresh)
          ≡ (if nat_eq i j then hold s else hold (get_or (lookup j g) fresh))
    by_test (inl e) = rw (e) refl
    by_test (inr e) = rw (e) refl

pub see-Agree : (s : SlotState) (g : Slots) → Agree g (insert s.id (see s (entry_of s.id g)) g)
unfolding hold_of
see-Agree s g j =
    hold_of-insert s.id j (see s (entry_of s.id g)) g ∙ by_test (Bool-cases (nat_eq s.id j))
  where
    by_test :
        (nat_eq s.id j ≡ true) ⊎ (nat_eq s.id j ≡ false)
        → (if nat_eq s.id j then hold (entry_of s.id g) else hold_of j g) ≡ hold_of j g
    by_test (inl e) = rw (e) (ap (λ k. hold_of k g) ((nat_eq_iff s.id j).0 e))
    by_test (inr e) = rw (e) refl

pub hold_of-mark_dirty :
    (id j : ℕ) (session : Text) (g : Slots)
    → hold_of j (mark_dirty id session g)
      ≡ (if nat_eq id j then (some session, true) else hold_of j g)
unfolding mark_dirty
hold_of-mark_dirty id j session g =
    hold_of-insert id j (record (entry_of id g) { session = some session; dirty = true }) g

update-missing :
    (f : SlotInfo → SlotInfo) (id : ℕ) (g : Slots) → lookup id g ≡ none → update id f g ≡ g
unfolding update
update-missing f id g e = rw (e, update) refl

update-present :
    (f : SlotInfo → SlotInfo) (id : ℕ) (s : SlotInfo) (g : Slots)
    → lookup id g ≡ some s
    → update id f g ≡ insert id (f s) g
unfolding update
update-present f id s g e = rw (e, update) refl

-- `get_mut` leaves every other entry alone.
hold_of-update :
    (f : SlotInfo → SlotInfo) (id j : ℕ) (g : Slots)
    → nat_eq id j ≡ false
    → hold_of j (update id f g) ≡ hold_of j g
hold_of-update f id j g n = elim (Option-cases (lookup id g)) [
  | inl e ↦ ap (λ h. hold_of j h) (update-missing f id g e)
  | inr (s, e) ↦
      ap (λ h. hold_of j h) (update-present f id s g e)
      ∙ (hold_of-insert id j (f s) g ∙ rw (n) refl)
]

hold_of-missing : (id : ℕ) (g : Slots) → lookup id g ≡ none → hold_of id g ≡ (none, false)
unfolding hold_of entry_of
hold_of-missing id g e = rw (e, entry_of) refl

-- Of the entry itself it is as the change leaves it, or as of no entry.
pub update-itself :
    (f : SlotInfo → SlotInfo) (id : ℕ) (g : Slots)
    → (hold_of id (update id f g) ≡ (none, false))
      ⊎ ((s : SlotInfo) × (hold_of id (update id f g) ≡ hold (f s)))
update-itself f id g = elim (Option-cases (lookup id g)) [
  | inl e ↦ inl (ap (λ h. hold_of id h) (update-missing f id g e) ∙ hold_of-missing id g e)
  | inr (s, e) ↦ inr (
    s,
    ap (λ h. hold_of id h) (update-present f id s g e)
        ∙ (hold_of-insert id id (f s) g ∙ rw ((nat_eq_iff id id).1 refl) refl),
  )
]

pub mark_clean-other :
    (id j : ℕ) (g : Slots) → nat_eq id j ≡ false → hold_of j (mark_clean id g) ≡ hold_of j g
unfolding mark_clean
mark_clean-other id j g n = hold_of-update (λ s. record s { dirty = false }) id j g n

pub mark_clean-cleans : (id : ℕ) (g : Slots) → is_dirty id (mark_clean id g) ≡ false
unfolding mark_clean
mark_clean-cleans id g = elim (update-itself (λ s. record s { dirty = false }) id g) [
  | inl e ↦ ap (λ h. h.1) e
  | inr (s, e) ↦ ap (λ h. h.1) e
]

pub claim-other :
    (id j : ℕ) (session : Text) (g : Slots)
    → nat_eq id j ≡ false
    → hold_of j (claim id session g) ≡ hold_of j g
unfolding claim
claim-other id j session g n = hold_of-update (λ s. record s { session = some session }) id j g n

pub abandon-other :
    (id j : ℕ) (g : Slots) → nat_eq id j ≡ false → hold_of j (abandon id g) ≡ hold_of j g
unfolding abandon
abandon-other id j g n = hold_of-update (λ s. record s { dirty = false; session = none }) id j g n

-- Nobody owns an abandoned slot, and it is clean.
pub hold_of-abandon : (id : ℕ) (g : Slots) → hold_of id (abandon id g) ≡ (none, false)
unfolding abandon
hold_of-abandon id g = elim (update-itself (λ s. record s { dirty = false; session = none }) id g) [
  | inl e ↦ e
  | inr (s, e) ↦ e
]

-- What `get_mut` does to the entry of a slot that somebody owns.
update-owned :
    (f : SlotInfo → SlotInfo) (id : ℕ) (session : Text) (b : Bool) (g : Slots)
    → hold_of id g ≡ (some session, b)
    → (s : SlotInfo) × (hold s ≡ (some session, b)) × (hold_of id (update id f g) ≡ hold (f s))
unfolding hold_of entry_of
update-owned f id session b g h = elim (Option-cases (lookup id g)) [
  | inl e ↦ absurd (
      let z : (none, false) ≡ (some session, b) = sym (hold_of-missing id g e) ∙ h in
      none-ne (ap (λ x. x.0) z))
  | inr (s, e) ↦
      let k : hold_of id g ≡ hold s = ap (λ o. hold (get_or o fresh)) e in
      (
        s,
        sym k ∙ h,
        ap (λ g'. hold_of id g') (update-present f id s g e)
            ∙ (hold_of-insert id id (f s) g ∙ rw ((nat_eq_iff id id).1 refl) refl),
      )
]
  where
    none-ne : none ≢ some session
    none-ne z = cc

pub claim-owned :
    (id : ℕ) (session : Text) (b : Bool) (g : Slots)
    → hold_of id g ≡ (some session, b)
    → hold_of id (claim id session g) ≡ (some session, b)
unfolding claim
claim-owned id session b g h =
    let (s, k, e) = update-owned (λ s. record s { session = some session }) id session b g h in
    e ∙ ap (λ x. (some session, x.1)) k

pub mark_clean-owned :
    (id : ℕ) (session : Text) (b : Bool) (g : Slots)
    → hold_of id g ≡ (some session, b)
    → hold_of id (mark_clean id g) ≡ (some session, false)
unfolding mark_clean
mark_clean-owned id session b g h =
    let (s, k, e) = update-owned (λ s. record s { dirty = false }) id session b g h in
    e ∙ ap (λ x. (x.0, false)) k
