-- ===== src/Slots.antt =====
-- The slot registry of src/lib.rs: `SlotInfo`, the map `App::slots`, and what `pick_slot`,
-- `find_evictable`, `mark_dirty`, `mark_clean` and the end of a turn do to it. The map is an
-- association list: the order in which a `HashMap` is walked is unknown, so nothing is assumed of
-- the order of the list.
pub mod Views
pub mod Scans
pub mod Distinct
pub mod Owned
use mathlib.Core.Option
use o_llm.Common.{
  ℕ, Bool, true, false, ◌||◌, Option, none, some, List, [], ◌∷◌, if◌then◌else◌, get_or,
}
use o_llm.Common.Text.{Text, text_eq}
use o_llm.Common.Dict.{Dict, lookup, insert, id_eq}
use o_llm.Backend.{SlotState}

pub record SlotInfo : Type 0 where
  pub session : Option Text
  pub dirty : Bool
  pub busy : Bool

abbrev pub Slots : Type 0
Slots = Dict ℕ SlotInfo

-- What `or_insert` puts in for a slot that is not in the map.
abbrev pub fresh : SlotInfo
fresh = record { session = none; dirty = false; busy = false }

unfoldable pub entry_of : ℕ → Slots → SlotInfo
entry_of id g = get_or (lookup id g) fresh

-- `e.busy = s.is_processing`
abbrev pub see : SlotState → SlotInfo → SlotInfo
see s e = record e { busy = s.is_processing }

-- `s.session.as_deref() == Some(session)`
unfoldable pub is_session : Text → Option Text → Bool
is_session session none = false
is_session session (some t) = text_eq t session

-- The slot that the session owns already.
unfoldable pub owned_slot : Text → Slots → Option ℕ
owned_slot session [] = none
owned_slot session ((id, s) ∷ g) =
    let rest = owned_slot session g in if is_session session s.session then some id else rest

-- The loop of `pick_slot` over the backend's report.
unfoldable pub pick_free : List SlotState → Slots → Option ℕ × Slots
pick_free [] g = (none, g)
pick_free (s ∷ arr) g =
    let e = see s (entry_of s.id g) in
    let rest = pick_free arr (insert s.id e g) in
    if s.is_processing || e.dirty then rest else (some s.id, insert s.id e g)

-- The loop of `find_evictable`.
unfoldable pub pick_dirty : List SlotState → Slots → Option (ℕ × Option Text) × Slots
pick_dirty [] g = (none, g)
pick_dirty (s ∷ arr) g =
    let e = see s (entry_of s.id g) in
    let rest = pick_dirty arr (insert s.id e g) in
    if s.is_processing
    then rest
    else (if e.dirty then (some (s.id, e.session), insert s.id e g) else rest)

unfoldable pub mark_dirty : ℕ → Text → Slots → Slots
mark_dirty id session g =
    insert id (record (entry_of id g) { session = some session; dirty = true }) g

-- `if let Some(s) = g.get_mut(&id)`
unfoldable pub update : ℕ → (SlotInfo → SlotInfo) → Slots → Slots
update id f g = elim (lookup id g) [ none ↦ g | some s ↦ insert id (f s) g ]

unfoldable pub mark_clean : ℕ → Slots → Slots
mark_clean id g = update id (λ s. record s { dirty = false }) g

-- The end of a turn that ran through, before its save, and of one that the client left.
unfoldable pub claim : ℕ → Text → Slots → Slots
claim id session g = update id (λ s. record s { session = some session }) g

unfoldable pub abandon : ℕ → Slots → Slots
abandon id g = update id (λ s. record s { dirty = false; session = none }) g
