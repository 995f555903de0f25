-- ===== src/Seed.antt =====
-- Seed on first sight: src/seed.rs. `prepare` is one admission of one request; the sections
-- between the locks of the bag follow one another without another task between them.
pub mod Memory
pub mod Trace
pub mod Protocol
pub mod Bag
pub mod Names
pub mod Roundtrip
pub mod Overlap
pub mod Single
pub mod Cached
pub mod Order
pub mod Pair
pub mod Twice
mod Examples
mod OverlapTests
use mathlib.Core.Option
use o_llm.Common.{
  ℕ, ◌+◌, Bool, true, false, not, ◌&&◌, Option, none, some, List, [], ◌∷◌, ◌++◌, Result, ok, err,
  is_ok, ltb, if◌then◌else◌, filter, flat_map,
}
use o_llm.Common.Text.{Text, codes}
use o_llm.Common.Dict.{Dict, lookup, insert, name_eq}
use o_llm.Json.{Json}
use o_llm.Key.{hex, slice_to, is_system, messages_of}
use o_llm.Backend.{SlotState, Backend, find_slot}

pub data BagState : Type 0 where
  uncached cached failed : BagState

pub record BagEntry (V : Type 0) : Type 0 where
  pub system : V
  pub state : BagState

abbrev pub Bag : Type 0 → Type 0
Bag V = Dict Text (BagEntry V)

-- The trait `Publisher`.
pub record Publisher (W : Type 0) : Type 0 where
  pub publish : Text → Text → W → Result (Unit {0}) Text × W

pub data SeedResult : Type 0 where
  restored cold_prefill seeded failure skipped : SeedResult

-- The bag of the orchestrator, and the world that its two seams act on.
pub record Dance (W V : Type 0) : Type 0 where
  pub bag : Bag V
  pub world : W

-- `hex16`; `none` is a panic of the slice.
unfoldable pub hex16 : List ℕ → Option Text
hex16 digest = slice_to 16 (hex digest)

-- `SeedDance::blob_name`
unfoldable pub seed_blob_name : Text → Text
seed_blob_name key = codes "sys-" ++ (key ++ codes "__seed.bin")

abbrev pub scratch_of : Text → Text
scratch_of name = name ++ codes ".save"

-- Reported, and not processing: the gate before anything is issued.
abbrev pub is_open : Option SlotState → Bool
is_open none = false
is_open (some s) = not s.is_processing

-- Idle at a position that is not 0.
abbrev pub is_confirmed : Option SlotState → Bool
is_confirmed none = false
is_confirmed (some s) = not s.is_processing && ltb 0 s.n_tokens

abbrev pub reported : ℕ → Result (List SlotState) Text → Option SlotState
reported slot (ok states) = find_slot slot states
reported slot (err e) = none

module _ {V : Type 0} (J : Json V) (sha256 : List ℕ → List ℕ) where
  open J use {to_vec}

  abbrev hash_of : List V → Option (Option Text)
  hash_of [] = some none
  hash_of (m ∷ ms) =
      Option.map (λ h. some h) (hex16 (sha256 (flat_map (λ v. to_vec v ++ 0 ∷ []) (m ∷ ms))))

  -- The outer `none` is a panic, the inner one a request without a system message.
  unfoldable pub system_hash : V → Option (Option Text)
  system_hash messages = elim (messages_of J messages) [
    | none ↦ some none
    | some msgs ↦ hash_of (filter (is_system J) msgs)
  ]

module _ {V : Type 0} where
  abbrev pub is_cached : Option (BagEntry V) → Bool
  is_cached none = false
  is_cached (some e) = elim e.state [ cached ↦ true | _ ↦ false ]

  -- `mark_cached` does nothing where the key is missing.
  unfoldable pub mark_cached : Text → Bag V → Bag V
  mark_cached key bag = elim (lookup key bag) [
    | none ↦ bag
    | some e ↦ insert key (record e { state = cached }) bag
  ]

module _ {V : Type 0} (J : Json V) where
  open J use {null, array, eq}

  abbrev pub systems_of : Option (List V) → List V
  systems_of none = []
  systems_of (some msgs) = filter (is_system J) msgs

  -- `g.entry(key).or_insert_with(…)`
  abbrev pub entry_or_new : Option (BagEntry V) → BagEntry V
  entry_or_new none = record { system = array []; state = uncached }
  entry_or_new (some e) = e

  -- A failed entry is retried.
  abbrev pub retried : BagState → BagState
  retried failed = uncached
  retried s = s

  -- The entry after the first critical section of the dance, which also returns its `system`.
  unfoldable pub open_entry : V → Option (BagEntry V) → BagEntry V
  open_entry messages o =
      let e = entry_or_new o in
      record {
        system =
            if eq e.system (array [])
            then array (systems_of (messages_of J messages))
            else e.system;
        state = retried e.state;
      }

  abbrev pub set_state : BagState → Option (BagEntry V) → BagEntry V
  set_state st none = record { system = null; state = st }
  set_state st (some e) = record e { state = st }

  unfoldable pub mark_failed : Text → Bag V → Bag V
  mark_failed key bag = insert key (set_state failed (lookup key bag)) bag

module _ {W V : Type 0} (J : Json V) (sha256 : List ℕ → List ℕ) (be : Backend W V)
    (pu : Publisher W) where
  fail : Text → Bag V → W → SeedResult × Dance W V
  fail key bag w = (failure, record { bag = mark_failed J key bag; world = w })

  -- Step 3: publish what was saved, then mark the family cached.
  after_publish : Text → Bag V → Result (Unit {0}) Text × W → SeedResult × Dance W V
  unfolding fail
  after_publish key bag (q, w) =
      if is_ok q then (seeded, record { bag = mark_cached key bag; world = w }) else fail key bag w

  after_save : Text → Bag V → Result V Text × W → SeedResult × Dance W V
  unfolding after_publish
  after_save key bag (r, w) =
      let name = seed_blob_name key in
      if is_ok r
      then after_publish key bag (pu.publish (scratch_of name) name w)
      else fail key bag w

  -- Step 2: the position is confirmed before anything is saved.
  after_confirm : Text → ℕ → Bag V → Result (List SlotState) Text × W → SeedResult × Dance W V
  unfolding after_save
  after_confirm key slot bag (q, w) =
      if is_confirmed (reported slot q)
      then after_save key bag (be.save_slot slot (scratch_of (seed_blob_name key)) w)
      else fail key bag w

  -- Step 1: prefill, strictly before any save.
  after_prefill : Text → ℕ → Bag V → Result V Text × W → SeedResult × Dance W V
  unfolding after_confirm
  after_prefill key slot bag (r, w) =
      if is_ok r then after_confirm key slot bag (be.slots w) else fail key bag w

  unfoldable pub dance : Text → ℕ → V → Bag V → W → SeedResult × Dance W V
  unfolding after_prefill
  dance key slot messages bag w =
      let e = open_entry J messages (lookup key bag) in
      after_prefill key slot (insert key e bag) (be.prefill_only slot e.system w)

  after_restore : Bag V → Result V Text × W → SeedResult × Dance W V
  after_restore bag (r, w) =
      (if is_ok r then restored else cold_prefill, record { bag = bag; world = w })

  -- Second sight restores, any other sight dances.
  unfoldable pub sight : Text → ℕ → V → Bag V → W → SeedResult × Dance W V
  unfolding after_restore dance
  sight key slot messages bag w =
      if is_cached (lookup key bag)
      then after_restore bag (be.restore_slot slot (seed_blob_name key) w)
      else dance key slot messages bag w

  -- The slot gate.
  after_gate : Text → ℕ → V → Bag V → Result (List SlotState) Text × W → SeedResult × Dance W V
  unfolding sight
  after_gate key slot messages bag (r, w) =
      if is_open (reported slot r)
      then sight key slot messages bag w
      else (skipped, record { bag = bag; world = w })

  unfoldable pub admit : Text → ℕ → V → Bag V → W → SeedResult × Dance W V
  unfolding after_gate
  admit key slot messages bag w = after_gate key slot messages bag (be.slots w)

  -- `none` is a panic in the hash, before anything is done.
  unfoldable pub prepare : ℕ → V → Dance W V → Option (SeedResult × Dance W V)
  prepare slot messages d = elim (system_hash J sha256 messages) [
    | none ↦ none
    | some h ↦ elim h [
      | none ↦ some (skipped, d)
      | some key ↦ some (admit key slot messages d.bag d.world)
    ]
  ]

-- The accessor `state`.
unfoldable pub state_of : {V : Type 0} → Text → Bag V → Option BagState
state_of key bag = Option.map (λ e. e.state) (lookup key bag)
