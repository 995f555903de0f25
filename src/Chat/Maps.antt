-- ===== src/Chat/Maps.antt =====
-- The registry of src/lib.rs stays a map during the admission of a session.
use o_llm.Common.{
  ℕ, sym, subst, inl, inr, Bool, true, false, ◌&&◌, not, Option, none, some, List, Result, ok, err,
  Option-cases,
}
use o_llm.Common.Text.{Text}
use o_llm.Key.{blob_name}
use o_llm.Backend.{Backend, SlotState}
use o_llm.Slots.{Slots, owned_slot}
use o_llm.Slots.Distinct.{
  IsMap, mark_clean-IsMap, abandon-IsMap, mark_dirty-IsMap, pick_free-IsMap, pick_dirty-IsMap,
}
use o_llm.Publish.{Disk, Router, save_slot}
use o_llm.Publish.Atomic.{save_slot-Marked}
use o_llm.Chat.Steer.{restore_if-slots}
use o_llm.Json.{Json}
use o_llm.Chat.{
  Cache, Config, Libraries, leave, pick_slot, find_evictable, evict_to_disk, steal, settle,
  admission, after_report, dirty_report, restore_if, take_slot, after_evict,
}

module _ {W V : Type 0} (disk : Disk W) (be : Backend W V) (sig : Text) where
  take_slot-IsMap :
      (wanted : Bool) (id : ℕ) (b : Text) (r : Router W)
      → IsMap r.slots
      → IsMap (take_slot disk be sig id b (restore_if disk be sig wanted id b r)).1.slots
  take_slot-IsMap wanted id b r map =
      mark_dirty-IsMap id b (restore_if disk be sig wanted id b r).slots
        (subst (λ g. IsMap g) (sym (restore_if-slots disk be sig wanted id b r)) map)

  pub save_slot-IsMap :
      (id : ℕ) (u : Text) (r : Router W)
      → IsMap r.slots
      → IsMap (save_slot disk be sig id u r).1.slots
  save_slot-IsMap id u r map = elim (save_slot-Marked disk be sig id u r) [
    | inl (t, m) ↦ subst (λ g. IsMap g) (sym m) (mark_clean-IsMap id r.slots map)
    | inr (f, m) ↦ subst (λ g. IsMap g) (sym m) map
  ]

  after_evict-IsMap :
      (hit : Bool) (id : ℕ) (b : Text) (p : Bool × Router W)
      → IsMap p.1.slots
      → IsMap (after_evict disk be sig hit id b p).1.slots
  unfolding after_evict
  after_evict-IsMap hit id b (true, r) map = take_slot-IsMap hit id b r map
  after_evict-IsMap hit id b (false, r) map = map

  steal-IsMap :
      (hit : Bool) (b : Text) (p : Option (ℕ × Option Text) × Router W)
      → IsMap p.1.slots
      → IsMap (steal disk be sig hit b p).1.slots
  unfolding steal evict_to_disk
  steal-IsMap hit b (none, r) map = map
  steal-IsMap hit b (some (id, none), r) map = after_evict-IsMap hit id b (true, r) map
  steal-IsMap hit b (some (id, some u), r) map =
      after_evict-IsMap hit id b (save_slot disk be sig id u r) (save_slot-IsMap id u r map)

  pub after_report-IsMap :
      (g : Slots) (a : Result (List SlotState) Text × W)
      → IsMap g
      → IsMap (after_report disk be sig g a).1.slots
  unfolding after_report
  after_report-IsMap g (err e, w) map = map
  after_report-IsMap g (ok arr, w) map = pick_free-IsMap arr g map

  pub dirty_report-IsMap :
      (g : Slots) (a : Result (List SlotState) Text × W)
      → IsMap g
      → IsMap (dirty_report disk be sig g a).1.slots
  unfolding dirty_report
  dirty_report-IsMap g (err e, w) map = map
  dirty_report-IsMap g (ok arr, w) map = pick_dirty-IsMap arr g map

  settle-IsMap :
      (hit : Bool) (b : Text) (p : Option (ℕ × Bool) × Router W)
      → IsMap p.1.slots
      → IsMap (settle disk be sig hit b p).1.slots
  unfolding settle find_evictable
  settle-IsMap hit b (some (id, hot), r) map = take_slot-IsMap (hit && not hot) id b r map
  settle-IsMap hit b (none, r) map =
      steal-IsMap hit b (dirty_report disk be sig r.slots (be.slots r.world))
        (dirty_report-IsMap r.slots (be.slots r.world) map)

  pick_slot-IsMap :
      (b : Text) (r : Router W) → IsMap r.slots → IsMap (pick_slot disk be sig b r).1.slots
  unfolding pick_slot
  pick_slot-IsMap b r map = elim (Option-cases (owned_slot b r.slots)) [
    | inl n ↦ rw (n, pick_slot) (after_report-IsMap r.slots (be.slots r.world) map)
    | inr (i, e) ↦ rw (e, pick_slot) map
  ]

  pub admission-IsMap :
      (b : Text) (r : Router W) → IsMap r.slots → IsMap (admission disk be sig b r).1.slots
  unfolding admission
  admission-IsMap b r map =
      settle-IsMap (disk.exists (blob_name b sig) r.world) b (pick_slot disk be sig b r)
        (pick_slot-IsMap b r map)

module _ {W V : Type 0} (J : Json V) (lib : Libraries V) (disk : Disk W) (cache : Cache W)
    (be : Backend W V) (cfg : Config) where
  pub leave-IsMap :
      (steer : Option ℕ) (r : Router W)
      → IsMap r.slots
      → IsMap (leave J lib disk cache be cfg steer r).slots
  unfolding leave
  leave-IsMap none r map = map
  leave-IsMap (some id) r map = abandon-IsMap id r.slots map
