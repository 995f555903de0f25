-- ===== src/Chat/Given.antt =====
-- The slot that an admission of src/lib.rs steers to is the session's, and dirty.
use o_llm.Common.{ℕ, ◌≡◌, Bool, true, false, ◌&&◌, not, Option, none, some, nat_eq_iff}
use o_llm.Common.Text.{Text}
use o_llm.Key.{blob_name}
use o_llm.Backend.{Backend}
use o_llm.Slots.Views.{hold_of}
use o_llm.Publish.{Disk, Router}
use o_llm.Chat.Steer.{take_slot-hold}
use o_llm.Chat.{
  pick_slot, find_evictable, evict_to_disk, steal, settle, admission, restore_if, take_slot,
  after_evict,
}

module _ {W V : Type 0} (disk : Disk W) (be : Backend W V) (sig b : Text) where
  abbrev Given : Option ℕ × Router W → Type 0
  Given p = (id : ℕ) → p.0 ≡ some id → hold_of id p.1.slots ≡ (some b, true)

  take_slot-Given :
      (wanted : Bool) (id : ℕ) (r : Router W)
      → Given (take_slot disk be sig id b (restore_if disk be sig wanted id b r))
  take_slot-Given wanted id r j e =
      let same : id ≡ j = cc in
      rw ((nat_eq_iff id j).1 same) at (take_slot-hold disk be sig wanted id b r j)

  after_evict-Given :
      (hit : Bool) (id : ℕ) (p : Bool × Router W) → Given (after_evict disk be sig hit id b p)
  unfolding after_evict
  after_evict-Given hit id (true, r) j e = take_slot-Given hit id r j e
  after_evict-Given hit id (false, r) j e = absurd cc

  steal-Given :
      (hit : Bool) (p : Option (ℕ × Option Text) × Router W) → Given (steal disk be sig hit b p)
  unfolding steal
  steal-Given hit (none, r) j e = absurd cc
  steal-Given hit (some (id, u), r) j e =
      after_evict-Given hit id (evict_to_disk disk be sig id u r) j e

  settle-Given :
      (hit : Bool) (p : Option (ℕ × Bool) × Router W) → Given (settle disk be sig hit b p)
  unfolding settle
  settle-Given hit (some (id, hot), r) = take_slot-Given (hit && not hot) id r
  settle-Given hit (none, r) = steal-Given hit (find_evictable disk be sig r)

  pub admission-Given : (r : Router W) → Given (admission disk be sig b r)
  unfolding admission
  admission-Given r =
      settle-Given (disk.exists (blob_name b sig) r.world) (pick_slot disk be sig b r)
