-- ===== src/Chat/Others.antt =====
-- The admission of one session (src/lib.rs) and the state of another: nothing is lost.
use o_llm.Common.{
  ℕ, ◌≡◌, ◌≢◌, refl, sym, ap, ◌∙◌, inl, inr, Bool, true, false, ◌&&◌, not, Option, none, some, List,
  Result, ok, err, Option-cases,
}
use o_llm.Common.Text.{Text}
use o_llm.Common.Dict.{id_eq}
use o_llm.Key.{blob_name}
use o_llm.Backend.{Backend, SlotState}
use o_llm.Slots.{Slots, owned_slot, pick_free, pick_dirty}
use o_llm.Slots.Views.{owner, Agree}
use o_llm.Slots.Distinct.{IsMap}
use o_llm.Slots.Scans.{pick_free-Free, pick_dirty-Dirty}
use o_llm.Publish.{Disk, IsDisk, Router, save_slot}
use o_llm.Publish.Server.{IsServer}
use o_llm.Chat.Steer.{not_hot_inv}
use o_llm.Chat.State.{Holds, Holds-same, MayGo, take_slot-Holds}
use o_llm.Chat.{
  pick_slot, find_evictable, evict_to_disk, steal, settle, admission, after_report, dirty_report,
  restore_if, take_slot, after_evict,
}
use o_llm.Slots.Owned.{owned_slot-owner}
use o_llm.Chat.Published.{save_slot-Holds}

module _ {W V K : Type 0} (disk : Disk W) (be : Backend W V) (content : Text → W → Option (List ℕ))
    (kv : ℕ → W → K) (encode : K → List ℕ) (lawful : IsDisk disk content)
    (server : IsServer disk be content kv encode) (sig : Text) (v : Text) (k : K) where
  abbrev Held : Router W → Type 0
  Held r = Holds disk be content kv encode lawful server sig v k r

  abbrev Go : ℕ → Router W → Type 0
  Go id r = MayGo disk be content kv encode lawful server sig v k id r

  -- A world in which the server was only asked for its report.
  abbrev Asked : Router W → W → Type 0
  Asked r w =
      ((j : ℕ) → kv j w ≡ kv j r.world)
      × (content (blob_name v sig) w ≡ content (blob_name v sig) r.world)

  asked : (r : Router W) → Asked r (be.slots r.world).1
  asked r = ((λ j. server.slots-kv j r.world), server.slots-content (blob_name v sig) r.world)

  scanned-Holds :
      (r : Router W) (g : Slots) (w : W)
      → Asked r w
      → Agree r.slots g
      → Held r
      → Held (record { slots = g; world = w })
  scanned-Holds r g w (kvs, blob) agree h =
      Holds-same disk be content kv encode lawful server sig v k r (record { slots = g; world = w })
        agree kvs blob h

  after_report-Holds :
      (r : Router W) (a : Result (List SlotState) Text × W)
      → Asked r a.1
      → Held r
      → Held (after_report disk be sig r.slots a).1
        × ((id : ℕ) (hot : Bool)
            → (after_report disk be sig r.slots a).0 ≡ some (id, hot)
            → Go id (after_report disk be sig r.slots a).1)
  unfolding after_report
  after_report-Holds r (err e, w) q h =
      (scanned-Holds r r.slots w q (λ j. refl) h, λ id hot e. absurd cc)
  after_report-Holds r (ok arr, w) q h =
      let (agree, free) = pick_free-Free arr r.slots in
      (
        scanned-Holds r (pick_free arr r.slots).1 w q agree h,
        λ id hot e o. inl (
            ap (λ x. x.1) (agree id)
            ∙ (free id (not_hot_inv disk be sig (pick_free arr r.slots).0 id hot e)).1),
      )

  dirty_report-Holds :
      (r : Router W) (a : Result (List SlotState) Text × W)
      → Asked r a.1
      → Held r
      → Held (dirty_report disk be sig r.slots a).1
        × ((id : ℕ) (u : Option Text)
            → (dirty_report disk be sig r.slots a).0 ≡ some (id, u)
            → owner id (dirty_report disk be sig r.slots a).1.slots ≡ u)
  unfolding dirty_report
  dirty_report-Holds r (err e, w) q h =
      (scanned-Holds r r.slots w q (λ j. refl) h, λ id u e. absurd cc)
  dirty_report-Holds r (ok arr, w) q h =
      let (agree, found) = pick_dirty-Dirty arr r.slots in
      (
        scanned-Holds r (pick_dirty arr r.slots).1 w q agree h,
        λ id u e. let (i, d, o) = found id u e in ap (λ x. x.0) (agree id) ∙ o,
      )

  module _ (b : Text) (other : b ≢ v) where
    given :
        (wanted : Bool) (id : ℕ) (r : Router W)
        → Held r
        → Go id r
        → Held (take_slot disk be sig id b (restore_if disk be sig wanted id b r)).1
    given wanted id r h go =
        take_slot-Holds disk be content kv encode lawful server sig v b k wanted id r other h go

    after_evict-Holds :
        (hit : Bool) (id : ℕ) (p : Bool × Router W)
        → Held p.1
        → (p.0 ≡ true → Go id p.1)
        → Held (after_evict disk be sig hit id b p).1
    unfolding after_evict
    after_evict-Holds hit id (true, r) h go = given hit id r h (go refl)
    after_evict-Holds hit id (false, r) h go = h

    steal-Holds :
        (hit : Bool) (p : Option (ℕ × Option Text) × Router W)
        → Held p.1
        → ((id : ℕ) (u : Option Text) → p.0 ≡ some (id, u) → owner id p.1.slots ≡ u)
        → Held (steal disk be sig hit b p).1
    unfolding steal evict_to_disk
    steal-Holds hit (none, r) h own = h
    steal-Holds hit (some (id, none), r) h own =
        after_evict-Holds hit id (true, r) h
          (λ t o. absurd (let z : none ≡ some v = sym (own id none refl) ∙ o in cc))
    steal-Holds hit (some (id, some u), r) h own =
        let (h', go) =
          save_slot-Holds disk be content kv encode lawful server sig v k id u r
            (own id (some u) refl) h in
        after_evict-Holds hit id (save_slot disk be sig id u r) h' go

    settle-Holds :
        (hit : Bool) (p : Option (ℕ × Bool) × Router W)
        → Held p.1
        → ((id : ℕ) (hot : Bool) → p.0 ≡ some (id, hot) → Go id p.1)
        → Held (settle disk be sig hit b p).1
    unfolding settle find_evictable
    settle-Holds hit (some (id, hot), r) h go = given (hit && not hot) id r h (go id hot refl)
    settle-Holds hit (none, r) h go =
        let (h', own) = dirty_report-Holds r (be.slots r.world) (asked r) h in
        steal-Holds hit (dirty_report disk be sig r.slots (be.slots r.world)) h' own

    pick_slot-Holds :
        (r : Router W)
        → IsMap r.slots
        → Held r
        → Held (pick_slot disk be sig b r).1
          × ((id : ℕ) (hot : Bool)
              → (pick_slot disk be sig b r).0 ≡ some (id, hot)
              → Go id (pick_slot disk be sig b r).1)
    unfolding pick_slot
    pick_slot-Holds r map h = elim (Option-cases (owned_slot b r.slots)) [
      | inl n ↦ rw (n, pick_slot) (after_report-Holds r (be.slots r.world) (asked r) h)
      | inr (i, e) ↦
          rw (e, pick_slot)
            (
              h,
              λ id hot q o.
                  let p : i ≡ id = cc in
                  let own = owned_slot-owner b r.slots i map e in
                  absurd (other (some_inj (sym own ∙ (ap (λ x. owner x r.slots) p ∙ o)))),
            )
    ]
      where
        some_inj : {x y : Text} → some x ≡ some y → x ≡ y
        some_inj q = cc

    -- Nothing is lost to others. If the registry lists no slot twice and the state of a session is
    -- `k`, in its slots and in an unpublished slot or in its blob, then so it is after the
    -- admission of any other session, whatever slot that is steered to and whether or not saves and
    -- restores succeed.
    pub admission-Holds :
        (r : Router W) → IsMap r.slots → Held r → Held (admission disk be sig b r).1
    unfolding admission
    admission-Holds r map h =
        let (h', go) = pick_slot-Holds r map h in
        settle-Holds (disk.exists (blob_name b sig) r.world) (pick_slot disk be sig b r) h' go
