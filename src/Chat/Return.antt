-- ===== src/Chat/Return.antt =====
-- A session that comes back: what the admission of `chat_completions` (src/lib.rs) does with the
-- state that it had.
use o_llm.Common.{
  ℕ, ◌≡◌, ◌≢◌, refl, sym, ap, subst, ◌∙◌, ◌⊎◌, inl, inr, Bool, true, false, ◌&&◌, not, Option, none,
  some, List, Result, ok, err, is_ok, Bool-cases, Option-cases,
}
use o_llm.Common.Text.{Text}
use o_llm.Common.Dict.{id_eq}
use o_llm.Key.{blob_name}
use o_llm.Backend.{Backend, SlotState}
use o_llm.Slots.{Slots, owned_slot, pick_free}
use o_llm.Slots.Views.{owner, is_dirty}
use o_llm.Slots.Scans.{pick_free-Free, pick_dirty-Dirty}
use o_llm.Publish.{Disk, IsDisk, Router, save_slot, restore_slot}
use o_llm.Publish.Server.{IsServer, save_slot-other, restore_slot-loaded}
use o_llm.Chat.State.{IsSaved, Holds}
use o_llm.Slots.Distinct.{IsMap}
use o_llm.Chat.{
  pick_slot, find_evictable, evict_to_disk, steal, settle, admission, after_report, dirty_report,
  restore_if, take_slot, after_evict,
}
use o_llm.Slots.Owned.{owned_slot-none, owned_slot-owner}

module _ {W V K : Type 0} (disk : Disk W) (be : Backend W V) (content : Text → W → Option (List ℕ))
    (kv : ℕ → W → K) (encode : K → List ℕ) (lawful : IsDisk disk content)
    (server : IsServer disk be content kv encode) (sig : Text) (v : Text) (k : K) where
  abbrev Saved : W → Type 0
  Saved w = IsSaved disk be content kv encode lawful server sig v k w

  -- The server restores the session's blob into any slot, while the blob is there.
  abbrev pub IsWilling : Type 0
  IsWilling = (id : ℕ) (w : W) → Saved w → is_ok (be.restore_slot id (blob_name v sig) w).0 ≡ true

  -- The slot that is steered to, if any, has the session's state.
  abbrev pub HasBack : Option ℕ × Router W → Type 0
  HasBack p = (id : ℕ) → p.0 ≡ some id → kv id p.1.world ≡ k

  loaded :
      (id : ℕ) (r : Router W)
      → IsWilling
      → Saved r.world
      → HasBack (take_slot disk be sig id v (restore_if disk be sig true id v r))
  loaded id r willing saved j e =
      let same : id ≡ j = cc in
      subst (λ i. kv i (restore_slot disk be sig id v r).world ≡ k) same
        (restore_slot-loaded disk be content kv encode lawful server sig id v k r
          (willing id r.world saved) saved)

  after_evict-HasBack :
      (id : ℕ) (p : Bool × Router W)
      → IsWilling
      → Saved p.1.world
      → HasBack (after_evict disk be sig true id v p)
  unfolding after_evict
  after_evict-HasBack id (true, r) willing saved = loaded id r willing saved
  after_evict-HasBack id (false, r) willing saved = λ j e. absurd cc

  steal-HasBack :
      (p : Option (ℕ × Option Text) × Router W)
      → IsWilling
      → Saved p.1.world
      → ((id : ℕ) (u : Text) → p.0 ≡ some (id, some u) → v ≢ u)
      → HasBack (steal disk be sig true v p)
  unfolding steal evict_to_disk
  steal-HasBack (none, r) willing saved ne = λ j e. absurd cc
  steal-HasBack (some (id, none), r) willing saved ne =
      after_evict-HasBack id (true, r) willing saved
  steal-HasBack (some (id, some u), r) willing saved ne =
      after_evict-HasBack id (save_slot disk be sig id u r) willing (
        save_slot-other disk be content kv encode lawful server sig id u v r (ne id u refl) ∙ saved)

  asked : (w : W) → Saved w → Saved (be.slots w).1
  asked w saved = server.slots-content (blob_name v sig) w ∙ saved

  dirty_report-Saved :
      (r : Router W) (a : Result (List SlotState) Text × W)
      → ((j : ℕ) → owner j r.slots ≢ some v)
      → Saved a.1
      → Saved (dirty_report disk be sig r.slots a).1.world
        × ((id : ℕ) (u : Text) → (dirty_report disk be sig r.slots a).0 ≡ some (id, some u) → v ≢ u)
  unfolding dirty_report
  dirty_report-Saved r (err e, w) nobody saved = (saved, λ id u q. absurd cc)
  dirty_report-Saved r (ok arr, w) nobody saved =
      let (agree, found) = pick_dirty-Dirty arr r.slots in
      (
        saved,
        λ id u q same.
            let (i, d, o) = found id (some u) q in nobody id (o ∙ ap (λ x. some x) (sym same)),
      )

  settle-HasBack :
      (p : Option (ℕ × Bool) × Router W)
      → IsWilling
      → Saved p.1.world
      → ((j : ℕ) → owner j p.1.slots ≢ some v)
      → ((id : ℕ) (hot : Bool) → p.0 ≡ some (id, hot) → hot ≡ false)
      → HasBack (settle disk be sig true v p)
  unfolding settle find_evictable
  settle-HasBack (some (id, hot), r) willing saved nobody cold =
      subst
        (λ h. HasBack (take_slot disk be sig id v (restore_if disk be sig (true && not h) id v r)))
        (sym (cold id hot refl)) (loaded id r willing saved)
  settle-HasBack (none, r) willing saved nobody cold =
      let (s, ne) = dirty_report-Saved r (be.slots r.world) nobody (asked r.world saved) in
      steal-HasBack (dirty_report disk be sig r.slots (be.slots r.world)) willing s ne

  hot-HasBack :
      (hit : Bool) (id : ℕ) (r : Router W)
      → kv id r.world ≡ k
      → HasBack (settle disk be sig hit v (some (id, true), r))
  unfolding settle
  hot-HasBack true id r own j e = let same : id ≡ j = cc in subst (λ i. kv i r.world ≡ k) same own
  hot-HasBack false id r own j e = let same : id ≡ j = cc in subst (λ i. kv i r.world ≡ k) same own

  cold-HasBack :
      (g : Slots) (a : Result (List SlotState) Text × W)
      → IsWilling
      → Saved a.1
      → ((j : ℕ) → owner j g ≢ some v)
      → HasBack (settle disk be sig true v (after_report disk be sig g a))
  unfolding after_report
  cold-HasBack g (err e, w) willing saved nobody =
      settle-HasBack (none, record { slots = g; world = w }) willing saved nobody
        (λ id hot q. absurd cc)
  cold-HasBack g (ok arr, w) willing saved nobody =
      let (agree, free) = pick_free-Free arr g in
      settle-HasBack (after_report disk be sig g (ok arr, w)) willing saved
        (λ j o. nobody j (sym (ap (λ x. x.0) (agree j)) ∙ o)) (not_hot (pick_free arr g).0)
    where
      not_hot :
          (o : Option ℕ) (id : ℕ) (hot : Bool)
          → (elim o as (λ x. Option (ℕ × Bool)) [ none ↦ none | some i ↦ some (i, false) ])
            ≡ some (id, hot)
          → hot ≡ false
      not_hot none id hot e = absurd cc
      not_hot (some i) id hot e = cc

  there : (w : W) → Saved w → disk.exists (blob_name v sig) w ≡ true
  there w saved = elim (Bool-cases (disk.exists (blob_name v sig) w)) [
    | inl t ↦ t
    | inr f ↦
        let z : none ≡ some (encode k) =
          sym (lawful.exists-content (blob_name v sig) w f) ∙ saved in
        absurd cc
  ]

  settle_from :
      (r : Router W)
      → IsWilling
      → Holds disk be content kv encode lawful server sig v k r
      → IsMap r.slots
      → HasBack
          (settle disk be sig (disk.exists (blob_name v sig) r.world) v (pick_slot disk be sig v r))
  unfolding pick_slot
  settle_from r willing (held, where_held) map = elim (Option-cases (owned_slot v r.slots)) [
    | inr (i, e) ↦
        rw (e, pick_slot)
          (hot-HasBack (disk.exists (blob_name v sig) r.world) i r
            (held i (owned_slot-owner v r.slots i map e)))
    | inl n ↦
        let nobody : (j : ℕ) → owner j r.slots ≢ some v = λ j. owned_slot-none v r.slots j n in
        let saved = unowned nobody where_held in
        rw (n, pick_slot, there r.world saved)
          (cold-HasBack r.slots (be.slots r.world) willing (asked r.world saved) nobody)
  ]
    where
      unowned :
          ((j : ℕ) → owner j r.slots ≢ some v)
          → ((j : ℕ) × (owner j r.slots ≡ some v) × (is_dirty j r.slots ≡ true)) ⊎ Saved r.world
          → Saved r.world
      unowned nobody (inl (j, o, d)) = absurd (nobody j o)
      unowned nobody (inr saved) = saved

  pub admission-HasBack :
      (r : Router W)
      → Holds disk be content kv encode lawful server sig v k r
      → IsMap r.slots
      → IsWilling
      → HasBack (admission disk be sig v r)
  unfolding admission
  admission-HasBack r h map willing = settle_from r willing h map
