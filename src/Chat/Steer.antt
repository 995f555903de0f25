-- ===== src/Chat/Steer.antt =====
-- R3: which slot a turn is steered to, and what becomes of the state that the slot held.

use o_llm.Common.{
  ℕ, ◌≡◌, refl, sym, ap, subst, ◌∙◌, ◌⊎◌, inl, inr, Bool, true, false, ◌&&◌, not, Option, none,
  some, List, if◌then◌else◌, nat_eq, Result, ok, err, Option-cases, In,
}
use o_llm.Common.Text.{Text}
use o_llm.Key.{blob_name}
use o_llm.Backend.{SlotState, Backend}
use o_llm.Slots.{SlotInfo, Slots, owned_slot, pick_free}
use o_llm.Slots.Views.{hold_of, owner, is_dirty, Agree, hold_of-mark_dirty}
use o_llm.Slots.Scans.{IsIdle, pick_free-Free, pick_dirty-Dirty, owned_slot-In}
use o_llm.Publish.{Disk, Router, save_slot, restore_slot}
use o_llm.Slots.Views.{mark_clean-other}
use o_llm.Publish.Atomic.{Marked, save_slot-Marked}
use o_llm.Chat.{
  pick_slot, find_evictable, evict_to_disk, steal, settle, admission, after_report, dirty_report,
  restore_if, take_slot, after_evict,
}

-- A dirty slot holds some session's state.
abbrev pub HasOwners : Slots → Type 0
HasOwners g = (j : ℕ) → is_dirty j g ≡ true → (v : Text) × (owner j g ≡ some v)

module _ {W V : Type 0} (disk : Disk W) (be : Backend W V) (backend_sig : Text) where
  -- The backend, asked in this world, reports the slot idle.
  abbrev pub ReportsIdle : ℕ → W → Type 0
  ReportsIdle id w = (arr : List SlotState) × ((be.slots w).0 ≡ ok arr) × IsIdle id arr

  -- Why a slot may be used, `r1` being the router after the lookup and `r2` after the search for
  -- a slot to evict: it is the session's own; or it is idle and clean; or it is idle, held the
  -- state of a session, and that state was just published.
  abbrev pub MayUseVia : Text → ℕ → Router W → Router W → Router W → Type 0
  MayUseVia session id r r1 r2 =
      ((s : SlotInfo) × In (id, s) r.slots × (s.session ≡ some session))
      ⊎ ((ReportsIdle id r.world × (is_dirty id r.slots ≡ false))
          ⊎ (ReportsIdle id r1.world
              × (v : Text) × (owner id r.slots ≡ some v)
              × ((save_slot disk be backend_sig id v r2).0 ≡ true)))

  abbrev SteeredVia : Text → Router W → Router W → Router W → Option ℕ × Router W → Type 0
  SteeredVia session r r1 r2 p =
      ((p.0 ≡ none) × Agree r.slots p.1.slots)
      ⊎ ((id : ℕ) × (p.0 ≡ some id)
          × MayUseVia session id r r1 r2
          × ((j : ℕ)
              → hold_of j p.1.slots
                ≡ (if nat_eq id j then (some session, true) else hold_of j r.slots)))

  abbrev pub looked_up : Text → Router W → Router W
  looked_up session r = (pick_slot disk be backend_sig session r).1

  abbrev pub searched : Router W → Router W
  searched r = (find_evictable disk be backend_sig r).1

  -- Either no slot is steered to and no slot's state is given up, or one is that may be used, and
  -- only it changes hands.
  abbrev pub Steered : Text → Router W → Option ℕ × Router W → Type 0
  Steered session r p =
      SteeredVia session r (looked_up session r) (searched (looked_up session r)) p

  abbrev Picked : Text → Router W → Option (ℕ × Bool) × Router W → Type 0
  Picked session r p =
      Agree r.slots p.1.slots
      × ((id : ℕ) (hot : Bool)
          → p.0 ≡ some (id, hot)
          → ((s : SlotInfo) × In (id, s) r.slots × (s.session ≡ some session))
            ⊎ (ReportsIdle id r.world × (is_dirty id r.slots ≡ false)))

  pub not_hot_inv :
      (o : Option ℕ) (id : ℕ) (hot : Bool)
      → (elim o as (λ x. Option (ℕ × Bool)) [ none ↦ none | some i ↦ some (i, false) ])
        ≡ some (id, hot)
      → o ≡ some id
  not_hot_inv none id hot e = absurd cc
  not_hot_inv (some i) id hot e = cc

  after_report-Picked :
      (session : Text) (r : Router W) (a : Result (List SlotState) Text × W)
      → (be.slots r.world).0 ≡ a.0
      → Picked session r (after_report disk be backend_sig r.slots a)
  unfolding after_report
  after_report-Picked session r (err e, w) q = (λ j. refl, λ id hot k. absurd cc)
  after_report-Picked session r (ok arr, w) q =
      let (a, f) = pick_free-Free arr r.slots in
      (
        a,
        λ id hot k.
            let (i, d) = f id (not_hot_inv (pick_free arr r.slots).0 id hot k) in
            inr ((arr, q, i), d),
      )

  pick_slot-Picked :
      (session : Text) (r : Router W) → Picked session r (pick_slot disk be backend_sig session r)
  unfolding pick_slot
  pick_slot-Picked session r = elim (Option-cases (owned_slot session r.slots)) [
    | inl n ↦ rw (n, pick_slot) (after_report-Picked session r (be.slots r.world) refl)
    | inr (i, e) ↦
        rw (e, pick_slot)
          (
            λ j. refl,
            λ id hot k.
                let (s, m, f) = owned_slot-In session r.slots i e in
                let p : i ≡ id = cc in inl (s, subst (λ x. In (x, s) r.slots) p m, f),
          )
  ]

  abbrev Found : Router W → Option (ℕ × Option Text) × Router W → Type 0
  Found r p =
      Agree r.slots p.1.slots
      × ((id : ℕ) (v : Option Text)
          → p.0 ≡ some (id, v)
          → ReportsIdle id r.world × (is_dirty id r.slots ≡ true) × (owner id r.slots ≡ v))

  dirty_report-Found :
      (r : Router W) (a : Result (List SlotState) Text × W)
      → (be.slots r.world).0 ≡ a.0
      → Found r (dirty_report disk be backend_sig r.slots a)
  unfolding dirty_report
  dirty_report-Found r (err e, w) q = (λ j. refl, λ id v k. absurd cc)
  dirty_report-Found r (ok arr, w) q =
      let (a, f) = pick_dirty-Dirty arr r.slots in
      (a, λ id v k. let (i, d, o) = f id v k in ((arr, q, i), d, o))

  find_evictable-Found : (r : Router W) → Found r (find_evictable disk be backend_sig r)
  unfolding find_evictable
  find_evictable-Found r = dirty_report-Found r (be.slots r.world) refl

  -- A restore does not touch the registry, so the slot is the session's and dirty afterwards.
  pub restore_if-slots :
      (b : Bool) (id : ℕ) (session : Text) (r : Router W)
      → (restore_if disk be backend_sig b id session r).slots ≡ r.slots
  unfolding restore_slot
  restore_if-slots true id session r = refl
  restore_if-slots false id session r = refl

  pub take_slot-hold :
      (b : Bool) (id : ℕ) (session : Text) (r : Router W) (j : ℕ)
      → hold_of j
          (take_slot disk be backend_sig id session
            (restore_if disk be backend_sig b id session r)).1.slots
        ≡ (if nat_eq id j then (some session, true) else hold_of j r.slots)
  take_slot-hold b id session r j =
      hold_of-mark_dirty id j session (restore_if disk be backend_sig b id session r).slots
      ∙ ap (λ g. if nat_eq id j then (some session, true) else hold_of j g)
          (restore_if-slots b id session r)

  -- The other slots of two registries.
  others :
      (id : ℕ) (session : Text) (g h : Slots)
      → ((j : ℕ) → nat_eq id j ≡ false → hold_of j h ≡ hold_of j g)
      → (j : ℕ)
      → (if nat_eq id j then (some session, true) else hold_of j h)
        ≡ (if nat_eq id j then (some session, true) else hold_of j g)
  others id session g h f j = by_test (nat_eq id j) refl
    where
      by_test :
          (b : Bool)
          → nat_eq id j ≡ b
          → (if b then (some session, true) else hold_of j h)
            ≡ (if b then (some session, true) else hold_of j g)
      by_test true e = refl
      by_test false e = f j e

  after_evict-Steered :
      (hit : Bool) (session v : Text) (id : ℕ) (r r1 r2 : Router W) (a : Bool × Router W)
      → (save_slot disk be backend_sig id v r2).0 ≡ a.0
      → Marked disk be backend_sig id r2.slots a
      → Agree r.slots r2.slots
      → ReportsIdle id r1.world
      → owner id r.slots ≡ some v
      → SteeredVia session r r1 r2 (after_evict disk be backend_sig hit id session a)
  unfolding after_evict
  after_evict-Steered hit session v id r r1 r2 (true, r3) s (inl (t, m)) agree idle own = inr (
    id,
    refl,
    inr (inr (idle, v, own, s)),
    λ j.
        take_slot-hold hit id session r3 j
        ∙ others id session r.slots r3.slots
            (λ k n. ap (λ g. hold_of k g) m ∙ (mark_clean-other id k r2.slots n ∙ agree k)) j,
  )
  after_evict-Steered hit session v id r r1 r2 (true, r3) s (inr (t, m)) agree idle own = absurd cc
  after_evict-Steered hit session v id r r1 r2 (false, r3) s (inl (t, m)) agree idle own = absurd cc
  after_evict-Steered hit session v id r r1 r2 (false, r3) s (inr (t, m)) agree idle own =
      inl (refl, λ j. ap (λ g. hold_of j g) m ∙ agree j)

  steal-Steered :
      (hit : Bool) (session : Text) (r r1 : Router W) (q : Option (ℕ × Option Text) × Router W)
      → HasOwners r.slots
      → Agree r.slots r1.slots
      → Found r1 q
      → SteeredVia session r r1 q.1 (steal disk be backend_sig hit session q)
  unfolding steal evict_to_disk
  steal-Steered hit session r r1 (none, r2) h agree (a, f) = inl (refl, λ j. a j ∙ agree j)
  steal-Steered hit session r r1 (some (id, none), r2) h agree (a, f) =
      let (i, d, o) = f id none refl in
      let (v, k) = h id (sym (ap (λ x. x.1) (agree id)) ∙ d) in
      let z : none ≡ some v = sym o ∙ (ap (λ x. x.0) (agree id) ∙ k) in absurd cc
  steal-Steered hit session r r1 (some (id, some v), r2) h agree (a, f) =
      let (i, d, o) = f id (some v) refl in
      after_evict-Steered hit session v id r r1 r2 (save_slot disk be backend_sig id v r2) refl
        (save_slot-Marked disk be backend_sig id v r2) (λ j. a j ∙ agree j) i
        (sym (ap (λ x. x.0) (agree id)) ∙ o)

  settle-Steered :
      (hit : Bool) (session : Text) (r : Router W) (p : Option (ℕ × Bool) × Router W)
      → HasOwners r.slots
      → Picked session r p
      → SteeredVia session r p.1 (searched p.1) (settle disk be backend_sig hit session p)
  unfolding settle
  settle-Steered hit session r (some (id, hot), r1) h (a, f) = inr (
    id,
    refl,
    allowed (f id hot refl),
    λ j.
        take_slot-hold (hit && not hot) id session r1 j
        ∙ others id session r.slots r1.slots (λ k n. a k) j,
  )
    where
      allowed :
          (((s : SlotInfo) × In (id, s) r.slots × (s.session ≡ some session))
            ⊎ (ReportsIdle id r.world × (is_dirty id r.slots ≡ false)))
          → MayUseVia session id r r1 (searched r1)
      allowed (inl own) = inl own
      allowed (inr free) = inr (inl free)
  settle-Steered hit session r (none, r1) h (a, f) =
      steal-Steered hit session r r1 (find_evictable disk be backend_sig r1) h a
        (find_evictable-Found r1)

  -- R3, save before steal. If every dirty slot has an owner: whatever the backend and the disk
  -- answer, the admission either steers to no slot and every slot keeps its session and its dirty
  -- flag; or it steers to one that is the session's own already, or that the backend just
  -- reported idle and that is clean, or that it just reported idle and whose session's state was
  -- just published. That slot is then the session's and dirty, and every other is as before.
  pub admission-Steered :
      (session : Text) (r : Router W)
      → HasOwners r.slots
      → Steered session r (admission disk be backend_sig session r)
  unfolding admission
  admission-Steered session r h =
      settle-Steered (disk.exists (blob_name session backend_sig) r.world) session r
        (pick_slot disk be backend_sig session r) h (pick_slot-Picked session r)

  -- After an admission every dirty slot still has an owner.
  pub admission-HasOwners :
      (session : Text) (r : Router W)
      → HasOwners r.slots
      → HasOwners (admission disk be backend_sig session r).1.slots
  admission-HasOwners session r h j d = elim (admission-Steered session r h) [
    | inl (n, a) ↦ let (v, o) = h j (sym (ap (λ x. x.1) (a j)) ∙ d) in (v, ap (λ x. x.0) (a j) ∙ o)
    | inr (id, e, u, f) ↦ by_test id (nat_eq id j) (f j)
  ]
    where
      by_test :
          (id : ℕ) (b : Bool)
          → hold_of j (admission disk be backend_sig session r).1.slots
            ≡ (if b then (some session, true) else hold_of j r.slots)
          → (v : Text) × (owner j (admission disk be backend_sig session r).1.slots ≡ some v)
      by_test id true k = (session, ap (λ x. x.0) k)
      by_test id false k = let (v, o) = h j (sym (ap (λ x. x.1) k) ∙ d) in (v, ap (λ x. x.0) k ∙ o)
