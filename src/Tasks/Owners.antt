-- ===== src/Tasks/Owners.antt =====
-- The registry's invariant through any interleaving: a dirty slot has an owner, and a slot has one
-- entry.
use o_llm.Common.{
  ℕ, refl, sym, ap, subst, ◌∙◌, inl, inr, Bool, true, false, Option, none, some, List, Result, ok,
  err, Option-cases, nat_eq_iff,
}
use o_llm.Common.Text.{Text}
use o_llm.Json.{Json}
use o_llm.Backend.{SlotState, Backend}
use o_llm.Slots.{Slots, mark_dirty, owned_slot}
use o_llm.Slots.Views.{Agree, hold_of-mark_dirty}
use o_llm.Slots.Scans.{pick_free-Free, pick_dirty-Dirty}
use o_llm.Slots.Distinct.{IsMap, mark_clean-IsMap, mark_dirty-IsMap, claim-IsMap}
use o_llm.Chat.Maps.{after_report-IsMap, dirty_report-IsMap, leave-IsMap}
use o_llm.Publish.{Disk, Router, publish, scratch_name, restore_slot}
use o_llm.Chat.{Cache, Config, Libraries, after_report, dirty_report}
use o_llm.Chat.Steer.{HasOwners}
use o_llm.Chat.Owners.{HasOwners-step, claim-HasOwners, mark_clean-HasOwners, leave-HasOwners}
use o_llm.Tasks.{
  Shared, Turn, Save, queued, writing, publishing, touching, cleaning, Saved, Pc, waiting, looking,
  scanning, asking, picking, searching, sifting, evicting, restoring, taking, sending, ending,
  saving, enforcing, leaving, done, enter_read, enter_write, wrote, moved, save_step, looked,
  with_save, advance, blob,
}
use o_llm.Tasks.System.{System, Reach, start_of, run, outside, here, later}
use o_llm.Tasks.Counting.{WhenSome}

-- A registry that says the same of every slot.
Agree-HasOwners : (g h : Slots) → Agree g h → HasOwners g → HasOwners h
Agree-HasOwners g h a k j d =
    let (v, o) = k j (sym (ap (λ x. x.1) (a j)) ∙ d) in (v, ap (λ x. x.0) (a j) ∙ o)

mark_dirty-HasOwners :
    (id : ℕ) (session : Text) (g : Slots) → HasOwners g → HasOwners (mark_dirty id session g)
mark_dirty-HasOwners id session g h =
    HasOwners-step id g (mark_dirty id session g) h
      (λ j n. hold_of-mark_dirty id j session g ∙ rw (n) refl)
      (inr (
        session,
        ap (λ x. x.0) (hold_of-mark_dirty id id session g) ∙ rw ((nat_eq_iff id id).1 refl) refl,
      ))

-- A dirty slot has an owner, and no slot is listed twice.
abbrev pub IsTidy : Slots → Type 0
IsTidy g = HasOwners g × IsMap g

abbrev pub Owned : {A W : Type 0} → A × Shared W → Type 0
Owned x = IsTidy x.1.router.slots

module _ {W V : Type 0} (J : Json V) (lib : Libraries V) (disk : Disk W) (cache : Cache W)
    (be : Backend W V) (cfg : Config) where
  after_report-Agree :
      (g : Slots) (a : Result (List SlotState) Text × W)
      → Agree g (after_report disk be cfg.backend_sig g a).1.slots
  unfolding after_report
  after_report-Agree g (err e, w) = λ j. refl
  after_report-Agree g (ok arr, w) = (pick_free-Free arr g).0

  dirty_report-Agree :
      (g : Slots) (a : Result (List SlotState) Text × W)
      → Agree g (dirty_report disk be cfg.backend_sig g a).1.slots
  unfolding dirty_report
  dirty_report-Agree g (err e, w) = λ j. refl
  dirty_report-Agree g (ok arr, w) = (pick_dirty-Dirty arr g).0

  wrote-Owned :
      (s : Shared W) (a : Result V Text × W)
      → IsTidy s.router.slots
      → Owned (wrote J lib disk cache be cfg s a)
  unfolding wrote
  wrote-Owned s (ok v, w) h = h
  wrote-Owned s (err e, w) h = h

  moved-Owned :
      (s : Shared W) (a : Bool × W)
      → IsTidy s.router.slots
      → Owned (moved J lib disk cache be cfg s a)
  unfolding moved
  moved-Owned s (true, w) h = h
  moved-Owned s (false, w) h = h

  save_step-Owned :
      (id : ℕ) (session : Text) (p : Save) (s : Shared W)
      → IsTidy s.router.slots
      → WhenSome Owned (save_step J lib disk cache be cfg id session p s)
  unfolding save_step
  save_step-Owned id session queued s h = elim (Option-cases (enter_write s.gate)) [
    | inl n ↦ rw (n, save_step) tt
    | inr (g, e) ↦ rw (e, save_step) h
  ]
  save_step-Owned id session writing s h =
      wrote-Owned s
        (be.save_slot id (scratch_name (blob J lib disk cache be cfg session)) s.router.world) h
  save_step-Owned id session publishing s h =
      moved-Owned s
        (publish disk (scratch_name (blob J lib disk cache be cfg session))
          (blob J lib disk cache be cfg session) s.router.world)
        h
  save_step-Owned id session touching s h = h
  save_step-Owned id session cleaning s (own, map) =
      (mark_clean-HasOwners id s.router.slots own, mark_clean-IsMap id s.router.slots map)

  with_save-Owned :
      (f : Saved → Pc) (o : Option (Saved × Shared W))
      → WhenSome Owned o
      → WhenSome Owned (with_save J lib disk cache be cfg f o)
  with_save-Owned f none h = tt
  with_save-Owned f (some (q, s)) h = h

  looked-Owned :
      (s : Shared W) (d : Bool) (o : Option ℕ)
      → IsTidy s.router.slots
      → Owned (looked J lib disk cache be cfg s d o)
  unfolding looked
  looked-Owned s d none h = h
  looked-Owned s d (some id) h = h

  advance-Owned :
      (t : Turn V) (p : Pc) (s : Shared W)
      → IsTidy s.router.slots
      → WhenSome Owned (advance J lib disk cache be cfg t p s)
  unfolding advance restore_slot
  advance-Owned t waiting s h = elim (Option-cases (enter_read s.gate)) [
    | inl n ↦ rw (n, advance) tt
    | inr (g, e) ↦ rw (e, advance) h
  ]
  advance-Owned t looking s h = h
  advance-Owned t (scanning d) s h = looked-Owned s d (owned_slot t.session s.router.slots) h
  advance-Owned t (asking d) s h = h
  advance-Owned t (picking d r) s (own, map) = (
    Agree-HasOwners s.router.slots
        (after_report disk be cfg.backend_sig s.router.slots (r, s.router.world)).1.slots
        (after_report-Agree s.router.slots (r, s.router.world)) own,
    after_report-IsMap disk be cfg.backend_sig s.router.slots (r, s.router.world) map,
  )
  advance-Owned t (searching d) s h = h
  advance-Owned t (sifting d r) s (own, map) = (
    Agree-HasOwners s.router.slots
        (dirty_report disk be cfg.backend_sig s.router.slots (r, s.router.world)).1.slots
        (dirty_report-Agree s.router.slots (r, s.router.world)) own,
    dirty_report-IsMap disk be cfg.backend_sig s.router.slots (r, s.router.world) map,
  )
  advance-Owned t (evicting d id v p) s h = with_save-Owned _ _ (save_step-Owned id v p s h)
  advance-Owned t (restoring id) s h = h
  advance-Owned t (taking id) s (own, map) = (
    mark_dirty-HasOwners id t.session s.router.slots own,
    mark_dirty-IsMap id t.session s.router.slots map,
  )
  advance-Owned t (sending steer) s h = h
  advance-Owned t (ending id resp) s (own, map) =
      (claim-HasOwners id t.session s.router.slots own, claim-IsMap id t.session s.router.slots map)
  advance-Owned t (saving id resp p) s h = with_save-Owned _ _ (save_step-Owned id t.session p s h)
  advance-Owned t (enforcing resp) s h = h
  advance-Owned t (leaving id resp) s (own, map) = (
    leave-HasOwners J lib disk cache be cfg (some id) s.router own,
    leave-IsMap J lib disk cache be cfg (some id) s.router map,
  )
  advance-Owned t (done resp) s h = tt

  -- If every dirty slot has an owner at the start and no slot is listed twice, then so it is in
  -- every state that any number of requests reach, in any order of their steps.
  pub Reach-IsTidy :
      (turns : ℕ → Turn V) (n : ℕ) (r : Router W) (x : System W)
      → IsTidy r.slots
      → Reach J lib disk cache be cfg turns n (start_of r) x
      → IsTidy x.shared.router.slots
  Reach-IsTidy turns n r x h here = h
  Reach-IsTidy turns n r x h (later {y} a (run i {p} {s} l e)) =
      subst (WhenSome Owned) e
        (advance-Owned (turns i) (y.pc i) y.shared (Reach-IsTidy turns n r y h a))
  Reach-IsTidy turns n r x h (later {y} a (outside w)) = Reach-IsTidy turns n r y h a
