-- ===== src/Tasks/Moves.antt =====
-- What each step of a task does to the gate.
use o_llm.Common.{
  ℕ, ◌≤◌, ◌≡◌, refl, sym, subst, ◌∙◌, Bool, true, false, Option, none, some, [], ◌∷◌, Result, ok,
  err, if◌then◌else◌, get_or,
}
use o_llm.Common.Text.{Text, codes}
use o_llm.Json.{Json}
use o_llm.Backend.{ChatOutcome, Backend}
use o_llm.Slots.{owned_slot}
use o_llm.Publish.{Disk, publish, scratch_name}
use o_llm.Chat.{
  Cache, Config, Libraries, after_report, dirty_report, is_success, status_code, pump, bool_of,
  body, error_body, collect_body, drain, forwarded,
}
use o_llm.Tasks.{
  Gate, Shared, Turn, Save, queued, writing, publishing, touching, cleaning, Saved, pending, Pc,
  waiting, looking, scanning, asking, picking, searching, sifting, evicting, restoring, taking,
  sending, ending, saving, enforcing, leaving, done, enter_read, enter_write, after_search,
  after_victim, after_final, end_of, pumped_of, wrote, moved, save_step, relayed, looked, with_save,
  advance, blob,
}
use o_llm.Tasks.Counting.{
  reads, holds, held, writes, bit, WhenSome, IsMove, stay, enter_read-IsMove, enter_write-IsMove,
  release_read-IsMove, release_write-IsMove, IsQuiet, if-IsQuiet, after_pick-IsQuiet,
  after_search-IsQuiet, end_of-IsQuiet, pumped_of-IsQuiet, after_victim-counts, after_final-counts,
  retarget,
}

module _ {W V : Type 0} (J : Json V) (lib : Libraries V) (disk : Disk W) (cache : Cache W)
    (be : Backend W V) (cfg : Config) where
  abbrev SaveMove : Save → Shared W → Saved × Shared W → Type 0
  SaveMove p s x = IsMove s.gate x.1.gate 0 (holds p) 0 (held x.0)

  wrote-SaveMove :
      (s : Shared W) (a : Result V Text × W)
      → 1 ≤ bit s.gate.writing
      → SaveMove writing s (wrote J lib disk cache be cfg s a)
  unfolding wrote
  wrote-SaveMove s (ok v, w) h = stay s.gate 0 1 0 1 refl refl
  wrote-SaveMove s (err e, w) h = release_write-IsMove s.gate h

  moved-SaveMove :
      (s : Shared W) (a : Bool × W)
      → 1 ≤ bit s.gate.writing
      → SaveMove publishing s (moved J lib disk cache be cfg s a)
  unfolding moved
  moved-SaveMove s (true, w) h = stay s.gate 0 1 0 1 refl refl
  moved-SaveMove s (false, w) h = release_write-IsMove s.gate h

  entered-SaveMove :
      (s : Shared W) (o : Option Gate)
      → WhenSome (λ g. IsMove s.gate g 0 0 0 1) o
      → WhenSome (SaveMove queued s) (elim o as (λ x. Option (Saved × Shared W)) [
        | none ↦ none
        | some g ↦ some (pending writing, record s { gate = g })
      ])
  entered-SaveMove s none h = tt
  entered-SaveMove s (some g) h = h

  save_step-SaveMove :
      (id : ℕ) (session : Text) (p : Save) (s : Shared W)
      → holds p ≤ bit s.gate.writing
      → WhenSome (SaveMove p s) (save_step J lib disk cache be cfg id session p s)
  unfolding save_step
  save_step-SaveMove id session queued s h =
      entered-SaveMove s (enter_write s.gate) (enter_write-IsMove s.gate)
  save_step-SaveMove id session writing s h =
      wrote-SaveMove s
        (be.save_slot id (scratch_name (blob J lib disk cache be cfg session)) s.router.world) h
  save_step-SaveMove id session publishing s h =
      moved-SaveMove s
        (publish disk (scratch_name (blob J lib disk cache be cfg session))
          (blob J lib disk cache be cfg session) s.router.world)
        h
  save_step-SaveMove id session touching s h = stay s.gate 0 1 0 1 refl refl
  save_step-SaveMove id session cleaning s h = release_write-IsMove s.gate h

  abbrev pub TaskMove : Pc → Shared W → Pc × Shared W → Type 0
  TaskMove p s x = IsMove s.gate x.1.gate (reads p) (writes p) (reads x.0) (writes x.0)

  with_save-TaskMove :
      (q : Pc) (p : Save) (f : Saved → Pc) (s : Shared W) (o : Option (Saved × Shared W))
      → 0 ≡ reads q
      → holds p ≡ writes q
      → ((x : Saved) → (0 ≡ reads (f x)) × (held x ≡ writes (f x)))
      → WhenSome (SaveMove p s) o
      → WhenSome (TaskMove q s) (with_save J lib disk cache be cfg f o)
  with_save-TaskMove q p f s none a b k h = tt
  with_save-TaskMove q p f s (some (x, s')) a b k h =
      subst (λ n. IsMove s.gate s'.gate n (writes q) (reads (f x)) (writes (f x))) a
        (subst (λ n. IsMove s.gate s'.gate 0 n (reads (f x)) (writes (f x))) b
          (retarget h (k x).0 (k x).1))

  -- A step that does not touch the gate.
  quiet :
      (s : Shared W) (p : Pc) (q : Pc)
      → IsQuiet p
      → IsQuiet q
      → IsMove s.gate s.gate (reads p) (writes p) (reads q) (writes q)
  quiet s p q (a, b) (c, d) =
      stay s.gate (reads p) (writes p) (reads q) (writes q) (sym a ∙ c) (sym b ∙ d)

  relayed-IsQuiet :
      (t : Turn V) (steer : Option ℕ) (r : Result ChatOutcome Text)
      → IsQuiet (relayed J lib disk cache be cfg t steer r)
  unfolding relayed
  relayed-IsQuiet t steer (err e) = (refl, refl)
  relayed-IsQuiet t steer (ok o) =
      let status = status_code o.status in
      let p = pump t.takes o.stream in
      let streamed =
        get_or (bool_of J lib disk cache be cfg (J.get t.parsed (codes "stream"))) false in
      let a = pumped_of steer (body status p.sent) p in
      let b = end_of steer (body status (collect_body o.stream ∷ [])) in
      if-IsQuiet (is_success status) (if streamed then a else b)
        (done (error_body status (lib.from_utf8_lossy (drain o.stream))))
        (if-IsQuiet streamed a b (pumped_of-IsQuiet steer (body status p.sent) p)
          (end_of-IsQuiet steer (body status (collect_body o.stream ∷ []))))
        (refl, refl)

  looked-TaskMove :
      (s : Shared W) (disk_hit : Bool) (o : Option ℕ)
      → 1 ≤ s.gate.readers
      → TaskMove (scanning disk_hit) s (looked J lib disk cache be cfg s disk_hit o)
  unfolding looked
  looked-TaskMove s disk_hit none h = stay s.gate 1 0 1 0 refl refl
  looked-TaskMove s disk_hit (some id) h =
      retarget (release_read-IsMove s.gate h) (after_pick-IsQuiet disk_hit (some (id, true))).0
        (after_pick-IsQuiet disk_hit (some (id, true))).1

  read-TaskMove :
      (s : Shared W) (o : Option Gate)
      → WhenSome (λ g. IsMove s.gate g 0 0 1 0) o
      → WhenSome (TaskMove waiting s) (elim o as (λ x. Option (Pc × Shared W)) [
        | none ↦ none
        | some g ↦ some (looking, record s { gate = g })
      ])
  read-TaskMove s none h = tt
  read-TaskMove s (some g) h = h

  -- A step moves the gate's counts by as much as the task's, if the task is counted before it.
  pub advance-TaskMove :
      (t : Turn V) (p : Pc) (s : Shared W)
      → reads p ≤ s.gate.readers
      → writes p ≤ bit s.gate.writing
      → WhenSome (TaskMove p s) (advance J lib disk cache be cfg t p s)
  unfolding advance
  advance-TaskMove t waiting s h k = read-TaskMove s (enter_read s.gate) (enter_read-IsMove s.gate)
  advance-TaskMove t looking s h k = stay s.gate 1 0 1 0 refl refl
  advance-TaskMove t (scanning d) s h k =
      looked-TaskMove s d (owned_slot t.session s.router.slots) h
  advance-TaskMove t (asking d) s h k = stay s.gate 1 0 1 0 refl refl
  advance-TaskMove t (picking d r) s h k =
      let q =
        after_pick-IsQuiet d
          (after_report disk be cfg.backend_sig s.router.slots (r, s.router.world)).0 in
      retarget (release_read-IsMove s.gate h) q.0 q.1
  advance-TaskMove t (searching d) s h k = stay s.gate 0 0 0 0 refl refl
  advance-TaskMove t (sifting d r) s h k =
      let o = (dirty_report disk be cfg.backend_sig s.router.slots (r, s.router.world)).0 in
      quiet s (sifting d r) (after_search d o) (refl, refl) (after_search-IsQuiet d o)
  advance-TaskMove t (evicting d id v p) s h k =
      with_save-TaskMove (evicting d id v p) p (after_victim d id v) s
        (save_step J lib disk cache be cfg id v p s) refl refl (after_victim-counts d id v)
        (save_step-SaveMove id v p s k)
  advance-TaskMove t (restoring id) s h k = stay s.gate 0 0 0 0 refl refl
  advance-TaskMove t (taking id) s h k = stay s.gate 0 0 0 0 refl refl
  advance-TaskMove t (sending steer) s h k =
      let r = (be.chat (forwarded J lib disk cache be cfg t.parsed steer) s.router.world).0 in
      quiet s (sending steer) (relayed J lib disk cache be cfg t steer r) (refl, refl)
        (relayed-IsQuiet t steer r)
  advance-TaskMove t (ending id resp) s h k = stay s.gate 0 0 0 0 refl refl
  advance-TaskMove t (saving id resp p) s h k =
      with_save-TaskMove (saving id resp p) p (after_final id resp) s
        (save_step J lib disk cache be cfg id t.session p s) refl refl (after_final-counts id resp)
        (save_step-SaveMove id t.session p s k)
  advance-TaskMove t (enforcing resp) s h k = stay s.gate 0 0 0 0 refl refl
  advance-TaskMove t (leaving id resp) s h k = stay s.gate 0 0 0 0 refl refl
  advance-TaskMove t (done resp) s h k = tt
