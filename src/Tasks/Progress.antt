-- ===== src/Tasks/Progress.antt =====
-- Every request comes to its end: a task has a bounded number of steps, and some task can always
-- make its next one.
use o_llm.Common.{
  ℕ, ◌+◌, ◌≤◌, ◌<◌, inl, inr, Bool, true, false, not, ◌&&◌, Option, none, some, [], ◌∷◌, arith,
  Result, ok, err, Option-cases, if◌then◌else◌, get_or,
}
use o_llm.Common.Text.{Text, codes}
use o_llm.Json.{Json}
use o_llm.Backend.{ChatOutcome, Backend}
use o_llm.Slots.{owned_slot}
use o_llm.Publish.{Disk, publish, scratch_name}
use o_llm.Chat.{
  Cache, Config, Libraries, Response, Pumped, after_report, dirty_report, is_success, status_code,
  pump, bool_of, body, error_body, collect_body, drain, forwarded,
}
use o_llm.Tasks.{
  Shared, Turn, Save, queued, writing, publishing, touching, cleaning, Saved, pending, returned, Pc,
  waiting, looking, scanning, asking, picking, searching, sifting, evicting, restoring, taking,
  sending, ending, saving, enforcing, leaving, done, enter_read, enter_write, after_pick,
  after_search, after_victim, after_final, end_of, leave_of, pumped_of, wrote, moved, save_step,
  relayed, looked, with_save, advance, blob,
}
use o_llm.Tasks.Counting.{WhenSome}

-- How many steps a task has left at most.
abbrev pub save_rank : Save → ℕ
save_rank queued = 5
save_rank writing = 4
save_rank publishing = 3
save_rank touching = 2
save_rank cleaning = 1

abbrev pub rank : Pc → ℕ
rank waiting = 23
rank looking = 22
rank (scanning _) = 21
rank (asking _) = 20
rank (picking _ _) = 19
rank (searching _) = 18
rank (sifting _ _) = 17
rank (evicting _ _ _ p) = 11 + save_rank p
rank (restoring _) = 11
rank (taking _) = 10
rank (sending _) = 9
rank (ending _ _) = 8
rank (saving _ _ p) = 2 + save_rank p
rank (enforcing _) = 2
rank (leaving _ _) = 1
rank (done _) = 0

abbrev IsBelow : ℕ → Pc → Type 0
IsBelow k p = rank p < k

if-IsBelow :
    (k : ℕ) (b : Bool) (p q : Pc) → IsBelow k p → IsBelow k q → IsBelow k (if b then p else q)
if-IsBelow k true p q h l = h
if-IsBelow k false p q h l = l

after_pick-IsBelow : (d : Bool) (o : Option (ℕ × Bool)) → IsBelow 19 (after_pick d o)
after_pick-IsBelow d none = omega arith
after_pick-IsBelow d (some (id, hot)) =
    if-IsBelow 19 (d && not hot) (restoring id) (taking id) (omega arith) (omega arith)

after_search-IsBelow : (d : Bool) (o : Option (ℕ × Option Text)) → IsBelow 17 (after_search d o)
after_search-IsBelow d none = omega arith
after_search-IsBelow d (some (id, none)) =
    if-IsBelow 17 d (restoring id) (taking id) (omega arith) (omega arith)
after_search-IsBelow d (some (id, some v)) = omega arith

end_of-IsBelow : (o : Option ℕ) (resp : Response) → IsBelow 9 (end_of o resp)
end_of-IsBelow none resp = omega arith
end_of-IsBelow (some id) resp = omega arith

leave_of-IsBelow : (o : Option ℕ) (resp : Response) → IsBelow 9 (leave_of o resp)
leave_of-IsBelow none resp = omega arith
leave_of-IsBelow (some id) resp = omega arith

pumped_of-IsBelow : (o : Option ℕ) (resp : Response) (p : Pumped) → IsBelow 9 (pumped_of o resp p)
pumped_of-IsBelow o resp p =
    if-IsBelow 9 (not p.failed && not p.disconnected) (end_of o resp)
      (if p.disconnected then leave_of o resp else done resp) (end_of-IsBelow o resp)
      (if-IsBelow 9 p.disconnected (leave_of o resp) (done resp) (leave_of-IsBelow o resp)
        (omega arith))

-- The task's rank after its save, from the save's.
abbrev saved_rank : Saved → ℕ
saved_rank (pending p) = save_rank p
saved_rank (returned b) = 0

save_rank-positive : (p : Save) → 1 ≤ save_rank p
save_rank-positive queued = omega arith
save_rank-positive writing = omega arith
save_rank-positive publishing = omega arith
save_rank-positive touching = omega arith
save_rank-positive cleaning = omega arith

after_victim-IsBelow :
    (d : Bool) (id : ℕ) (v : Text) (p : Save) (q : Saved)
    → saved_rank q < save_rank p
    → IsBelow (11 + save_rank p) (after_victim d id v q)
after_victim-IsBelow d id v p (returned b) h =
    if-IsBelow (11 + save_rank p) b (if d then restoring id else taking id) (sending none)
      (if-IsBelow (11 + save_rank p) d (restoring id) (taking id) (omega arith) (omega arith))
      (omega arith)
after_victim-IsBelow d id v p (pending q) h = omega arith

after_final-IsBelow :
    (id : ℕ) (resp : Response) (p : Save) (q : Saved)
    → saved_rank q < save_rank p
    → IsBelow (2 + save_rank p) (after_final id resp q)
after_final-IsBelow id resp p (returned b) h = omega arith
after_final-IsBelow id resp p (pending q) h = omega arith

module _ {W V : Type 0} (J : Json V) (lib : Libraries V) (disk : Disk W) (cache : Cache W)
    (be : Backend W V) (cfg : Config) where
  abbrev Less : Save → Saved × Shared W → Type 0
  Less p x = saved_rank x.0 < save_rank p

  wrote-Less :
      (s : Shared W) (a : Result V Text × W) → Less writing (wrote J lib disk cache be cfg s a)
  unfolding wrote
  wrote-Less s (ok v, w) = omega arith
  wrote-Less s (err e, w) = omega arith

  moved-Less : (s : Shared W) (a : Bool × W) → Less publishing (moved J lib disk cache be cfg s a)
  unfolding moved
  moved-Less s (true, w) = omega arith
  moved-Less s (false, w) = omega arith

  save_step-Less :
      (id : ℕ) (session : Text) (p : Save) (s : Shared W)
      → WhenSome (Less p) (save_step J lib disk cache be cfg id session p s)
  unfolding save_step
  save_step-Less id session queued s = elim (Option-cases (enter_write s.gate)) [
    | inl n ↦ rw (n, save_step) tt
    | inr (g, e) ↦ rw (e, save_step) (omega arith)
  ]
  save_step-Less id session writing s =
      wrote-Less s
        (be.save_slot id (scratch_name (blob J lib disk cache be cfg session)) s.router.world)
  save_step-Less id session publishing s = moved-Less s (
      publish disk (scratch_name (blob J lib disk cache be cfg session))
        (blob J lib disk cache be cfg session) s.router.world)
  save_step-Less id session touching s = omega arith
  save_step-Less id session cleaning s = omega arith

  abbrev pub Nearer : ℕ → Pc × Shared W → Type 0
  Nearer k x = IsBelow k x.0

  with_save-Nearer :
      (k : ℕ) (p : Save) (f : Saved → Pc) (o : Option (Saved × Shared W))
      → ((q : Saved) → saved_rank q < save_rank p → IsBelow k (f q))
      → WhenSome (Less p) o
      → WhenSome (Nearer k) (with_save J lib disk cache be cfg f o)
  with_save-Nearer k p f none h l = tt
  with_save-Nearer k p f (some (q, s)) h l = h q l

  relayed-IsBelow :
      (t : Turn V) (steer : Option ℕ) (r : Result ChatOutcome Text)
      → IsBelow 9 (relayed J lib disk cache be cfg t steer r)
  unfolding relayed
  relayed-IsBelow t steer (err e) = omega arith
  relayed-IsBelow t steer (ok o) =
      let status = status_code o.status in
      let p = pump t.takes o.stream in
      let streamed =
        get_or (bool_of J lib disk cache be cfg (J.get t.parsed (codes "stream"))) false in
      let a = pumped_of steer (body status p.sent) p in
      let b = end_of steer (body status (collect_body o.stream ∷ [])) in
      if-IsBelow 9 (is_success status) (if streamed then a else b)
        (done (error_body status (lib.from_utf8_lossy (drain o.stream))))
        (if-IsBelow 9 streamed a b (pumped_of-IsBelow steer (body status p.sent) p)
          (end_of-IsBelow steer (body status (collect_body o.stream ∷ []))))
        (omega arith)

  looked-Nearer :
      (s : Shared W) (d : Bool) (o : Option ℕ) → Nearer 21 (looked J lib disk cache be cfg s d o)
  unfolding looked
  looked-Nearer s d none = omega arith
  looked-Nearer s d (some id) = omega (arith, after_pick-IsBelow d (some (id, true)))

  pub advance-Nearer :
      (t : Turn V) (p : Pc) (s : Shared W)
      → WhenSome (Nearer (rank p)) (advance J lib disk cache be cfg t p s)
  unfolding advance
  advance-Nearer t waiting s = elim (Option-cases (enter_read s.gate)) [
    | inl n ↦ rw (n, advance) tt
    | inr (g, e) ↦ rw (e, advance) (omega arith)
  ]
  advance-Nearer t looking s = omega arith
  advance-Nearer t (scanning d) s = looked-Nearer s d (owned_slot t.session s.router.slots)
  advance-Nearer t (asking d) s = omega arith
  advance-Nearer t (picking d r) s =
      after_pick-IsBelow d
        (after_report disk be cfg.backend_sig s.router.slots (r, s.router.world)).0
  advance-Nearer t (searching d) s = omega arith
  advance-Nearer t (sifting d r) s =
      after_search-IsBelow d
        (dirty_report disk be cfg.backend_sig s.router.slots (r, s.router.world)).0
  advance-Nearer t (evicting d id v p) s =
      with_save-Nearer (11 + save_rank p) p (after_victim d id v)
        (save_step J lib disk cache be cfg id v p s) (λ q l. after_victim-IsBelow d id v p q l)
        (save_step-Less id v p s)
  advance-Nearer t (restoring id) s = omega arith
  advance-Nearer t (taking id) s = omega arith
  advance-Nearer t (sending steer) s =
      relayed-IsBelow t steer
        (be.chat (forwarded J lib disk cache be cfg t.parsed steer) s.router.world).0
  advance-Nearer t (ending id resp) s = omega arith
  advance-Nearer t (saving id resp p) s =
      with_save-Nearer (2 + save_rank p) p (after_final id resp)
        (save_step J lib disk cache be cfg id t.session p s)
        (λ q l. after_final-IsBelow id resp p q l) (save_step-Less id t.session p s)
  advance-Nearer t (enforcing resp) s = omega arith
  advance-Nearer t (leaving id resp) s = omega arith
  advance-Nearer t (done resp) s = tt
