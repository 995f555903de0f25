-- ===== src/Tasks/Alone.antt =====
-- One request with nobody else about: its steps, one after the other, are the handler as a
-- sequence in `Chat`.
use o_llm.Common.{
  ℕ, zero, suc, ◌≤◌, ◌<◌, ◌≡◌, refl, ap, subst, ◌∙◌, Bool, true, false, not, ◌&&◌, Option, none,
  some, [], ◌∷◌, arith, Result, ok, err, if◌then◌else◌, get_or,
}
use o_llm.Common.Text.{Text, codes}
use o_llm.Json.{Json}
use o_llm.Key.{blob_name}
use o_llm.Backend.{ChatOutcome, Backend}
use o_llm.Slots.{claim}
use o_llm.Publish.{
  Disk, bump_mtime, Router, publish, scratch_name, save_slot, after_save, after_publish,
}
use o_llm.Chat.{
  Cache, Config, Libraries, Response, error_body, body, Pumped, pump, collect_body, drain,
  status_code, is_success, leave, finish, bool_of, after_pump, relay, after_chat,
}
use o_llm.Tasks.{
  Shared, Turn, Save, queued, writing, publishing, touching, cleaning, Saved, pending, returned, Pc,
  ending, done, after_final, end_of, leave_of, pumped_of, wrote, moved, save_step, relayed,
  with_save, advance,
}
use o_llm.Tasks.System.{open_gate}
use o_llm.Tasks.Counting.{WhenSome}
use o_llm.Tasks.Progress.{rank, Nearer, advance-Nearer}

module _ {W V : Type 0} (J : Json V) (lib : Libraries V) (disk : Disk W) (cache : Cache W)
    (be : Backend W V) (cfg : Config) (t : Turn V) where
  abbrev pub step_of : Pc × Shared W → Option (Pc × Shared W)
  step_of x = advance J lib disk cache be cfg t x.0 x.1

  -- The task alone, for at most so many steps.
  unfoldable pub run_alone : ℕ → Pc × Shared W → Pc × Shared W
  run_alone zero x = x
  run_alone (suc k) x = elim (step_of x) [ none ↦ x | some y ↦ run_alone k y ]

  pub data Alone (z : Pc × Shared W) : Pc × Shared W → Type 0 where
    over : Alone z z
    go : {x y : Pc × Shared W} → step_of x ≡ some y → Alone z y → Alone z x

  -- With nobody in the gate.
  abbrev pub at : Router W → Shared W
  at r = record { router = r; gate = open_gate }

  abbrev pub Ends : Pc × Shared W → Response × Router W → Type 0
  Ends x q = Alone (done q.0, at q.1) x

  abbrev in_gate : Router W → Shared W
  in_gate r = record { router = r; gate = record { readers = 0; writing = true } }

  -- A save inside a task whose place is `f` of the save's.
  module _ (f : Saved → Pc) (id : ℕ) (session : Text)
      (inside : (p : Save) (s : Shared W)
        → advance J lib disk cache be cfg t (f (pending p)) s
          ≡ with_save J lib disk cache be cfg f (save_step J lib disk cache be cfg id session p s))
      (z : Pc × Shared W) where
    abbrev After : Bool × Router W → Type 0
    After q = Alone z (f (returned q.0), at q.1)

    published-Ends :
        (r : Router W) (b : Bool × W)
        → After
            (after_publish disk be cfg.backend_sig id (blob_name session cfg.backend_sig) r.slots b)
        → (w : W)
        → publish disk
            (scratch_name (blob_name session cfg.backend_sig))
            (blob_name session cfg.backend_sig)
            w
          ≡ b
        → Alone z (f (pending publishing), in_gate (record r { world = w }))
    unfolding save_step after_publish moved
    published-Ends r (true, w') a w e =
        go (inside publishing (in_gate (record r { world = w })) ∙ rw (e) refl) (
          go (inside touching (in_gate (record r { world = w' }))) (
            go
              (inside cleaning (
                in_gate
                  (record r { world = bump_mtime disk (blob_name session cfg.backend_sig) w' })))
              a))
    published-Ends r (false, w') a w e =
        go (inside publishing (in_gate (record r { world = w })) ∙ rw (e) refl) a

    written-Ends :
        (r : Router W) (b : Result V Text × W)
        → be.save_slot id (scratch_name (blob_name session cfg.backend_sig)) r.world ≡ b
        → After
            (after_save disk be cfg.backend_sig id (blob_name session cfg.backend_sig) r.slots b)
        → Alone z (f (pending writing), in_gate r)
    unfolding save_step after_save wrote
    written-Ends r (ok v, w) e a = go (inside writing (in_gate r) ∙ rw (e) refl) (
        published-Ends r
          (publish disk (scratch_name (blob_name session cfg.backend_sig))
            (blob_name session cfg.backend_sig) w)
          a w refl)
    written-Ends r (err x, w) e a = go (inside writing (in_gate r) ∙ rw (e) refl) a

    pub save-Ends :
        (r : Router W)
        → After (save_slot disk be cfg.backend_sig id session r)
        → Alone z (f (pending queued), at r)
    unfolding save_step save_slot
    save-Ends r a = go (inside queued (at r)) (
        written-Ends r (be.save_slot id (scratch_name (blob_name session cfg.backend_sig)) r.world)
          refl a)

  finish-Ends :
      (id : ℕ) (resp : Response) (r : Router W)
      → Ends (ending id resp, at r) (resp, finish J lib disk cache be cfg (some id) t.session r)
  unfolding advance finish
  finish-Ends id resp r = go refl (
      save-Ends (after_final id resp) id t.session (λ p s. refl)
        (done resp, at (finish J lib disk cache be cfg (some id) t.session r))
        (record r { slots = claim id t.session r.slots }) (go refl over))

  end-Ends :
      (steer : Option ℕ) (resp : Response) (r : Router W)
      → Ends (end_of steer resp, at r) (resp, finish J lib disk cache be cfg steer t.session r)
  unfolding finish
  end-Ends none resp r = over
  end-Ends (some id) resp r = finish-Ends id resp r

  leave-Ends :
      (steer : Option ℕ) (resp : Response) (r : Router W)
      → Ends (leave_of steer resp, at r) (resp, leave J lib disk cache be cfg steer r)
  unfolding advance leave
  leave-Ends none resp r = over
  leave-Ends (some id) resp r = go refl over

  pumped-Ends :
      (steer : Option ℕ) (resp : Response) (p : Pumped) (r : Router W)
      → Ends
          (pumped_of steer resp p, at r)
          (resp, after_pump J lib disk cache be cfg steer t.session p r)
  unfolding after_pump
  pumped-Ends steer resp p r = by_flags (not p.failed && not p.disconnected) p.disconnected
    where
      by_flags :
          (a b : Bool)
          → Ends
              (
                if a then end_of steer resp else (if b then leave_of steer resp else done resp),
                at r,
              )
              (
                resp,
                if a
                    then finish J lib disk cache be cfg steer t.session r
                    else (if b then leave J lib disk cache be cfg steer r else r),
              )
      by_flags true b = end-Ends steer resp r
      by_flags false true = leave-Ends steer resp r
      by_flags false false = over

  abbrev pub streamed : Bool
  streamed = get_or (bool_of J lib disk cache be cfg (J.get t.parsed (codes "stream"))) false

  pub chat-Ends :
      (steer : Option ℕ) (r : Router W) (a : Result ChatOutcome Text × W)
      → Ends
          (relayed J lib disk cache be cfg t steer a.0, at (record r { world = a.1 }))
          (after_chat J lib disk cache be cfg streamed t.takes steer t.session r.slots a)
  unfolding relayed after_chat relay
  chat-Ends steer r (err e, w) = over
  chat-Ends steer r (ok o, w) = by_tests (is_success (status_code o.status)) streamed
    where
      status : ℕ
      status = status_code o.status

      p : Pumped
      p = pump t.takes o.stream

      whole : Response
      whole = body status (collect_body o.stream ∷ [])

      failed : Response
      failed = error_body status (lib.from_utf8_lossy (drain o.stream))

      left : Router W
      left = record r { world = w }

      by_tests :
          (a b : Bool)
          → Ends
              (
                if a
                    then (if b then pumped_of steer (body status p.sent) p else end_of steer whole)
                    else done failed,
                at left,
              )
              (if a
                then (if b
                    then (
                      body status p.sent,
                      after_pump J lib disk cache be cfg steer t.session p left,
                    )
                    else (whole, finish J lib disk cache be cfg steer t.session left))
                else (failed, left))
      by_tests true true = pumped-Ends steer (body status p.sent) p left
      by_tests true false = end-Ends steer whole left
      by_tests false b = over

  -- Enough fuel follows a task to its end.
  nearer : (x y : Pc × Shared W) → step_of x ≡ some y → rank y.0 < rank x.0
  nearer x y e =
      subst (WhenSome (Nearer J lib disk cache be cfg (rank x.0))) e
        (advance-Nearer J lib disk cache be cfg t x.0 x.1)

  pub run_alone_enough :
      (x : Pc × Shared W) (q : Response × Router W) (k : ℕ)
      → Ends x q
      → rank x.0 ≤ k
      → run_alone k x ≡ (done q.0, at q.1)
  unfolding run_alone advance
  run_alone_enough x q zero over h = refl
  run_alone_enough x q (suc k) over h = refl
  run_alone_enough x q zero (go {y} e a) h = absurd (let l = nearer x y e in omega arith)
  run_alone_enough x q (suc k) (go {y} e a) h =
      let l = nearer x y e in
      ap (λ o. elim o as (λ _. Pc × Shared W) [ none ↦ x | some y ↦ run_alone k y ]) e
      ∙ run_alone_enough y q k a (omega arith)
