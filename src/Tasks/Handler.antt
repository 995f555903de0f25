-- ===== src/Tasks/Handler.antt =====
-- The steps of a request that is alone, from its match on, against `admission` and `run_turn`.
use o_llm.Common.{
  ℕ, ◌≡◌, refl, ap, Bool, true, false, not, ◌&&◌, Option, none, some, [], arith, if◌then◌else◌,
}
use o_llm.Common.Text.{Text}
use o_llm.Json.{Json}
use o_llm.Key.{blob_name}
use o_llm.Backend.{Backend}
use o_llm.Slots.{owned_slot}
use o_llm.Publish.{Disk, Router, save_slot}
use o_llm.Chat.{
  Cache, Config, Libraries, Response, after_report, dirty_report, forwarded, run_turn, admission,
  settle, steal, after_evict, evict_to_disk, take_slot, restore_if, pick_slot, find_evictable,
}
use o_llm.Tasks.{
  Shared, Turn, returned, waiting, scanning, restoring, taking, sending, done, after_pick,
  after_search, after_victim, looked, advance,
}
use o_llm.Tasks.Alone.{go, step_of, at, Ends, run_alone, save-Ends, chat-Ends, run_alone_enough}

module _ {W V : Type 0} (J : Json V) (lib : Libraries V) (disk : Disk W) (cache : Cache W)
    (be : Backend W V) (cfg : Config) (t : Turn V) where
  abbrev turn_of : Option ℕ × Router W → Response × Router W
  turn_of p = run_turn J lib disk cache be cfg t.takes t.session t.parsed p

  send-Ends :
      (steer : Option ℕ) (r : Router W)
      → Ends J lib disk cache be cfg t
          (sending steer, at J lib disk cache be cfg t r)
          (turn_of (steer, r))
  unfolding advance run_turn
  send-Ends steer r = go refl (
      chat-Ends J lib disk cache be cfg t steer r
        (be.chat (forwarded J lib disk cache be cfg t.parsed steer) r.world))

  take-Ends :
      (b : Bool) (id : ℕ) (r : Router W)
      → Ends J lib disk cache be cfg t
          (if b then restoring id else taking id, at J lib disk cache be cfg t r)
          (turn_of (
            take_slot disk be cfg.backend_sig id t.session
              (restore_if disk be cfg.backend_sig b id t.session r)))
  unfolding advance
  take-Ends true id r = go refl (go refl (send-Ends (some id) _))
  take-Ends false id r = go refl (send-Ends (some id) _)

  victim-Ends :
      (d : Bool) (id : ℕ) (v : Text) (q : Bool × Router W)
      → Ends J lib disk cache be cfg t
          (after_victim d id v (returned q.0), at J lib disk cache be cfg t q.1)
          (turn_of (after_evict disk be cfg.backend_sig d id t.session q))
  unfolding after_evict
  victim-Ends d id v (true, r) = take-Ends d id r
  victim-Ends d id v (false, r) = send-Ends none r

  sift-Ends :
      (d : Bool) (p : Option (ℕ × Option Text) × Router W)
      → Ends J lib disk cache be cfg t
          (after_search d p.0, at J lib disk cache be cfg t p.1)
          (turn_of (steal disk be cfg.backend_sig d t.session p))
  unfolding advance steal evict_to_disk
  sift-Ends d (none, r) = send-Ends none r
  sift-Ends d (some (id, none), r) = victim-Ends d id [] (true, r)
  sift-Ends d (some (id, some v), r) =
      save-Ends J lib disk cache be cfg t (after_victim d id v) id v (λ p s. refl)
        (
          done
              (turn_of (
                after_evict disk be cfg.backend_sig d id t.session
                  (save_slot disk be cfg.backend_sig id v r))).0,
          at J lib disk cache be cfg t
              (turn_of (
                after_evict disk be cfg.backend_sig d id t.session
                  (save_slot disk be cfg.backend_sig id v r))).1,
        )
        r (victim-Ends d id v (save_slot disk be cfg.backend_sig id v r))

  pick-Ends :
      (d : Bool) (p : Option (ℕ × Bool) × Router W)
      → Ends J lib disk cache be cfg t
          (after_pick d p.0, at J lib disk cache be cfg t p.1)
          (turn_of (settle disk be cfg.backend_sig d t.session p))
  unfolding advance settle find_evictable
  pick-Ends d (none, r) =
      go refl
        (go refl (sift-Ends d (dirty_report disk be cfg.backend_sig r.slots (be.slots r.world))))
  pick-Ends d (some (id, hot), r) = take-Ends (d && not hot) id r

  match-Ends :
      (r : Router W)
      → Ends J lib disk cache be cfg t
          (waiting, at J lib disk cache be cfg t r)
          (turn_of (admission disk be cfg.backend_sig t.session r))
  unfolding advance admission pick_slot looked
  match-Ends r = go refl (go refl (by_owned (owned_slot t.session r.slots) refl))
    where
      d : Bool
      d = disk.exists (blob_name t.session cfg.backend_sig) r.world

      matching : Shared W
      matching = record { router = r; gate = record { readers = 1; writing = false } }

      seen :
          {o : Option ℕ}
          → owned_slot t.session r.slots ≡ o
          → step_of J lib disk cache be cfg t (scanning d, matching)
            ≡ some (looked J lib disk cache be cfg matching d o)
      seen e = ap (λ o. some (looked J lib disk cache be cfg matching d o)) e

      by_owned :
          (o : Option ℕ)
          → owned_slot t.session r.slots ≡ o
          → Ends J lib disk cache be cfg t
              (scanning d, matching)
              (turn_of (
                settle disk be cfg.backend_sig d t.session
                  (elim o as (λ x. Option (ℕ × Bool) × Router W) [
                    | some id ↦ (some (id, true), r)
                    | none ↦ after_report disk be cfg.backend_sig r.slots (be.slots r.world)
                  ])))
      by_owned none e = go (seen e) (
          go refl (
            go refl
              (pick-Ends d (after_report disk be cfg.backend_sig r.slots (be.slots r.world)))))
      by_owned (some id) e = go (seen e) (pick-Ends d (some (id, true), r))

  -- Twenty-three steps of a request that is alone do what `admission` and `run_turn` do in one
  -- sequence, end it, and leave the gate open.
  pub run_alone-run_turn :
      (r : Router W)
      → run_alone J lib disk cache be cfg t 23 (waiting, at J lib disk cache be cfg t r) ≡ (
        done (turn_of (admission disk be cfg.backend_sig t.session r)).0,
        at J lib disk cache be cfg t (turn_of (admission disk be cfg.backend_sig t.session r)).1,
      )
  run_alone-run_turn r =
      run_alone_enough J lib disk cache be cfg t (waiting, at J lib disk cache be cfg t r)
        (turn_of (admission disk be cfg.backend_sig t.session r)) 23 (match-Ends r) (omega arith)
