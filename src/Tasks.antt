-- ===== src/Tasks.antt =====
-- The handler of src/lib.rs, `chat_completions`, as tasks that interleave. A task runs from one
-- `await` on the backend, the disk or a lock to the next; what lies between is one step. The gate is
-- `App::write_gate`: the match of a request holds it shared, a save holds it exclusively. A request
-- may take it shared whenever no save is inside, though tokio makes it wait behind a save that waits.
-- The relay of a stream touches nothing that is shared, so it is one step with the chat call.
pub mod System
pub mod Counting
pub mod Moves
pub mod Exclusion
pub mod Progress
pub mod Completion
pub mod Owners
pub mod Alone
pub mod Handler
pub mod Race
mod Examples
use o_llm.Common.{
  ℕ, ◌+◌, ◌-◌, Bool, true, false, not, ◌&&◌, ◌||◌, Option, none, some, List, [], ◌∷◌, Result, ok,
  err, is_ok, nat_eq, get_or, if◌then◌else◌,
}
use o_llm.Common.Text.{Text, codes}
use o_llm.Json.{Json}
use o_llm.Key.{blob_name}
use o_llm.Backend.{SlotState, ChatOutcome, Backend}
use o_llm.Slots.{owned_slot, mark_dirty, mark_clean, claim}
use o_llm.Publish.{bump_mtime, Disk, Router, publish, scratch_name, restore_slot}
use o_llm.Chat.{
  Cache, Config, Libraries, Response, error_body, body, Pumped, pump, collect_body, drain,
  status_code, is_success, after_report, dirty_report, leave, enforce, forwarded, bool_of,
}

-- `RwLock<()>`
pub record Gate : Type 0 where
  pub readers : ℕ
  pub writing : Bool

-- What the tasks share.
pub record Shared (W : Type 0) : Type 0 where
  pub router : Router W
  pub gate : Gate

-- What a request brings, and how many chunks of a stream its client takes.
pub record Turn (V : Type 0) : Type 0 where
  pub session : Text
  pub parsed : V
  pub takes : ℕ

-- Where a call of `save_slot` stands: before the gate; before the backend's save; before the
-- closure that publishes; before the blob's time is set; before the slot is marked clean.
pub data Save : Type 0 where
  queued : Save
  writing : Save
  publishing : Save
  touching : Save
  cleaning : Save

-- A call that goes on, or has returned.
pub data Saved : Type 0 where
  pending : Save → Saved
  returned : Bool → Saved

-- Where a request stands, with the locals that are live there.
pub data Pc : Type 0 where
  waiting : Pc  -- before `write_gate.read()`
  looking : Pc  -- in the gate, before the look at the disk
  scanning : (disk_hit : Bool) → Pc  -- in the gate, before the scan of the registry
  asking : (disk_hit : Bool) → Pc  -- in the gate, before `backend.slots()` of `pick_slot`
  picking : (disk_hit : Bool) → Result (List SlotState) Text → Pc  -- in the gate, before its scan
  searching : (disk_hit : Bool) → Pc  -- before `backend.slots()` of `find_evictable`
  sifting : (disk_hit : Bool) → Result (List SlotState) Text → Pc  -- before its scan
  evicting : (disk_hit : Bool) → (id : ℕ) → (victim : Text) → Save → Pc  -- in the victim's save
  restoring : (id : ℕ) → Pc  -- before `restore_slot`
  taking : (id : ℕ) → Pc  -- before `mark_dirty`
  sending : (steer : Option ℕ) → Pc  -- before `backend.chat`
  ending : (id : ℕ) → Response → Pc  -- before the claim at the end of the turn
  saving : (id : ℕ) → Response → Save → Pc  -- in the save at the end of the turn
  enforcing : Response → Pc  -- before `enforce_limit`
  leaving : (id : ℕ) → Response → Pc  -- before an abandoned slot is given up
  done : Response → Pc

abbrev pub release_read : Gate → Gate
release_read g = record g { readers = g.readers - 1 }

-- `read()` and `write()`; `none` is a task that waits.
abbrev pub enter_read : Gate → Option Gate
enter_read g = if g.writing then none else some (record g { readers = g.readers + 1 })

abbrev pub enter_write : Gate → Option Gate
enter_write g =
    if g.writing || not (nat_eq g.readers 0) then none else some (record g { writing = true })

abbrev pub release_write : Gate → Gate
release_write g = record g { writing = false }

-- What follows the choice of a slot, and the victim's save.
abbrev pub after_pick : Bool → Option (ℕ × Bool) → Pc
after_pick disk_hit none = searching disk_hit
after_pick disk_hit (some (id, hot)) = if disk_hit && not hot then restoring id else taking id

abbrev pub after_search : Bool → Option (ℕ × Option Text) → Pc
after_search disk_hit none = sending none
after_search disk_hit (some (id, none)) = if disk_hit then restoring id else taking id
after_search disk_hit (some (id, some victim)) = evicting disk_hit id victim queued

abbrev pub after_victim : Bool → ℕ → Text → Saved → Pc
after_victim disk_hit id victim (returned published) =
    if published then (if disk_hit then restoring id else taking id) else sending none
after_victim disk_hit id victim (pending s) = evicting disk_hit id victim s

abbrev pub after_final : ℕ → Response → Saved → Pc
after_final id resp (returned published) = enforcing resp
after_final id resp (pending s) = saving id resp s

-- A turn without a slot has no task at its end.
abbrev pub end_of : Option ℕ → Response → Pc
end_of none resp = done resp
end_of (some id) resp = ending id resp

abbrev pub leave_of : Option ℕ → Response → Pc
leave_of none resp = done resp
leave_of (some id) resp = leaving id resp

abbrev pub pumped_of : Option ℕ → Response → Pumped → Pc
pumped_of steer resp p =
    if not p.failed && not p.disconnected
    then end_of steer resp
    else (if p.disconnected then leave_of steer resp else done resp)

module _ {W V : Type 0} (J : Json V) (lib : Libraries V) (disk : Disk W) (cache : Cache W)
    (be : Backend W V) (cfg : Config) where
  abbrev pub blob : Text → Text
  blob session = blob_name session cfg.backend_sig

  -- The router as it is left, with the gate as it is.
  abbrev pub at_router : Router W → Shared W → Shared W
  at_router r s = record s { router = r }

  abbrev pub at_world : W → Shared W → Shared W
  at_world w s = record s { router = record s.router { world = w } }

  abbrev pub unlock : Shared W → Shared W
  unlock s = record s { gate = release_write s.gate }

  abbrev pub unmatch : Shared W → Shared W
  unmatch s = record s { gate = release_read s.gate }

  -- The backend's answer to the save, and the result of the closure: an error ends the call and
  -- gives the gate back.
  pub wrote : Shared W → Result V Text × W → Saved × Shared W
  wrote s (ok v, w) = (pending publishing, at_world w s)
  wrote s (err e, w) = (returned false, unlock (at_world w s))

  pub moved : Shared W → Bool × W → Saved × Shared W
  moved s (published, w) =
      if published
      then (pending touching, at_world w s)
      else (returned false, unlock (at_world w s))

  unfoldable pub save_step : ℕ → Text → Save → Shared W → Option (Saved × Shared W)
  unfolding wrote moved
  save_step id session queued s = elim (enter_write s.gate) [
    | none ↦ none
    | some g ↦ some (pending writing, record s { gate = g })
  ]
  save_step id session writing s =
      some (wrote s (be.save_slot id (scratch_name (blob session)) s.router.world))
  save_step id session publishing s =
      some (moved s (publish disk (scratch_name (blob session)) (blob session) s.router.world))
  save_step id session touching s =
      some (pending cleaning, at_world (bump_mtime disk (blob session) s.router.world) s)
  save_step id session cleaning s = some (
    returned true,
    unlock (at_router (record s.router { slots = mark_clean id s.router.slots }) s),
  )

  -- The end of the relay: what the client got and what is left to do.
  unfoldable pub relayed : Turn V → Option ℕ → Result ChatOutcome Text → Pc
  relayed t steer (err e) = done (error_body 502 e)
  relayed t steer (ok outcome) =
      let status = status_code outcome.status in
      let p = pump t.takes outcome.stream in
      if is_success status
      then (if get_or (bool_of J lib disk cache be cfg (J.get t.parsed (codes "stream"))) false
          then pumped_of steer (body status p.sent) p
          else end_of steer (body status (collect_body outcome.stream ∷ [])))
      else done (error_body status (lib.from_utf8_lossy (drain outcome.stream)))

  pub looked : Shared W → Bool → Option ℕ → Pc × Shared W
  looked s disk_hit none = (asking disk_hit, s)
  looked s disk_hit (some id) = (after_pick disk_hit (some (id, true)), unmatch s)

  abbrev pub with_save : (Saved → Pc) → Option (Saved × Shared W) → Option (Pc × Shared W)
  with_save f none = none
  with_save f (some (p, s)) = some (f p, s)

  -- One step of a task; `none` if it waits for the gate, or is done.
  unfoldable pub advance : Turn V → Pc → Shared W → Option (Pc × Shared W)
  unfolding looked
  advance t waiting s = elim (enter_read s.gate) [
    | none ↦ none
    | some g ↦ some (looking, record s { gate = g })
  ]
  advance t looking s = some (scanning (disk.exists (blob t.session) s.router.world), s)
  advance t (scanning disk_hit) s = some (looked s disk_hit (owned_slot t.session s.router.slots))
  advance t (asking disk_hit) s =
      let (r, w) = be.slots s.router.world in some (picking disk_hit r, at_world w s)
  advance t (picking disk_hit report) s =
      let (found, r) =
        after_report disk be cfg.backend_sig s.router.slots (report, s.router.world) in
      some (after_pick disk_hit found, unmatch (at_router r s))
  advance t (searching disk_hit) s =
      let (r, w) = be.slots s.router.world in some (sifting disk_hit r, at_world w s)
  advance t (sifting disk_hit report) s =
      let (found, r) =
        dirty_report disk be cfg.backend_sig s.router.slots (report, s.router.world) in
      some (after_search disk_hit found, at_router r s)
  advance t (evicting disk_hit id victim p) s =
      with_save (after_victim disk_hit id victim) (save_step id victim p s)
  advance t (restoring id) s =
      some (taking id, at_router (restore_slot disk be cfg.backend_sig id t.session s.router) s)
  advance t (taking id) s = some (
    sending (some id),
    at_router (record s.router { slots = mark_dirty id t.session s.router.slots }) s,
  )
  advance t (sending steer) s =
      let (r, w) = be.chat (forwarded J lib disk cache be cfg t.parsed steer) s.router.world in
      some (relayed t steer r, at_world w s)
  advance t (ending id resp) s = some (
    saving id resp queued,
    at_router (record s.router { slots = claim id t.session s.router.slots }) s,
  )
  advance t (saving id resp p) s = with_save (after_final id resp) (save_step id t.session p s)
  advance t (enforcing resp) s =
      some (done resp, at_world (enforce cache cfg.cache_limit_mb s.router.world) s)
  advance t (leaving id resp) s =
      some (done resp, at_router (leave J lib disk cache be cfg (some id) s.router) s)
  advance t (done resp) s = none
