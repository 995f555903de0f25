-- ===== src/Chat.antt =====
-- The chat handler of src/lib.rs, `chat_completions`, with `pick_slot`, `find_evictable`,
-- `evict_to_disk`, `collect_body` and the task that ends a turn. One request is run from its
-- admission to the end of that task; what the client takes of a stream is a number of chunks,
-- after which the channel is closed. Parameters are what `serde_json::from_slice` and
-- `from_utf8_lossy` return, and SHA-256.
pub mod Sample
pub mod Steer
pub mod State
pub mod Maps
pub mod Ends
pub mod Given
pub mod Apart
pub mod Published
pub mod Others
pub mod Return
pub mod Between
pub mod One
pub mod Own
pub mod Spared
pub mod Kept
pub mod Owners
pub mod Turn
mod Examples
mod ReturnTests
mod SparedTests
use o_llm.Common.{
  ℕ, zero, suc, ◌+◌, ◌-◌, ◌*◌, ◌%◌, ◌^◌, Bool, true, false, ◌&&◌, ◌||◌, not, Option, none, some,
  List, [], ◌∷◌, ◌++◌, Result, ok, err, leb, ltb, is_ok, if◌then◌else◌, get_or,
}
use o_llm.Common.Text.{Text, codes}
use o_llm.Json.{Json}
use o_llm.Key.{blob_name, session_key}
use o_llm.Quota.{plan_evictions}
use o_llm.Quota.Scan.{DirEntry, scanned}
use o_llm.Backend.{SlotState, ChatOutcome, Backend}
use o_llm.Slots.{Slots, pick_free, pick_dirty, owned_slot, mark_dirty, claim, abandon}
use o_llm.Publish.{Disk, Router, save_slot, restore_slot}

-- `read_dir` on the cache directory, the clock and `fs::remove_file`, whose errors are logged only.
pub record Cache (W : Type 0) : Type 0 where
  pub read_dir : W → Option (List (Option DirEntry))
  pub now : W → ℕ
  pub remove_file : Text → W → W

-- The fields of `Config` that the handler reads, and `App::backend_sig`.
pub record Config : Type 0 where
  pub session_header : Text
  pub cache_limit_mb : ℕ
  pub backend_sig : Text

pub record Libraries (V : Type 0) : Type 0 where
  pub from_slice : List ℕ → Result V Text
  pub from_utf8_lossy : List ℕ → Text
  pub sha256 : List ℕ → List ℕ

-- What the client gets: an error with its text, or the status with the chunks of the body.
pub data Response : Type 0 where
  error_body : ℕ → Text → Response
  body : ℕ → List (List ℕ) → Response

-- `StatusCode::from_u16(..).unwrap_or(BAD_GATEWAY)` and `is_success`.
abbrev pub status_code : ℕ → ℕ
status_code n = if leb 100 n && ltb n 1000 then n else 502

abbrev pub is_success : ℕ → Bool
is_success n = leb 200 n && ltb n 300

-- The chunks up to the first error, joined, and the same for a body that is drained past errors.
unfoldable pub collect_body : List (Result (List ℕ) Text) → List ℕ
collect_body [] = []
collect_body (ok b ∷ stream) = b ++ collect_body stream
collect_body (err e ∷ stream) = []

unfoldable pub drain : List (Result (List ℕ) Text) → List ℕ
drain [] = []
drain (ok b ∷ stream) = b ++ drain stream
drain (err e ∷ stream) = drain stream

-- What the pump has sent when it stops, and its two flags.
pub record Pumped : Type 0 where
  pub sent : List (List ℕ)
  pub failed : Bool
  pub disconnected : Bool

abbrev pub sending : List ℕ → Pumped → Pumped
sending b p = record p { sent = b ∷ p.sent }

unfoldable pub pump : ℕ → List (Result (List ℕ) Text) → Pumped
pump takes [] = record { sent = []; failed = false; disconnected = false }
pump takes (err e ∷ stream) = record { sent = []; failed = true; disconnected = false }
pump zero (ok b ∷ stream) = record { sent = []; failed = false; disconnected = true }
pump (suc takes) (ok b ∷ stream) = sending b (pump takes stream)

module _ {W : Type 0} (cache : Cache W) (limit_mb : ℕ) where
  remove_all : List Text → W → W
  remove_all [] w = w
  remove_all (n ∷ names) w = remove_all names (cache.remove_file n w)

  -- `enforce_limit` on the world; a panic of the planner ends with its task.
  unfoldable pub enforce : W → W
  unfolding remove_all
  enforce w =
      elim (plan_evictions (scanned (cache.read_dir w)) (limit_mb * 1024 * 1024 % 2 ^ 64)
        (cache.now w) 60) [ none ↦ w | some names ↦ remove_all names w ]

module _ {W V : Type 0} (disk : Disk W) (be : Backend W V) (backend_sig : Text) where
  -- Both scans run over what `GET /slots` reports now; an error there finds nothing.
  unfoldable pub after_report :
      Slots → Result (List SlotState) Text × W → Option (ℕ × Bool) × Router W
  after_report g (err e, w) = (none, record { slots = g; world = w })
  after_report g (ok arr, w) =
      let (found, g') = pick_free arr g in
      (elim found [ none ↦ none | some id ↦ some (id, false) ], record { slots = g'; world = w })

  unfoldable pub pick_slot : Text → Router W → Option (ℕ × Bool) × Router W
  unfolding after_report
  pick_slot session r = elim (owned_slot session r.slots) [
    | some id ↦ (some (id, true), r)
    | none ↦ after_report r.slots (be.slots r.world)
  ]

  unfoldable pub dirty_report :
      Slots → Result (List SlotState) Text × W → Option (ℕ × Option Text) × Router W
  dirty_report g (err e, w) = (none, record { slots = g; world = w })
  dirty_report g (ok arr, w) =
      let (found, g') = pick_dirty arr g in (found, record { slots = g'; world = w })

  unfoldable pub find_evictable : Router W → Option (ℕ × Option Text) × Router W
  unfolding dirty_report
  find_evictable r = dirty_report r.slots (be.slots r.world)

  unfoldable pub evict_to_disk : ℕ → Option Text → Router W → Bool × Router W
  evict_to_disk id none r = (true, r)
  evict_to_disk id (some victim) r = save_slot disk be backend_sig id victim r

  abbrev pub restore_if : Bool → ℕ → Text → Router W → Router W
  restore_if wanted id session r =
      if wanted then restore_slot disk be backend_sig id session r else r

  -- The slot becomes the session's.
  abbrev pub take_slot : ℕ → Text → Router W → Option ℕ × Router W
  take_slot id session r = (some id, record r { slots = mark_dirty id session r.slots })

  unfoldable pub after_evict : Bool → ℕ → Text → Bool × Router W → Option ℕ × Router W
  after_evict disk_hit id session (published, r) =
      if published then take_slot id session (restore_if disk_hit id session r) else (none, r)

  unfoldable pub steal : Bool → Text → Option (ℕ × Option Text) × Router W → Option ℕ × Router W
  unfolding after_evict
  steal disk_hit session (none, r) = (none, r)
  steal disk_hit session (some (id, victim), r) =
      after_evict disk_hit id session (evict_to_disk id victim r)

  unfoldable pub settle : Bool → Text → Option (ℕ × Bool) × Router W → Option ℕ × Router W
  settle disk_hit session (some (id, hot), r) =
      take_slot id session (restore_if (disk_hit && not hot) id session r)
  settle disk_hit session (none, r) = steal disk_hit session (find_evictable r)

  -- The slot that the turn is steered to.
  unfoldable pub admission : Text → Router W → Option ℕ × Router W
  admission session r =
      settle (disk.exists (blob_name session backend_sig) r.world) session (pick_slot session r)

module _ {W V : Type 0} (J : Json V) (lib : Libraries V) (disk : Disk W) (cache : Cache W)
    (be : Backend W V) (cfg : Config) where
  -- `id_slot` is inserted if the turn is steered; a body that is no object stays as it is.
  unfoldable pub forwarded : V → Option ℕ → V
  forwarded parsed none = parsed
  forwarded parsed (some id) = J.set parsed (codes "id_slot") (J.number id)

  abbrev pub bool_of : Option V → Option Bool
  bool_of none = none
  bool_of (some v) = J.as_bool v

  -- The task at the end of a turn that ran through: the save, then the quota.
  unfoldable pub finish : Option ℕ → Text → Router W → Router W
  finish none session r = r
  finish (some id) session r =
      let claimed = record r { slots = claim id session r.slots } in
      let (published, r') = save_slot disk be cfg.backend_sig id session claimed in
      record r' { world = enforce cache cfg.cache_limit_mb r'.world }

  unfoldable pub leave : Option ℕ → Router W → Router W
  leave none r = r
  leave (some id) r = record r { slots = abandon id r.slots }

  -- The end of the pump's task.
  unfoldable pub after_pump : Option ℕ → Text → Pumped → Router W → Router W
  after_pump steer session p r =
      if not p.failed && not p.disconnected
      then finish steer session r
      else (if p.disconnected then leave steer r else r)

  unfoldable pub relay : Bool → ℕ → Option ℕ → Text → ChatOutcome → Router W → Response × Router W
  relay is_stream takes steer session outcome r =
      let status = status_code outcome.status in
      let p = pump takes outcome.stream in
      if is_success status
      then (if is_stream
          then (body status p.sent, after_pump steer session p r)
          else (body status (collect_body outcome.stream ∷ []), finish steer session r))
      else (error_body status (lib.from_utf8_lossy (drain outcome.stream)), r)

  unfoldable pub after_chat :
      Bool → ℕ → Option ℕ → Text → Slots → Result ChatOutcome Text × W → Response × Router W
  after_chat is_stream takes steer session g (err e, w) =
      (error_body 502 e, record { slots = g; world = w })
  after_chat is_stream takes steer session g (ok outcome, w) =
      relay is_stream takes steer session outcome (record { slots = g; world = w })

  -- The turn from the chosen slot on.
  unfoldable pub run_turn : ℕ → Text → V → Option ℕ × Router W → Response × Router W
  unfolding after_chat
  run_turn takes session parsed (steer, r) =
      after_chat (get_or (bool_of (J.get parsed (codes "stream"))) false) takes steer session
        r.slots (be.chat (forwarded parsed steer) r.world)

  -- `none` is a panic in `session_key`.
  unfoldable pub chat_completions :
      ℕ → (Text → Option Text) → List ℕ → Router W → Option (Response × Router W)
  chat_completions takes headers raw r = elim (lib.from_slice raw) [
    | err e ↦ some (error_body 400 (codes "invalid json: " ++ e), r)
    | ok parsed ↦ elim (session_key J lib.sha256 headers parsed cfg.session_header) [
      | none ↦ none
      | some session ↦
          some (run_turn takes session parsed (admission disk be cfg.backend_sig session r))
    ]
  ]
