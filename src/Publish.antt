-- ===== src/Publish.antt =====
-- The writes and reads of blobs in src/lib.rs: `App::save_slot`, `App::restore_slot`,
-- `rename_sidecar`, `bump_mtime_unix`. The files of the cache directory are part of the world,
-- and the calls of `std::fs` are an interface over it; a file is named within that directory.
-- The gate that makes a save exclusive is the order of these steps: nothing runs between them.
pub mod Publication
pub mod Unseen
pub mod Names
pub mod Server
pub mod Atomic
pub mod Crash
pub mod Restart
pub mod Volatile
pub mod Power
pub mod Durable
pub mod Sidecar
pub mod Fs
pub mod Sample
mod PowerTests
use o_llm.Common.{
  ℕ, ◌≡◌, ◌≢◌, Bool, true, false, Option, none, some, List, ◌++◌, Result, ok, err, is_ok,
  if◌then◌else◌,
}
use o_llm.Common.Text.{Text, codes}
use o_llm.Key.{blob_name}
use o_llm.Backend.{Backend}
use o_llm.Slots.{Slots, mark_clean}

-- `File::open` for reading, `sync_all` on it, `fs::rename`, `Path::exists`; opening a file
-- to write, setting its times, and opening the directory to sync it, whose errors are ignored.
pub record Disk (W : Type 0) : Type 0 where
  pub exists : Text → W → Bool
  pub open_file : Text → W → Result (Unit {0}) Text × W
  pub sync_all : Text → W → Result (Unit {0}) Text × W
  pub rename : Text → Text → W → Result (Unit {0}) Text × W
  pub sync_dir : W → W
  pub open_write : Text → W → Result (Unit {0}) Text × W
  pub set_times : Text → W → W

-- What the program relies on: with `content` for what a file holds, a rename that succeeds moves
-- the whole file and touches no other, one that fails changes nothing, and the other calls
-- change no file's content.
pub record IsDisk {W : Type 0} (disk : Disk W) (content : Text → W → Option (List ℕ)) : Type 0 where
  pub exists-content : (n : Text) (w : W) → disk.exists n w ≡ false → content n w ≡ none
  pub open_file-content : (n m : Text) (w : W) → content m (disk.open_file n w).1 ≡ content m w
  pub sync_all-content : (n m : Text) (w : W) → content m (disk.sync_all n w).1 ≡ content m w
  pub sync_dir-content : (m : Text) (w : W) → content m (disk.sync_dir w) ≡ content m w
  pub open_write-content : (n m : Text) (w : W) → content m (disk.open_write n w).1 ≡ content m w
  pub set_times-content : (n m : Text) (w : W) → content m (disk.set_times n w) ≡ content m w
  pub rename-target :
      (a b : Text) (w : W)
      → is_ok (disk.rename a b w).0 ≡ true
      → content b (disk.rename a b w).1 ≡ content a w
  pub rename-other :
      (a b m : Text) (w : W) → m ≢ a → m ≢ b → content m (disk.rename a b w).1 ≡ content m w
  pub rename-failed :
      (a b m : Text) (w : W)
      → is_ok (disk.rename a b w).0 ≡ false
      → content m (disk.rename a b w).1 ≡ content m w

-- The parts of `App` that change.
pub record Router (W : Type 0) : Type 0 where
  pub slots : Slots
  pub world : W

unfoldable pub sidecar_path : Text → Text
sidecar_path blob = blob ++ codes ".ckpt"

unfoldable pub scratch_name : Text → Text
scratch_name name = name ++ codes ".save"

module _ {W : Type 0} (disk : Disk W) where
  -- A sidecar that cannot be renamed is logged only.
  unfoldable pub rename_sidecar : Text → Text → W → W
  rename_sidecar src dst w =
      if disk.exists (sidecar_path src) w
      then (disk.rename (sidecar_path src) (sidecar_path dst) w).1
      else w

  -- The closure of `save_slot`, one `?` after the other.
  unfoldable pub after_rename : Text → Text → Result (Unit {0}) Text × W → Bool × W
  after_rename src dst (r, w) =
      if is_ok r then (true, disk.sync_dir (rename_sidecar src dst w)) else (false, w)

  unfoldable pub after_sync : Text → Text → Result (Unit {0}) Text × W → Bool × W
  unfolding after_rename
  after_sync src dst (r, w) =
      if is_ok r then after_rename src dst (disk.rename src dst w) else (false, w)

  unfoldable pub after_open : Text → Text → Result (Unit {0}) Text × W → Bool × W
  unfolding after_sync
  after_open src dst (r, w) =
      if is_ok r then after_sync src dst (disk.sync_all src w) else (false, w)

  unfoldable pub publish : Text → Text → W → Bool × W
  unfolding after_open
  publish src dst w = after_open src dst (disk.open_file src w)

  -- `bump_mtime_unix`: a file that cannot be opened is left alone, and no error is reported.
  abbrev pub set_if_open : Text → Result (Unit {0}) Text × W → W
  set_if_open name (ok t, w) = disk.set_times name w
  set_if_open name (err e, w) = w

  unfoldable pub bump_mtime : Text → W → W
  bump_mtime name w = set_if_open name (disk.open_write name w)

  module _ {V : Type 0} (be : Backend W V) (backend_sig : Text) where
    unfoldable pub after_publish : ℕ → Text → Slots → Bool × W → Bool × Router W
    after_publish id name g (published, w) =
        if published
        then (true, record { slots = mark_clean id g; world = bump_mtime name w })
        else (false, record { slots = g; world = w })

    unfoldable pub after_save : ℕ → Text → Slots → Result V Text × W → Bool × Router W
    unfolding after_publish
    after_save id name g (r, w) =
        if is_ok r
        then after_publish id name g (publish (scratch_name name) name w)
        else (false, record { slots = g; world = w })

    unfoldable pub save_slot : ℕ → Text → Router W → Bool × Router W
    unfolding after_save
    save_slot id session r =
        let name = blob_name session backend_sig in
        after_save id name r.slots (be.save_slot id (scratch_name name) r.world)

    unfoldable pub after_restore : Text → Result V Text × W → W
    after_restore name (r, w) = if is_ok r then bump_mtime name w else w

    unfoldable pub restore_slot : ℕ → Text → Router W → Router W
    unfolding after_restore
    restore_slot id session r =
        let name = blob_name session backend_sig in
        record r { world = after_restore name (be.restore_slot id name r.world) }
