-- ===== src/Publish/Crash.antt =====
-- A crash of the proxy in the middle of `App::save_slot` of src/lib.rs: the states of the files in
-- which it can happen are those after each call of a save, from the server's answer on. The
-- registry of slots is lost in a crash, the files stay.
use o_llm.Common.{
  ℕ, ◌≡◌, refl, Bool, true, false, List, [], ◌∷◌, ◌++◌, Result, ok, err, is_ok, if◌then◌else◌,
}
use o_llm.Common.Text.{Text}
use o_llm.Key.{blob_name}
use o_llm.Backend.{Backend}
use o_llm.Publish.{
  bump_mtime, Disk, Router, publish, scratch_name, rename_sidecar, after_rename, after_sync,
  after_open, after_publish, after_save,
}

-- The last member, or the given one.
abbrev pub last_or {ℓ} : {A : Type ℓ} → A → List A → A
last_or a [] = a
last_or a (x ∷ xs) = last_or x xs

module _ {W : Type 0} (disk : Disk W) where
  unfoldable pub rename_points : Text → Text → Result (Unit {0}) Text × W → List W
  rename_points src dst (r, w) =
      w
      ∷ (if is_ok r
          then rename_sidecar disk src dst w ∷ disk.sync_dir (rename_sidecar disk src dst w) ∷ []
          else [])

  unfoldable pub sync_points : Text → Text → Result (Unit {0}) Text × W → List W
  sync_points src dst (r, w) =
      w ∷ (if is_ok r then rename_points src dst (disk.rename src dst w) else [])

  unfoldable pub publish_points : Text → Text → Result (Unit {0}) Text × W → List W
  publish_points src dst (r, w) =
      w ∷ (if is_ok r then sync_points src dst (disk.sync_all src w) else [])

  abbrev pub touch_points : Text → Bool × W → List W
  touch_points name (published, w) =
      if published then (disk.open_write name w).1 ∷ bump_mtime disk name w ∷ [] else []

  module _ {V : Type 0} (be : Backend W V) (backend_sig : Text) where
    unfoldable pub answer_points : Text → Result V Text × W → List W
    answer_points name (r, w) =
        w
        ∷ (if is_ok r
            then publish_points (scratch_name name) name (disk.open_file (scratch_name name) w)
              ++ touch_points name (publish disk (scratch_name name) name w)
            else [])

    unfoldable pub save_points : ℕ → Text → Router W → List W
    save_points id session r =
        let name = blob_name session backend_sig in
        answer_points name (be.save_slot id (scratch_name name) r.world)

  -- The states are those of the save: the last one is where it ends.
  rename_points-after_rename :
      (src dst : Text) (p : Result (Unit {0}) Text × W) (a : W)
      → last_or a (rename_points src dst p) ≡ (after_rename disk src dst p).1
  unfolding rename_points after_rename
  rename_points-after_rename src dst (ok t, w) a = refl
  rename_points-after_rename src dst (err e, w) a = refl

  sync_points-after_sync :
      (src dst : Text) (p : Result (Unit {0}) Text × W) (a : W)
      → last_or a (sync_points src dst p) ≡ (after_sync disk src dst p).1
  unfolding sync_points after_sync
  sync_points-after_sync src dst (ok t, w) a =
      rename_points-after_rename src dst (disk.rename src dst w) w
  sync_points-after_sync src dst (err e, w) a = refl

  pub publish_points-after_open :
      (src dst : Text) (p : Result (Unit {0}) Text × W) (a : W)
      → last_or a (publish_points src dst p) ≡ (after_open disk src dst p).1
  unfolding publish_points after_open
  publish_points-after_open src dst (ok t, w) a =
      sync_points-after_sync src dst (disk.sync_all src w) w
  publish_points-after_open src dst (err e, w) a = refl

  touched :
      {V : Type 0} (be : Backend W V) (backend_sig : Text) (id : ℕ) (name : Text) (r : Router W)
      (ps : List W) (p : Bool × W) (a : W)
      → last_or a ps ≡ p.1
      → last_or a (ps ++ touch_points name p)
        ≡ (after_publish disk be backend_sig id name r.slots p).1.world
  unfolding after_publish
  touched be sig id name r [] (true, w) a h = refl
  touched be sig id name r [] (false, w) a h = h
  touched be sig id name r (x ∷ ps) p a h = touched be sig id name r ps p x h

  pub answered :
      {V : Type 0} (be : Backend W V) (backend_sig : Text) (id : ℕ) (name : Text) (r : Router W)
      (q : Result V Text × W) (a : W)
      → last_or a (answer_points be backend_sig name q)
        ≡ (after_save disk be backend_sig id name r.slots q).1.world
  unfolding answer_points after_save publish
  answered be sig id name r (err e, w) a = refl
  answered be sig id name r (ok v, w) a =
      touched be sig id name r
        (publish_points (scratch_name name) name (disk.open_file (scratch_name name) w))
        (publish disk (scratch_name name) name w) w
        (publish_points-after_open (scratch_name name) name (disk.open_file (scratch_name name) w)
          w)
