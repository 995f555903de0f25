-- ===== src/Publish/Unseen.antt =====
-- What a save and a restore of src/lib.rs leave alone: anything that is read of the world and that
-- none of their calls changes.
use o_llm.Common.{ℕ, ◌≡◌, refl, ◌∙◌, inl, inr, Bool, true, false, Result, ok, err, Bool-cases}
use o_llm.Common.Text.{Text}
use o_llm.Backend.{Backend}
use o_llm.Slots.{Slots}
use o_llm.Publish.{
  Disk, bump_mtime, set_if_open, publish, sidecar_path, scratch_name, rename_sidecar, after_rename,
  after_sync, after_open, after_publish, after_save, after_restore,
}

-- `f` is the same after each call of a publication of the blob.
pub record Unseen {W A : Type 0} (disk : Disk W) (f : W → A) (name : Text) : Type 0 where
  pub open_file : (w : W) → f (disk.open_file (scratch_name name) w).1 ≡ f w
  pub sync_all : (w : W) → f (disk.sync_all (scratch_name name) w).1 ≡ f w
  pub rename : (w : W) → f (disk.rename (scratch_name name) name w).1 ≡ f w
  pub rename_sidecar :
      (w : W) → f (disk.rename (sidecar_path (scratch_name name)) (sidecar_path name) w).1 ≡ f w
  pub sync_dir : (w : W) → f (disk.sync_dir w) ≡ f w
  pub open_write : (w : W) → f (disk.open_write name w).1 ≡ f w
  pub set_times : (w : W) → f (disk.set_times name w) ≡ f w

module _ {W A : Type 0} (disk : Disk W) (f : W → A) (name : Text)
    (unseen : Unseen disk f name) where
  rename_sidecar-Unseen : (w : W) → f (rename_sidecar disk (scratch_name name) name w) ≡ f w
  unfolding rename_sidecar
  rename_sidecar-Unseen w = elim (Bool-cases (disk.exists (sidecar_path (scratch_name name)) w)) [
    | inl e ↦ rw (e, rename_sidecar) (unseen.rename_sidecar w)
    | inr e ↦ rw (e, rename_sidecar) refl
  ]

  after_rename-Unseen :
      (p : Result (Unit {0}) Text × W) → f (after_rename disk (scratch_name name) name p).1 ≡ f p.1
  unfolding after_rename
  after_rename-Unseen (ok t, w) = unseen.sync_dir _ ∙ rename_sidecar-Unseen w
  after_rename-Unseen (err e, w) = refl

  after_sync-Unseen :
      (p : Result (Unit {0}) Text × W) → f (after_sync disk (scratch_name name) name p).1 ≡ f p.1
  unfolding after_sync
  after_sync-Unseen (ok t, w) =
      after_rename-Unseen (disk.rename (scratch_name name) name w) ∙ unseen.rename w
  after_sync-Unseen (err e, w) = refl

  after_open-Unseen :
      (p : Result (Unit {0}) Text × W) → f (after_open disk (scratch_name name) name p).1 ≡ f p.1
  unfolding after_open
  after_open-Unseen (ok t, w) =
      after_sync-Unseen (disk.sync_all (scratch_name name) w) ∙ unseen.sync_all w
  after_open-Unseen (err e, w) = refl

  publish-Unseen : (w : W) → f (publish disk (scratch_name name) name w).1 ≡ f w
  unfolding publish
  publish-Unseen w = after_open-Unseen (disk.open_file (scratch_name name) w) ∙ unseen.open_file w

  set_if_open-Unseen : (p : Result (Unit {0}) Text × W) → f (set_if_open disk name p) ≡ f p.1
  set_if_open-Unseen (ok t, w) = unseen.set_times w
  set_if_open-Unseen (err e, w) = refl

  pub bump_mtime-Unseen : (w : W) → f (bump_mtime disk name w) ≡ f w
  unfolding bump_mtime
  bump_mtime-Unseen w = set_if_open-Unseen (disk.open_write name w) ∙ unseen.open_write w

  module _ {V : Type 0} (be : Backend W V) (backend_sig : Text) where
    after_publish-Unseen :
        (id : ℕ) (g : Slots) (p : Bool × W)
        → f (after_publish disk be backend_sig id name g p).1.world ≡ f p.1
    unfolding after_publish
    after_publish-Unseen id g (true, w) = bump_mtime-Unseen w
    after_publish-Unseen id g (false, w) = refl

    -- From the server's answer to the end of the save.
    pub after_save-Unseen :
        (id : ℕ) (g : Slots) (p : Result V Text × W)
        → f (after_save disk be backend_sig id name g p).1.world ≡ f p.1
    unfolding after_save
    after_save-Unseen id g (ok v, w) =
        after_publish-Unseen id g (publish disk (scratch_name name) name w) ∙ publish-Unseen w
    after_save-Unseen id g (err e, w) = refl

    pub after_restore-Unseen :
        (p : Result V Text × W) → f (after_restore disk be backend_sig name p) ≡ f p.1
    unfolding after_restore
    after_restore-Unseen (ok v, w) = bump_mtime-Unseen w
    after_restore-Unseen (err e, w) = refl
