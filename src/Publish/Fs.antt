-- ===== src/Publish/Fs.antt =====
-- `FsPublisher` of src/seed.rs, the publisher of the seed dance on the file system; a task that
-- cannot be joined is not modelled, as the closure does not panic.
use o_llm.Common.{◌≡◌, refl, Bool, ◌++◌, Result, ok, err, is_ok}
use o_llm.Common.Text.{Text, codes}
use o_llm.Seed.{Publisher}
use o_llm.Publish.{Disk, publish, rename_sidecar, after_rename, after_sync, after_open}

module _ {W : Type 0} (disk : Disk W) where
  renamed : Text → Text → Result (Unit {0}) Text × W → Result (Unit {0}) Text × W
  renamed scratch name (err e, w) =
      (err (codes "rename " ++ (scratch ++ (codes " -> " ++ (name ++ (codes ": " ++ e))))), w)
  renamed scratch name (ok u, w) = (ok tt, disk.sync_dir (rename_sidecar disk scratch name w))

  synced : Text → Text → Result (Unit {0}) Text × W → Result (Unit {0}) Text × W
  unfolding renamed
  synced scratch name (err e, w) = (err (codes "fsync " ++ (scratch ++ (codes ": " ++ e))), w)
  synced scratch name (ok u, w) = renamed scratch name (disk.rename scratch name w)

  opened : Text → Text → Result (Unit {0}) Text × W → Result (Unit {0}) Text × W
  unfolding synced
  opened scratch name (err e, w) =
      (err (codes "open scratch " ++ (scratch ++ (codes ": " ++ e))), w)
  opened scratch name (ok u, w) = synced scratch name (disk.sync_all scratch w)

  unfoldable pub fs_publish : Text → Text → W → Result (Unit {0}) Text × W
  unfolding opened
  fs_publish scratch name w = opened scratch name (disk.open_file scratch w)

  abbrev pub fs_publisher : Publisher W
  fs_publisher = record { publish = fs_publish }

  -- Whether it worked, with the world that is left.
  abbrev pub success : Result (Unit {0}) Text × W → Bool × W
  success (r, w) = (is_ok r, w)

  renamed-after_rename :
      (s n : Text) (a : Result (Unit {0}) Text × W)
      → success (renamed s n a) ≡ after_rename disk s n a
  unfolding renamed after_rename
  renamed-after_rename s n (err e, w) = refl
  renamed-after_rename s n (ok u, w) = refl

  synced-after_sync :
      (s n : Text) (a : Result (Unit {0}) Text × W) → success (synced s n a) ≡ after_sync disk s n a
  unfolding synced after_sync
  synced-after_sync s n (err e, w) = refl
  synced-after_sync s n (ok u, w) = renamed-after_rename s n (disk.rename s n w)

  opened-after_open :
      (s n : Text) (a : Result (Unit {0}) Text × W) → success (opened s n a) ≡ after_open disk s n a
  unfolding opened after_open
  opened-after_open s n (err e, w) = refl
  opened-after_open s n (ok u, w) = synced-after_sync s n (disk.sync_all s w)

  -- The seed dance's publisher and the router's save publish a scratch file in the same way: the
  -- one succeeds exactly when the other does, and they leave the same files.
  pub fs_publish-publish :
      (scratch name : Text) (w : W)
      → success (fs_publish scratch name w) ≡ publish disk scratch name w
  unfolding fs_publish publish
  fs_publish-publish scratch name w = opened-after_open scratch name (disk.open_file scratch w)
