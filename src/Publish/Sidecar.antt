-- ===== src/Publish/Sidecar.antt =====
-- The sidecar of a blob that is published without a new one (`rename_sidecar` of src/lib.rs).
use o_llm.Common.{
  ◌≡◌, refl, sym, ◌∙◌, ◌⊎◌, inl, inr, true, false, Option, List, ℕ, is_ok, Bool-cases,
}
use o_llm.Common.Text.{Text}
use o_llm.Publish.{
  Disk, IsDisk, publish, scratch_name, sidecar_path, rename_sidecar, after_rename, after_sync,
  after_open,
}
use o_llm.Publish.Publication.{sidecar-ne, sidecar-ne-scratch, publish-IsPublication}

module _ {W : Type 0} (disk : Disk W) (content : Text → W → Option (List ℕ))
    (lawful : IsDisk disk content) (name : Text) where
  -- In this state the scratch file has no sidecar, or it cannot be renamed.
  abbrev pub StaysBehind : W → Type 0
  StaysBehind w =
      (disk.exists (sidecar_path (scratch_name name)) w ≡ false)
      ⊎ (is_ok (disk.rename (sidecar_path (scratch_name name)) (sidecar_path name) w).0 ≡ false)

  -- The state after each call on the scratch file.
  abbrev pub opened : W → W
  opened w = (disk.open_file (scratch_name name) w).1

  abbrev pub synced : W → W
  synced w = (disk.sync_all (scratch_name name) w).1

  abbrev pub renamed : W → W
  renamed w = (disk.rename (scratch_name name) name w).1

  abbrev sidecar : W → Option (List ℕ)
  sidecar w = content (sidecar_path name) w

  rename_sidecar_lem :
      (w : W) → StaysBehind w → sidecar (rename_sidecar disk (scratch_name name) name w) ≡ sidecar w
  unfolding rename_sidecar
  rename_sidecar_lem w stays =
      elim (Bool-cases (disk.exists (sidecar_path (scratch_name name)) w)) [
        | inr e ↦ rw (e, rename_sidecar) refl
        | inl e ↦ elim stays [
          | inl n ↦ rw (n, rename_sidecar) refl
          | inr f ↦
              rw (e, rename_sidecar)
                (lawful.rename-failed (sidecar_path (scratch_name name)) (sidecar_path name)
                  (sidecar_path name) w f)
        ]
      ]

  after_rename_lem :
      (w : W)
      → StaysBehind (renamed w)
      → sidecar
          (after_rename disk (scratch_name name) name (disk.rename (scratch_name name) name w)).1
        ≡ sidecar w
  unfolding after_rename
  after_rename_lem w stays =
      let src = scratch_name name in
      let w1 = (disk.rename src name w).1 in
      elim (Bool-cases (is_ok (disk.rename src name w).0)) [
        | inl o ↦ rw o (
            lawful.sync_dir-content (sidecar_path name) (rename_sidecar disk src name w1)
            ∙ (rename_sidecar_lem w1 stays
                ∙ lawful.rename-other src name (sidecar_path name) w (sidecar-ne-scratch name)
                    (sidecar-ne name)))
        | inr o ↦ rw o (lawful.rename-failed src name (sidecar_path name) w o)
      ]

  after_sync_lem :
      (w : W)
      → StaysBehind (renamed (synced w))
      → sidecar (after_sync disk (scratch_name name) name (disk.sync_all (scratch_name name) w)).1
        ≡ sidecar w
  unfolding after_sync
  after_sync_lem w stays =
      let src = scratch_name name in
      let same = lawful.sync_all-content src (sidecar_path name) w in
      elim (Bool-cases (is_ok (disk.sync_all src w).0)) [
        | inl o ↦ rw o (after_rename_lem (disk.sync_all src w).1 stays ∙ same)
        | inr o ↦ rw o same
      ]

  publish_lem :
      (w : W)
      → StaysBehind (renamed (synced (opened w)))
      → sidecar (publish disk (scratch_name name) name w).1 ≡ sidecar w
  unfolding publish after_open
  publish_lem w stays =
      let src = scratch_name name in
      let same = lawful.open_file-content src (sidecar_path name) w in
      elim (Bool-cases (is_ok (disk.open_file src w).0)) [
        | inl o ↦ rw o (after_sync_lem (disk.open_file src w).1 stays ∙ same)
        | inr o ↦ rw o same
      ]

  -- A stale sidecar. If the scratch file has no sidecar when it has been renamed, or the sidecar
  -- cannot be renamed, then a publication that succeeds puts the new blob beside the sidecar of the
  -- blob before it.
  pub publish-stale_sidecar :
      (w : W)
      → StaysBehind (renamed (synced (opened w)))
      → (publish disk (scratch_name name) name w).0 ≡ true
      → (content name (publish disk (scratch_name name) name w).1 ≡ content (scratch_name name) w)
        × (content (sidecar_path name) (publish disk (scratch_name name) name w).1
            ≡ content (sidecar_path name) w)
  publish-stale_sidecar w stays published = (
    elim (publish-IsPublication disk content lawful name w) [
      | inl (t, c, s) ↦ c
      | inr (f, same) ↦ absurd (let k : true ≡ false = sym published ∙ f in cc)
    ],
    publish_lem w stays,
  )
