-- ===== src/Publish/Publication.antt =====
-- What the closure of `App::save_slot` in src/lib.rs does to the files.
use mathlib.Core.List.{append_cancel_left, append_assoc}
use o_llm.Common.{
  ℕ, ◌≡◌, ◌≢◌, refl, sym, ap, ◌∙◌, ◌⊎◌, inl, inr, Bool, true, false, Option, List, ◌++◌, Result, ok,
  err, is_ok, arith, Bool-cases, ◌+◌, ◌<◌, length, length-append,
}
use o_llm.Common.Text.{Text, codes}
use o_llm.Publish.{
  Disk, IsDisk, bump_mtime, set_if_open, publish, sidecar_path, scratch_name, rename_sidecar,
  after_rename, after_sync, after_open,
}

longer-ne : (n a : Text) → 0 < length a → n ++ a ≢ n
longer-ne n a l e =
    let k : length n + length a ≡ length n = sym (length-append n a) ∙ ap length e in omega arith

-- The files of a publication have different names.
pub scratch-ne-name : (name : Text) → scratch_name name ≢ name
unfolding scratch_name
scratch-ne-name name e = longer-ne name (codes ".save") (omega arith) e

pub sidecar-ne : (name : Text) → sidecar_path name ≢ name
unfolding sidecar_path
sidecar-ne name e = longer-ne name (codes ".ckpt") (omega arith) e

pub scratch_sidecar-ne-name : (name : Text) → sidecar_path (scratch_name name) ≢ name
unfolding sidecar_path scratch_name
scratch_sidecar-ne-name name e =
    longer-ne name (codes ".save" ++ codes ".ckpt") (omega arith)
      (sym (append_assoc name (codes ".save") (codes ".ckpt")) ∙ e)

pub sidecar-ne-scratch : (name : Text) → sidecar_path name ≢ scratch_name name
unfolding sidecar_path scratch_name
sidecar-ne-scratch name e =
    let k : codes ".ckpt" ≡ codes ".save" =
      append_cancel_left name (codes ".ckpt") (codes ".save") e in
    ground arith

module _ {W : Type 0} (disk : Disk W) (content : Text → W → Option (List ℕ))
    (lawful : IsDisk disk content) where
  pub rename_sidecar-other :
      (src dst m : Text) (w : W)
      → m ≢ sidecar_path src
      → m ≢ sidecar_path dst
      → content m (rename_sidecar disk src dst w) ≡ content m w
  unfolding rename_sidecar
  rename_sidecar-other src dst m w p q = elim (Bool-cases (disk.exists (sidecar_path src) w)) [
    | inl e ↦
        rw (e, rename_sidecar) (lawful.rename-other (sidecar_path src) (sidecar_path dst) m w p q)
    | inr e ↦ rw (e, rename_sidecar) refl
  ]

  -- The sidecar beside the published blob is the new one, or the one that was there.
  abbrev pub SidecarOf : Text → Text → W → W → Type 0
  SidecarOf src dst w w' =
      (content (sidecar_path dst) w' ≡ content (sidecar_path src) w)
      ⊎ (content (sidecar_path dst) w' ≡ content (sidecar_path dst) w)

  set_if_open-content :
      (n m : Text) (p : Result (Unit {0}) Text × W)
      → content m (set_if_open disk n p) ≡ content m p.1
  set_if_open-content n m (ok t, w) = lawful.set_times-content n m w
  set_if_open-content n m (err e, w) = refl

  pub bump_mtime-content : (n m : Text) (w : W) → content m (bump_mtime disk n w) ≡ content m w
  unfolding bump_mtime
  bump_mtime-content n m w =
      set_if_open-content n m (disk.open_write n w) ∙ lawful.open_write-content n m w

  rename_sidecar-SidecarOf :
      (src dst : Text) (w : W) → SidecarOf src dst w (rename_sidecar disk src dst w)
  unfolding rename_sidecar
  rename_sidecar-SidecarOf src dst w = elim (Bool-cases (disk.exists (sidecar_path src) w)) [
    | inl e ↦ elim (Bool-cases (is_ok (disk.rename (sidecar_path src) (sidecar_path dst) w).0)) [
      | inl o ↦
          rw (e, rename_sidecar)
            (inl (lawful.rename-target (sidecar_path src) (sidecar_path dst) w o))
      | inr o ↦
          rw (e, rename_sidecar)
            (inr
              (lawful.rename-failed (sidecar_path src) (sidecar_path dst) (sidecar_path dst) w o))
    ]
    | inr e ↦ rw (e, rename_sidecar) (inr refl)
  ]

  -- What a publication of `name` may leave, from the files at `w`: it worked, and the blob is the
  -- whole scratch file; or it did not, and every file is as it was.
  abbrev pub IsPublication : Text → W → Bool × W → Type 0
  IsPublication name w p =
      ((p.0 ≡ true)
        × (content name p.1 ≡ content (scratch_name name) w)
        × SidecarOf (scratch_name name) name w p.1)
      ⊎ ((p.0 ≡ false) × ((m : Text) → content m p.1 ≡ content m w))

  pub renamed-content :
      (name : Text) (w w1 : W)
      → content name w1 ≡ content (scratch_name name) w
      → content name (disk.sync_dir (rename_sidecar disk (scratch_name name) name w1))
        ≡ content (scratch_name name) w
  renamed-content name w w1 e =
      lawful.sync_dir-content name (rename_sidecar disk (scratch_name name) name w1)
      ∙ (rename_sidecar-other (scratch_name name) name name w1
            (λ k. scratch_sidecar-ne-name name (sym k)) (λ k. sidecar-ne name (sym k))
          ∙ e)

  renamed-SidecarOf :
      (name : Text) (w w1 : W)
      → content (sidecar_path (scratch_name name)) w1 ≡ content (sidecar_path (scratch_name name)) w
      → content (sidecar_path name) w1 ≡ content (sidecar_path name) w
      → SidecarOf
          (scratch_name name)
          name
          w
          (disk.sync_dir (rename_sidecar disk (scratch_name name) name w1))
  renamed-SidecarOf name w w1 p q =
      let d =
        lawful.sync_dir-content (sidecar_path name)
          (rename_sidecar disk (scratch_name name) name w1) in
      elim (rename_sidecar-SidecarOf (scratch_name name) name w1) [
        | inl k ↦ inl (d ∙ (k ∙ p))
        | inr k ↦ inr (d ∙ (k ∙ q))
      ]

  renamed-IsPublication :
      (name : Text) (w : W)
      → IsPublication name w
          (after_rename disk (scratch_name name) name (disk.rename (scratch_name name) name w))
  unfolding after_rename
  renamed-IsPublication name w =
      let src = scratch_name name in
      let w1 = (disk.rename src name w).1 in
      elim (Bool-cases (is_ok (disk.rename src name w).0)) [
        | inl o ↦ rw (o) (
            inl (
              refl,
              renamed-content name w w1 (lawful.rename-target src name w o),
              renamed-SidecarOf name w w1
                  (lawful.rename-other src name (sidecar_path src) w (sidecar-ne src)
                    (scratch_sidecar-ne-name name))
                  (lawful.rename-other src name (sidecar_path name) w (sidecar-ne-scratch name)
                    (sidecar-ne name)),
            ))
        | inr o ↦ rw (o) (inr (refl, λ m. lawful.rename-failed src name m w o))
      ]

  -- A step before it that changes no file.
  IsPublication-after :
      (name : Text) (w w' : W) (p : Bool × W)
      → ((m : Text) → content m w' ≡ content m w)
      → IsPublication name w' p
      → IsPublication name w p
  IsPublication-after name w w' p k (inl (t, c, inl s)) =
      inl (t, c ∙ k (scratch_name name), inl (s ∙ k (sidecar_path (scratch_name name))))
  IsPublication-after name w w' p k (inl (t, c, inr s)) =
      inl (t, c ∙ k (scratch_name name), inr (s ∙ k (sidecar_path name)))
  IsPublication-after name w w' p k (inr (t, c)) = inr (t, λ m. c m ∙ k m)

  synced-IsPublication :
      (name : Text) (w : W)
      → IsPublication name w
          (after_sync disk (scratch_name name) name (disk.sync_all (scratch_name name) w))
  unfolding after_sync
  synced-IsPublication name w =
      let src = scratch_name name in
      let w1 = (disk.sync_all src w).1 in
      elim (Bool-cases (is_ok (disk.sync_all src w).0)) [
        | inl o ↦ rw (o) (
            IsPublication-after name w w1 (after_rename disk src name (disk.rename src name w1))
              (λ m. lawful.sync_all-content src m w) (renamed-IsPublication name w1))
        | inr o ↦ rw (o) (inr (refl, λ m. lawful.sync_all-content src m w))
      ]

  pub publish-IsPublication :
      (name : Text) (w : W) → IsPublication name w (publish disk (scratch_name name) name w)
  unfolding publish after_open
  publish-IsPublication name w =
      let src = scratch_name name in
      let w1 = (disk.open_file src w).1 in
      elim (Bool-cases (is_ok (disk.open_file src w).0)) [
        | inl o ↦ rw (o) (
            IsPublication-after name w w1 (after_sync disk src name (disk.sync_all src w1))
              (λ m. lawful.open_file-content src m w) (synced-IsPublication name w1))
        | inr o ↦ rw (o) (inr (refl, λ m. lawful.open_file-content src m w))
      ]
