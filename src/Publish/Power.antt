-- ===== src/Publish/Power.antt =====
-- A power failure in the middle of `App::save_slot` of src/lib.rs: a file that was not synced may be
-- lost or torn, and a rename may not have reached the disk.
use o_llm.Common.{
  ℕ, ◌≡◌, sym, ap, subst, ◌∙◌, ◌⊎◌, inl, inr, Bool, true, false, Option, List, [], ◌∷◌, Result, ok,
  err, is_ok, Bool-cases, All, All-append,
}
use o_llm.Common.Text.{Text}
use o_llm.Key.{blob_name}
use o_llm.Backend.{Backend}
use o_llm.Publish.{
  Disk, IsDisk, Router, save_slot, publish, scratch_name, sidecar_path, rename_sidecar, bump_mtime,
  set_if_open,
}
use o_llm.Publish.Publication.{sidecar-ne, scratch_sidecar-ne-name}
use o_llm.Publish.Restart.{save_points-IsWhole}
use o_llm.Publish.Crash.{
  last_or, rename_points, sync_points, publish_points, touch_points, answer_points, save_points,
  publish_points-after_open,
}
use o_llm.Publish.Volatile.{IsDurable}

All-last : {W : Type 0} (P : W → Type 0) (a : W) (xs : List W) → P a → All P xs → P (last_or a xs)
All-last P a [] h all = h
All-last P a (x ∷ xs) h (k, all) = All-last P x xs k all

module _ {W : Type 0} (disk : Disk W) (content : Text → W → Option (List ℕ))
    (left bytes : W → Text → Option (List ℕ) → Type 0) (lawful : IsDisk disk content)
    (durable : IsDurable disk content left bytes) (name : Text) (start : W)
    (new : Option (List ℕ)) where
  -- A power failure leaves under the blob's name nothing that it could not have left at the start.
  abbrev IsOld : W → Type 0
  IsOld w = (c : Option (List ℕ)) → left w name c → left start name c

  -- It leaves what it could have left at the start, or the new blob.
  abbrev IsSpared : W → Type 0
  IsSpared w = (c : Option (List ℕ)) → left w name c → left start name c ⊎ (c ≡ new)

  IsOld-IsSpared : (w : W) → IsOld w → IsSpared w
  IsOld-IsSpared w old c l = inl (old c l)

  rename_sidecar-IsSpared :
      (w : W) → IsSpared w → IsSpared (rename_sidecar disk (scratch_name name) name w)
  unfolding rename_sidecar
  rename_sidecar-IsSpared w h =
      elim (Bool-cases (disk.exists (sidecar_path (scratch_name name)) w)) [
        | inl e ↦
            rw (e, rename_sidecar)
              (λ c l. h c (
                durable.rename-other (sidecar_path (scratch_name name)) (sidecar_path name) name w c
                  (λ k. scratch_sidecar-ne-name name (sym k)) (λ k. sidecar-ne name (sym k)) l))
        | inr e ↦ rw (e, rename_sidecar) h
      ]

  rename_points-IsSpared :
      (w : W)
      → IsOld w
      → ((c : Option (List ℕ)) → bytes w (scratch_name name) c → c ≡ new)
      → All IsSpared
          (rename_points disk (scratch_name name) name (disk.rename (scratch_name name) name w))
  unfolding rename_points
  rename_points-IsSpared w old synced = elim (Bool-cases (is_ok (disk.rename src name w).0)) [
    | inl o ↦ rw o (
      renamed,
      (
        rename_sidecar-IsSpared w1 renamed,
        (
          λ c l.
              rename_sidecar-IsSpared w1 renamed c
                (durable.sync_dir-left name (rename_sidecar disk src name w1) c l),
          tt,
        ),
      ),
    )
    | inr o ↦ rw o (λ c l. inl (old c (durable.rename-failed src name name w c o l)), tt)
  ]
    where
      src : Text
      src = scratch_name name

      w1 : W
      w1 = (disk.rename src name w).1

      renamed : IsSpared w1
      renamed c l = elim (durable.rename-left src name w c l) [
        | inl before ↦ inl (old c before)
        | inr d ↦ inr (synced c d)
      ]

  sync_points-IsSpared :
      (w : W)
      → IsOld w
      → content (scratch_name name) w ≡ new
      → All IsSpared
          (sync_points disk (scratch_name name) name (disk.sync_all (scratch_name name) w))
  unfolding sync_points
  sync_points-IsSpared w old whole = elim (Bool-cases (is_ok (disk.sync_all src w).0)) [
    | inl o ↦ rw o (
      IsOld-IsSpared w1 still,
      rename_points-IsSpared w1 still (λ c d. durable.sync_all-bytes src w c o d ∙ whole),
    )
    | inr o ↦ rw o (IsOld-IsSpared w1 still, tt)
  ]
    where
      src : Text
      src = scratch_name name

      w1 : W
      w1 = (disk.sync_all src w).1

      still : IsOld w1
      still c l = old c (durable.sync_all-left src name w c l)

  publish_points-IsSpared :
      (w : W)
      → IsOld w
      → content (scratch_name name) w ≡ new
      → All IsSpared
          (publish_points disk (scratch_name name) name (disk.open_file (scratch_name name) w))
  unfolding publish_points
  publish_points-IsSpared w old whole = elim (Bool-cases (is_ok (disk.open_file src w).0)) [
    | inl o ↦ rw o (
      IsOld-IsSpared w1 still,
      sync_points-IsSpared w1 still (lawful.open_file-content src src w ∙ whole),
    )
    | inr o ↦ rw o (IsOld-IsSpared w1 still, tt)
  ]
    where
      src : Text
      src = scratch_name name

      w1 : W
      w1 = (disk.open_file src w).1

      still : IsOld w1
      still c l = old c (durable.open_file-left src name w c l)

  touched-IsSpared :
      (p : Result (Unit {0}) Text × W) → IsSpared p.1 → IsSpared (set_if_open disk name p)
  touched-IsSpared (ok t, w) h c l = h c (durable.set_times-left name name w c l)
  touched-IsSpared (err e, w) h c l = h c l

  touch_points-IsSpared : (p : Bool × W) → IsSpared p.1 → All IsSpared (touch_points disk name p)
  unfolding bump_mtime
  touch_points-IsSpared (false, w) h = tt
  touch_points-IsSpared (true, w) h = (
    λ c l. h c (durable.open_write-left name name w c l),
    (
      touched-IsSpared (disk.open_write name w)
          (λ c l. h c (durable.open_write-left name name w c l)),
      tt,
    ),
  )

  answer_points-IsSpared :
      {V : Type 0} (be : Backend W V) (sig : Text) (q : Result V Text × W)
      → IsOld q.1
      → content (scratch_name name) q.1 ≡ new
      → All IsSpared (answer_points disk be sig name q)
  unfolding answer_points publish
  answer_points-IsSpared be sig (err e, w) old whole = (IsOld-IsSpared w old, tt)
  answer_points-IsSpared be sig (ok v, w) old whole =
      let points =
        publish_points disk (scratch_name name) name (disk.open_file (scratch_name name) w) in
      let spared = publish_points-IsSpared w old whole in
      (
        IsOld-IsSpared w old,
        All-append IsSpared points
            (touch_points disk name (publish disk (scratch_name name) name w)) spared
            (touch_points-IsSpared (publish disk (scratch_name name) name w) (
              subst IsSpared
                (publish_points-after_open disk (scratch_name name) name
                  (disk.open_file (scratch_name name) w) w)
                (All-last IsSpared w points (IsOld-IsSpared w old) spared))),
      )

module _ {W : Type 0} (disk : Disk W) (content : Text → W → Option (List ℕ))
    (left bytes : W → Text → Option (List ℕ) → Type 0) (lawful : IsDisk disk content)
    (durable : IsDurable disk content left bytes) where
  -- R2 under a crash and under a power failure. Let the server leave the session's blob as it is,
  -- and put nothing more at risk under its name. Then in each state of the files after a call of a
  -- save, the blob is what it was before the save or the whole scratch file that the server left,
  -- and a power failure in that state leaves under the blob's name what a failure before the save
  -- could have left, or the whole scratch file; and the last of these states is the one in which
  -- the save ends.
  pub save_points-IsSpared :
      {V : Type 0} (be : Backend W V) (sig : Text) (id : ℕ) (session : Text) (r : Router W) (w : W)
      → (be.save_slot id (scratch_name (blob_name session sig)) r.world).1 ≡ w
      → content (blob_name session sig) w ≡ content (blob_name session sig) r.world
      → ((c : Option (List ℕ))
          → left w (blob_name session sig) c
          → left r.world (blob_name session sig) c)
      → (last_or r.world (save_points disk be sig id session r)
          ≡ (save_slot disk be sig id session r).1.world)
        × All
            (λ w'.
              (content (blob_name session sig) w' ≡ content (blob_name session sig) r.world)
              ⊎ (content (blob_name session sig) w'
                  ≡ content (scratch_name (blob_name session sig)) w))
            (save_points disk be sig id session r)
        × All
            (λ w'.
              (c : Option (List ℕ))
              → left w' (blob_name session sig) c
              → left r.world (blob_name session sig) c
                ⊎ (c ≡ content (scratch_name (blob_name session sig)) w))
            (save_points disk be sig id session r)
  unfolding save_points
  save_points-IsSpared be sig id session r w e same old =
      let name = blob_name session sig in
      let q = be.save_slot id (scratch_name name) r.world in
      let (end, whole) = save_points-IsWhole disk content lawful be sig id session r w e same in
      (
        end,
        whole,
        answer_points-IsSpared disk content left bytes lawful durable name r.world
            (content (scratch_name name) w) be sig q (λ c l. old c (subst (λ x. left x name c) e l))
            (ap (content (scratch_name name)) e),
      )
