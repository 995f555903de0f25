-- ===== src/Publish/Restart.antt =====
-- What is found after a crash in the middle of `App::save_slot` of src/lib.rs.
use o_llm.Common.{
  ℕ, ◌≡◌, refl, sym, ap, ◌∙◌, ◌⊎◌, inl, inr, Bool, true, false, Option, List, Result, ok, err,
  is_ok, Bool-cases, All, All-In, All_intro, All-append,
}
use o_llm.Common.Text.{Text}
use o_llm.Key.{blob_name}
use o_llm.Backend.{Backend}
use o_llm.Publish.{Disk, IsDisk, Router, save_slot, publish, scratch_name}
use o_llm.Publish.Publication.{
  sidecar-ne, scratch_sidecar-ne-name, rename_sidecar-other, renamed-content, publish-IsPublication,
  bump_mtime-content,
}
use o_llm.Publish.Crash.{
  last_or, rename_points, sync_points, publish_points, touch_points, answer_points, save_points,
  answered,
}

module _ {W : Type 0} (disk : Disk W) (content : Text → W → Option (List ℕ))
    (lawful : IsDisk disk content) where
  -- From the files at `w`, the blob is as it was, or the whole scratch file.
  abbrev IsWhole : Text → W → W → Type 0
  IsWhole name w w' =
      (content name w' ≡ content name w) ⊎ (content name w' ≡ content (scratch_name name) w)

  -- A call before that changes no file.
  IsWhole-after :
      (name : Text) (w w' : W) (ps : List W)
      → ((m : Text) → content m w' ≡ content m w)
      → All (IsWhole name w') ps
      → All (IsWhole name w) ps
  IsWhole-after name w w' ps same h = All_intro (IsWhole name w) ps (λ x m.
      elim (All-In (IsWhole name w') x ps h m) [
        | inl e ↦ inl (e ∙ same name)
        | inr e ↦ inr (e ∙ same (scratch_name name))
      ])

  rename_points-IsWhole :
      (name : Text) (w : W)
      → All
          (IsWhole name w)
          (rename_points disk (scratch_name name) name (disk.rename (scratch_name name) name w))
  unfolding rename_points
  rename_points-IsWhole name w =
      let src = scratch_name name in
      let w1 = (disk.rename src name w).1 in
      elim (Bool-cases (is_ok (disk.rename src name w).0)) [
        | inl o ↦
            let moved = lawful.rename-target src name w o in
            let beside =
              rename_sidecar-other disk content lawful src name name w1
                (λ k. scratch_sidecar-ne-name name (sym k)) (λ k. sidecar-ne name (sym k)) in
            let synced = renamed-content disk content lawful name w w1 moved in
            rw o (inr moved, (inr (beside ∙ moved), (inr synced, tt)))
        | inr o ↦ rw o (inl (lawful.rename-failed src name name w o), tt)
      ]

  sync_points-IsWhole :
      (name : Text) (w : W)
      → All
          (IsWhole name w)
          (sync_points disk (scratch_name name) name (disk.sync_all (scratch_name name) w))
  unfolding sync_points
  sync_points-IsWhole name w =
      let src = scratch_name name in
      let w1 = (disk.sync_all src w).1 in
      let same = λ (m : Text). lawful.sync_all-content src m w in
      elim (Bool-cases (is_ok (disk.sync_all src w).0)) [
        | inl o ↦ rw o (
          inl (same name),
          IsWhole-after name w w1 (rename_points disk src name (disk.rename src name w1)) same
              (rename_points-IsWhole name w1),
        )
        | inr o ↦ rw o (inl (same name), tt)
      ]

  publish_points-IsWhole :
      (name : Text) (w : W)
      → All
          (IsWhole name w)
          (publish_points disk (scratch_name name) name (disk.open_file (scratch_name name) w))
  unfolding publish_points
  publish_points-IsWhole name w =
      let src = scratch_name name in
      let w1 = (disk.open_file src w).1 in
      let same = λ (m : Text). lawful.open_file-content src m w in
      elim (Bool-cases (is_ok (disk.open_file src w).0)) [
        | inl o ↦ rw o (
          inl (same name),
          IsWhole-after name w w1 (sync_points disk src name (disk.sync_all src w1)) same
              (sync_points-IsWhole name w1),
        )
        | inr o ↦ rw o (inl (same name), tt)
      ]

  touch_points-IsWhole :
      (name : Text) (w : W) (p : Bool × W)
      → IsWhole name w p.1
      → All (IsWhole name w) (touch_points disk name p)
  touch_points-IsWhole name w (true, w1) (inl e) = (
    inl (lawful.open_write-content name name w1 ∙ e),
    (inl (bump_mtime-content disk content lawful name name w1 ∙ e), tt),
  )
  touch_points-IsWhole name w (true, w1) (inr e) = (
    inr (lawful.open_write-content name name w1 ∙ e),
    (inr (bump_mtime-content disk content lawful name name w1 ∙ e), tt),
  )
  touch_points-IsWhole name w (false, w1) h = tt

  publish-IsWhole :
      (name : Text) (w : W) → IsWhole name w (publish disk (scratch_name name) name w).1
  publish-IsWhole name w = elim (publish-IsPublication disk content lawful name w) [
    | inl (t, c, s) ↦ inr c
    | inr (t, same) ↦ inl (same name)
  ]

  answer_points-IsWhole :
      {V : Type 0} (be : Backend W V) (backend_sig name : Text) (q : Result V Text × W)
      → All (IsWhole name q.1) (answer_points disk be backend_sig name q)
  unfolding answer_points
  answer_points-IsWhole be sig name (err e, w) = (inl refl, tt)
  answer_points-IsWhole be sig name (ok v, w) = (
    inl refl,
    All-append (IsWhole name w)
        (publish_points disk (scratch_name name) name (disk.open_file (scratch_name name) w))
        (touch_points disk name (publish disk (scratch_name name) name w))
        (publish_points-IsWhole name w)
        (touch_points-IsWhole name w (publish disk (scratch_name name) name w)
          (publish-IsWhole name w)),
  )

  -- R2 under a crash of the proxy. The states of the files after each call of a save lead to the
  -- one in which the save ends; and in each of them, if the server leaves the session's blob as it
  -- is, the blob is what it was before the save, or the whole scratch file that the server left.
  pub save_points-IsWhole :
      {V : Type 0} (be : Backend W V) (backend_sig : Text) (id : ℕ) (session : Text) (r : Router W)
      (w : W)
      → (be.save_slot id (scratch_name (blob_name session backend_sig)) r.world).1 ≡ w
      → content (blob_name session backend_sig) w ≡ content (blob_name session backend_sig) r.world
      → (last_or r.world (save_points disk be backend_sig id session r)
          ≡ (save_slot disk be backend_sig id session r).1.world)
        × All
            (λ w'.
              (content (blob_name session backend_sig) w'
                ≡ content (blob_name session backend_sig) r.world)
              ⊎ (content (blob_name session backend_sig) w'
                  ≡ content (scratch_name (blob_name session backend_sig)) w))
            (save_points disk be backend_sig id session r)
  unfolding save_points save_slot
  save_points-IsWhole be sig id session r w e same =
      let name = blob_name session sig in
      let q = be.save_slot id (scratch_name name) r.world in
      (
        answered disk be sig id name r q r.world,
        All_intro _ (answer_points disk be sig name q) (λ x m.
            elim (All-In (IsWhole name q.1) x (answer_points disk be sig name q)
              (answer_points-IsWhole be sig name q) m) [
                | inl k ↦ inl (k ∙ (ap (content name) e ∙ same))
                | inr k ↦ inr (k ∙ ap (content (scratch_name name)) e)
              ]),
      )
