-- ===== src/Publish/Durable.antt =====
-- What a power failure leaves after `App::save_slot` of src/lib.rs has reported success.
use o_llm.Common.{
  ℕ, ◌≡◌, ◌≢◌, refl, sym, ◌∙◌, inl, inr, Bool, true, false, Option, List, Result, ok, err, is_ok,
  Bool-cases,
}
use o_llm.Common.Text.{Text}
use o_llm.Key.{blob_name}
use o_llm.Slots.{Slots}
use o_llm.Backend.{Backend}
use o_llm.Publish.{
  Disk, IsDisk, Router, save_slot, publish, scratch_name, sidecar_path, rename_sidecar, bump_mtime,
  set_if_open, after_open, after_sync, after_rename, after_publish, after_save,
}
use o_llm.Publish.Publication.{sidecar-ne, scratch_sidecar-ne-name}
use o_llm.Publish.Volatile.{IsDurable}

-- The directory can be synced: then a name is left with the data of the file that has it. A rename
-- that succeeds takes the file's data along, and concerns no other name.
pub record SyncsDir {W : Type 0} (disk : Disk W) (left bytes : W → Text → Option (List ℕ) → Type 0)
    : Type 0 where
  pub sync_dir-bytes :
      (n : Text) (w : W) (c : Option (List ℕ)) → left (disk.sync_dir w) n c → bytes w n c
  pub rename-bytes :
      (a b : Text) (w : W) (c : Option (List ℕ))
      → is_ok (disk.rename a b w).0 ≡ true
      → bytes (disk.rename a b w).1 b c
      → bytes w a c
  pub rename-bytes_other :
      (a b m : Text) (w : W) (c : Option (List ℕ))
      → m ≢ a
      → m ≢ b
      → bytes (disk.rename a b w).1 m c
      → bytes w m c

module _ {W : Type 0} (disk : Disk W) (content : Text → W → Option (List ℕ))
    (left bytes : W → Text → Option (List ℕ) → Type 0) (lawful : IsDisk disk content)
    (durable : IsDurable disk content left bytes) (syncs : SyncsDir disk left bytes)
    (name : Text) where
  -- After a success a power failure leaves the given content under the blob's name.
  abbrev Leaves : Option (List ℕ) → Bool × W → Type 0
  Leaves new p = p.0 ≡ true → (c : Option (List ℕ)) → left p.1 name c → c ≡ new

  rename_sidecar-bytes :
      (w : W) (c : Option (List ℕ))
      → bytes (rename_sidecar disk (scratch_name name) name w) name c
      → bytes w name c
  unfolding rename_sidecar
  rename_sidecar-bytes w c = elim (Bool-cases (disk.exists (sidecar_path (scratch_name name)) w)) [
    | inl e ↦
        rw (e, rename_sidecar)
          (syncs.rename-bytes_other (sidecar_path (scratch_name name)) (sidecar_path name) name w c
            (λ k. scratch_sidecar-ne-name name (sym k)) (λ k. sidecar-ne name (sym k)))
    | inr e ↦ rw (e, rename_sidecar) (λ b. b)
  ]

  renamed-Leaves :
      (new : Option (List ℕ)) (w : W)
      → ((c : Option (List ℕ)) → bytes w (scratch_name name) c → c ≡ new)
      → Leaves new
          (after_rename disk (scratch_name name) name (disk.rename (scratch_name name) name w))
  unfolding after_rename
  renamed-Leaves new w synced =
      elim (Bool-cases (is_ok (disk.rename (scratch_name name) name w).0)) [
        | inr o ↦ rw (o, after_rename) (λ t. absurd cc)
        | inl o ↦
            rw (o, after_rename)
              (λ t c l.
                let w1 = (disk.rename (scratch_name name) name w).1 in
                let beside = rename_sidecar disk (scratch_name name) name w1 in
                synced c (
                  syncs.rename-bytes (scratch_name name) name w c o
                    (rename_sidecar-bytes w1 c (syncs.sync_dir-bytes name beside c l))))
      ]

  synced-Leaves :
      (new : Option (List ℕ)) (w : W)
      → content (scratch_name name) w ≡ new
      → Leaves new (after_sync disk (scratch_name name) name (disk.sync_all (scratch_name name) w))
  unfolding after_sync
  synced-Leaves new w whole = elim (Bool-cases (is_ok (disk.sync_all (scratch_name name) w).0)) [
    | inr o ↦ rw (o, after_sync) (λ t. absurd cc)
    | inl o ↦
        rw (o, after_sync)
          (renamed-Leaves new (disk.sync_all (scratch_name name) w).1
            (λ c b. durable.sync_all-bytes (scratch_name name) w c o b ∙ whole))
  ]

  publish-Leaves :
      (w : W) → Leaves (content (scratch_name name) w) (publish disk (scratch_name name) name w)
  unfolding publish after_open
  publish-Leaves w = elim (Bool-cases (is_ok (disk.open_file (scratch_name name) w).0)) [
    | inr o ↦ rw (o, after_open) (λ t. absurd cc)
    | inl o ↦
        rw (o, after_open)
          (synced-Leaves (content (scratch_name name) w) (disk.open_file (scratch_name name) w).1
            (lawful.open_file-content (scratch_name name) (scratch_name name) w))
  ]

  bump_mtime-left :
      (w : W) (c : Option (List ℕ)) → left (bump_mtime disk name w) name c → left w name c
  unfolding bump_mtime
  bump_mtime-left w c l = durable.open_write-left name name w c (touched (disk.open_write name w) l)
    where
      touched :
          (p : Result (Unit {0}) Text × W) → left (set_if_open disk name p) name c → left p.1 name c
      touched (ok t, w') l' = durable.set_times-left name name w' c l'
      touched (err e, w') l' = l'

  after_publish-Leaves :
      {V : Type 0} (be : Backend W V) (sig : Text) (id : ℕ) (g : Slots) (new : Option (List ℕ))
      (p : Bool × W)
      → Leaves new p
      → (after_publish disk be sig id name g p).0 ≡ true
      → (c : Option (List ℕ)) → left (after_publish disk be sig id name g p).1.world name c
      → c ≡ new
  unfolding after_publish
  after_publish-Leaves be sig id g new (true, w) h t c l = h refl c (bump_mtime-left w c l)
  after_publish-Leaves be sig id g new (false, w) h t c l = absurd cc

  after_save-Leaves :
      {V : Type 0} (be : Backend W V) (sig : Text) (id : ℕ) (g : Slots) (q : Result V Text × W)
      → (after_save disk be sig id name g q).0 ≡ true
      → (c : Option (List ℕ)) → left (after_save disk be sig id name g q).1.world name c
      → c ≡ content (scratch_name name) q.1
  unfolding after_save
  after_save-Leaves be sig id g (err e, w) t c l = absurd cc
  after_save-Leaves be sig id g (ok v, w) t c l =
      after_publish-Leaves be sig id g (content (scratch_name name) w)
        (publish disk (scratch_name name) name w) (publish-Leaves w) t c l

module _ {W : Type 0} (disk : Disk W) (content : Text → W → Option (List ℕ))
    (left bytes : W → Text → Option (List ℕ) → Type 0) (lawful : IsDisk disk content)
    (durable : IsDurable disk content left bytes) (syncs : SyncsDir disk left bytes) where
  -- A save that reports success survives a power failure. If the directory can be synced, then
  -- after a save that reports success a power failure leaves under the blob's name the whole
  -- scratch file that the server left.
  pub save_slot-survives :
      {V : Type 0} (be : Backend W V) (sig : Text) (id : ℕ) (session : Text) (r : Router W)
      → (save_slot disk be sig id session r).0 ≡ true
      → (c : Option (List ℕ))
      → left (save_slot disk be sig id session r).1.world (blob_name session sig) c
      → c
        ≡ content
            (scratch_name (blob_name session sig))
            (be.save_slot id (scratch_name (blob_name session sig)) r.world).1
  unfolding save_slot
  save_slot-survives be sig id session r =
      after_save-Leaves disk content left bytes lawful durable syncs (blob_name session sig) be sig
        id r.slots (be.save_slot id (scratch_name (blob_name session sig)) r.world)
