-- ===== src/Publish/Server.antt =====
-- What a server that keeps the states of its slots does to them and to the files, in the terms of
-- the trait `Backend` of src/backend.rs, and what a save and a restore of src/lib.rs do with it.
use o_llm.Common.{
  ℕ, ◌≡◌, ◌≢◌, refl, sym, ◌∙◌, inl, inr, true, false, Option, some, List, Result, ok, err, is_ok,
  nat_eq,
}
use o_llm.Common.Text.{Text}
use o_llm.Key.{blob_name}
use o_llm.Backend.{Backend}
use o_llm.Publish.{
  Disk, IsDisk, Router, sidecar_path, scratch_name, save_slot, restore_slot, after_restore,
}
use o_llm.Publish.Publication.{bump_mtime-content}
use o_llm.Publish.Atomic.{save_slot-SaveOutcome}
use o_llm.Publish.Names.{
  blob_name-ne-scratch_name, blob_name-ne-sidecar_path, blob_name-ne-blob_name,
}
use o_llm.Publish.Unseen.{Unseen, after_save-Unseen, after_restore-Unseen}

-- `kv` is the state of a slot and `encode` the file that a slot's state is saved to. A save writes
-- the file it is told to and its sidecar; a restore loads the file, if it holds a state, into the
-- slot; the calls on files do nothing to the slots.
pub record IsServer {W V K : Type 0} (disk : Disk W) (be : Backend W V)
    (content : Text → W → Option (List ℕ)) (kv : ℕ → W → K) (encode : K → List ℕ) : Type 0 where
  pub slots-content : (m : Text) (w : W) → content m (be.slots w).1 ≡ content m w
  pub slots-kv : (j : ℕ) (w : W) → kv j (be.slots w).1 ≡ kv j w
  pub save_slot-written :
      (id : ℕ) (n : Text) (w : W)
      → is_ok (be.save_slot id n w).0 ≡ true
      → content n (be.save_slot id n w).1 ≡ some (encode (kv id w))
  pub save_slot-other :
      (id : ℕ) (n m : Text) (w : W)
      → m ≢ n
      → m ≢ sidecar_path n
      → content m (be.save_slot id n w).1 ≡ content m w
  pub save_slot-kv : (id j : ℕ) (n : Text) (w : W) → kv j (be.save_slot id n w).1 ≡ kv j w
  pub restore_slot-loaded :
      (id : ℕ) (n : Text) (k : K) (w : W)
      → is_ok (be.restore_slot id n w).0 ≡ true
      → content n w ≡ some (encode k)
      → kv id (be.restore_slot id n w).1 ≡ k
  pub restore_slot-other :
      (id j : ℕ) (n : Text) (w : W) → nat_eq id j ≡ false → kv j (be.restore_slot id n w).1 ≡ kv j w
  pub restore_slot-content :
      (id : ℕ) (n m : Text) (w : W) → content m (be.restore_slot id n w).1 ≡ content m w
  pub files-kv : (j : ℕ) (name : Text) → Unseen disk (kv j) name

module _ {W V K : Type 0} (disk : Disk W) (be : Backend W V) (content : Text → W → Option (List ℕ))
    (kv : ℕ → W → K) (encode : K → List ℕ) (lawful : IsDisk disk content)
    (server : IsServer disk be content kv encode) (sig : Text) where
  -- A publication does not touch the blob of another session.
  other-Unseen : (u v : Text) → v ≢ u → Unseen disk (content (blob_name v sig)) (blob_name u sig)
  other-Unseen u v d =
      let name = blob_name u sig in
      let blob = blob_name v sig in
      record {
        open_file = lawful.open_file-content (scratch_name name) blob;
        sync_all = lawful.sync_all-content (scratch_name name) blob;
        rename = λ w.
            lawful.rename-other (scratch_name name) name blob w
              (blob_name-ne-scratch_name v sig name) (blob_name-ne-blob_name v u sig d);
        rename_sidecar = λ w.
            lawful.rename-other (sidecar_path (scratch_name name)) (sidecar_path name) blob w
              (blob_name-ne-sidecar_path v sig (scratch_name name))
              (blob_name-ne-sidecar_path v sig name);
        sync_dir = lawful.sync_dir-content blob;
        open_write = lawful.open_write-content name blob;
        set_times = lawful.set_times-content name blob;
      }

  -- A save leaves the states of the slots and the blobs of other sessions as they are.
  pub save_slot-kv :
      (id j : ℕ) (u : Text) (r : Router W)
      → kv j (save_slot disk be sig id u r).1.world ≡ kv j r.world
  unfolding save_slot
  save_slot-kv id j u r =
      let name = blob_name u sig in
      after_save-Unseen disk (kv j) name (server.files-kv j name) be sig id r.slots
        (be.save_slot id (scratch_name name) r.world)
      ∙ server.save_slot-kv id j (scratch_name name) r.world

  pub save_slot-other :
      (id : ℕ) (u v : Text) (r : Router W)
      → v ≢ u
      → content (blob_name v sig) (save_slot disk be sig id u r).1.world
        ≡ content (blob_name v sig) r.world
  unfolding save_slot
  save_slot-other id u v r d =
      let name = blob_name u sig in
      after_save-Unseen disk (content (blob_name v sig)) name (other-Unseen u v d) be sig id r.slots
        (be.save_slot id (scratch_name name) r.world)
      ∙ server.save_slot-other id (scratch_name name) (blob_name v sig) r.world
          (blob_name-ne-scratch_name v sig name)
          (blob_name-ne-sidecar_path v sig (scratch_name name))

  -- After a save that reports success the blob holds the slot's state.
  pub save_slot-saved :
      (id : ℕ) (v : Text) (r : Router W)
      → (save_slot disk be sig id v r).0 ≡ true
      → content (blob_name v sig) (save_slot disk be sig id v r).1.world
        ≡ some (encode (kv id r.world))
  save_slot-saved id v r t = elim (save_slot-SaveOutcome disk content lawful be sig id v r) [
    | inl (s, o, c, blob, side) ↦
        blob ∙ server.save_slot-written id (scratch_name (blob_name v sig)) r.world o
    | inr (f, g, same) ↦ absurd (let z : true ≡ false = sym t ∙ f in cc)
  ]

  -- After a restore that the server accepts the slot holds what the blob holds; no other slot and
  -- no file has changed.
  restored-kv :
      (j : ℕ) (name : Text) (p : Result V Text × W)
      → kv j (after_restore disk be sig name p) ≡ kv j p.1
  restored-kv j name p = after_restore-Unseen disk (kv j) name (server.files-kv j name) be sig p

  pub restore_slot-loaded :
      (id : ℕ) (v : Text) (k : K) (r : Router W)
      → is_ok (be.restore_slot id (blob_name v sig) r.world).0 ≡ true
      → content (blob_name v sig) r.world ≡ some (encode k)
      → kv id (restore_slot disk be sig id v r).world ≡ k
  unfolding restore_slot
  restore_slot-loaded id v k r o c =
      restored-kv id (blob_name v sig) (be.restore_slot id (blob_name v sig) r.world)
      ∙ server.restore_slot-loaded id (blob_name v sig) k r.world o c

  pub restore_slot-other :
      (id j : ℕ) (v : Text) (r : Router W)
      → nat_eq id j ≡ false
      → kv j (restore_slot disk be sig id v r).world ≡ kv j r.world
  unfolding restore_slot
  restore_slot-other id j v r n =
      restored-kv j (blob_name v sig) (be.restore_slot id (blob_name v sig) r.world)
      ∙ server.restore_slot-other id j (blob_name v sig) r.world n

  pub restore_slot-content :
      (id : ℕ) (v : Text) (m : Text) (r : Router W)
      → content m (restore_slot disk be sig id v r).world ≡ content m r.world
  unfolding restore_slot after_restore
  restore_slot-content id v m r =
      by_answer (be.restore_slot id (blob_name v sig) r.world)
      ∙ server.restore_slot-content id (blob_name v sig) m r.world
    where
      by_answer :
          (p : Result V Text × W)
          → content m (after_restore disk be sig (blob_name v sig) p) ≡ content m p.1
      by_answer (ok x, w) = bump_mtime-content disk content lawful (blob_name v sig) m w
      by_answer (err e, w) = refl

  -- A save that fails leaves every blob as it is.
  pub save_slot-failed :
      (id : ℕ) (u v : Text) (r : Router W)
      → (save_slot disk be sig id u r).0 ≡ false
      → content (blob_name v sig) (save_slot disk be sig id u r).1.world
        ≡ content (blob_name v sig) r.world
  save_slot-failed id u v r f = elim (save_slot-SaveOutcome disk content lawful be sig id u r) [
    | inl (s, o, c, blob, side) ↦ absurd (let z : true ≡ false = sym s ∙ f in cc)
    | inr (g, h, same) ↦
        same (blob_name v sig)
        ∙ server.save_slot-other id (scratch_name (blob_name u sig)) (blob_name v sig) r.world
            (blob_name-ne-scratch_name v sig (blob_name u sig))
            (blob_name-ne-sidecar_path v sig (scratch_name (blob_name u sig)))
  ]
