-- ===== src/Publish/Atomic.antt =====
-- What a save does to the registry and to the files.
use o_llm.Common.{
  ℕ, ◌≡◌, refl, ◌∙◌, ◌⊎◌, inl, inr, Bool, true, false, Option, List, Result, ok, err, is_ok,
  if◌then◌else◌,
}
use o_llm.Common.Text.{Text}
use o_llm.Key.{blob_name}
use o_llm.Backend.{Backend}
use o_llm.Slots.{Slots, mark_clean}
use o_llm.Slots.Views.{is_dirty, mark_clean-cleans}
use o_llm.Publish.{
  Disk, IsDisk, bump_mtime, Router, save_slot, publish, sidecar_path, scratch_name, after_publish,
  after_save,
}
use o_llm.Publish.Publication.{SidecarOf, IsPublication, publish-IsPublication, bump_mtime-content}

module _ {W V : Type 0} (disk : Disk W) (be : Backend W V) (backend_sig : Text) where
  -- A save marks its slot clean if it published, and changes the registry in no other way.
  abbrev pub Marked : ℕ → Slots → Bool × Router W → Type 0
  Marked id g p = ((p.0 ≡ true) × (p.1.slots ≡ mark_clean id g)) ⊎ ((p.0 ≡ false) × (p.1.slots ≡ g))

  after_publish-Marked :
      (id : ℕ) (name : Text) (g : Slots) (a : Bool × W)
      → Marked id g (after_publish disk be backend_sig id name g a)
  unfolding after_publish
  after_publish-Marked id name g (true, w) = inl (refl, refl)
  after_publish-Marked id name g (false, w) = inr (refl, refl)

  after_save-Marked :
      (id : ℕ) (name : Text) (g : Slots) (a : Result V Text × W)
      → Marked id g (after_save disk be backend_sig id name g a)
  unfolding after_save
  after_save-Marked id name g (ok v, w) =
      after_publish-Marked id name g (publish disk (scratch_name name) name w)
  after_save-Marked id name g (err e, w) = inr (refl, refl)

  pub save_slot-Marked :
      (id : ℕ) (session : Text) (r : Router W)
      → Marked id r.slots (save_slot disk be backend_sig id session r)
  unfolding save_slot
  save_slot-Marked id session r =
      let name = blob_name session backend_sig in
      after_save-Marked id name r.slots (be.save_slot id (scratch_name name) r.world)

module _ {W : Type 0} (disk : Disk W) (content : Text → W → Option (List ℕ))
    (lawful : IsDisk disk content) where
  module _ {V : Type 0} (be : Backend W V) (backend_sig : Text) where
    -- The world as the backend leaves it after it was told to save the slot.
    abbrev pub written : ℕ → Text → Router W → Result V Text × W
    written id session r = be.save_slot id (scratch_name (blob_name session backend_sig)) r.world

    abbrev pub SaveOutcome : ℕ → Text → Router W → Bool × Router W → Type 0
    SaveOutcome id session r p =
        ((p.0 ≡ true)
          × (is_ok (written id session r).0 ≡ true)
          × (is_dirty id p.1.slots ≡ false)
          × (content (blob_name session backend_sig) p.1.world
              ≡ content (scratch_name (blob_name session backend_sig)) (written id session r).1)
          × SidecarOf disk content lawful (scratch_name (blob_name session backend_sig))
              (blob_name session backend_sig) (written id session r).1 p.1.world)
        ⊎ ((p.0 ≡ false)
            × (p.1.slots ≡ r.slots)
            × ((m : Text) → content m p.1.world ≡ content m (written id session r).1))

    after_publish-SaveOutcome :
        (id : ℕ) (session : Text) (r : Router W) (q : Bool × W)
        → is_ok (written id session r).0 ≡ true
        → IsPublication disk content lawful
            (blob_name session backend_sig)
            (written id session r).1
            q
        → SaveOutcome id session r
            (after_publish disk be backend_sig id (blob_name session backend_sig) r.slots q)
    unfolding after_publish
    after_publish-SaveOutcome id session r (true, w) o (inl (t, c, s)) =
        let name = blob_name session backend_sig in
        inl (
          refl,
          o,
          mark_clean-cleans id r.slots,
          bump_mtime-content disk content lawful name name w ∙ c,
          touched s,
        )
      where
        touched :
            SidecarOf disk content lawful
              (scratch_name (blob_name session backend_sig))
              (blob_name session backend_sig)
              (written id session r).1
              w
            → SidecarOf disk content lawful
                (scratch_name (blob_name session backend_sig))
                (blob_name session backend_sig)
                (written id session r).1
                (bump_mtime disk (blob_name session backend_sig) w)
        touched (inl k) = inl (
            bump_mtime-content disk content lawful (blob_name session backend_sig)
              (sidecar_path (blob_name session backend_sig)) w
            ∙ k)
        touched (inr k) = inr (
            bump_mtime-content disk content lawful (blob_name session backend_sig)
              (sidecar_path (blob_name session backend_sig)) w
            ∙ k)
    after_publish-SaveOutcome id session r (true, w) o (inr (t, c)) = absurd cc
    after_publish-SaveOutcome id session r (false, w) o (inl (t, c, s)) = absurd cc
    after_publish-SaveOutcome id session r (false, w) o (inr (t, c)) = inr (refl, refl, c)

    answered-SaveOutcome :
        (id : ℕ) (session : Text) (r : Router W) (b : Bool)
        → is_ok (written id session r).0 ≡ b
        → SaveOutcome id session r (
            if b
            then after_publish disk be backend_sig id (blob_name session backend_sig) r.slots (
                publish disk
                  (scratch_name (blob_name session backend_sig))
                  (blob_name session backend_sig)
                  (written id session r).1)
            else (false, record { slots = r.slots; world = (written id session r).1 }))
    answered-SaveOutcome id session r true o =
        after_publish-SaveOutcome id session r
          (publish disk (scratch_name (blob_name session backend_sig))
            (blob_name session backend_sig) (written id session r).1)
          o
          (publish-IsPublication disk content lawful (blob_name session backend_sig)
            (written id session r).1)
    answered-SaveOutcome id session r false o = inr (refl, refl, λ m. refl)

    -- R2, publication is atomic. A save that reports success was accepted by the backend, its slot
    -- is clean, the blob is the whole scratch file that the backend left, and the sidecar beside
    -- it is the scratch file's or the one that was there. A save that does not leaves the registry
    -- and every file as they were when the backend answered.
    pub save_slot-SaveOutcome :
        (id : ℕ) (session : Text) (r : Router W)
        → SaveOutcome id session r (save_slot disk be backend_sig id session r)
    unfolding save_slot after_save
    save_slot-SaveOutcome id session r =
        answered-SaveOutcome id session r (is_ok (written id session r).0) refl
