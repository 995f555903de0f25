-- ===== src/Publish/Names.antt =====
-- The names of the files that a save of src/lib.rs touches, beside the blob of another session.
use mathlib.Core.List.{append_assoc}
use o_llm.Common.{◌≡◌, ◌≢◌, refl, sym, ◌∙◌, [], ◌∷◌, ◌++◌, arith}
use o_llm.Common.Text.{Text, codes, last-ne}
use o_llm.Key.{blob_name}
use o_llm.Key.Blob.{blob_name-injective}
use o_llm.Publish.{scratch_name, sidecar_path}

-- A blob's name ends in `n`.
blob_name-last : (v sig : Text) → (t : Text) × (blob_name v sig ≡ t ++ (b'n' ∷ []))
unfolding blob_name
blob_name-last v sig = (v ++ (codes "__" ++ (sig ++ codes ".bi")), simp append_assoc)

pub blob_name-ne-scratch_name : (v sig name : Text) → blob_name v sig ≢ scratch_name name
unfolding scratch_name
blob_name-ne-scratch_name v sig name e =
    let (t, q) = blob_name-last v sig in
    last-ne t (name ++ codes ".sav") {x = b'n'} {y = b'e'} (omega arith)
      (sym q ∙ (e ∙ simp append_assoc))

pub blob_name-ne-sidecar_path : (v sig name : Text) → blob_name v sig ≢ sidecar_path name
unfolding sidecar_path
blob_name-ne-sidecar_path v sig name e =
    let (t, q) = blob_name-last v sig in
    last-ne t (name ++ codes ".ckp") {x = b'n'} {y = b't'} (omega arith)
      (sym q ∙ (e ∙ simp append_assoc))

pub blob_name-ne-blob_name : (v u sig : Text) → v ≢ u → blob_name v sig ≢ blob_name u sig
blob_name-ne-blob_name v u sig d e = d (blob_name-injective v u sig sig refl e).0
