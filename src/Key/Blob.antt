-- ===== src/Key/Blob.antt =====
-- Blob names: `blob_name` and the backend signature that `serve` computes (src/lib.rs).
use mathlib.Core.List.{append_cancel_right, append_assoc}
use o_llm.Common.{ℕ, ◌≡◌, refl, ap, Option, some, List, [], ◌∷◌, ◌++◌, arith, length, length-append}
use o_llm.Common.Text.{Text, codes}
use o_llm.Json.{Json}
use o_llm.Key.{compat_input, backend_signature, blob_name}
use o_llm.Key.Session.{IsDigest, IsDigits, slice_to-hex}

append-injective :
    (xs xs' ys ys' : Text)
    → length ys ≡ length ys'
    → xs ++ ys ≡ xs' ++ ys'
    → (xs ≡ xs') × (ys ≡ ys')
append-injective [] [] ys ys' l e = (refl, e)
append-injective [] (x ∷ xs') ys ys' l e =
    absurd (omega (arith, ap length e, length-append {0} xs' ys'))
append-injective (x ∷ xs) [] ys ys' l e =
    absurd (omega (arith, ap length e, length-append {0} xs ys))
append-injective (x ∷ xs) (x' ∷ xs') ys ys' l e = ground (arith, append-injective xs xs' ys ys' l)

-- Names under signatures of one length tell both the session and the signature.
pub blob_name-injective :
    (s s' sig sig' : Text)
    → length sig ≡ length sig'
    → blob_name s sig ≡ blob_name s' sig'
    → (s ≡ s') × (sig ≡ sig')
unfolding blob_name
blob_name-injective s s' sig sig' l e =
    let p : (s ++ (codes "__" ++ sig)) ++ codes ".bin"
        ≡ (s' ++ (codes "__" ++ sig')) ++ codes ".bin" =
      simp append_assoc e in
    let q =
      append-injective s s' (codes "__" ++ sig) (codes "__" ++ sig') (omega (arith, l))
        (append_cancel_right _ _ _ p) in
    (q.0, ground arith)

module _ {V : Type 0} (J : Json V) (sha256 : List ℕ → List ℕ) where
  pub backend_signature-IsDigits :
      IsDigest sha256
      → (props : Option V)
      → (sig : Text) × (backend_signature J sha256 props ≡ some sig) × IsDigits 12 sig
  unfolding backend_signature
  backend_signature-IsDigits d props = slice_to-hex sha256 12 (compat_input J props) d (omega arith)

  -- The compatibility gate: if SHA-256 gives 32 bytes, two backends have one blob name in common
  -- only if their signatures are the same, and then it is the blob of one session.
  pub blob_name-compat :
      IsDigest sha256
      → (props props' : Option V) (s s' sig sig' : Text)
      → backend_signature J sha256 props ≡ some sig
      → backend_signature J sha256 props' ≡ some sig'
      → blob_name s sig ≡ blob_name s' sig'
      → (s ≡ s') × (sig ≡ sig')
  blob_name-compat d props props' s s' sig sig' e e' h =
      let (t, f, v) = backend_signature-IsDigits d props in
      let (t', f', v') = backend_signature-IsDigits d props' in
      let p : t ≡ sig = ground arith in
      let p' : t' ≡ sig' = ground arith in
      blob_name-injective s s' sig sig'
        (omega (arith, v.exact, v'.exact, ap length p, ap length p')) h
