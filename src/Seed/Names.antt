-- ===== src/Seed/Names.antt =====
-- The family key and the blob name of src/seed.rs, beside the session keys of src/lib.rs.

use o_llm.Common.{
  ℕ, ◌≡◌, refl, ◌≢◌, inl, inr, Option, none, some, List, [], ◌∷◌, ◌++◌, arith, filter, flat_map,
  Option-cases,
}
use o_llm.Common.Text.{Text, codes}
use o_llm.Json.{Json}
use o_llm.Key.{
  is_system, messages_of, digest_input, fallback_key, session_key, blob_name, slice_to, hex,
  sanitize,
}
use o_llm.Key.Session.{IsDigest, slice_to-hex, fallback_key-IsDigits}
use o_llm.Seed.{hex16, hash_of, system_hash, seed_blob_name}

module _ {V : Type 0} (J : Json V) (sha256 : List ℕ → List ℕ) (d : IsDigest sha256) where
  hash_of-total : (ms : List V) → (h : Option Text) × (hash_of J sha256 ms ≡ some h)
  unfolding hex16
  hash_of-total [] = (none, refl)
  hash_of-total (m ∷ ms) =
      let (h, e, _) =
        slice_to-hex sha256 16 (flat_map (λ v. J.to_vec v ++ 0 ∷ []) (m ∷ ms)) d (omega arith) in
      (some h, rw e)

  -- No request makes the hash panic.
  pub system_hash-total :
      (messages : V) → (h : Option Text) × (system_hash J sha256 messages ≡ some h)
  unfolding system_hash
  system_hash-total messages = elim (Option-cases (messages_of J messages)) [
    | inl n ↦ (none, rw (n, system_hash))
    | inr (msgs, e) ↦ rw (e, system_hash) (hash_of-total (filter (is_system J) msgs))
  ]

  hash_of-fallback :
      (ms : List V) (h : Text)
      → hash_of J sha256 ms ≡ some (some h)
      → slice_to 16 (hex (sha256 (flat_map (λ v. J.to_vec v ++ 0 ∷ []) ms))) ≡ some h
  unfolding hex16
  hash_of-fallback [] h e = ground arith
  hash_of-fallback (m ∷ ms) h e =
      let (k, f, _) =
        slice_to-hex sha256 16 (flat_map (λ v. J.to_vec v ++ 0 ∷ []) (m ∷ ms)) d (omega arith) in
      ground arith

  -- A request that the dance recognises by its system messages has, without the session header,
  -- the session key "conv-" with the same digits: both hash the same bytes.
  pub system_hash-fallback_key :
      (messages : V) (h : Text)
      → system_hash J sha256 messages ≡ some (some h)
      → fallback_key J sha256 messages ≡ some (codes "conv-" ++ h)
  unfolding system_hash fallback_key digest_input
  system_hash-fallback_key messages h e = elim (Option-cases (messages_of J messages)) [
    | inl n ↦ let k : some none ≡ some (some h) = rw (n, system_hash) at e in ground arith
    | inr (msgs, m) ↦
        rw (m, hash_of-fallback (filter (is_system J) msgs) h (rw (m, system_hash) at e))
  ]

-- If SHA-256 gives 32 bytes, a seed blob never has the name of a session's blob.
pub seed_blob_name-ne-blob_name :
    {V : Type 0} (J : Json V) (sha256 : List ℕ → List ℕ)
    → IsDigest sha256
    → (headers : Text → Option Text) (body : V) (header_name session key sig : Text)
    → session_key J sha256 headers body header_name ≡ some session
    → seed_blob_name key ≢ blob_name session sig
unfolding seed_blob_name blob_name session_key
seed_blob_name-ne-blob_name J sha256 d headers body name session key sig e k =
    elim (Option-cases (headers name)) [
      | inl n ↦ from_fallback (rw (n, session_key) at e)
      | inr (v, n) ↦ by_value v (rw (n, session_key) at e)
    ]
  where
    from_fallback : fallback_key J sha256 body ≡ some session → ⊥
    from_fallback f =
        let (h, g, _) = fallback_key-IsDigits J sha256 d body in
        let p : codes "conv-" ++ h ≡ session = ground arith in ground arith

    by_value :
        (v : Text)
        → (elim v [
          | [] ↦ fallback_key J sha256 body
          | c ∷ cs ↦ some (codes "hdr-" ++ sanitize (c ∷ cs))
        ])
          ≡ some session
        → ⊥
    by_value [] f = from_fallback f
    by_value (c ∷ cs) f =
        let p : codes "hdr-" ++ sanitize (c ∷ cs) ≡ session = ground arith in ground arith
