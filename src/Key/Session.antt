-- ===== src/Key/Session.antt =====
-- The session key of a request: `session_key` of src/lib.rs.
use o_llm.Common.{
  ℕ, zero, suc, ◌*◌, ◌/◌, ◌%◌, ◌≤◌, ◌<◌, ◌≡◌, refl, ◌∙◌, ◌≢◌, false, Option, none, some, List, [],
  ◌∷◌, ◌++◌, arith, length, take, filter, All, length-take, filter-append, sym, ◌⊎◌, inl, inr,
  Option-cases, le→leb,
}
use o_llm.Common.Text.{Text, codes}
use o_llm.Json.{Json}
use o_llm.Key.{
  hex, hex_digit, slice_to, contains_dots, sanitize, is_system, messages_of, digest_input,
  hash_input, fallback_key, session_key,
}
use o_llm.Key.Sanitize.{Kept, IsSafe, sanitize-IsSafe, sanitize_of_IsSafe}

-- What the program relies on of SHA-256: 32 bytes, whatever the input.
pub record IsDigest (sha256 : List ℕ → List ℕ) : Type 0 where
  pub width : (b : List ℕ) → length (sha256 b) ≡ 32
  pub bytes : (b : List ℕ) → All (λ x. x < 256) (sha256 b)

pub length-hex : (b : List ℕ) → length (hex b) ≡ 2 * length b
unfolding hex
length-hex [] = refl
length-hex (x ∷ b) = omega (arith, length-hex b)

-- A lower-case hexadecimal digit.
abbrev pub IsHexDigit : ℕ → Type 0
IsHexDigit c = (Kept c × (c ≢ b'.'))

hex_digit_lem : (d : ℕ) → d < 16 → IsHexDigit (hex_digit d)
unfolding hex_digit
hex_digit_lem d h = (ground arith, ground arith)

hex-All : (b : List ℕ) → All (λ x. x < 256) b → All IsHexDigit (hex b)
unfolding hex
hex-All [] h = tt
hex-All (x ∷ b) h =
    (hex_digit_lem (x / 16) (omega arith), (hex_digit_lem (x % 16) (omega arith), hex-All b h.1))

take-IsHexDigit : (n : ℕ) (s : Text) → All IsHexDigit s → All IsHexDigit (take n s)
take-IsHexDigit zero s h = tt
take-IsHexDigit (suc n) [] h = tt
take-IsHexDigit (suc n) (x ∷ s) h = (h.0, take-IsHexDigit n s h.1)

-- The first `n` digits of a digest: there, `n` long, and hexadecimal.
pub record IsDigits (n : ℕ) (s : Text) : Type 0 where
  pub exact : length s ≡ n
  pub digits : All IsHexDigit s

pub slice_to-hex :
    (sha256 : List ℕ → List ℕ) (n : ℕ) (b : List ℕ)
    → IsDigest sha256
    → n ≤ 64
    → (s : Text) × (slice_to n (hex (sha256 b)) ≡ some s) × IsDigits n s
unfolding slice_to
slice_to-hex sha256 n b d h =
    let full : Text = hex (sha256 b) in
    let wide : length full ≡ 64 = omega (arith, length-hex (sha256 b), d.width b) in
    (
      take n full,
      rw (le→leb n (length full) (omega arith)),
      record {
        exact = omega (arith, length-take n full);
        digits = take-IsHexDigit n full (hex-All (sha256 b) (d.bytes b));
      },
    )

-- A key that can stand in a file name: safe characters, no "..", at most 100 of them.
pub record IsSessionKey (s : Text) : Type 0 where
  pub kept : All Kept s
  pub single_dots : contains_dots s ≡ false
  pub bounded : length s ≤ 100

dash-single_dots : (s : Text) → contains_dots s ≡ false → contains_dots (b'-' ∷ s) ≡ false
unfolding contains_dots
dash-single_dots [] h = refl
dash-single_dots (x ∷ s) h = h

digits-single_dots : (s : Text) → All IsHexDigit s → contains_dots s ≡ false
unfolding contains_dots
digits-single_dots [] h = refl
digits-single_dots (x ∷ []) h = refl
digits-single_dots (x ∷ y ∷ s) h = ground (arith, digits-single_dots (y ∷ s) h.1)

digits-Kept : (s : Text) → All IsHexDigit s → All Kept s
digits-Kept [] h = tt
digits-Kept (x ∷ s) h = (h.0.0, digits-Kept s h.1)

hdr-IsSessionKey : (v : Text) → IsSafe v → IsSessionKey (codes "hdr-" ++ v)
hdr-IsSessionKey v h = record {
  kept = (refl, (refl, (refl, (refl, h.kept))));
  single_dots = unfold contains_dots in dash-single_dots v h.single_dots;
  bounded = omega (arith, h.bounded);
}

conv-IsSessionKey : (v : Text) → IsDigits 16 v → IsSessionKey (codes "conv-" ++ v)
conv-IsSessionKey v h = record {
  kept = (refl, (refl, (refl, (refl, (refl, digits-Kept v h.digits)))));
  single_dots = unfold contains_dots in dash-single_dots v (digits-single_dots v h.digits);
  bounded = omega (arith, h.exact);
}

module _ {V : Type 0} (J : Json V) (sha256 : List ℕ → List ℕ) where
  pub fallback_key-IsDigits :
      IsDigest sha256
      → (body : V)
      → (h : Text) × (fallback_key J sha256 body ≡ some (codes "conv-" ++ h)) × IsDigits 16 h
  unfolding fallback_key
  fallback_key-IsDigits d body =
      let (h, e, v) = slice_to-hex sha256 16 (hash_input J (messages_of J body)) d (omega arith) in
      (h, rw e, v)

  fallback_key-IsSessionKey :
      IsDigest sha256
      → (body : V) → (s : Text) × (fallback_key J sha256 body ≡ some s) × IsSessionKey s
  fallback_key-IsSessionKey d body =
      let (h, e, v) = fallback_key-IsDigits d body in (codes "conv-" ++ h, e, conv-IsSessionKey h v)

  -- If SHA-256 gives 32 bytes, every request has a session key (no slice panics), and the key
  -- can stand in a file name: letters, digits, '.', '_', '-' only, no "..", at most 100 of them.
  pub session_key-IsSessionKey :
      IsDigest sha256
      → (headers : Text → Option Text) (body : V) (header_name : Text)
      → (s : Text) × (session_key J sha256 headers body header_name ≡ some s) × IsSessionKey s
  unfolding session_key
  session_key-IsSessionKey d headers body name = elim (Option-cases (headers name)) [
    | inl e ↦ rw (e, session_key) (fallback_key-IsSessionKey d body)
    | inr (v, e) ↦ rw (e, session_key) (by_value v)
  ]
    where
      by_value :
          (v : Text)
          → (s : Text) × ((elim v [
            | [] ↦ fallback_key J sha256 body
            | c ∷ cs ↦ some (codes "hdr-" ++ sanitize (c ∷ cs))
          ])
              ≡ some s)
            × IsSessionKey s
      by_value [] = fallback_key-IsSessionKey d body
      by_value (c ∷ cs) = (
        codes "hdr-" ++ sanitize (c ∷ cs),
        refl,
        hdr-IsSessionKey (sanitize (c ∷ cs)) (sanitize-IsSafe (c ∷ cs)),
      )

  digest_input_other :
      (before turns after : List V)
      → All (λ m. is_system J m ≡ false) turns
      → digest_input J (before ++ (turns ++ after)) ≡ digest_input J (before ++ after)
  unfolding digest_input
  digest_input_other before turns after h = rw (
    filter-append (is_system J) before (turns ++ after),
    filter-append (is_system J) turns after,
    filter_none turns h,
    filter-append (is_system J) before after,
  )
    where
      filter_none :
          (ts : List V) → All (λ m. is_system J m ≡ false) ts → filter (is_system J) ts ≡ []
      filter_none [] h = refl
      filter_none (t ∷ ts) h = rw h.0 (filter_none ts h.1)

  -- Without the header, a request and the same request with more messages that are not system
  -- messages, anywhere in the list, have the same key: the turns of a conversation stick.
  pub session_key-turns :
      (headers : Text → Option Text) (body later : V) (header_name : Text)
      (before turns after : List V)
      → headers header_name ≡ none
      → messages_of J body ≡ some (before ++ after)
      → messages_of J later ≡ some (before ++ (turns ++ after))
      → All (λ m. is_system J m ≡ false) turns
      → session_key J sha256 headers later header_name
        ≡ session_key J sha256 headers body header_name
  unfolding session_key fallback_key
  session_key-turns headers body later name before turns after e m n h =
      rw (e, session_key, m, n, digest_input_other before turns after h)

  session_key_of_header :
      (headers : Text → Option Text) (body : V) (header_name v : Text)
      → headers header_name ≡ some v
      → IsSafe v
      → session_key J sha256 headers body header_name ≡ some (codes "hdr-" ++ v)
  unfolding session_key
  session_key_of_header headers body name [] e h = absurd (h.nonempty refl)
  session_key_of_header headers body name (c ∷ cs) e h =
      rw (e, session_key, sanitize_of_IsSafe (c ∷ cs) h)

  -- A header value that is safe as it is gives a key that no request without the header has, and
  -- no request with another such value, whatever their bodies. SHA-256 is taken to give 32 bytes.
  pub session_key-separates :
      IsDigest sha256
      → (headers other : Text → Option Text) (body other_body : V) (header_name v w : Text)
      → headers header_name ≡ some v
      → IsSafe v
      → (other header_name ≡ none) ⊎ ((other header_name ≡ some w) × IsSafe w × (v ≢ w))
      → session_key J sha256 headers body header_name
        ≢ session_key J sha256 other other_body header_name
  unfolding session_key
  session_key-separates d headers other body other_body header_name v w e sv (inl n) k =
      let (h, f, _) = fallback_key-IsDigits d other_body in
      let p : some (codes "hdr-" ++ v) ≡ some (codes "conv-" ++ h) =
        sym (session_key_of_header headers body header_name v e sv) ∙ (k ∙ rw (n, session_key) f) in
      ground arith
  session_key-separates d headers other body other_body header_name v w e sv (inr (f, sw, ne)) k =
      let p : some (codes "hdr-" ++ v) ≡ some (codes "hdr-" ++ w) =
        sym (session_key_of_header headers body header_name v e sv)
        ∙ (k ∙ session_key_of_header other other_body header_name w f sw) in
      ne (ground arith)
