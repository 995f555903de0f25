-- ===== src/Serve/Relay.antt =====
-- The requests that the service of src/lib.rs passes on or refuses: `passthrough`, the extractor
-- `Bytes`, and which requests reach the slots.
use o_llm.Common.{
  ◌∙◌, ◌∷◌, ◌++◌, ◌≢◌, get_or, ℕ, ◌*◌, ◌≤◌, ◌<◌, ◌≡◌, refl, ◌⊎◌, inl, inr, arith, false, some, List,
  [], Result, ok, err, Bool-cases, leb, length, if◌then◌else◌,
}
use o_llm.Common.Text.{Text, codes}
use o_llm.Json.{Json}
use o_llm.Publish.{Router}
use o_llm.Chat.{Libraries}
use o_llm.Serve.{
  Request, RawRequest, Os, Net, App, err_reply, raw_of, body_of, forwarded_reply, forward,
  passthrough, chat_route, route,
}

-- A body that arrives whole, as the bytes `raw`: `to_bytes` gives them up to its limit, and an
-- error beyond.
pub record Arrives {B : Type 0} (to_bytes : B → ℕ → Result (List ℕ) Text) (upload : B)
    (raw : List ℕ) : Type 0 where
  pub fits : (limit : ℕ) → length raw ≤ limit → to_bytes upload limit ≡ ok raw
  pub over : (limit : ℕ) → limit < length raw → (e : Text) × (to_bytes upload limit ≡ err e)

module _ {W V B : Type 0} (J : Json V) (lib : Libraries V) (os : Os W) (net : Net W V B)
    (app : App) where
  -- The specification: all of a body up to 16 MiB, and nothing of a longer one.
  abbrev pub kept_of : List ℕ → List ℕ
  kept_of raw = if leb (length raw) (16 * 1024 * 1024) then raw else []

  raw_of-kept_of :
      (req : Request B) (raw : List ℕ)
      → Arrives net.to_bytes req.upload raw
      → raw_of J lib os net app req ≡ kept_of raw
  raw_of-kept_of req raw a = elim (Bool-cases (leb (length raw) (16 * 1024 * 1024))) [
    | inl e ↦ rw (e, raw_of, a.fits (16 * 1024 * 1024) (ground arith))
    | inr e ↦ let (t, o) = a.over (16 * 1024 * 1024) (ground arith) in rw (e, raw_of, o)
  ]

  -- What goes to the backend for a request whose body arrives as the bytes `raw`: the method, the
  -- URL, the key and the bytes that are kept of the body; without any, a request without a body.
  abbrev pub Relayed : Request B → List ℕ → W → Type 0
  Relayed req raw w =
      (q : RawRequest) × (passthrough J lib os net app req w
        ≡ forwarded_reply J lib os net app (net.send q w))
      × (q.method ≡ get_or (net.method_from_bytes req.method) (codes "GET"))
      × (q.url ≡ app.cfg.backend ++ req.uri)
      × (q.bearer ≡ app.cfg.backend_api_key)
      × (get_or q.body [] ≡ kept_of raw)
      × (q.body ≢ some [])

  body_of-bytes : (raw : List ℕ) → get_or (body_of J lib os net app raw) [] ≡ raw
  body_of-bytes [] = refl
  body_of-bytes (c ∷ raw) = refl

  body_of-nonempty : (raw : List ℕ) → body_of J lib os net app raw ≢ some []
  body_of-nonempty [] e = absurd cc
  body_of-nonempty (c ∷ raw) e = absurd cc

  passthrough-Relayed :
      (req : Request B) (raw : List ℕ) (w : W)
      → Arrives net.to_bytes req.upload raw
      → Relayed req raw w
  unfolding passthrough forward
  passthrough-Relayed req raw w a = (
    forward J lib os net app req,
    refl,
    refl,
    refl,
    refl,
    body_of-bytes (raw_of J lib os net app req) ∙ raw_of-kept_of req raw a,
    body_of-nonempty (raw_of J lib os net app req),
  )

  -- What is relayed of a body. Let two requests differ only in their bodies, which arrive whole, and
  -- let the same bytes be kept of these: all of a body up to 16 MiB, and none of a longer one. Then
  -- both get one reply: what comes back for a request to the backend with the same method and URI,
  -- the configured key, and the kept bytes as its body, or without a body if no bytes are kept.
  pub passthrough-kept_of :
      (req : Request B) (upload : B) (raw raw' : List ℕ) (w : W)
      → Arrives net.to_bytes req.upload raw
      → Arrives net.to_bytes upload raw'
      → kept_of raw ≡ kept_of raw'
      → Relayed req raw w
        × (passthrough J lib os net app req w
            ≡ passthrough J lib os net app (record req { upload = upload }) w)
  unfolding passthrough forward
  passthrough-kept_of req upload raw raw' w a a' k = (
    passthrough-Relayed req raw w a,
    rw (raw_of-kept_of req raw a, raw_of-kept_of (record req { upload = upload }) raw' a', k) refl,
  )

  -- A chat request whose body is over 128 MiB is refused with 413, and touches nothing.
  chat_route-refused :
      (takes : ℕ) (req : Request B) (raw : List ℕ) (r : Router W)
      → Arrives net.to_bytes req.upload raw
      → 128 * 1024 * 1024 < length raw
      → (e : Text) × (chat_route J lib os net app takes req r ≡ (some (err_reply J 413 e), r))
  unfolding chat_route
  chat_route-refused takes req raw r a h =
      let (e, o) = a.over (128 * 1024 * 1024) h in (e, rw (chat_route, o))

  -- A request that does not match the chat route leaves the slots as they are, and so does one
  -- whose body is over 128 MiB, if the body arrives whole.
  pub route-slots :
      (takes : ℕ) (req : Request B) (raw : List ℕ) (r : Router W)
      → Arrives net.to_bytes req.upload raw
      → (net.path_matches (codes "/v1/chat/completions") req.path ≡ false)
        ⊎ (128 * 1024 * 1024 < length raw)
      → (route J lib os net app takes req r).1.slots ≡ r.slots
  unfolding route
  route-slots takes req raw r a h =
      elim (Bool-cases (net.path_matches (codes "/health") req.path)) [
        | inl e ↦ rw e refl
        | inr e ↦ elim (Bool-cases (net.path_matches (codes "/v1/chat/completions") req.path)) [
          | inl c ↦ elim h [
            | inl n ↦ absurd (ground arith)
            | inr l ↦ rw (e, c, (chat_route-refused takes req raw r a l).1) refl
          ]
          | inr c ↦ rw (e, c) refl
        ]
      ]
