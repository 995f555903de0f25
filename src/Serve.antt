-- ===== src/Serve.antt =====
-- The service of src/lib.rs: `serve` with its route table, `passthrough`, `health`, the extractor
-- `Bytes` and the answers with an error text; `main` runs `serve` on the configuration.
-- Parameters are axum's `to_bytes` and path matching, reqwest, the listener and the directory.
pub mod Health
pub mod Relay
pub mod Run
mod Examples
use o_llm.Common.{
  ℕ, ◌*◌, ◌/◌, ◌%◌, ◌^◌, Bool, Option, none, some, List, [], ◌∷◌, ◌++◌, map, Result, ok, err,
  if◌then◌else◌, get_or,
}
use o_llm.Common.Text.{Text, codes}
use o_llm.Json.{Json}
use o_llm.Key.{backend_signature}
use o_llm.Quota.{add64}
use o_llm.Backend.Llama.{HttpClient, LlamaBackend, llama_backend, props}
use o_llm.Publish.{Disk, Router}
use o_llm.Quota.Scan.{DirEntry, Metadata}
use o_llm.Chat.{Cache, Libraries, Response, error_body, body, status_code, chat_completions}
use o_llm.Chat
use o_llm.Config.{Config, from_env}

-- A request as the router gets it; `B` is axum's `Body`, of which `to_bytes` makes bytes.
pub record Request (B : Type 0) : Type 0 where
  pub method : Text
  pub uri : Text
  pub path : Text
  pub headers : Text → Option Text
  pub upload : B

-- A request that is passed on, with a body of bytes if it has one.
pub record RawRequest : Type 0 where
  pub method : Text
  pub url : Text
  pub bearer : Option Text
  pub body : Option (List ℕ)

pub record RawResponse : Type 0 where
  pub status : ℕ
  pub chunks : List (Result (List ℕ) Text)

-- axum, `reqwest` with JSON bodies and with bytes, and the listener.
pub record Net (W V B : Type 0) : Type 0 where
  pub to_bytes : B → ℕ → Result (List ℕ) Text
  pub path_matches : Text → Text → Bool
  pub method_from_bytes : Text → Option Text
  pub client : HttpClient W V
  pub send : RawRequest → W → Result RawResponse Text × W
  -- The error of `Client::builder()..build()`, of `TcpListener::bind`.
  pub build : Option Text
  pub bind : Text → W → Option Text × W

-- The file system: the error of `create_dir_all`, and what the blobs and the cache need in a
-- directory.
pub record Os (W : Type 0) : Type 0 where
  pub create_dir_all : Text → W → Option Text × W
  pub disk : Text → Disk W
  pub cache : Text → Cache W

-- `slots` and the state of the world are in `Router`.
pub record App : Type 0 where
  pub cfg : Config
  pub backend : LlamaBackend
  pub backend_sig : Text

-- What a handler returns: a status with a JSON value or with the stream of the body.
pub data Reply (V : Type 0) : Type 0 where
  json : ℕ → V → Reply V
  stream : ℕ → List (Result (List ℕ) Text) → Reply V

-- `sum::<u64>()`, and the megabytes that `health` shows.
unfoldable pub sum_from : ℕ → List ℕ → ℕ
sum_from acc [] = acc
sum_from acc (n ∷ lens) = sum_from (add64 acc n) lens

-- `filter_map(|e| e.metadata().ok()).map(|m| m.len())` over `rd.flatten()`
abbrev pub push_len : Option Metadata → List ℕ → List ℕ
push_len none lens = lens
push_len (some md) lens = md.len ∷ lens

unfoldable pub entry_lens : List (Option DirEntry) → List ℕ
entry_lens [] = []
entry_lens (none ∷ rd) = entry_lens rd
entry_lens (some e ∷ rd) = push_len e.metadata (entry_lens rd)

abbrev pub megabytes : Option (List (Option DirEntry)) → ℕ
megabytes none = 0
megabytes (some rd) = sum_from 0 (entry_lens rd) / 1024 / 1024

-- The configuration as the chat handler reads it.
abbrev pub chat_config : App → Chat.Config
chat_config app = record {
  session_header = app.cfg.session_header;
  cache_limit_mb = app.cfg.cache_limit_mb;
  backend_sig = app.backend_sig;
}

module _ {V : Type 0} (J : Json V) where
  abbrev pub err_reply : ℕ → Text → Reply V
  err_reply code msg =
      json code (
        J.set J.empty_object (codes "error")
          (J.set J.empty_object (codes "message") (J.string msg)))

  abbrev pub reply_of : Response → Reply V
  reply_of (error_body code msg) = err_reply code msg
  reply_of (body status chunks) = stream status (map (λ b. ok b) chunks)

module _ {W V B : Type 0} (J : Json V) (lib : Libraries V) (os : Os W) (net : Net W V B) where
  -- The extractor of the chat handler's body; `err` is the answer that refuses it.
  abbrev pub from_request : Request B → Result (List ℕ) (Reply V)
  from_request req = elim (net.to_bytes req.upload (128 * 1024 * 1024)) [
    | ok b ↦ ok b
    | err e ↦ err (err_reply J 413 e)
  ]

  module _ (app : App) where
    -- The bytes that `passthrough` reads: none where they cannot be read whole.
    abbrev pub raw_of : Request B → List ℕ
    raw_of req = elim (net.to_bytes req.upload (16 * 1024 * 1024)) [ ok b ↦ b | err e ↦ [] ]

    abbrev pub body_of : List ℕ → Option (List ℕ)
    body_of [] = none
    body_of (c ∷ raw) = some (c ∷ raw)

    unfoldable pub forward : Request B → RawRequest
    forward req = record {
      method = get_or (net.method_from_bytes req.method) (codes "GET");
      url = app.cfg.backend ++ req.uri;
      bearer = app.cfg.backend_api_key;
      body = body_of (raw_of req);
    }

    pub forwarded_reply : Result RawResponse Text × W → Reply V × W
    forwarded_reply (ok resp, w) = (stream (status_code resp.status) resp.chunks, w)
    forwarded_reply (err e, w) = (err_reply J 502 e, w)

    unfoldable pub passthrough : Request B → W → Reply V × W
    unfolding forwarded_reply
    passthrough req w = forwarded_reply (net.send (forward req) w)

    unfoldable pub health : W → Reply V
    health w = json 200 (
        J.set
          (J.set
            (J.set
              (J.set
                (J.set (J.set J.empty_object (codes "status") (J.string (codes "ok")))
                  (codes "backend") (J.string app.cfg.backend))
                (codes "backend_sig") (J.string app.backend_sig))
              (codes "cache_dir") (J.string app.cfg.cache_dir))
            (codes "cache_mb") (J.number (megabytes ((os.cache app.cfg.cache_dir).read_dir w))))
          (codes "cache_limit_mb") (J.number app.cfg.cache_limit_mb))

    -- Without a reply the handler has panicked, and the connection is dropped.
    pub answered : Router W → Option (Response × Router W) → Option (Reply V) × Router W
    answered r none = (none, r)
    answered r (some (resp, r')) = (some (reply_of J resp), r')

    -- The chat route: the extractor, then the handler.
    unfoldable pub chat_route : ℕ → Request B → Router W → Option (Reply V) × Router W
    unfolding answered
    chat_route takes req r = elim (from_request req) [
      | err reply ↦ (some reply, r)
      | ok raw ↦ answered r (
          chat_completions J lib (os.disk app.cfg.cache_dir) (os.cache app.cfg.cache_dir)
            (llama_backend J net.client app.backend) (chat_config app) takes req.headers raw r)
    ]

    -- The routes, for any method.
    unfoldable pub route : ℕ → Request B → Router W → Option (Reply V) × Router W
    route takes req r =
        if net.path_matches (codes "/health") req.path
        then (some (health r.world), r)
        else if net.path_matches (codes "/v1/chat/completions") req.path
        then chat_route takes req r
        else (let (reply, w) = passthrough req r.world in (some reply, record r { world = w }))

    -- The service of one request after the other.
    unfoldable pub run : List (ℕ × Request B) → Router W → List (Option (Reply V)) × Router W
    run [] r = ([], r)
    run ((takes, req) ∷ reqs) r =
        let (reply, r') = route takes req r in
        let (replies, r'') = run reqs r' in (reply ∷ replies, r'')

  abbrev pub llama_of : Config → LlamaBackend
  llama_of cfg = record { base = cfg.backend; api_key = cfg.backend_api_key }

  -- `serve` up to its loop: an error ends it, and `none` is a panic.
  listen : App → Option Text × W → Result App Text × Router W
  listen app (some e, w) = (err e, record { slots = []; world = w })
  listen app (none, w) = (ok app, record { slots = []; world = w })

  sign : Config → Option Text → W → Option (Result App Text × Router W)
  unfolding listen
  sign cfg none w = none
  sign cfg (some sig) w = some (
      listen (record { cfg = cfg; backend = llama_of cfg; backend_sig = sig })
        (net.bind cfg.bind w))

  probe : Config → Option Text → W → Option (Result App Text × Router W)
  unfolding sign
  probe cfg (some e) w = some (err e, record { slots = []; world = w })
  probe cfg none w =
      let (found, w') = props J net.client (llama_of cfg) w in
      sign cfg (backend_signature J lib.sha256 found) w'

  build_client : Config → Option Text × W → Option (Result App Text × Router W)
  unfolding probe
  build_client cfg (some e, w) = some (err e, record { slots = []; world = w })
  build_client cfg (none, w) = probe cfg net.build w

  unfoldable pub serve : Config → W → Option (Result App Text × Router W)
  unfolding build_client
  serve cfg w = build_client cfg (os.create_dir_all cfg.cache_dir w)

  -- `main`: the service with the configuration of the environment.
  unfoldable pub main : (Text → Option Text) → W → Option (Result App Text × Router W)
  unfolding serve
  main var w = serve (from_env var) w
