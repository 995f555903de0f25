-- ===== src/Serve/Run.antt =====
-- The start of the service and its run of requests, one after the other (`serve` of src/lib.rs).
use o_llm.Common.{
  ℕ, ◌≡◌, refl, sym, subst, ◌⊎◌, inl, inr, arith, Option, none, some, List, [], ◌∷◌, Result, ok,
  err, Bool-cases, Result-cases,
}
use o_llm.Common.Text.{Text, codes}
use o_llm.Json.{Json}
use o_llm.Key.Session.{IsDigest, IsDigits}
use o_llm.Key.{backend_signature}
use o_llm.Key.Blob.{backend_signature-IsDigits}
use o_llm.Slots.Views.{hold_of}
use o_llm.Slots.{entry_of}
use o_llm.Common.Dict.{lookup}
use o_llm.Publish.{Router}
use o_llm.Backend.Llama.{llama_backend, props}
use o_llm.Chat.{Libraries, Response, chat_completions}
use o_llm.Chat.One.{IsSound, chat_completions-IsSound}
use o_llm.Config.{Config}
use o_llm.Serve.{
  Request, Os, Net, App, llama_of, chat_config, from_request, chat_route, route, run, answered,
  listen, sign, probe, build_client, serve,
}

-- A registry without slots is sound.
no_slots-IsSound : IsSound []
unfolding hold_of entry_of lookup
no_slots-IsSound = (λ j d. absurd cc, tt, λ u i j p q. absurd cc)

module _ {W V B : Type 0} (J : Json V) (lib : Libraries V) (os : Os W) (net : Net W V B) where
  -- The service is up: the application holds the configuration, its backend is the configured
  -- one, and its signature is that of the properties found, twelve hexadecimal digits.
  pub record Started (cfg : Config) (found : Option V) (app : App) : Type 0 where
    pub configured : app.cfg ≡ cfg
    pub reached : app.backend ≡ llama_of J lib os net cfg
    pub signed : backend_signature J lib.sha256 found ≡ some app.backend_sig
    pub signature : IsDigits 12 app.backend_sig

  -- How a start ends, by the answers that it gets: of the directory's creation, of the client's
  -- construction, of the backend when it is asked for its properties, and of the listener.
  abbrev EndedBy :
      Config
      → Option Text × W
      → Option Text
      → Option V
      → Option Text × W
      → Option (Result App Text × Router W)
      → Type 0
  EndedBy cfg created built found bound p =
      ((e : Text) × (created.0 ≡ some e)
        × (p ≡ some (err e, record { slots = []; world = created.1 })))
      ⊎ (((e : Text) × (created.0 ≡ none)
            × (built ≡ some e)
            × (p ≡ some (err e, record { slots = []; world = created.1 })))
          ⊎ (((e : Text) × (created.0 ≡ none)
                × (built ≡ none)
                × (bound.0 ≡ some e)
                × (p ≡ some (err e, record { slots = []; world = bound.1 })))
              ⊎ ((app : App) × (created.0 ≡ none)
                  × (built ≡ none)
                  × (bound.0 ≡ none)
                  × (p ≡ some (ok app, record { slots = []; world = bound.1 }))
                  × Started cfg found app)))

  abbrev asked : Config → W → Option V × W
  asked cfg w = props J net.client (llama_of J lib os net cfg) w

  abbrev FromCreated : Config → Option Text × W → Option (Result App Text × Router W) → Type 0
  FromCreated cfg created p =
      EndedBy cfg created net.build (asked cfg created.1).0
        (net.bind cfg.bind (asked cfg created.1).1) p

  abbrev pub Ended : Config → W → Option (Result App Text × Router W) → Type 0
  Ended cfg w p = FromCreated cfg (os.create_dir_all cfg.cache_dir w) p

  listen-Ended :
      (cfg : Config) (w : W) (found : Option V) (sig : Text) (bound : Option Text × W)
      → backend_signature J lib.sha256 found ≡ some sig
      → IsDigits 12 sig
      → EndedBy cfg
          (none, w)
          none
          found
          bound
          (some (
            listen J lib os net
              (record { cfg = cfg; backend = llama_of J lib os net cfg; backend_sig = sig })
              bound))
  unfolding listen
  listen-Ended cfg w found sig (some e, w') s d = inr (inr (inl (e, refl, refl, refl, refl)))
  listen-Ended cfg w found sig (none, w') s d = inr (
      inr (
        inr (
          _,
          refl,
          refl,
          refl,
          refl,
          record { configured = refl; reached = refl; signed = s; signature = d },
        )))

  probe-Ended :
      (cfg : Config) (built : Option Text) (w : W)
      → IsDigest lib.sha256
      → EndedBy cfg
          (none, w)
          built
          (asked cfg w).0
          (net.bind cfg.bind (asked cfg w).1)
          (probe J lib os net cfg built w)
  unfolding probe sign
  probe-Ended cfg (some e) w d = inr (inl (e, refl, refl, refl))
  probe-Ended cfg none w d =
      let (sig, e, digits) = backend_signature-IsDigits J lib.sha256 d (asked cfg w).0 in
      subst
        (λ s.
          EndedBy cfg (none, w) none (asked cfg w).0 (net.bind cfg.bind (asked cfg w).1)
            (sign J lib os net cfg s (asked cfg w).1))
        (sym e)
        (listen-Ended cfg w (asked cfg w).0 sig (net.bind cfg.bind (asked cfg w).1) e digits)

  build_client-Ended :
      (cfg : Config) (created : Option Text × W)
      → IsDigest lib.sha256
      → FromCreated cfg created (build_client J lib os net cfg created)
  unfolding build_client
  build_client-Ended cfg (some e, w) d = inl (e, refl, refl)
  build_client-Ended cfg (none, w) d = probe-Ended cfg net.build w d

  -- How a start ends. If SHA-256 gives 32 bytes, `serve` does not panic before its loop, and it ends
  -- with the error of the first of these that fails: creating the directory, building the client,
  -- binding the listener. If none fails the service is up with the given configuration, the
  -- backend that it names, no slot known, and the signature of the properties that the backend
  -- gave, twelve hexadecimal digits.
  pub serve-Ended :
      (cfg : Config) (w : W) → IsDigest lib.sha256 → Ended cfg w (serve J lib os net cfg w)
  unfolding serve
  serve-Ended cfg w d = build_client-Ended cfg (os.create_dir_all cfg.cache_dir w) d

  answered-IsSound :
      (app : App) (r : Router W) (o : Option (Response × Router W))
      → IsSound r.slots
      → ((p : Response × Router W) → o ≡ some p → IsSound p.1.slots)
      → IsSound (answered J lib os net app r o).1.slots
  unfolding answered
  answered-IsSound app r none h k = h
  answered-IsSound app r (some (resp, r')) h k = k (resp, r') refl

  chat_route-IsSound :
      (app : App) (takes : ℕ) (req : Request B) (r : Router W)
      → IsSound r.slots
      → IsSound (chat_route J lib os net app takes req r).1.slots
  unfolding chat_route
  chat_route-IsSound app takes req r h = elim (Result-cases (from_request J lib os net req)) [
    | inr (reply, e) ↦ rw (chat_route, e) h
    | inl (raw, e) ↦
        rw (chat_route, e)
          (answered-IsSound app r
            (chat_completions J lib (os.disk app.cfg.cache_dir) (os.cache app.cfg.cache_dir)
              (llama_backend J net.client app.backend) (chat_config app) takes req.headers raw r)
            h
            (λ p q.
              chat_completions-IsSound J lib (os.disk app.cfg.cache_dir)
                (os.cache app.cfg.cache_dir) (llama_backend J net.client app.backend)
                (chat_config app) takes req.headers raw r p h q))
  ]

  pub route-IsSound :
      (app : App) (takes : ℕ) (req : Request B) (r : Router W)
      → IsSound r.slots
      → IsSound (route J lib os net app takes req r).1.slots
  unfolding route
  route-IsSound app takes req r h =
      elim (Bool-cases (net.path_matches (codes "/health") req.path)) [
        | inl e ↦ rw e h
        | inr e ↦ elim (Bool-cases (net.path_matches (codes "/v1/chat/completions") req.path)) [
          | inl c ↦ rw (e, c) (chat_route-IsSound app takes req r h)
          | inr c ↦ rw (e, c) h
        ]
      ]

  run-IsSound :
      (app : App) (reqs : List (ℕ × Request B)) (r : Router W)
      → IsSound r.slots
      → IsSound (run J lib os net app reqs r).1.slots
  unfolding run
  run-IsSound app [] r h = h
  run-IsSound app ((takes, req) ∷ reqs) r h =
      run-IsSound app reqs (route J lib os net app takes req r).1 (route-IsSound app takes req r h)

  -- However the service starts, and whatever requests it then answers, one after the other: every
  -- dirty slot has an owner, no slot is listed twice and no session has two slots, whatever the
  -- server, the disk and the clients do. SHA-256 is taken to give 32 bytes.
  pub serve-run-IsSound :
      (cfg : Config) (w : W) (app : App) (r : Router W) (reqs : List (ℕ × Request B))
      → IsDigest lib.sha256
      → serve J lib os net cfg w ≡ some (ok app, r)
      → IsSound (run J lib os net app reqs r).1.slots
  serve-run-IsSound cfg w app r reqs d e = run-IsSound app reqs r (elim (serve-Ended cfg w d) [
    | inl (t, c, h) ↦ absurd (ground (arith, e, h))
    | inr (inl (t, c, b, h)) ↦ absurd (ground (arith, e, h))
    | inr (inr (inl (t, c, b, l, h))) ↦ absurd (ground (arith, e, h))
    | inr (inr (inr (app', c, b, l, h, s))) ↦
        let same : r.slots ≡ [] = ground (arith, e, h) in subst IsSound (sym same) no_slots-IsSound
  ])
