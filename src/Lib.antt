-- ===== src/Lib.antt =====
-- oLLM is a proxy in front of a llama.cpp server that keeps the server's slot states as blobs on
-- disk. A chat request gets a session key; the admission finds a slot for the session, restores
-- its blob or takes a slot from another session, whose state is published first; the request is
-- sent on with the slot's id; at the end of the turn the slot is saved, and the quota is enforced.
-- The seed dance shares one blob per system prompt between sessions.
--
-- Which file models what (paths from the repository's root):
--   Key        src/lib.rs: hex, sanitize, session_key, blob_name, the signature in serve
--   Quota      src/lib.rs: CacheEntry, cache_usage_bytes, plan_evictions, enforce_limit.
--              Quota.Evict is the specification, Quota.Refinement relates the planner to it;
--              Quota.Scan is the scan of the directory.
--   Slots      src/lib.rs: SlotInfo, the map App::slots, mark_dirty, mark_clean and the scans of
--              pick_slot and find_evictable. Slots.Views is what a registry says of a slot.
--   Publish    src/lib.rs: save_slot, restore_slot, rename_sidecar, sidecar_path; src/seed.rs:
--              FsPublisher. Publish.Crash has the states in which a crash can find the files,
--              Publish.Power and Publish.Durable what a power failure may leave of them during
--              and after a save, Publish.Server what a server does to the states of its slots.
--   Chat       src/lib.rs: chat_completions, pick_slot, find_evictable, evict_to_disk,
--              collect_body. Chat.Steer is about the admission, Chat.Turn about the end of a
--              turn, Chat.Owners, Chat.One and Chat.Kept about the registry through a whole
--              request; Chat.Own, Chat.Others and Chat.Between follow the state of a session
--              through its own turn, the turns of others and its next admission.
--   Tasks      src/lib.rs: chat_completions and save_slot as tasks that interleave, with the gate
--              App::write_gate. Tasks.System is the step relation.
--   Seed       src/seed.rs: SeedDance::prepare, system_hash, the bag, MemoryPublisher.
--              Seed.Overlap has the steps of admissions that overlap, Seed.Pair and Seed.Twice two
--              of one family at once, Seed.Single an admission alone.
--   Config     src/lib.rs: Config::from_env, with the parser of u64
--   Serve      src/lib.rs: serve, the routes, Bytes::from_request, err, passthrough, health;
--              src/main.rs. Serve.Run is about the start and a run of requests, Serve.Relay about
--              what is passed on or refused, Serve.Health about the shown usage.
--   Backend    src/backend.rs: the trait Backend and LlamaBackend; src/fake.rs: FakeBackend
--   Json       what the program uses of serde_json::Value, an interface with its documented laws
--   Common     lists, texts, dictionaries, sorting, Boolean tests
--
-- How the code is translated. The world (server, directory, clock) is a type W that the calls pass
-- on: a method takes it and returns its result with the new one. SHA-256, the HTTP client,
-- serde_json, axum and std::fs are parameters. A text is a list of code points. A HashMap is an
-- association list in an order of which nothing is assumed. A panic is `none`. Sums and
-- differences of u64 wrap as in a release build. The loop that collapses dots in sanitize has as
-- much fuel as the text has characters, which is enough as each round shortens it; a u32 is
-- printed with fuel for ten digits, a u64 with fuel for twenty, which is all that they have.
--
-- Not modelled: logging; the headers that reqwest and axum add; design documents, scripts and
-- tests against a running server. In Chat and in Serve a request is one sequence, to the end of
-- the task that ends its turn. In Tasks a step goes from one await on the backend, the disk or a
-- lock to the next, and the steps of any number of requests interleave. tokio's gate is first
-- come, first served; here a request may take it shared whenever no save is inside, so more orders
-- are allowed than tokio has. The relay of a stream is one step with the chat call, as it touches
-- nothing that is shared. What a client takes of a stream is a number of chunks.
pub mod Backend
pub mod Chat
pub mod Common
pub mod Config
pub mod Json
pub mod Key
pub mod Publish
pub mod Quota
pub mod Seed
pub mod Serve
pub mod Slots
pub mod Tasks
