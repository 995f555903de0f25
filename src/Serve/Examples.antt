-- ===== src/Serve/Examples.antt =====
-- A service over the sample world, and the theorems at it.
use o_llm.Common.{
  Option, ℕ, zero, suc, ◌^◌, ◌≤◌, ◌≡◌, refl, ap, ◌⊎◌, inl, inr, arith, true, false, none, some,
  List, [], ◌∷◌, Result, ok, err, leb, length, if◌then◌else◌, In,
}
use o_llm.Common.Text.{Text, codes, text_eq, ends_with, strip_suffix}
use o_llm.Json.Sample.{
  Value, object, end, field, number, boolean, array, cons, nil, sample_json as J,
  sample_json-IsLawful as lawful, repeat, sample_sha256-IsDigest as digest,
}
use o_llm.Key.{backend_signature, slice_to, hex}
use o_llm.Quota.{
  CacheEntry, enforce_limit, is_junk, is_blob, plan_evictions, cache_usage_bytes, usage_from, add64,
  sub64, junk_of, pairs_of, pair_of, has_name, sweep_junk, sweep_pairs, unit_bytes_from, delete_all,
}
use o_llm.Common.Sorting.{sort_by_key, insert_by}
use o_llm.Quota.Refinement.{IsDirectory}
use o_llm.Serve.Run.{Ended, serve-Ended, serve-run-IsSound}
use o_llm.Serve.Health.{IsStale, health_mb, health-enforce_limit}
use o_llm.Backend.Llama.{HttpClient, props, get_json, get_body}
use o_llm.Publish.{Router}
use o_llm.Publish.Sample.{World, sample_disk}
use o_llm.Quota.Scan.{DirEntry, entries_of}
use o_llm.Chat.Sample.{lib}
use o_llm.Chat.One.{IsSound}
use o_llm.Config.{Config}
use o_llm.Serve.{
  Request, Os, Net, App, passthrough, forward, health, run, serve, listen, sign, probe,
  build_client, llama_of,
}
use o_llm.Serve.Relay.{Arrives, Relayed, passthrough-kept_of}

abbrev to_bytes : List ℕ → ℕ → Result (List ℕ) Text
to_bytes b limit = if leb (length b) limit then ok b else err (codes "length limit exceeded")

to_bytes-Arrives : (raw : List ℕ) → Arrives to_bytes raw raw
to_bytes-Arrives raw = record {
  fits = λ limit h. ground arith;
  over = λ limit h. (codes "length limit exceeded", ground arith);
}

-- The server has one slot, which is idle; it accepts every save.
abbrev client : HttpClient World Value
client req w = (
  ok (record {
    status = 200;
    json = ok (
        array (
          cons
            (object
              (field (codes "id") (number 1) (field (codes "is_processing") (boolean false) end)))
            nil));
    chunks = ok (codes "x") ∷ [];
  }),
  w,
)

abbrev net : Net World Value (List ℕ)
net = record {
  to_bytes = to_bytes;
  path_matches = text_eq;
  method_from_bytes = λ m. some m;
  client = client;
  send = λ req w. (ok (record { status = 200; chunks = [] }), w);
  build = none;
  bind = λ addr w. (none, w);
}

-- One blob is in the directory.
abbrev listing : List (Option DirEntry)
listing =
    some (record {
      is_file = true;
      metadata = some (record { len = 900000; modified = some 10 });
      name = some (codes "b.bin");
    })
    ∷ []

abbrev os : Os World
os = record {
  create_dir_all = λ dir w. (none, w);
  disk = λ dir. sample_disk;
  cache = λ dir. record { read_dir = λ w. some listing; now = λ w. 1000; remove_file = λ n w. w };
}

abbrev cfg : Config
cfg = record {
  backend = codes "http://b";
  bind = codes "0.0.0.0:1247";
  cache_dir = codes "/c";
  cache_limit_mb = 1;
  backend_api_key = some (codes "k");
  session_header = codes "x-session-id";
}

abbrev app : App
app = record { cfg = cfg; backend = llama_of J lib os net cfg; backend_sig = codes "070707070707" }

abbrev world : World
world = record { files = []; states = []; cells = λ i. i }

abbrev up : Router World
up = record { slots = []; world = world }

abbrev post : List ℕ → Request (List ℕ)
post upload = record {
  method = codes "POST";
  uri = codes "/v1/embeddings?x=1";
  path = codes "/v1/embeddings";
  headers = λ n. none;
  upload = upload;
}

-- 32 MiB.
unfoldable big : List ℕ
big = repeat (2 ^ 25) 0

length-repeat : (n x : ℕ) → length (repeat n x) ≡ n
length-repeat zero x = refl
length-repeat (suc n) x = ap suc (length-repeat n x)

length-big : length big ≡ 2 ^ 25
unfolding big
length-big = length-repeat (2 ^ 25) 0

-- A short body is relayed as it is.
relayed : (forward J lib os net app (post (codes "hi"))).body ≡ some (codes "hi")
unfolding forward
relayed = refl

passthrough-kept_of_example :
    Relayed J lib os net app (post big) big world
    × (passthrough J lib os net app (post big) world ≡ passthrough J lib os net app (post []) world)
passthrough-kept_of_example =
    passthrough-kept_of J lib os net app (post big) [] big [] world (to_bytes-Arrives big)
      (to_bytes-Arrives []) (ground (arith, length-big))

-- A turn of the session "b", and a request that is passed on.
abbrev reqs : List (ℕ × Request (List ℕ))
reqs =
    (
      4,
      record {
        method = codes "POST";
        uri = codes "/v1/chat/completions";
        path = codes "/v1/chat/completions";
        headers = λ n. some (codes "b");
        upload = codes "{}";
      },
    )
    ∷ (4, post (codes "q"))
    ∷ []

serve-run-IsSound_example : IsSound (run J lib os net app reqs up).1.slots
unfolding serve listen sign probe build_client backend_signature props get_json get_body slice_to
    hex
serve-run-IsSound_example = serve-run-IsSound J lib os net cfg world app up reqs digest refl

serve-Ended_example : Ended J lib os net cfg world (serve J lib os net cfg world)
serve-Ended_example = serve-Ended J lib os net cfg world digest

-- Two blobs that are long out of use: the older one has to go.
abbrev old : CacheEntry
old = record { name = codes "a.bin"; len = 900000; mtime_unix = 0 }

abbrev new : CacheEntry
new = record { name = codes "b.bin"; len = 900000; mtime_unix = 10 }

abbrev both : List CacheEntry
both = old ∷ new ∷ []

both-IsStale : IsStale 1000 both
both-IsStale e (inl h) = omega (arith, ap (λ (x : CacheEntry). x.mtime_unix) h)
both-IsStale e (inr (inl h)) = omega (arith, ap (λ (x : CacheEntry). x.mtime_unix) h)
both-IsStale e (inr (inr h)) = elim h [ ]

both-IsDirectory : IsDirectory both
both-IsDirectory = record { distinct = (λ h. ground arith, (λ h. h, tt)); fits = omega arith }

health-enforce_limit_example :
    (n : ℕ) × (health_mb J (health J lib os net app world) ≡ some n)
    × ((n ≤ 1)
        ⊎ ((e : CacheEntry) → In e (new ∷ []) → (is_junk both e ≡ false) × (is_blob e ≡ false)))
unfolding plan_evictions cache_usage_bytes usage_from add64 sub64 junk_of pairs_of pair_of is_junk
    has_name sweep_junk sweep_pairs unit_bytes_from sort_by_key insert_by ends_with strip_suffix
    enforce_limit delete_all entries_of
health-enforce_limit_example =
    health-enforce_limit J lib os net app (λ n. true) 1000 both (new ∷ []) listing world lawful
      both-IsDirectory both-IsStale (λ n. refl) (omega arith) refl refl (refl, (λ e. cc), tt) refl
