-- ===== src/Chat/Sample.antt =====
-- A cache directory without files, a parser, and a configuration, for the tests.
use o_llm.Common.{
  ◌≡◌, refl, Bool, get_or, if◌then◌else◌, nat_eq, ok, [], ◌∷◌, some, true, false, none,
}
use o_llm.Common.Text.{Text, codes}
use o_llm.Json.Sample.{Value, object, end, sample_sha256 as sha}
use o_llm.Publish.Sample.{World}
use o_llm.Publish.{Router}
use o_llm.Common.Dict.{lookup, id_eq}
use o_llm.Slots.{entry_of, fresh}
use o_llm.Slots.Views.{hold_of}
use o_llm.Chat.Steer.{HasOwners}
use o_llm.Chat.{Cache, Config, Libraries}

abbrev pub sig : Text
sig = codes "s"

abbrev pub cache : Cache World
cache = record { read_dir = λ w. none; now = λ w. 100; remove_file = λ n w. w }

abbrev pub lib : Libraries Value
lib = record { from_slice = λ raw. ok (object end); from_utf8_lossy = λ b. b; sha256 = sha }

abbrev pub cfg : Config
cfg = record { session_header = codes "x-session-id"; cache_limit_mb = 1; backend_sig = sig }

-- One slot, idle, dirty with a turn of the session "a".
abbrev pub start : Router World
start = record {
  slots = (1, record { session = some (codes "a"); dirty = true; busy = false }) ∷ [];
  world = record {
    files = [];
    states = record { id = 1; is_processing = false; n_tokens = 5 } ∷ [];
    cells = λ i. i;
  };
}

-- The dirty slot has an owner.
pub start-HasOwners : HasOwners start.slots
unfolding hold_of entry_of lookup
start-HasOwners j d = by_test (nat_eq 1 j) d
  where
    by_test :
        (b : Bool)
        → (get_or
            (if b
              then some (record { session = some (codes "a"); dirty = true; busy = false })
              else none)
            fresh).dirty
          ≡ true
        → (v : Text) × ((get_or
              (if b
                then some (record { session = some (codes "a"); dirty = true; busy = false })
                else none)
              fresh).session
            ≡ some v)
    by_test true e = (codes "a", refl)
    by_test false e = absurd cc
