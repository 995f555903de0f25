-- ===== src/Tasks/System.antt =====
-- Any number of requests in any order of their steps, with steps of the outside world between
-- them: the server goes on decoding, files come and go.
use o_llm.Common.{ℕ, ◌<◌, ◌≡◌, some, false}
use o_llm.Common.Family.{replace}
use o_llm.Json.{Json}
use o_llm.Backend.{Backend}
use o_llm.Publish.{Disk, Router}
use o_llm.Chat.{Cache, Config, Libraries}
use o_llm.Tasks.{Gate, Shared, Turn, Pc, waiting, advance}

pub record System (W : Type 0) : Type 0 where
  pub shared : Shared W
  pub pc : ℕ → Pc

-- Nobody is in the gate, and every request is to come.
abbrev pub open_gate : Gate
open_gate = record { readers = 0; writing = false }

abbrev pub start_of : {W : Type 0} → Router W → System W
start_of r = record { shared = record { router = r; gate = open_gate }; pc = λ _. waiting }

abbrev pub set_world : {W : Type 0} → W → Shared W → Shared W
set_world w s = record s { router = record s.router { world = w } }

module _ {W V : Type 0} (J : Json V) (lib : Libraries V) (disk : Disk W) (cache : Cache W)
    (be : Backend W V) (cfg : Config) (turns : ℕ → Turn V) (n : ℕ) where
  pub data Step (x : System W) : System W → Type 0 where
    run :
        (i : ℕ) {p : Pc} {s : Shared W}
        → i < n
        → advance J lib disk cache be cfg (turns i) (x.pc i) x.shared ≡ some (p, s)
        → Step x (record { shared = s; pc = replace x.pc i p })
    outside : (w : W) → Step x (record x { shared = set_world w x.shared })

  pub data Reach (x : System W) : System W → Type 0 where
    here : Reach x x
    later : {y z : System W} → Reach x y → Step y z → Reach x z
