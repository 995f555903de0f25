-- ===== src/Chat/Between.antt =====
-- A session's turn, some turns of other sessions, and its next turn (`chat_completions` of
-- src/lib.rs).
use o_llm.Common.{ℕ, ◌≡◌, ◌≢◌, Option, some, List}
use o_llm.Common.Text.{Text}
use o_llm.Json.{Json}
use o_llm.Backend.{Backend}
use o_llm.Slots.Distinct.{IsMap}
use o_llm.Publish.{Disk, IsDisk, Router}
use o_llm.Publish.Server.{IsServer}
use o_llm.Chat.State.{Holds}
use o_llm.Chat.Apart.{IsApart, turn-Kept}
use o_llm.Chat.Return.{IsWilling, HasBack, admission-HasBack}
use o_llm.Chat.{Cache, Config, Libraries, run_turn, admission}

module _ {W V : Type 0} (J : Json V) (lib : Libraries V) (disk : Disk W) (cache : Cache W)
    (be : Backend W V) (cfg : Config) (v : Text) where
  -- Turns of sessions other than `v`, one after the other and each steered to some slot, take the
  -- router from one state to another.
  pub data Turns : Router W → Router W → Type 0 where
    no_more : (r : Router W) → Turns r r
    one_more :
        (b : Text) (takes : ℕ) (parsed : V) (id : ℕ) (r r' : Router W)
        → b ≢ v
        → (admission disk be cfg.backend_sig b r).0 ≡ some id
        → Turns
            (run_turn J lib disk cache be cfg takes b parsed
              (admission disk be cfg.backend_sig b r)).1
            r'
        → Turns r r'

module _ {W V K : Type 0} (J : Json V) (lib : Libraries V) (disk : Disk W) (cache : Cache W)
    (be : Backend W V) (cfg : Config) (content : Text → W → Option (List ℕ)) (kv : ℕ → W → K)
    (encode : K → List ℕ) (lawful : IsDisk disk content)
    (server : IsServer disk be content kv encode) (v : Text) (k : K) where
  -- A session's state comes back. If the state of a session is `k`, in its slots and in an
  -- unpublished slot or in its blob, the registry lists no slot twice, the server restores the
  -- session's blob while that is there, a steered turn writes its own slot and no file of the
  -- cache, and the quota spares the blob and does nothing to the slots, then after any whole turns
  -- of other sessions that are each steered to a slot, whatever saves, restores and answers succeed
  -- in them, the slot that the session's next admission steers to, if any, has the state `k` after
  -- that admission.
  pub Turns-HasBack :
      (r r' : Router W)
      → Turns J lib disk cache be cfg v r r'
      → Holds disk be content kv encode lawful server cfg.backend_sig v k r
      → IsMap r.slots
      → IsWilling disk be content kv encode lawful server cfg.backend_sig v k
      → IsApart J cache be cfg content kv v
      → HasBack disk be content kv encode lawful server cfg.backend_sig v k
          (admission disk be cfg.backend_sig v r')
  Turns-HasBack _ _ (no_more r) h map willing apart =
      admission-HasBack disk be content kv encode lawful server cfg.backend_sig v k r h map willing
  Turns-HasBack _ _ (one_more b takes parsed id r r' ne steered rest) h map willing apart =
      let (h', map') =
        turn-Kept J lib disk cache be cfg content kv encode lawful server v k apart b ne takes
          parsed id r steered (h, map) in
      Turns-HasBack _ r' rest h' map' willing apart
