-- ===== src/Backend/Fake.antt =====
-- The scripted backend of src/fake.rs.
use o_llm.Common.{
  ℕ, ◌+◌, ◌-◌, ◌^◌, Bool, false, Option, none, some, List, [], ◌∷◌, ◌++◌, Result, ok, err, nat_eq,
  ltb, if◌then◌else◌, length,
}
use o_llm.Common.Text.{Text, codes}
use o_llm.Json.{Json}
use o_llm.Backend.{SlotState, ChatOutcome, Backend}

pub data Call : Type 0 where
  slots : Call
  prefill_only : ℕ → ℕ → Call
  save : ℕ → Text → Call
  restore : ℕ → Text → Call
  chat : ℕ → Call

-- The field `slots` of the source is `states` here.
pub record FakeBackend : Type 0 where
  pub states : List SlotState
  pub calls : List Call
  pub prefill_delta : ℕ
  pub fail_save : Bool
  pub fail_prefill : Bool

unfoldable pub with_slots : List SlotState → FakeBackend
with_slots states = record {
  states = states;
  calls = [];
  prefill_delta = 0;
  fail_save = false;
  fail_prefill = false;
}

abbrev pub record_call : Call → FakeBackend → FakeBackend
record_call c f = record f { calls = f.calls ++ (c ∷ []) }

-- `saturating_add` on `u64`
unfoldable pub saturating_add : ℕ → ℕ → ℕ
saturating_add a b = if ltb (a + b) (2 ^ 64) then a + b else 2 ^ 64 - 1

-- The first state with this id moves forward and is idle.
unfoldable pub advance : ℕ → ℕ → List SlotState → List SlotState
unfolding saturating_add
advance slot delta [] = []
advance slot delta (s ∷ states) =
    if nat_eq s.id slot
    then record s { n_tokens = saturating_add s.n_tokens delta; is_processing = false } ∷ states
    else s ∷ advance slot delta states

module _ {V : Type 0} (J : Json V) where
  open J use {as_array, get, empty_object}

  abbrev pub count_of : Option (List V) → ℕ
  count_of none = 0
  count_of (some a) = length a

  abbrev pub messages_count : Option V → ℕ
  messages_count none = 0
  messages_count (some m) = count_of (as_array m)

  unfoldable pub fake_prefill_only : ℕ → V → FakeBackend → Result V Text × FakeBackend
  unfolding advance
  fake_prefill_only slot messages f =
      let f' = record_call (prefill_only slot (count_of (as_array messages))) f in
      if f.fail_prefill
      then (err (codes "simulated prefill failure"), f')
      else (ok empty_object, record f' { states = advance slot f.prefill_delta f.states })

  unfoldable pub fake_save_slot : ℕ → Text → FakeBackend → Result V Text × FakeBackend
  fake_save_slot id name f =
      let f' = record_call (save id name) f in
      if f.fail_save then (err (codes "simulated save failure"), f') else (ok empty_object, f')

  unfoldable pub fake_restore_slot : ℕ → Text → FakeBackend → Result V Text × FakeBackend
  fake_restore_slot id name f = (ok empty_object, record_call (restore id name) f)

  unfoldable pub fake_chat : V → FakeBackend → Result ChatOutcome Text × FakeBackend
  fake_chat body f = (
    ok (record { status = 200; stream = [] }),
    record_call (chat (messages_count (get body (codes "messages")))) f,
  )

  abbrev pub fake_slots : FakeBackend → Result (List SlotState) Text × FakeBackend
  fake_slots f = (ok f.states, record_call slots f)

  abbrev pub fake_backend : Backend FakeBackend V
  fake_backend = record {
    slots = fake_slots;
    prefill_only = fake_prefill_only;
    save_slot = fake_save_slot;
    restore_slot = fake_restore_slot;
    chat = fake_chat;
  }
