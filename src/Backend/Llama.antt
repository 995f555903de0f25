-- ===== src/Backend/Llama.antt =====
-- `LlamaBackend` of src/backend.rs over an HTTP client, which is a parameter: `send` takes a
-- request and the state of the world and gives the response or the error's text.
pub mod Laws
mod Examples
use o_llm.Common.{
  ℕ, zero, suc, ◌+◌, ◌/◌, ◌%◌, ◌^◌, Bool, true, false, Option, none, some, List, [], ◌∷◌, ◌++◌,
  Result, ok, err, ltb, if◌then◌else◌, get_or,
}
use o_llm.Common.Text.{Text, codes}
use o_llm.Json.{Json}
use o_llm.Backend.{SlotState, ChatOutcome, Backend}

pub data Method : Type 0 where
  get post : Method

pub record HttpRequest (V : Type 0) : Type 0 where
  pub method : Method
  pub url : Text
  pub bearer : Option Text
  pub body : Option V

-- The body read whole as JSON, or as a stream of chunks.
pub record HttpResponse (V : Type 0) : Type 0 where
  pub status : ℕ
  pub json : Result V Text
  pub chunks : List (Result (List ℕ) Text)

abbrev pub HttpClient : Type 0 → Type 0 → Type 0
HttpClient W V = HttpRequest V → W → Result (HttpResponse V) Text × W

pub record LlamaBackend : Type 0 where
  pub base : Text
  pub api_key : Option Text

-- `{id}` in a format string: decimal digits; ten are enough for a `u32`.
unfoldable pub decimal_from : ℕ → ℕ → Text → Text
decimal_from zero n acc = acc
decimal_from (suc fuel) n acc =
    let rest = decimal_from fuel (n / 10) ((b'0' + n % 10) ∷ acc) in
    if ltb n 10 then (b'0' + n % 10) ∷ acc else rest

unfoldable pub decimal : ℕ → Text
unfolding decimal_from
decimal n = decimal_from 10 n []

abbrev ok_value : {V : Type 0} → Result V Text → Option V
ok_value (ok v) = some v
ok_value (err e) = none

-- What is read from and written into JSON.
module _ {V : Type 0} (J : Json V) where
  open J use {as_array, as_u64, as_bool, number, boolean, string, empty_object}

  -- A body that is no JSON is replaced by an object that says so.
  abbrev unparsed : Result V Text → V
  unparsed (ok v) = v
  unparsed (err e) = J.set empty_object (codes "unparsed") (string e)

  abbrev pub u64_of : Option V → Option ℕ
  u64_of none = none
  u64_of (some v) = as_u64 v

  abbrev pub bool_of : Option V → Option Bool
  bool_of none = none
  bool_of (some v) = as_bool v

  -- One element of the array that `GET /slots` returns: without an id it is passed over, without
  -- a readable `is_processing` it counts as processing, and the id is cut to 32 bits.
  unfoldable pub slot_of : V → Option SlotState
  slot_of s = elim (u64_of (J.get s (codes "id"))) [
    | none ↦ none
    | some x ↦ some (record {
      id = x % 2 ^ 32;
      is_processing = get_or (bool_of (J.get s (codes "is_processing"))) true;
      n_tokens = get_or (u64_of (J.get s (codes "n_prompt_tokens"))) 0;
    })
  ]

  unfoldable pub slots_of : List V → List SlotState
  slots_of [] = []
  slots_of (s ∷ arr) =
      let rest = slots_of arr in elim (slot_of s) [ none ↦ rest | some st ↦ st ∷ rest ]

  abbrev not_array : Text
  not_array = codes "GET /slots: not an array"

  abbrev pub read_slots : Result V Text → Result (List SlotState) Text
  read_slots (err e) = err e
  read_slots (ok v) = elim (as_array v) [ none ↦ err not_array | some arr ↦ ok (slots_of arr) ]

  -- `Ok((code, v)) if code < 300 => Ok(v)`; the error's text begins with the operation's name.
  unfoldable pub accept : Text → Result (ℕ × V) Text → Result V Text
  accept what (err e) = err e
  accept what (ok (code, v)) =
      if ltb code 300
      then ok v
      else err (what ++ (codes ": " ++ (decimal code ++ (codes ": " ++ J.display v))))

  unfoldable pub prefill_body : ℕ → V → V
  prefill_body slot messages =
      J.set
        (J.set
          (J.set (J.set empty_object (codes "messages") messages) (codes "stream") (boolean false))
          (codes "id_slot") (number slot))
        (codes "max_tokens") (number 0)

  abbrev pub filename : Text → V
  filename name = J.set empty_object (codes "filename") (string name)

module _ {W V : Type 0} (J : Json V) (send : HttpClient W V) (be : LlamaBackend) where
  abbrev url : Text → Text
  url path = be.base ++ path

  -- `decorate` on a request that is built from its parts.
  unfoldable pub request : Method → Text → Option V → HttpRequest V
  request method path body = record {
    method = method;
    url = url path;
    bearer = be.api_key;
    body = body;
  }

  unfoldable pub get_body : Text → Result (HttpResponse V) Text × W → Result V Text × W
  get_body path (err e, w) = (err (codes "GET " ++ (path ++ (codes ": " ++ e))), w)
  get_body path (ok r, w) = (
    elim r.json [ ok v ↦ ok v | err e ↦ err (codes "GET " ++ (path ++ (codes " json: " ++ e))) ],
    w,
  )

  unfoldable pub get_json : Text → W → Result V Text × W
  unfolding get_body request
  get_json path w = get_body path (send (request get path none) w)

  pub post_body : Result (HttpResponse V) Text × W → Result (ℕ × V) Text × W
  post_body (err e, w) = (err e, w)
  post_body (ok r, w) = (ok (r.status, unparsed J r.json), w)

  unfoldable pub post_json : Text → V → W → Result (ℕ × V) Text × W
  unfolding post_body request
  post_json path body w = post_body (send (request post path (some body)) w)

  -- `props`: used at startup only, not part of the trait.
  unfoldable pub props : W → Option V × W
  props w = let (r, w') = get_json (codes "/props") w in (ok_value r, w')

  unfoldable pub slots : W → Result (List SlotState) Text × W
  slots w = let (r, w') = get_json (codes "/slots") w in (read_slots J r, w')

  unfoldable pub prefill_only : ℕ → V → W → Result V Text × W
  prefill_only slot messages w =
      let (r, w') = post_json (codes "/v1/chat/completions") (prefill_body J slot messages) w in
      (accept J (codes "prefill_only") r, w')

  abbrev pub action_path : ℕ → Text → Text
  action_path id action = codes "/slots/" ++ (decimal id ++ (codes "?action=" ++ action))

  unfoldable pub save_slot : ℕ → Text → W → Result V Text × W
  save_slot id name w =
      let (r, w') = post_json (action_path id (codes "save")) (filename J name) w in
      (accept J (codes "save") r, w')

  unfoldable pub restore_slot : ℕ → Text → W → Result V Text × W
  restore_slot id name w =
      let (r, w') = post_json (action_path id (codes "restore")) (filename J name) w in
      (accept J (codes "restore") r, w')

  chat_outcome : Result (HttpResponse V) Text × W → Result ChatOutcome Text × W
  chat_outcome (err e, w) = (err e, w)
  chat_outcome (ok r, w) = (ok (record { status = r.status; stream = r.chunks }), w)

  unfoldable pub chat : V → W → Result ChatOutcome Text × W
  unfolding chat_outcome request
  chat body w = chat_outcome (send (request post (codes "/v1/chat/completions") (some body)) w)

  -- The implementation of the trait.
  abbrev pub llama_backend : Backend W V
  llama_backend = record {
    slots = slots;
    prefill_only = prefill_only;
    save_slot = save_slot;
    restore_slot = restore_slot;
    chat = chat;
  }
