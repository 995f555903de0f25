-- ===== src/Backend/Llama/Examples.antt =====
-- The client over a server that answers every request with one body, and the theorems at it.
use o_llm.Common.{ℕ, ◌+◌, ◌≡◌, refl, true, some, [], ok}
use o_llm.Common.Text.{codes}
use o_llm.Json.Sample.{Value, number, array, object, cons, nil, field, end}
use o_llm.Backend.{SlotState}
use o_llm.Backend.Llama.{HttpClient, HttpResponse, LlamaBackend, decimal, decimal_from}

-- A slot that does not say whether it is processing.
abbrev element : Value
element = object (field (codes "id") (number 3) end)

abbrev answer : HttpResponse Value
answer = record { status = 200; json = ok (array (cons element nil)); chunks = [] }

abbrev server : HttpClient ℕ Value
server q w = (ok answer, w + 1)

abbrev client : LlamaBackend
client = record { base = codes "http://h:1"; api_key = some (codes "k") }

abbrev reported : SlotState
reported = record { id = 3; is_processing = true; n_tokens = 0 }

decimal_lem : decimal 4294967295 ≡ codes "4294967295"
unfolding decimal decimal_from
decimal_lem = refl
