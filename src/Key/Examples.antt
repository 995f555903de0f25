-- ===== src/Key/Examples.antt =====
-- Keys of sample requests (the tests of src/lib.rs), and the theorems at concrete inputs.
use o_llm.Common.{◌≡◌, ◌≢◌, refl, inr, Option, none, some, [], ◌∷◌, arith, if◌then◌else◌}
use o_llm.Common.Text.{Text, codes, text_eq}
use o_llm.Json.Sample.{
  Value, string, array, object, cons, nil, field, end, sample_json as J, sample_sha256 as sha,
  sample_sha256-IsDigest as lawful,
}
use o_llm.Key.{
  hex, sanitize, contains_dots, is_system, messages_of, session_key, slice_to, backend_signature,
}
use o_llm.Key.Sanitize.{IsSafe}
use o_llm.Key.Session.{
  IsSessionKey, session_key-IsSessionKey, session_key-turns, session_key-separates,
}
use o_llm.Key.Blob.{blob_name-compat}

abbrev message : Text → Text → Value
message role content =
    object (field (codes "role") (string role) (field (codes "content") (string content) end))

abbrev prompt : Value
prompt = message (codes "system") (codes "you are stable.")

abbrev question : Value
question = message (codes "user") (codes "turn one")

abbrev reply : Value
reply = message (codes "assistant") (codes "reply")

abbrev first_turn : Value
first_turn = object (field (codes "messages") (array (cons prompt (cons question nil))) end)

abbrev second_turn : Value
second_turn =
    object (field (codes "messages") (array (cons prompt (cons reply (cons question nil)))) end)

abbrev header_name : Text
header_name = codes "x-session-id"

abbrev no_header : Text → Option Text
no_header k = none

abbrev header : Text → Text → Option Text
header v k = if text_eq k header_name then some v else none

slashes : sanitize (codes "../a/..b...c") ≡ codes ".-a-.b.c"
unfolding sanitize contains_dots
slashes = refl

empty : sanitize [] ≡ codes "session"
unfolding sanitize
empty = refl

from_header :
    session_key J sha (header (codes "abc")) first_turn header_name ≡ some (codes "hdr-abc")
unfolding session_key sanitize
from_header = refl

abc-IsSafe : IsSafe (codes "abc")
unfolding contains_dots
abc-IsSafe = record {
  kept = (refl, (refl, (refl, tt)));
  single_dots = refl;
  bounded = omega arith;
  nonempty = λ e. cc;
}

xyz-IsSafe : IsSafe (codes "xyz")
unfolding contains_dots
xyz-IsSafe = record {
  kept = (refl, (refl, (refl, tt)));
  single_dots = refl;
  bounded = omega arith;
  nonempty = λ e. cc;
}

session_key-IsSessionKey_example :
    (s : Text) × (session_key J sha no_header first_turn header_name ≡ some s) × IsSessionKey s
session_key-IsSessionKey_example =
    session_key-IsSessionKey J sha lawful no_header first_turn header_name

session_key-turns_example :
    session_key J sha no_header second_turn header_name
    ≡ session_key J sha no_header first_turn header_name
unfolding messages_of is_system
session_key-turns_example =
    session_key-turns J sha no_header first_turn second_turn header_name (prompt ∷ []) (reply ∷ [])
      (question ∷ []) refl refl refl (refl, tt)

session_key-separates_example :
    session_key J sha (header (codes "abc")) first_turn header_name
    ≢ session_key J sha (header (codes "xyz")) second_turn header_name
session_key-separates_example =
    session_key-separates J sha lawful (header (codes "abc")) (header (codes "xyz")) first_turn
      second_turn header_name (codes "abc") (codes "xyz") refl abc-IsSafe
      (inr (refl, xyz-IsSafe, λ e. ground arith))

blob_name-compat_example :
    (codes "hdr-abc" ≡ codes "hdr-abc") × (codes "070707070707" ≡ codes "070707070707")
unfolding backend_signature slice_to hex
blob_name-compat_example =
    blob_name-compat J sha lawful none none (codes "hdr-abc") (codes "hdr-abc")
      (codes "070707070707") (codes "070707070707") refl refl refl
