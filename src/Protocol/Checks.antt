-- ===== src/Protocol/Checks.antt =====
-- The checks of one value that stream_protocol.py makes on both sides, `_identifier` and those below it.
use vrc_agent.Prelude.Int.{ℤ, pos, ltb_ℤ, leb_ℤ}
use vrc_agent.Prelude.{
  ℕ, ◌%◌, String, Bool, false, not, ◌&&◌, ◌||◌, Option, none, some, List, [], ◌∷◌, nat_eq,
  string_eq, ◌==◌, ltb, if◌then◌else◌, is_none, is_empty, strip, length, Result, ok, err,
}
use vrc_agent.Protocol.Base64.{b64decode}
use vrc_agent.Protocol.Messages.{
  odd_pcm, bad_jpeg, bad_text, too_long, negative, failed_without_error, not_positive, long_pcm,
  bad_base64, long_jpeg, type_error, not_integer, not_text, empty_jpeg, empty_base64, bad_resource,
  empty_pcm, bad_sender, bad_completion, ProtocolError,
}
use vrc_agent.Prelude.Monad.{Result}
use vrc_agent.Contracts.{full_body_pose, voice_output, ControlResource}
use vrc_agent.Json.{null, text_length, object, array, integer, text, Value}
use Prim.Native.Char.{code}

abbrev pub Checked : Type 0 → Type 0
Checked A = Result ProtocolError A

-- `any(character in result for character in "\r\n\0")`
pub has_break : String → Bool
has_break String.[] = false
has_break (String.◌∷◌ c s) = (code c == 13) || (code c == 10) || (code c == 0) || has_break s

unfoldable pub identifier_of : String → String → Checked String
unfolding has_break
identifier_of name s =
    if is_empty s
    then err (not_text name)
    else if ltb 128 (text_length s) || has_break s
    then err (bad_text name)
    else ok s

-- `_identifier`
abbrev pub identifier : String → Value → Checked String
identifier name (text t) = identifier_of name (strip t)
identifier name _ = err (not_text name)

unfoldable pub optional_of : String → String → Checked (Option String)
optional_of name s =
    if is_empty s
    then err (not_text name)
    else if ltb 1000 (text_length s)
    then err (too_long name)
    else ok (some s)

-- `_optional_text`
abbrev pub optional_text : String → Value → Checked (Option String)
optional_text name null = ok none
optional_text name (text t) = optional_of name (strip t)
optional_text name _ = err (not_text name)

-- `_plain_integer`, where a key may be missing.
abbrev pub plain_integer : String → Value → Checked ℤ
plain_integer name (integer n) = ok n
plain_integer name _ = err (not_integer name)

-- `_positive_integer`
abbrev pub positive : String → Value → Checked ℤ
positive name (integer n) = if leb_ℤ n (pos 0) then err (not_positive name) else ok n
positive name _ = err (not_integer name)

-- `_nonnegative_integer`
abbrev pub nonnegative : String → Value → Checked ℤ
nonnegative name (integer n) = if ltb_ℤ n (pos 0) then err (negative name) else ok n
nonnegative name _ = err (not_integer name)

-- `resource.value`
abbrev pub resource_text : ControlResource → String
resource_text voice_output = "VOICE_OUTPUT"
resource_text full_body_pose = "FULL_BODY_POSE"

-- `_resource`
abbrev pub resource_from : Value → Checked ControlResource
resource_from (text t) =
    if t == "VOICE_OUTPUT"
    then ok voice_output
    else if t == "FULL_BODY_POSE"
    then ok full_body_pose
    else err bad_resource
resource_from _ = err bad_resource

-- `value not in {…}` of a set of texts: an array or an object has no hash, and raises.
abbrev pub member : (String → Bool) → ProtocolError → Value → Checked String
member test e (text t) = if test t then ok t else err e
member test e (array vs) = err type_error
member test e (object fs) = err type_error
member test e _ = err e

abbrev pub is_completion : String → Bool
is_completion t = t == "completed" || t == "cancelled" || t == "failed"

-- `_completion_state`
abbrev pub completion_state : Value → Checked String
completion_state = member is_completion bad_completion

abbrev pub is_sender : String → Bool
is_sender t = t == "mac" || t == "windows"

abbrev pub heartbeat_sender : Value → Checked String
heartbeat_sender = member is_sender bad_sender

-- `state == "failed" and error is None`
abbrev pub failure_has_error : String → Option String → Checked (Unit {0})
failure_has_error state error =
    if state == "failed" && is_none error then err failed_without_error else ok tt

-- `_decode_base64`
abbrev pub from_base64 : Value → Checked (List ℕ)
from_base64 (text t) =
    if is_empty t
    then err empty_base64
    else elim (b64decode t) [ none ↦ err bad_base64 | some bytes ↦ ok bytes ]
from_base64 _ = err empty_base64

abbrev pub max_audio_chunk_bytes : ℕ
max_audio_chunk_bytes = 131072

abbrev pub max_screenshot_bytes : ℕ
max_screenshot_bytes = 8388608

-- `_audio_pcm`
unfoldable pub audio_pcm : List ℕ → Checked (List ℕ)
audio_pcm pcm =
    if length pcm == 0
    then err empty_pcm
    else if ltb max_audio_chunk_bytes (length pcm)
    then err long_pcm
    else if not (length pcm % 2 == 0)
    then err odd_pcm
    else ok pcm

abbrev starts_jpeg : List ℕ → Bool
starts_jpeg (a ∷ b ∷ rest) = a == 255 && b == 216
starts_jpeg _ = false

ends_jpeg : List ℕ → Bool
ends_jpeg [] = false
ends_jpeg (a ∷ []) = false
ends_jpeg (a ∷ b ∷ []) = a == 255 && b == 217
ends_jpeg (a ∷ b ∷ c ∷ rest) = ends_jpeg (b ∷ c ∷ rest)

-- `_jpeg`
unfoldable pub checked_jpeg : List ℕ → Checked (List ℕ)
unfolding ends_jpeg
checked_jpeg jpeg =
    if length jpeg == 0
    then err empty_jpeg
    else if ltb max_screenshot_bytes (length jpeg)
    then err long_jpeg
    else if not (starts_jpeg jpeg && ends_jpeg jpeg)
    then err bad_jpeg
    else ok jpeg
