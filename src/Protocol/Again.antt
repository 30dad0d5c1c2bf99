-- ===== src/Protocol/Again.antt =====
-- A value that a check of stream_protocol.py let through passes the decoder's check again, unchanged.
use vrc_agent.Prelude.Lists.{AllBytes}
use vrc_agent.Prelude.Int.{ℤ}
use vrc_agent.Prelude.{
  ℕ, String, ◌≡◌, ◌≢◌, inl, inr, refl, sym, ap, ◌∙◌, subst, Option, none, some, List, [], arith,
  nat_eq, string_eq, is_empty, eq_iff, Bool-cases, strip, length, ok,
}
use mathlib.Core.Option
use vrc_agent.Prelude.Strip.{strip-strip}
use vrc_agent.Protocol.Checks.{
  identifier, identifier_of, optional_text, optional_of, positive, nonnegative, resource_text,
  resource_from, completion_state, heartbeat_sender, from_base64, audio_pcm, checked_jpeg,
}
use vrc_agent.Protocol.Base64.{b64encode, b64decode, decode-encode}
use vrc_agent.Protocol.Encode.{or_null, payload_object, action_id_value, jpeg_or_null, exactly_one}
use vrc_agent.Protocol.Decode.{jpeg_from}
use vrc_agent.Contracts.{ControlResource, voice_output, full_body_pose}
use vrc_agent.Json.{Value, integer, text, object, Fields}
use vrc_agent.Prelude.Checked.{bind-ok}

pub identifier-again :
    (name s t : String)
    → identifier name (text s) ≡ ok t
    → (strip s ≡ t) × (identifier name (text t) ≡ ok t)
unfolding identifier_of
identifier-again name s t e = ground (arith, strip-strip s)

pub optional-again :
    (name : String) (o t : Option String)
    → optional_text name (or_null o) ≡ ok t
    → (Option.map strip o ≡ t) × (optional_text name (or_null t) ≡ ok t)
unfolding optional_of
optional-again name none t e = ground arith
optional-again name (some s) t e = ground (arith, strip-strip s)

pub positive-again :
    (name : String) (n t : ℤ)
    → positive name (integer n) ≡ ok t
    → (n ≡ t) × (positive name (integer t) ≡ ok t)
positive-again name n t e = ground arith

pub nonnegative-again :
    (name : String) (n t : ℤ)
    → nonnegative name (integer n) ≡ ok t
    → (n ≡ t) × (nonnegative name (integer t) ≡ ok t)
nonnegative-again name n t e = ground arith

pub resource-again : (r : ControlResource) → resource_from (text (resource_text r)) ≡ ok r
resource-again voice_output = refl
resource-again full_body_pose = refl

pub action_id-again :
    (o : Option String) (t : String)
    → identifier "action_id" (action_id_value o) ≡ ok t
    → (identifier "action_id" (text t) ≡ ok t) × (Option.map strip o ≡ some t)
action_id-again none t e = cc
action_id-again (some s) t e =
    let (same, again) = identifier-again "action_id" s t e in (again, ap some same)

pub payload-same : (v : Value) (fs : Fields) → payload_object v ≡ ok fs → v ≡ object fs
payload-same v fs e = ground arith

pub state-again :
    (s t : String) → completion_state (text s) ≡ ok t → (s ≡ t) × (completion_state (text t) ≡ ok t)
state-again s t e = ground arith

pub sender-again :
    (s t : String) → heartbeat_sender (text s) ≡ ok t → (s ≡ t) × (heartbeat_sender (text t) ≡ ok t)
sender-again s t e = ground arith

pub pcm-again :
    (bytes t : List ℕ)
    → audio_pcm bytes ≡ ok t
    → (bytes ≡ t) × (audio_pcm t ≡ ok t) × (length t ≢ 0)
unfolding audio_pcm
pcm-again bytes t e = ground arith

pub jpeg-again :
    (bytes t : List ℕ)
    → checked_jpeg bytes ≡ ok t
    → (bytes ≡ t) × (checked_jpeg t ≡ ok t) × (length t ≢ 0)
unfolding checked_jpeg
jpeg-again bytes t e = ground arith

pub from_base64-encode :
    (bytes : List ℕ)
    → AllBytes bytes
    → length bytes ≢ 0
    → from_base64 (text (b64encode bytes)) ≡ ok bytes
unfolding b64decode
from_base64-encode bytes h ne = elim (Bool-cases (is_empty (b64encode bytes))) [
  | inl blank ↦
      let e : some [] ≡ some bytes =
        ap b64decode (sym ((eq_iff (b64encode bytes) "").0 blank)) ∙ decode-encode bytes h in
      ground (arith, e, ne)
  | inr full ↦ rw (full, decode-encode bytes h) refl
]

-- The bytes of a picture that is there are bytes.
abbrev pub JpegBytes : Option (List ℕ) → Type 0
JpegBytes none = Unit
JpegBytes (some jpeg) = AllBytes jpeg

-- Where exactly one is there, the decoder finds it again.
pub jpeg_read-again :
    (jpeg : Option (List ℕ)) (error : Option String) (v : Value)
    → JpegBytes jpeg
    → exactly_one jpeg error ≡ ok tt
    → jpeg_or_null jpeg ≡ ok v
    → jpeg_from v error ≡ ok jpeg
jpeg_read-again none none v h one e = cc
jpeg_read-again none (some x) v h one e = ground arith
jpeg_read-again (some bytes) (some x) v h one e = cc
jpeg_read-again (some bytes) none v h one e =
    let (t, checked, made) = bind-ok (checked_jpeg bytes) (λ b. ok (text (b64encode b))) v e in
    let (same, again, full) = jpeg-again bytes t checked in
    ground (arith, made, again, same, from_base64-encode t (subst AllBytes same h) full)
