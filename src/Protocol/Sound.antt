-- ===== src/Protocol/Sound.antt =====
-- What each check of stream_protocol.py lets through.
use vrc_agent.Protocol.Decode.{jpeg_from}
use vrc_agent.Protocol.Messages.{
  Message, hello, session_open, authorize, output_neutralize, output_data, ack, output_completed,
  audio_chunk, screenshot_request, screenshot_response, heartbeat,
}
use vrc_agent.Protocol.Checks.{
  Checked, identifier, identifier_of, optional_text, optional_of, positive, nonnegative,
  heartbeat_sender, failure_has_error, has_break, from_base64, audio_pcm, checked_jpeg,
  max_audio_chunk_bytes, max_screenshot_bytes,
}
use vrc_agent.Prelude.Checked.{◌>>=◌}
use vrc_agent.Json.{text_length, Value, null, boolean, integer, real, text, array, object}
use vrc_agent.Prelude.Int.{ℤ, pos, ◌≤ℤ◌, ◌<ℤ◌}
use vrc_agent.Prelude.{
  ℕ, ◌%◌, ◌≤◌, ◌<◌, String, ◌≡◌, ◌≢◌, ◌⊎◌, refl, sym, ap, ◌∙◌, subst, false, Option, none, some,
  List, arith, nat_eq, string_eq, is_empty, eq_iff, strip, length, ok, err,
}
use vrc_agent.Prelude.Strip.{strip-strip}
use vrc_agent.Prelude.Checked.{bind-ok}

-- An identifier as `_identifier` returns it.
pub record IsIdentifier (s : String) : Type 0 where
  pub stripped : strip s ≡ s
  pub not_blank : is_empty s ≡ false
  pub is_short : text_length s ≤ 128
  pub on_one_line : has_break s ≡ false

-- An identifier is there.
abbrev pub IsNamed : Option String → Type 0
IsNamed none = ⊥
IsNamed (some s) = IsIdentifier s

abbrev pub IsText : Option String → Type 0
IsText none = Unit
IsText (some s) = (strip s ≡ s) × (is_empty s ≡ false) × (text_length s ≤ 1000)

abbrev pub IsPicture : Option (List ℕ) → Option String → Type 0
IsPicture none (some e) = Unit
IsPicture (some jpeg) none = (0 < length jpeg) × (length jpeg ≤ max_screenshot_bytes)
IsPicture _ _ = ⊥

abbrev pub IsSound : Message → Type 0
IsSound (hello m) = IsIdentifier m.client_instance_id
IsSound (session_open m) = IsIdentifier m.session_id
IsSound (authorize m) =
    IsIdentifier m.message_id
    × IsIdentifier m.session_id
    × (pos 0 <ℤ m.lease.token)
    × IsNamed m.lease.action_id
IsSound (output_neutralize m) =
    IsIdentifier m.message_id × IsIdentifier m.session_id × (pos 0 ≤ℤ m.lease_token)
IsSound (output_data m) =
    IsIdentifier m.session_id
    × IsIdentifier m.action_id
    × (pos 0 <ℤ m.lease_token)
    × (pos 0 ≤ℤ m.sequence)
    × (pos 0 <ℤ m.ttl_ms)
IsSound (ack m) = IsIdentifier m.message_id × IsText m.reason
IsSound (output_completed m) =
    IsIdentifier m.session_id
    × IsIdentifier m.action_id
    × (pos 0 <ℤ m.lease_token)
    × IsText m.error
    × (m.state ≡ "failed" → m.error ≢ none)
IsSound (audio_chunk m) =
    IsIdentifier m.session_id
    × (pos 0 ≤ℤ m.sequence)
    × (pos 0 ≤ℤ m.captured_ns)
    × (0 < length m.pcm)
    × (length m.pcm ≤ max_audio_chunk_bytes)
    × (length m.pcm % 2 ≡ 0)
IsSound (screenshot_request m) = IsIdentifier m.request_id × IsIdentifier m.session_id
IsSound (screenshot_response m) =
    IsIdentifier m.request_id
    × IsIdentifier m.session_id
    × IsPicture m.jpeg m.error
    × IsText m.error
IsSound (heartbeat m) =
    IsIdentifier m.session_id
    × ((m.sender ≡ "mac") ⊎ (m.sender ≡ "windows"))
    × (pos 0 ≤ℤ m.sequence)

-- Where a message was read, it is sound.
abbrev pub Sound : Checked Message → Type 0
Sound (ok m) = IsSound m
Sound (err e) = Unit

pub read :
    {A : Type 0} (r : Checked A) (f : A → Checked Message)
    → ((a : A) → r ≡ ok a → Sound (f a))
    → Sound (r >>= f)
read (ok a) f k = k a refl
read (err e) f k = tt

-- A step without a value.
pub read_on :
    {A : Type 0} (r : Checked A) (f : A → Checked Message)
    → ((a : A) → Sound (f a))
    → Sound (r >>= f)
read_on (ok a) f k = k a
read_on (err e) f k = tt

pub identifier_of-checks :
    (name s t : String)
    → identifier_of name s ≡ ok t
    → (t ≡ s) × (is_empty t ≡ false) × (text_length t ≤ 128) × (has_break t ≡ false)
unfolding identifier_of
identifier_of-checks name s t e = ground arith

pub identifier-IsIdentifier :
    (name : String) (v : Value) (t : String) → identifier name v ≡ ok t → IsIdentifier t
identifier-IsIdentifier name (text s) t e =
    let (same, full, short, line) = identifier_of-checks name (strip s) t e in
    record {
      stripped = ap strip same ∙ strip-strip s ∙ sym same;
      not_blank = full;
      is_short = short;
      on_one_line = line;
    }
identifier-IsIdentifier name null t e = cc
identifier-IsIdentifier name (boolean b) t e = cc
identifier-IsIdentifier name (integer n) t e = cc
identifier-IsIdentifier name (real n) t e = cc
identifier-IsIdentifier name (array vs) t e = cc
identifier-IsIdentifier name (object fs) t e = cc

pub optional_of-IsText :
    (name s : String) (t : Option String) → optional_of name (strip s) ≡ ok t → IsText t
unfolding optional_of
optional_of-IsText name s none e = tt
optional_of-IsText name s (some t) e = ground (arith, strip-strip s)

pub optional_text-IsText :
    (name : String) (v : Value) (t : Option String) → optional_text name v ≡ ok t → IsText t
optional_text-IsText name v none e = tt
optional_text-IsText name (text s) (some t) e = optional_of-IsText name s (some t) e
optional_text-IsText name null (some t) e = ground arith
optional_text-IsText name (boolean b) (some t) e = cc
optional_text-IsText name (integer n) (some t) e = cc
optional_text-IsText name (real n) (some t) e = cc
optional_text-IsText name (array vs) (some t) e = cc
optional_text-IsText name (object fs) (some t) e = cc

pub positive-<ℤ : (name : String) (v : Value) (n : ℤ) → positive name v ≡ ok n → pos 0 <ℤ n
positive-<ℤ name v n e = ground arith

pub nonnegative-≤ℤ : (name : String) (v : Value) (n : ℤ) → nonnegative name v ≡ ok n → pos 0 ≤ℤ n
nonnegative-≤ℤ name v n e = ground arith

pub audio_pcm-bounds :
    (bytes pcm : List ℕ)
    → audio_pcm bytes ≡ ok pcm
    → (0 < length pcm) × (length pcm ≤ max_audio_chunk_bytes) × (length pcm % 2 ≡ 0)
unfolding audio_pcm
audio_pcm-bounds bytes pcm e = ground arith

pub checked_jpeg-bounds :
    (bytes jpeg : List ℕ)
    → checked_jpeg bytes ≡ ok jpeg
    → (0 < length jpeg) × (length jpeg ≤ max_screenshot_bytes)
unfolding checked_jpeg
checked_jpeg-bounds bytes jpeg e = ground arith

-- The picture that `jpeg_from` reads when there is no error.
pub picture_read : Value → Checked (Option (List ℕ))
picture_read v = do bytes ← from_base64 v; jpeg ← checked_jpeg bytes; ok (some jpeg)

pub picture_read-IsPicture :
    (v : Value) (jpeg : Option (List ℕ)) → picture_read v ≡ ok jpeg → IsPicture jpeg none
unfolding picture_read
picture_read-IsPicture v jpeg e =
    let (bytes, _, next) = bind-ok (from_base64 v) _ jpeg e in
    let (checked, made, last) = bind-ok (checked_jpeg bytes) _ jpeg next in
    let same : some checked ≡ jpeg = ground (arith, last) in
    subst (λ j. IsPicture j none) same (checked_jpeg-bounds bytes checked made)

pub jpeg_from-IsPicture :
    (v : Value) (error : Option String) (jpeg : Option (List ℕ))
    → jpeg_from v error ≡ ok jpeg
    → IsPicture jpeg error
unfolding picture_read
jpeg_from-IsPicture null none jpeg e = cc
jpeg_from-IsPicture null (some t) none e = tt
jpeg_from-IsPicture null (some t) (some j) e = ground arith
jpeg_from-IsPicture (text s) none jpeg e = picture_read-IsPicture (text s) jpeg e
jpeg_from-IsPicture (text s) (some t) jpeg e = cc
jpeg_from-IsPicture (boolean b) none jpeg e = picture_read-IsPicture (boolean b) jpeg e
jpeg_from-IsPicture (boolean b) (some t) jpeg e = cc
jpeg_from-IsPicture (integer n) none jpeg e = picture_read-IsPicture (integer n) jpeg e
jpeg_from-IsPicture (integer n) (some t) jpeg e = cc
jpeg_from-IsPicture (real n) none jpeg e = picture_read-IsPicture (real n) jpeg e
jpeg_from-IsPicture (real n) (some t) jpeg e = cc
jpeg_from-IsPicture (array vs) none jpeg e = picture_read-IsPicture (array vs) jpeg e
jpeg_from-IsPicture (array vs) (some t) jpeg e = cc
jpeg_from-IsPicture (object fs) none jpeg e = picture_read-IsPicture (object fs) jpeg e
jpeg_from-IsPicture (object fs) (some t) jpeg e = cc

pub sender-known :
    (v : Value) (s : String) → heartbeat_sender v ≡ ok s → (s ≡ "mac") ⊎ (s ≡ "windows")
sender-known (text t) s e = ground (arith, eq_iff t "mac", eq_iff t "windows")
sender-known null s e = cc
sender-known (boolean b) s e = cc
sender-known (integer n) s e = cc
sender-known (real n) s e = cc
sender-known (array vs) s e = cc
sender-known (object fs) s e = cc

pub failed-has-error :
    (state : String) (error : Option String) (u : Unit {0})
    → failure_has_error state error ≡ ok u
    → (state ≡ "failed" → error ≢ none)
failed-has-error state error u e failed = ground (arith, eq_iff state "failed")
