-- ===== src/Protocol/RoundTrip.antt =====
-- What stream_protocol.py encodes it decodes again.
use vrc_agent.Prelude.{
  ◌≡◌, refl, ap, ◌∙◌, subst, true, false, some, arith, nat_eq, string_eq, ltb, ok,
}
use vrc_agent.Protocol.Messages.{
  Message, hello, session_open, authorize, output_neutralize, output_data, ack, output_completed,
  audio_chunk, screenshot_request, screenshot_response, heartbeat,
}
use vrc_agent.Protocol.Encode.{max_message_bytes, payload_of, encode_message, within_size}
use vrc_agent.Protocol.Decode.{decode_root, decode_message, Raw}
use vrc_agent.Protocol.Size.{dumped_size}
use vrc_agent.Json.{Value}
use vrc_agent.Prelude.Checked.{bind-ok}
use vrc_agent.Protocol.Shapes.{
  clean, Round, hello-Round, session_open-Round, output_neutralize-Round, authorize-Round,
  ack-Round, screenshot_request-Round, heartbeat-Round,
}
use vrc_agent.Protocol.Rounds.{
  output_data-Round, output_completed-Round, HasBytes, audio_chunk-Round, screenshot_response-Round,
}

payload-Round : (m : Message) → HasBytes m → Round (clean m) (payload_of m)
unfolding payload_of
payload-Round (hello m) h = hello-Round m
payload-Round (session_open m) h = session_open-Round m
payload-Round (authorize m) h = authorize-Round m
payload-Round (output_neutralize m) h = output_neutralize-Round m
payload-Round (output_data m) h = output_data-Round m
payload-Round (ack m) h = ack-Round m
payload-Round (output_completed m) h = output_completed-Round m
payload-Round (audio_chunk m) h = audio_chunk-Round m h
payload-Round (screenshot_request m) h = screenshot_request-Round m
payload-Round (screenshot_response m) h = screenshot_response-Round m h
payload-Round (heartbeat m) h = heartbeat-Round m

-- The raw message of a payload's JSON text.
abbrev pub sent : Value → Raw
sent v = record { size = dumped_size v; is_utf8 = true; json = some v }

within_size-ok :
    (v w : Value) → within_size v ≡ ok w → (v ≡ w) × (ltb max_message_bytes (dumped_size w) ≡ false)
within_size-ok v w e = ground arith

-- A message that is encoded, its bytes below 256, is decoded as itself, with its texts stripped.
pub decode-encode_message :
    (m : Message) (v : Value)
    → HasBytes m
    → encode_message m ≡ ok v
    → decode_message (sent v) ≡ ok (clean m)
unfolding encode_message decode_message
decode-encode_message m v h e =
    let (payload, made, sized) = bind-ok (payload_of m) within_size v e in
    let (same, small) = within_size-ok payload v sized in
    let made_v : payload_of m ≡ ok v = made ∙ ap ok same in
    let read : decode_root v ≡ ok (clean m) = subst (Round (clean m)) made_v (payload-Round m h) in
    rw (small, read) refl
