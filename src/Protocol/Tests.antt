-- ===== src/Protocol/Tests.antt =====
-- Concrete messages of stream_protocol.py.
use vrc_agent.Protocol.Base64.{b64encode}
use vrc_agent.Protocol.Size.{dumped_size}
use vrc_agent.Protocol.Checks.{identifier_of, audio_pcm}
use vrc_agent.Protocol.Decode.{decode_message}
use vrc_agent.Protocol.Messages.{Message}
use vrc_agent.Protocol.Messages.{audio_chunk}
use vrc_agent.Protocol.Bounds.{decode_message-IsSound}
use vrc_agent.Prelude.{strip, refl, [], ◌∷◌, ok, ◌≡◌, arith}
use vrc_agent.Protocol.Encode.{payload_audio_chunk, encode_message}
use vrc_agent.Json.{text_length, no_fields, integer, text, field, object, Value}
use vrc_agent.Protocol.Sound.{IsSound}
use vrc_agent.Prelude.Int.{pos}
use vrc_agent.Protocol.Shapes.{clean}
use vrc_agent.Protocol.Rounds.{HasBytes}
use vrc_agent.Protocol.RoundTrip.{sent, decode-encode_message}

abbrev chunk : Message
chunk = audio_chunk (record {
  session_id = " s1 ";
  sequence = pos 7;
  captured_ns = pos 900;
  pcm = 1 ∷ 255 ∷ 0 ∷ 16 ∷ [];
})

abbrev clean_chunk : Message
clean_chunk = audio_chunk (record {
  session_id = "s1";
  sequence = pos 7;
  captured_ns = pos 900;
  pcm = 1 ∷ 255 ∷ 0 ∷ 16 ∷ [];
})

abbrev chunk_object : Value
chunk_object = object (
    field "type" (text "audio.chunk") (
      field "version" (integer (pos 2)) (
        field "session_id" (text "s1") (
          field "sequence" (integer (pos 7)) (
            field "captured_monotonic_ns" (integer (pos 900)) (
              field "sample_rate" (integer (pos 16000)) (
                field "channels" (integer (pos 1)) (
                  field "encoding" (text "pcm_s16le")
                    (field "pcm" (text "Af8AEA==") no_fields)))))))))

chunk-HasBytes : HasBytes chunk
chunk-HasBytes = ground arith

encode-chunk : encode_message chunk ≡ ok chunk_object
unfolding encode_message payload_audio_chunk audio_pcm identifier_of strip text_length dumped_size
    b64encode
encode-chunk = refl

decode-encode_message_example : decode_message (sent chunk_object) ≡ ok clean_chunk
unfolding clean strip
decode-encode_message_example = decode-encode_message chunk chunk_object chunk-HasBytes encode-chunk

decode_message-IsSound_example : IsSound clean_chunk
decode_message-IsSound_example =
    decode_message-IsSound (sent chunk_object) clean_chunk decode-encode_message_example
