-- ===== src/Protocol/Rounds.antt =====
-- What each payload of stream_protocol.py is read as.
use vrc_agent.Prelude.Lists.{AllBytes}
use vrc_agent.Prelude.{refl, subst, nat_eq, string_eq}
use vrc_agent.Protocol.Messages.{
  Message, output_data, output_completed, audio_chunk, screenshot_response, OutputCompleted,
  AudioChunk, ScreenshotResponse,
}
use vrc_agent.Protocol.Checks.{
  identifier, optional_text, positive, nonnegative, completion_state, failure_has_error, audio_pcm,
}
use vrc_agent.Protocol.Encode.{
  or_null, payload_object, jpeg_or_null, exactly_one, payload_output_data, payload_output_completed,
  payload_audio_chunk, payload_screenshot_response,
}
use vrc_agent.Protocol.Decode.{
  decode_root, decode_typed, decode_output_data, decode_output_completed, decode_audio_chunk,
  decode_screenshot_response,
}
use vrc_agent.Contracts.{OutputEnvelope}
use vrc_agent.Json.{integer, text, has_exactly}
use vrc_agent.Protocol.Again.{
  JpegBytes, identifier-again, optional-again, positive-again, nonnegative-again, resource-again,
  payload-same, state-again, pcm-again, from_base64-encode, jpeg_read-again,
}
use vrc_agent.Protocol.Shapes.{clean, Round, through}

pub output_data-Round : (m : OutputEnvelope) → Round (clean (output_data m)) (payload_output_data m)
unfolding clean payload_output_data decode_root decode_typed decode_output_data has_exactly
output_data-Round m = through _ (positive "lease_token" (integer m.lease_token)) _ λ token e0.
    let (same0, again0) = positive-again "lease_token" m.lease_token token e0 in
    through _ (nonnegative "sequence" (integer m.sequence)) _ λ sequence e1.
      let (same1, again1) = nonnegative-again "sequence" m.sequence sequence e1 in
      through _ (positive "ttl_ms" (integer m.ttl_ms)) _ λ ttl_ms e2.
        let (same2, again2) = positive-again "ttl_ms" m.ttl_ms ttl_ms e2 in
        through _ (payload_object m.payload) _ λ payload e3.
          let same3 = payload-same m.payload payload e3 in
          through _ (identifier "session_id" (text m.session_id)) _ λ session_id e4.
            let (same4, again4) = identifier-again "session_id" m.session_id session_id e4 in
            through _ (identifier "action_id" (text m.action_id)) _ λ action_id e5.
              let (same5, again5) = identifier-again "action_id" m.action_id action_id e5 in
              rw
                (
                  again0,
                  same0,
                  again1,
                  same1,
                  again2,
                  same2,
                  same3,
                  again4,
                  same4,
                  again5,
                  same5,
                  resource-again m.resource,
                )
                refl

pub output_completed-Round :
    (m : OutputCompleted) → Round (clean (output_completed m)) (payload_output_completed m)
unfolding clean payload_output_completed decode_root decode_typed decode_output_completed
    has_exactly
output_completed-Round m = through _ (completion_state (text m.state)) _ λ state e0.
    let (same0, again0) = state-again m.state state e0 in
    through _ (optional_text "error" (or_null m.error)) _ λ error e1.
      let (same1, again1) = optional-again "error" m.error error e1 in
      through _ (failure_has_error state error) _ λ u e2.
        through _ (positive "lease_token" (integer m.lease_token)) _ λ token e3.
          let (same3, again3) = positive-again "lease_token" m.lease_token token e3 in
          through _ (identifier "session_id" (text m.session_id)) _ λ session_id e4.
            let (same4, again4) = identifier-again "session_id" m.session_id session_id e4 in
            through _ (identifier "action_id" (text m.action_id)) _ λ action_id e5.
              let (same5, again5) = identifier-again "action_id" m.action_id action_id e5 in
              rw
                (
                  again0,
                  same0,
                  again1,
                  same1,
                  e2,
                  again3,
                  same3,
                  again4,
                  same4,
                  again5,
                  same5,
                  resource-again m.resource,
                )
                refl

-- A message's bytes are bytes.
abbrev pub HasBytes : Message → Type 0
HasBytes (audio_chunk m) = AllBytes m.pcm
HasBytes (screenshot_response m) = JpegBytes m.jpeg
HasBytes _ = Unit

pub audio_chunk-Round :
    (m : AudioChunk) → AllBytes m.pcm → Round (clean (audio_chunk m)) (payload_audio_chunk m)
unfolding clean payload_audio_chunk decode_root decode_typed decode_audio_chunk has_exactly
audio_chunk-Round m h = through _ (audio_pcm m.pcm) _ λ pcm e0.
    let (same0, again0, full) = pcm-again m.pcm pcm e0 in
    through _ (identifier "session_id" (text m.session_id)) _ λ session_id e1.
      let (same1, again1) = identifier-again "session_id" m.session_id session_id e1 in
      through _ (nonnegative "sequence" (integer m.sequence)) _ λ sequence e2.
        let (same2, again2) = nonnegative-again "sequence" m.sequence sequence e2 in
        through _ (nonnegative "captured_monotonic_ns" (integer m.captured_ns)) _ λ captured e3.
          let (same3, again3) =
            nonnegative-again "captured_monotonic_ns" m.captured_ns captured e3 in
          let read = from_base64-encode pcm (subst AllBytes same0 h) full in
          rw (again1, same1, again2, same2, again3, same3, read, again0, same0) refl

pub screenshot_response-Round :
    (m : ScreenshotResponse)
    → HasBytes (screenshot_response m)
    → Round (clean (screenshot_response m)) (payload_screenshot_response m)
unfolding clean payload_screenshot_response decode_root decode_typed decode_screenshot_response
    has_exactly
screenshot_response-Round m h = through _ (optional_text "error" (or_null m.error)) _ λ error e0.
    let (same0, again0) = optional-again "error" m.error error e0 in
    through _ (exactly_one m.jpeg error) _ λ u e1. through _ (jpeg_or_null m.jpeg) _ λ jpeg e2.
      let read = jpeg_read-again m.jpeg error jpeg h e1 e2 in
      through _ (identifier "request_id" (text m.request_id)) _ λ request_id e3.
        let (same3, again3) = identifier-again "request_id" m.request_id request_id e3 in
        through _ (identifier "session_id" (text m.session_id)) _ λ session_id e4.
          let (same4, again4) = identifier-again "session_id" m.session_id session_id e4 in
          rw (again0, same0, read, again3, same3, again4, same4) refl
