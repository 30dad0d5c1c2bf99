-- ===== src/Vad.antt =====
-- `EnergyVadSegmenter` of vrc_ardy_agent/energy_vad.py: frames of 20 ms become utterances. A frame is
-- its bytes; each method runs under the lock and is one step, `now` the clock's reading in it.
pub mod Settings
pub mod Rms
pub mod Invariant
pub mod Runs
mod Tests
use vrc_agent.Prelude.{
  ℕ, ◌+◌, ◌*◌, ◌/◌, String, Bool, true, false, Option, none, some, List, [], ◌∷◌, ◌++◌, ◌==◌,
  nat_eq, not, is_empty, ltb, leb, length, keep_last, append_bounded, strip, if◌then◌else◌, Result,
  ok, err, Method,
}
use vrc_agent.Vad.Settings.{Config, frame_ms, frame_bytes, pre_roll_frames}
use vrc_agent.Vad.Rms.{pcm_rms}

abbrev pub Frame : Type 0
Frame = List ℕ

pub record Vad : Type 0 where
  pub pre_roll : List Frame
  pub candidate : List Frame
  pub candidate_ms : ℕ
  pub active_frames : Option (List Frame)
  pub active_voiced_ms : ℕ
  pub active_duration_ms : ℕ
  pub trailing_silence_ms : ℕ
  pub frames_received : ℕ
  pub utterances_emitted : ℕ
  pub utterances_discarded : ℕ
  pub resets : ℕ
  pub last_rms : ℕ
  pub heartbeat : ℕ
  pub last_reset_reason : Option String

pub data VadError : Type 0 where
  bad_frame empty_reason : VadError

abbrev pub init : ℕ → Vad
init now = record {
  pre_roll = [];
  candidate = [];
  candidate_ms = 0;
  active_frames = none;
  active_voiced_ms = 0;
  active_duration_ms = 0;
  trailing_silence_ms = 0;
  frames_received = 0;
  utterances_emitted = 0;
  utterances_discarded = 0;
  resets = 0;
  last_rms = 0;
  heartbeat = now;
  last_reset_reason = none;
}

-- `_clear_buffers_locked`
pub clear_buffers : Vad → Vad
clear_buffers s = record s {
  pre_roll = [];
  candidate = [];
  candidate_ms = 0;
  active_frames = none;
  active_voiced_ms = 0;
  active_duration_ms = 0;
  trailing_silence_ms = 0;
}

-- `b"".join(frames)`
pub join : List Frame → List ℕ
join [] = []
join (f ∷ fs) = f ++ join fs

-- What `push` writes for every frame.
pub note_frame : ℕ → ℕ → Vad → Vad
note_frame now rms s = record s {
  frames_received = s.frames_received + 1;
  last_rms = rms;
  heartbeat = now;
}

module _ (c : Config) where
  -- `_push_inactive_locked`
  pub push_inactive : Frame → Bool → Vad → Vad
  push_inactive frame false s = record s {
    candidate = [];
    candidate_ms = 0;
    pre_roll = append_bounded (pre_roll_frames c) s.pre_roll frame;
  }
  push_inactive frame true s =
      let candidate = s.candidate ++ frame ∷ [] in
      let candidate_ms = s.candidate_ms + frame_ms in
      let frames = s.pre_roll ++ candidate in
      if ltb candidate_ms c.start_trigger_ms
      then record s { candidate = candidate; candidate_ms = candidate_ms }
      else record s {
        active_frames = some frames;
        active_voiced_ms = candidate_ms;
        active_duration_ms = length frames * frame_ms;
        trailing_silence_ms = 0;
        pre_roll = [];
        candidate = [];
        candidate_ms = 0;
      }

  -- `_push_active_locked`
  pub push_active : Frame → Bool → List Frame → Vad → Vad
  push_active frame voiced frames s = record s {
    active_frames = some (frames ++ frame ∷ []);
    active_duration_ms = s.active_duration_ms + frame_ms;
    active_voiced_ms = if voiced then s.active_voiced_ms + frame_ms else s.active_voiced_ms;
    trailing_silence_ms = if voiced then 0 else s.trailing_silence_ms + frame_ms;
  }

  pub push_frame : Frame → Bool → Vad → Option (List Frame) → Vad
  unfolding push_inactive push_active
  push_frame frame voiced s none = push_inactive frame voiced s
  push_frame frame voiced s (some frames) = push_active frame voiced frames s

  -- What stays in the pre-roll after an utterance.
  silence_tail : Bool → List Frame → List Frame
  silence_tail false frames = []
  silence_tail true frames =
      if pre_roll_frames c == 0 then [] else keep_last (pre_roll_frames c) frames

  -- `_finish_locked`
  pub finish : Bool → List Frame → Vad → List (List ℕ) × Vad
  unfolding silence_tail clear_buffers
  finish keep_tail frames s =
      let cleared = clear_buffers s in
      let s' : Vad = record cleared {
        pre_roll =
            keep_last (pre_roll_frames c) (cleared.pre_roll ++ silence_tail keep_tail frames);
      } in
      if ltb s.active_voiced_ms c.minimum_speech_ms
      then ([], record s' { utterances_discarded = s'.utterances_discarded + 1 })
      else (join frames ∷ [], record s' { utterances_emitted = s'.utterances_emitted + 1 })

  -- The end of `push`: the utterance is finished by silence, or by its length.
  pub end_push : Vad → Option (List Frame) → List (List ℕ) × Vad
  unfolding finish
  end_push s none = ([], s)
  end_push s (some frames) =
      if leb c.end_silence_ms s.trailing_silence_ms
      then finish true frames s
      else if leb c.maximum_utterance_ms s.active_duration_ms
      then finish false frames s
      else ([], s)

  pub push : ℕ → Frame → Method Vad VadError (List (List ℕ))
  unfolding note_frame push_frame end_push
  push now frame s =
      let rms = pcm_rms frame in
      let voiced = leb c.rms_threshold rms in
      let s1 = note_frame now rms s in
      let s2 = push_frame frame voiced s1 s1.active_frames in
      let (emitted, s3) = end_push s2 s2.active_frames in
      if length frame == frame_bytes then (ok emitted, s3) else (err bad_frame, s)

  pub reset : ℕ → String → Method Vad VadError (Unit {0})
  unfolding clear_buffers
  reset now reason s =
      let why = strip reason in
      if is_empty why then (err empty_reason, s) else (
        ok tt,
        record (clear_buffers s) {
          resets = s.resets + 1;
          last_reset_reason = some why;
          heartbeat = now;
        },
      )
