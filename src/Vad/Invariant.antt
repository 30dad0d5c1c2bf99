-- ===== src/Vad/Invariant.antt =====
-- The buffers of energy_vad.py: their counters agree with them, and they stay bounded.
use vrc_agent.Prelude.{
  Bool-cases, ℕ, ◌+◌, ◌*◌, ◌/◌, ◌≤◌, ◌<◌, max, ◌≡◌, refl, Bool, true, false, Option, none, some,
  List, [], ◌∷◌, ◌++◌, arith, length, length-append, All, length-keep_last,
  length-append_bounded-le, leb, inl, inr,
}
use vrc_agent.Vad.{silence_tail, Vad, Frame, push_frame, end_push, finish, join}
use vrc_agent.Vad.Settings.{Config, IsChecked, frame_ms, frame_bytes, pre_roll_frames}

-- The most frames that an utterance can have: its longest length, or a full pre-roll and the frames
-- that trigger it.
abbrev pub longest_frames : Config → ℕ
longest_frames c =
    max (c.maximum_utterance_ms / frame_ms) (pre_roll_frames c + c.start_trigger_ms / frame_ms)

-- An utterance under way, or the voiced frames that may become one.
abbrev pub ActiveOk : Config → Vad → Option (List Frame) → Type 0
ActiveOk c s none = s.candidate_ms < c.start_trigger_ms
ActiveOk c s (some frames) =
    (s.candidate_ms ≡ 0)
    × (s.active_duration_ms ≡ frame_ms * length frames)
    × (s.active_voiced_ms ≤ s.active_duration_ms)
    × (s.trailing_silence_ms < c.end_silence_ms)
    × (s.active_duration_ms < c.maximum_utterance_ms)

pub record IsValid (c : Config) (s : Vad) : Type 0 where
  pub counted : s.candidate_ms ≡ frame_ms * length s.candidate
  pub rolled : length s.pre_roll ≤ pre_roll_frames c
  pub active : ActiveOk c s s.active_frames

-- The same between the parts of `push`: an utterance may have to be finished.
abbrev pub PushedOk : Config → Vad → Option (List Frame) → Type 0
PushedOk c s none = s.candidate_ms < c.start_trigger_ms
PushedOk c s (some frames) =
    (s.candidate_ms ≡ 0)
    × (s.active_duration_ms ≡ frame_ms * length frames)
    × (s.active_voiced_ms ≤ s.active_duration_ms)
    × (0 < length frames)
    × (length frames ≤ longest_frames c)

pub record IsPushed (c : Config) (s : Vad) : Type 0 where
  pub counted : s.candidate_ms ≡ frame_ms * length s.candidate
  pub rolled : length s.pre_roll ≤ pre_roll_frames c
  pub active : PushedOk c s s.active_frames

abbrev pub IsSized : Frame → Type 0
IsSized f = length f ≡ frame_bytes

abbrev pub AllSized : List Frame → Type 0
AllSized = All IsSized

abbrev pub frames_of : Option (List Frame) → List Frame
frames_of none = []
frames_of (some frames) = frames

-- The length of an utterance, in bytes.
abbrev pub IsSmall : Config → List ℕ → Type 0
IsSmall c utterance = (0 < length utterance) × (length utterance ≤ frame_bytes * longest_frames c)

length-join : (fs : List Frame) → AllSized fs → length (join fs) ≡ frame_bytes * length fs
unfolding join
length-join [] h = refl
length-join (f ∷ fs) h = omega (arith, h.0, length-join fs h.1, length-append f (join fs))

module _ (c : Config) (k : IsChecked c) where
  pub push_frame-IsPushed :
      (frame : Frame) (voiced : Bool) (s : Vad) (o : Option (List Frame))
      → IsValid c s
      → s.active_frames ≡ o
      → IsPushed c (push_frame c frame voiced s o)
  unfolding push_frame
  push_frame-IsPushed frame false s none v e = record {
    counted = ground arith;
    rolled = length-append_bounded-le (pre_roll_frames c) s.pre_roll frame;
    active = ground (arith, v.active, k.trigger);
  }
  push_frame-IsPushed frame true s none v e = record {
    counted = ground (arith, v.counted, length-append s.candidate (frame ∷ []));
    rolled = ground (arith, v.rolled);
    active = ground (
      arith,
      v.active,
      v.counted,
      v.rolled,
      k.trigger,
      length-append s.candidate (frame ∷ []),
      length-append s.pre_roll (s.candidate ++ frame ∷ []),
    );
  }
  push_frame-IsPushed frame voiced s (some frames) v e = record {
    counted = v.counted;
    rolled = v.rolled;
    active = ground (arith, v.active, k.longest, length-append frames (frame ∷ []));
  }

  finish-IsValid :
      (keep : Bool) (frames : List Frame) (s : Vad) → IsValid c (finish c keep frames s).1
  unfolding finish
  finish-IsValid keep frames s = record {
    counted = ground arith;
    rolled = ground (arith, length-keep_last (pre_roll_frames c) (silence_tail c keep frames));
    active = ground (arith, k.trigger);
  }

  pub end_push-IsValid :
      (s : Vad) (o : Option (List Frame))
      → IsPushed c s
      → s.active_frames ≡ o
      → IsValid c (end_push c s o).1
  unfolding end_push
  end_push-IsValid s none v e = record {
    counted = v.counted;
    rolled = v.rolled;
    active = rw e (rw e at v.active);
  }
  end_push-IsValid s (some frames) v e =
      elim (Bool-cases (leb c.end_silence_ms s.trailing_silence_ms)) [
        | inl silent ↦ rw silent (finish-IsValid true frames s)
        | inr spoken ↦
            rw spoken (elim (Bool-cases (leb c.maximum_utterance_ms s.active_duration_ms)) [
              | inl long ↦ rw long (finish-IsValid false frames s)
              | inr short ↦ rw short (record {
                counted = v.counted;
                rolled = v.rolled;
                active = ground (arith, v.active);
              })
            ])
      ]

  pub end_push-IsSmall :
      (s : Vad) (o : Option (List Frame))
      → IsPushed c s
      → s.active_frames ≡ o
      → AllSized (frames_of o)
      → All (IsSmall c) (end_push c s o).0
  unfolding end_push finish
  end_push-IsSmall s none v e z = tt
  end_push-IsSmall s (some frames) v e z = ground (arith, v.active, length-join frames z)
