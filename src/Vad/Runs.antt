-- ===== src/Vad/Runs.antt =====
-- Whole runs of energy_vad.py: any frames and resets, well-formed or not.
use vrc_agent.Vad.Rms.{pcm_rms}
use vrc_agent.Prelude.Ends.{Ends}
use vrc_agent.Prelude.{
  ap, ◌∙◌, leb, ℕ, ◌+◌, ◌≡◌, ◌≢◌, refl, Bool, true, false, Option, none, some, List, [], ◌∷◌, ◌++◌,
  arith, ◌==◌, nat_eq, length, All, All-append, All-keep_last, All-append_bounded, Bool-cases, inl,
  inr,
}
use vrc_agent.Vad.{
  note_frame, Vad, Frame, VadError, bad_frame, push, push_frame, end_push, finish, silence_tail,
}
use vrc_agent.Vad.Settings.{Config, IsChecked, frame_bytes, pre_roll_frames}
use vrc_agent.Vad.Invariant.{
  IsValid, IsSized, AllSized, IsSmall, frames_of, push_frame-IsPushed, end_push-IsValid,
  end_push-IsSmall,
}

-- Every buffered frame has the size of a frame.
pub record HasSized (s : Vad) : Type 0 where
  pub rolled : AllSized s.pre_roll
  pub candidates : AllSized s.candidate
  pub active : AllSized (frames_of s.active_frames)

module _ (c : Config) where
  push_frame-HasSized :
      (frame : Frame) (voiced : Bool) (s : Vad) (o : Option (List Frame))
      → HasSized s
      → s.active_frames ≡ o
      → IsSized frame
      → HasSized (push_frame c frame voiced s o)
  unfolding push_frame
  push_frame-HasSized frame false s none z e p = record {
    rolled = All-append_bounded IsSized (pre_roll_frames c) s.pre_roll frame z.rolled p;
    candidates = tt;
    active = z.active;
  }
  push_frame-HasSized frame true s none z e p =
      let cand : AllSized (s.candidate ++ frame ∷ []) =
        All-append IsSized s.candidate (frame ∷ []) z.candidates (p, tt) in
      let whole = All-append IsSized s.pre_roll (s.candidate ++ frame ∷ []) z.rolled cand in
      record {
        rolled = ground (arith, z.rolled);
        candidates = ground (arith, cand);
        active = ground (arith, whole, z.active);
      }
  push_frame-HasSized frame voiced s (some frames) z e p = record {
    rolled = z.rolled;
    candidates = z.candidates;
    active = All-append IsSized frames (frame ∷ []) (rw e at z.active) (p, tt);
  }

  silence_tail-AllSized :
      (keep : Bool) (frames : List Frame) → AllSized frames → AllSized (silence_tail c keep frames)
  unfolding silence_tail
  silence_tail-AllSized false frames z = tt
  silence_tail-AllSized true frames z =
      ground (arith, All-keep_last IsSized (pre_roll_frames c) frames z)

  finish-HasSized :
      (keep : Bool) (frames : List Frame) (s : Vad)
      → AllSized frames
      → HasSized (finish c keep frames s).1
  unfolding finish
  finish-HasSized keep frames s z =
      let tail : AllSized (silence_tail c keep frames) = silence_tail-AllSized keep frames z in
      let kept = All-keep_last IsSized (pre_roll_frames c) (silence_tail c keep frames) tail in
      record { rolled = ground (arith, kept); candidates = ground arith; active = ground arith }

  end_push-HasSized :
      (s : Vad) (o : Option (List Frame))
      → HasSized s
      → s.active_frames ≡ o
      → HasSized (end_push c s o).1
  unfolding end_push
  end_push-HasSized s none z e = z
  end_push-HasSized s (some frames) z e = ground (
    arith,
    finish-HasSized true frames s (rw e at z.active),
    finish-HasSized false frames s (rw e at z.active),
    z,
  )

  end_push-emitted :
      (s : Vad) (o : Option (List Frame))
      → (end_push c s o).1.utterances_emitted ≡ s.utterances_emitted + length (end_push c s o).0
  unfolding end_push finish
  end_push-emitted s o = ground arith

  push_frame-emitted :
      (frame : Frame) (voiced : Bool) (s : Vad) (o : Option (List Frame))
      → (push_frame c frame voiced s o).utterances_emitted ≡ s.utterances_emitted
  unfolding push_frame
  push_frame-emitted frame voiced s o = ground arith

-- The counters and bounds of the buffers, whose frames all have the size of a frame.
pub record IsBuffered (c : Config) (s : Vad) : Type 0 where
  pub valid : IsValid c s
  pub sized : HasSized s

-- What a push gives: short utterances, counted.
abbrev pub Pushed : Config → Vad → List (List ℕ) → Vad → Type 0
Pushed c s emitted t =
    IsBuffered c t
    × All (IsSmall c) emitted
    × (t.utterances_emitted ≡ s.utterances_emitted + length emitted)

-- What a push that raises leaves: nothing has changed, and the frame had another size.
abbrev pub Unpushed : Frame → Vad → VadError → Vad → Type 0
Unpushed frame s e t = (e ≡ bad_frame) × (length frame ≢ frame_bytes) × (t ≡ s)

-- With checked settings and well-kept buffers, a push raises only for a frame of another size, and then
-- changes nothing; otherwise the buffers stay well kept, each utterance that it gives is not empty and
-- at most as long as the settings allow, and the counter of utterances grows by their number.
pub push-Ends :
    (c : Config) (now : ℕ) (frame : Frame) (s : Vad)
    → IsChecked c
    → IsBuffered c s
    → Ends (Pushed c s) (Unpushed frame s) (push c now frame s)
unfolding push note_frame
push-Ends c now frame s k b =
    let voiced = leb c.rms_threshold (pcm_rms frame) in
    let s1 = note_frame now (pcm_rms frame) s in
    let valid1 : IsValid c s1 = record {
      counted = b.valid.counted;
      rolled = b.valid.rolled;
      active = b.valid.active;
    } in
    let sized1 : HasSized s1 = record {
      rolled = b.sized.rolled;
      candidates = b.sized.candidates;
      active = b.sized.active;
    } in
    let s2 = push_frame c frame voiced s1 s1.active_frames in
    let pushed = push_frame-IsPushed c k frame voiced s1 s1.active_frames valid1 refl in
    elim (Bool-cases (length frame == frame_bytes)) [
      | inl right ↦
          let size : IsSized frame = ground arith in
          let sized2 = push_frame-HasSized c frame voiced s1 s1.active_frames sized1 refl size in
          rw right (
            record {
              valid = end_push-IsValid c k s2 s2.active_frames pushed refl;
              sized = end_push-HasSized c s2 s2.active_frames sized2 refl;
            },
            end_push-IsSmall c k s2 s2.active_frames pushed refl sized2.active,
            end_push-emitted c s2 s2.active_frames
                ∙ ap (λ n. n + length (end_push c s2 s2.active_frames).0)
                    (push_frame-emitted c frame voiced s1 s1.active_frames),
          )
      | inr wrong ↦ rw wrong (refl, ground arith, refl)
    ]
