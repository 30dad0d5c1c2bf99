-- ===== src/Vad/Tests.antt =====
-- Energy detection at concrete settings and frames.
use vrc_agent.Vad.{push, Frame, init}
use vrc_agent.Prelude.{List, ◌∷◌, suc, [], arith, ◌≡◌, ℕ, zero, suc, refl}
use vrc_agent.Vad.Runs.{push-Ends, Unpushed, Pushed, IsBuffered}
use vrc_agent.Prelude.Ends.{Ends}
use vrc_agent.Vad.Rms.{pcm_rms-IsRms, pcm_rms, pcm, IsRms}
use vrc_agent.Prelude.Int.{ℤ, pos, negsuc}
use vrc_agent.Vad.Settings.{Arguments, Config, make, make-IsChecked, IsChecked}

abbrev arguments : Arguments
arguments = record {
  rms_threshold = pos 500;
  start_trigger_ms = pos 40;
  end_silence_ms = pos 60;
  pre_roll_ms = pos 20;
  minimum_speech_ms = pos 40;
  maximum_utterance_ms = pos 200;
}

abbrev config : Config
config = record {
  rms_threshold = 500;
  start_trigger_ms = 40;
  end_silence_ms = 60;
  pre_roll_ms = 20;
  minimum_speech_ms = 40;
  maximum_utterance_ms = 200;
}

-- `count` samples of the value 1000.
abbrev tone : ℕ → Frame
tone zero = []
tone (suc n) = 232 ∷ 3 ∷ tone n

tone_rms : pcm_rms (tone 3) ≡ 1000
unfolding pcm_rms
tone_rms = refl

make-IsChecked_example : IsChecked config
unfolding make
make-IsChecked_example = make-IsChecked arguments config refl

-- 0, 3, -4 and -32768.
abbrev samples : List ℤ
samples = pos 0 ∷ pos 3 ∷ negsuc 3 ∷ negsuc 32767 ∷ []

samples_rms : pcm_rms (pcm samples) ≡ 16384
unfolding pcm_rms
samples_rms = refl

pcm_rms-IsRms_example : IsRms (pcm_rms (pcm samples)) samples
pcm_rms-IsRms_example = pcm_rms-IsRms samples (ground arith) (omega arith)

config-IsChecked : IsChecked config
config-IsChecked = record {
  threshold = omega arith;
  trigger = (omega arith, refl);
  silence = (omega arith, refl);
  roll = refl;
  speech = (omega arith, refl);
  longest = (omega arith, refl);
}

init-IsBuffered : IsBuffered config (init 0)
init-IsBuffered = record {
  valid = record { counted = refl; rolled = omega arith; active = omega arith };
  sized = record { rolled = tt; candidates = tt; active = tt };
}

-- The first frame after the start.
push-Ends_example :
    Ends
      (Pushed config (init 0))
      (Unpushed (tone 320) (init 0))
      (push config 20 (tone 320) (init 0))
push-Ends_example = push-Ends config 20 (tone 320) (init 0) config-IsChecked init-IsBuffered
