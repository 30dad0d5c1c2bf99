-- ===== src/Vad/Settings.antt =====
-- The constructor's arguments of energy_vad.py and their checks.
use vrc_agent.Prelude.{refl}
use vrc_agent.Prelude.{
  ℕ, ◌*◌, ◌/◌, ◌%◌, ◌≤◌, ◌<◌, ◌≡◌, Bool, true, false, Option, none, some, ◌&&◌, ◌||◌, not, ◌==◌,
  nat_eq, if◌then◌else◌, Result, ok, err, arith,
}
use vrc_agent.Prelude.Int.{ℤ, pos, negsuc, pos_part, ltb_ℤ, leb_ℤ, eqb_ℤ}

-- `FRAME_MS`, and `FRAME_BYTES` of 16 kHz mono in 16-bit samples.
abbrev pub frame_ms : ℕ
frame_ms = 20

abbrev pub sample_rate : ℕ
sample_rate = 16000

abbrev pub frame_samples : ℕ
frame_samples = sample_rate * frame_ms / 1000

abbrev pub frame_bytes : ℕ
frame_bytes = frame_samples * 2

pub record Config : Type 0 where
  pub rms_threshold : ℕ
  pub start_trigger_ms : ℕ
  pub end_silence_ms : ℕ
  pub pre_roll_ms : ℕ
  pub minimum_speech_ms : ℕ
  pub maximum_utterance_ms : ℕ

-- The arguments before they are checked.
pub record Arguments : Type 0 where
  pub rms_threshold : ℤ
  pub start_trigger_ms : ℤ
  pub end_silence_ms : ℤ
  pub pre_roll_ms : ℤ
  pub minimum_speech_ms : ℤ
  pub maximum_utterance_ms : ℤ

pub data ConfigError : Type 0 where
  bad_threshold not_positive not_multiple too_short : ConfigError

-- One turn of the loop over the durations.
check_ms : ℤ → Bool → Option ConfigError
check_ms value allow_zero =
    if ltb_ℤ value (pos 0) || (not allow_zero && eqb_ℤ value (pos 0))
    then some not_positive
    else if pos_part value % frame_ms == 0
    then none
    else some not_multiple

first_error : Option ConfigError → Option ConfigError → Option ConfigError
first_error none later = later
first_error (some e) later = some e

arguments_error : Arguments → Option ConfigError
unfolding check_ms first_error
arguments_error a =
    if leb_ℤ a.rms_threshold (pos 0)
    then some bad_threshold
    else first_error (check_ms a.start_trigger_ms false) (
        first_error (check_ms a.end_silence_ms false) (
          first_error (check_ms a.pre_roll_ms true) (
            first_error (check_ms a.minimum_speech_ms false) (
              first_error (check_ms a.maximum_utterance_ms false) (
                if ltb_ℤ a.maximum_utterance_ms a.start_trigger_ms
                then some too_short
                else none)))))

abbrev config_of : Arguments → Config
config_of a = record {
  rms_threshold = pos_part a.rms_threshold;
  start_trigger_ms = pos_part a.start_trigger_ms;
  end_silence_ms = pos_part a.end_silence_ms;
  pre_roll_ms = pos_part a.pre_roll_ms;
  minimum_speech_ms = pos_part a.minimum_speech_ms;
  maximum_utterance_ms = pos_part a.maximum_utterance_ms;
}

abbrev made : Arguments → Option ConfigError → Result ConfigError Config
made a none = ok (config_of a)
made a (some e) = err e

unfoldable pub make : Arguments → Result ConfigError Config
unfolding arguments_error
make a = made a (arguments_error a)

-- `maxlen` of the pre-roll deque.
abbrev pub pre_roll_frames : Config → ℕ
pre_roll_frames c = c.pre_roll_ms / frame_ms

-- What the checks establish.
pub record IsChecked (c : Config) : Type 0 where
  pub threshold : 0 < c.rms_threshold
  pub trigger : (0 < c.start_trigger_ms) × (c.start_trigger_ms % frame_ms ≡ 0)
  pub silence : (0 < c.end_silence_ms) × (c.end_silence_ms % frame_ms ≡ 0)
  pub roll : c.pre_roll_ms % frame_ms ≡ 0
  pub speech : (0 < c.minimum_speech_ms) × (c.minimum_speech_ms % frame_ms ≡ 0)
  pub longest :
      (c.start_trigger_ms ≤ c.maximum_utterance_ms) × (c.maximum_utterance_ms % frame_ms ≡ 0)

check_ms-none : (v : ℤ) → check_ms v false ≡ none → (0 < pos_part v) × (pos_part v % frame_ms ≡ 0)
unfolding check_ms
check_ms-none (pos n) h = ground arith
check_ms-none (negsuc n) h = ground arith

check_ms-none_zero : (v : ℤ) → check_ms v true ≡ none → pos_part v % frame_ms ≡ 0
unfolding check_ms
check_ms-none_zero (pos n) h = ground arith
check_ms-none_zero (negsuc n) h = ground arith

first_error-none :
    (o later : Option ConfigError) → first_error o later ≡ none → (o ≡ none) × (later ≡ none)
unfolding first_error
first_error-none none later h = (refl, h)
first_error-none (some e) later h = cc

longest-none :
    (longest trigger : ℤ)
    → (if ltb_ℤ longest trigger then some too_short else none) ≡ none
    → 0 < pos_part longest
    → pos_part trigger ≤ pos_part longest
longest-none longest trigger h p = ground arith

threshold-none :
    (v : ℤ) (later : Option ConfigError)
    → (if leb_ℤ v (pos 0) then some bad_threshold else later) ≡ none
    → (0 < pos_part v) × (later ≡ none)
threshold-none (pos n) later h = ground arith
threshold-none (negsuc n) later h = ground arith

arguments-IsChecked : (a : Arguments) → arguments_error a ≡ none → IsChecked (config_of a)
unfolding arguments_error
arguments-IsChecked a h =
    let (threshold, h1) = threshold-none a.rms_threshold _ h in
    let (e2, h2) = first_error-none (check_ms a.start_trigger_ms false) _ h1 in
    let (e3, h3) = first_error-none (check_ms a.end_silence_ms false) _ h2 in
    let (e4, h4) = first_error-none (check_ms a.pre_roll_ms true) _ h3 in
    let (e5, h5) = first_error-none (check_ms a.minimum_speech_ms false) _ h4 in
    let (e6, h6) = first_error-none (check_ms a.maximum_utterance_ms false) _ h5 in
    let longest = check_ms-none a.maximum_utterance_ms e6 in
    record {
      threshold = threshold;
      trigger = check_ms-none a.start_trigger_ms e2;
      silence = check_ms-none a.end_silence_ms e3;
      roll = check_ms-none_zero a.pre_roll_ms e4;
      speech = check_ms-none a.minimum_speech_ms e5;
      longest = (longest-none a.maximum_utterance_ms a.start_trigger_ms h6 longest.0, longest.1);
    }

made-ok :
    (a : Arguments) (o : Option ConfigError) (c : Config)
    → made a o ≡ ok c
    → (o ≡ none) × (c ≡ config_of a)
made-ok a none c h = (refl, ground arith)
made-ok a (some e) c h = cc

-- Arguments that the constructor accepts make settings with positive thresholds, whose durations are
-- whole frames and whose longest utterance covers the start trigger.
pub make-IsChecked : (a : Arguments) (c : Config) → make a ≡ ok c → IsChecked c
unfolding make
make-IsChecked a c h =
    let (e, same) = made-ok a (arguments_error a) c h in rw same (arguments-IsChecked a e)
