-- ===== src/MacOutput.antt =====
-- `MacOutputTransport` of vrc_ardy_agent/mac_output_transport.py: control calls that wait for their
-- acknowledgement, speech that waits for its completion, and poses that are only sent. The sender is
-- called, and answers are awaited, outside the lock, so each locked region is an operation of its own
-- here and a step in MacOutput/Threads.antt; `now` is the clock's reading in a region.
pub mod Advance
pub mod Threads
pub mod Holding
pub mod Receiving
pub mod Calling
pub mod Moving
pub mod Answers
pub mod Ending
mod Tests
use vrc_agent.Prelude.Int.{eqb_ℤ-≡}
use vrc_agent.Contracts.{resource_beq_iff}
use vrc_agent.Prelude.Int.{ℤ, pos, negsuc, pos_part, neg_part, ltb_ℤ, leb_ℤ, eqb_ℤ, ◌≤ℤ◌, ◌<ℤ◌}
use vrc_agent.Prelude.{
  ℕ, zero, suc, ◌+◌, ◌-◌, ◌*◌, ◌/◌, ◌%◌, ◌≤◌, ◌<◌, max, String, ◌≡◌, ◌≢◌, ◌↔◌, ◌⊎◌, inl, inr, refl,
  sym, ap, ◌∙◌, subst, Bool, true, false, not, ◌&&◌, ◌||◌, Option, none, some, List, [], ◌∷◌, ◌++◌,
  map, reverse, arith, Eq, nat_eq, string_eq, ◌==◌, nat_beq, ltb, leb, if◌then◌else◌, is_value,
  is_value_iff, is_none, is_empty, eq_iff, eq_self, Bool-cases, Option-cases, strip, length,
  get_elem?, All, keep_last, append_bounded, Result, ok, err, Method, returned,
}
use vrc_agent.Waiting.{Pending, Table, empty, fail_entries, fail_all, change, enter, leave}
use vrc_agent.Input.{Sender, live}
use vrc_agent.Protocol.Messages.{Message, ack, output_completed, Ack, OutputCompleted}
use vrc_agent.Contracts.{ControlResource, resource_eq}
use vrc_agent.Prelude.Dict.{Dict, lookup}

-- The error texts, with the exception's type and text; `told` is a text from outside, and
-- `playback_failed` is the one where the completion tells none.
pub data Note : Type 0 where
  send_failed ack_timed_out told : String → Note
  ack_rejected : String → String → Note
  playback_timed_out playback_failed playback_cancelled : Note

-- The key of a completion.
pub record Speech : Type 0 where
  pub session_id : String
  pub action_id : String
  pub resource : ControlResource
  pub lease_token : ℤ

abbrev pub speech_beq : Speech → Speech → Bool
speech_beq a b =
    a.session_id == b.session_id
    && (a.action_id == b.action_id
        && (a.resource == b.resource && eqb_ℤ a.lease_token b.lease_token))

speech_beq-≡ : (a b : Speech) → speech_beq a b ≡ true → a ≡ b
speech_beq-≡ a b h = ground (
  arith,
  h,
  eq_iff a.session_id b.session_id,
  eq_iff a.action_id b.action_id,
  resource_beq_iff a.resource b.resource,
  eqb_ℤ-≡ a.lease_token b.lease_token,
)

speech_beq_refl : (a : Speech) → speech_beq a a ≡ true
speech_beq_refl a =
    ground
      (arith, eq_self a.session_id, eq_self a.action_id, resource_beq_iff a.resource a.resource)

pub speech_beq_iff : (a b : Speech) → (speech_beq a b ≡ true) ↔ (a ≡ b)
speech_beq_iff a b =
    (speech_beq-≡ a b, λ e. subst (λ x. speech_beq a x ≡ true) e (speech_beq_refl a))

instance abbrev pub speech_eq : Eq Speech
speech_eq = record { beq = speech_beq; beq_iff = speech_beq_iff }

-- The objects of the two tables are shared with the threads that wait for them.
pub record Output : Type 0 where
  pub session_id : Option String
  pub sender : Option Sender
  pub acks : Table String Ack Note
  pub completions : Table Speech OutputCompleted Note
  pub messages_sent : ℕ
  pub acks_received : ℕ
  pub completions_received : ℕ
  pub stale_received : ℕ
  pub last_error : Option Note
  pub heartbeat : ℕ

pub data OutputError : Type 0 where
  empty_session_id session_already_open empty_reason bad_message_id disconnected already_pending :
      OutputError
  wrong_resource unowned_lease : OutputError

abbrev pub init : ℕ → Output
init now = record {
  session_id = none;
  sender = none;
  acks = empty;
  completions = empty;
  messages_sent = 0;
  acks_received = 0;
  completions_received = 0;
  stale_received = 0;
  last_error = none;
  heartbeat = now;
}

-- `_touch_locked`
abbrev pub touch : ℕ → Output → Output
touch now o = record o { heartbeat = now }

unfoldable pub open_session : ℕ → String → ℕ → Method Output OutputError (Unit {0})
open_session now raw number o =
    let id = strip raw in
    if is_empty id
    then (err empty_session_id, o)
    else if not (is_none o.session_id)
    then (err session_already_open, o)
    else (
      ok tt,
      touch now (record o {
        session_id = some id;
        sender = some (record { opened_for = id; number = number });
        last_error = none;
      }),
    )

-- The callback behind it, `disconnected`, is outside.
unfoldable pub close_session : ℕ → String → String → Method Output OutputError Bool
unfolding fail_entries
close_session now id raw o =
    let reason = told (strip raw) in
    if is_empty (strip raw)
    then (err empty_reason, o)
    else if not (is_value id o.session_id)
    then (ok false, o)
    else (
      ok true,
      touch now (record o {
        session_id = none;
        sender = none;
        last_error = some reason;
        acks = fail_all reason o.acks;
        completions = fail_all reason o.completions;
      }),
    )

abbrev pub with_response {ℓ} : {K R E : Type ℓ} → R → Pending K R E → Pending K R E
with_response m p = record p { response = some m; is_set = true }

abbrev pub stale : ℕ → Output → Output
stale now o = touch now (record o { stale_received = o.stale_received + 1 })

abbrev pub answer_ack : ℕ → Ack → Output → Option ℕ → Bool × Output
answer_ack now m o none = (false, stale now o)
answer_ack now m o (some n) = (
  true,
  touch now
      (record o { acks = change n (with_response m) o.acks; acks_received = o.acks_received + 1 }),
)

abbrev pub answer_completion : ℕ → OutputCompleted → Output → Option ℕ → Bool × Output
answer_completion now m o none = (false, stale now o)
answer_completion now m o (some n) = (
  true,
  touch now (record o {
    completions = change n (with_response m) o.completions;
    completions_received = o.completions_received + 1;
  }),
)

-- The key that a completion is for.
abbrev pub speech_of : OutputCompleted → Speech
speech_of m = record {
  session_id = m.session_id;
  action_id = m.action_id;
  resource = m.resource;
  lease_token = m.lease_token;
}

-- `receive`, of an acknowledgement and of a completion.
unfoldable pub take_ack : ℕ → Ack → Output → Bool × Output
take_ack now m o = answer_ack now m o (lookup m.message_id o.acks.entries)

unfoldable pub take_completion : ℕ → OutputCompleted → Output → Bool × Output
take_completion now m o = answer_completion now m o (lookup (speech_of m) o.completions.entries)

-- `_require_session_id`
abbrev pub require_session_id : Output → Result OutputError String
require_session_id o = elim o.session_id [ none ↦ err disconnected | some id ↦ ok id ]

-- `_record_error`
abbrev pub record_error : ℕ → Note → Output → Output
record_error now note o = touch now (record o { last_error = some note })

-- The last region of `_send`.
abbrev pub count_sent : ℕ → Output → Output
count_sent now o = touch now (record o { messages_sent = o.messages_sent + 1 })

-- The `finally` of `_send_control` and of `play_wav`.
abbrev pub leave_ack : ℕ → String → ℕ → Output → Output
leave_ack now id n o = touch now (record o { acks = leave id n o.acks })

abbrev pub leave_completion : ℕ → Speech → ℕ → Output → Output
leave_completion now k n o = touch now (record o { completions = leave k n o.completions })
