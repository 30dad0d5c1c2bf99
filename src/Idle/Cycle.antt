-- ===== src/Idle/Cycle.antt =====
-- When idle_behavior_policy.py submits, and in which order.
use native.Mathlib.Nat.{mod-add-mod, zero-mod}
use vrc_agent.Idle.{
  Settings, Policy, Submission, took, declined, raised, init, interrupt, tick, submit_at,
  after_submit,
}
use vrc_agent.Prelude.{
  sym, All, ℕ, ◌+◌, ◌%◌, ◌≤◌, ◌<◌, ◌≡◌, String, Bool, true, Option, none, some, List, [], ◌∷◌,
  arith, get_elem?, length,
}

-- A tick of the clock, or an interruption.
pub data Call : Type 0 where
  tick_call : ℕ → Bool → (String → Submission) → Call
  interrupt_call : Call

-- Submissions that gave an action's id.
abbrev accepted_by : (String → Submission) → Option String → ℕ
accepted_by submit none = 0
accepted_by submit (some key) = elim (submit key) [
  | took action_id ↦ 1
  | declined ↦ 0
  | raised exc ↦ 0
]

module _ (c : Settings) where
  -- A call, and the number of accepted submissions so far.
  unfoldable pub run_call : Call → Policy × ℕ → Policy × ℕ
  run_call (tick_call now eligible submit) (p, n) =
      let (p', key) = tick c now eligible submit p in (p', n + accepted_by submit key)
  run_call interrupt_call (p, n) = (interrupt c p, n)

  unfoldable pub run : List Call → Policy × ℕ → Policy × ℕ
  unfolding run_call
  run [] s = s
  run (call ∷ calls) s = run calls (run_call call s)

  tick-cursor :
      (now : ℕ) (eligible : Bool) (submit : String → Submission) (p : Policy) (n : ℕ)
      → p.cursor ≡ n % length c.pool
      → let (p', key) = tick c now eligible submit p in
        p'.cursor ≡ (n + accepted_by submit key) % length c.pool
  unfolding tick submit_at after_submit
  tick-cursor now eligible submit p n h = ground (arith, h, mod-add-mod n (length c.pool) 1)

  run_call-cursor :
      (call : Call) (s : Policy × ℕ)
      → s.0.cursor ≡ s.1 % length c.pool
      → (run_call call s).0.cursor ≡ (run_call call s).1 % length c.pool
  unfolding run_call interrupt
  run_call-cursor (tick_call now eligible submit) (p, n) h = tick-cursor now eligible submit p n h
  run_call-cursor interrupt_call (p, n) h = h

  run-cursor :
      (calls : List Call) (s : Policy × ℕ)
      → s.0.cursor ≡ s.1 % length c.pool
      → (run calls s).0.cursor ≡ (run calls s).1 % length c.pool
  unfolding run
  run-cursor [] s h = h
  run-cursor (call ∷ calls) s h = run-cursor calls (run_call call s) (run_call-cursor call s h)

  tick-key :
      (now : ℕ) (eligible : Bool) (submit : String → Submission) (p : Policy) (key : String)
      → (tick c now eligible submit p).1 ≡ some key
      → get_elem? c.pool p.cursor ≡ some key
  unfolding tick submit_at
  tick-key now eligible submit p key h = ground arith

  -- No tick before `start`, and every idle time since then.
  abbrev Since : ℕ → Option ℕ → Type 0
  Since start none = Unit
  Since start (some t) = start ≤ t

  abbrev LateCall : ℕ → Call → Type 0
  LateCall start (tick_call now eligible submit) = start ≤ now
  LateCall start interrupt_call = Unit

  tick-Since :
      (start now : ℕ) (eligible : Bool) (submit : String → Submission) (p : Policy)
      → start ≤ now
      → Since start p.idle_since
      → Since start (tick c now eligible submit p).0.idle_since
  unfolding tick submit_at after_submit
  tick-Since start now eligible submit p late h = ground (arith, h)

  run-Since :
      (start : ℕ) (calls : List Call) (s : Policy × ℕ)
      → All (LateCall start) calls
      → Since start s.0.idle_since
      → Since start (run calls s).0.idle_since
  unfolding run run_call interrupt
  run-Since start [] s late h = h
  run-Since start (tick_call now eligible submit ∷ calls) (p, n) late h =
      run-Since start calls _ late.1 (tick-Since start now eligible submit p late.0 h)
  run-Since start (interrupt_call ∷ calls) (p, n) late h = run-Since start calls _ late.1 tt

  tick-waited :
      (start now : ℕ) (eligible : Bool) (submit : String → Submission) (p : Policy) (key : String)
      → 0 < c.interval
      → start ≤ now
      → Since start p.idle_since
      → (tick c now eligible submit p).1 ≡ some key
      → (eligible ≡ true) × (start + c.interval ≤ now)
  unfolding tick submit_at
  tick-waited start now eligible submit p key long late h e = ground (arith, h)

  -- Whatever ticks and interruptions came before: what a tick submits is the entry of the pool at
  -- the number of submissions so far that gave an action's id, counted around the pool.
  pub round_robin :
      (calls : List Call) (now : ℕ) (eligible : Bool) (submit : String → Submission) (key : String)
      → let (p, n) = run calls (init c, 0) in
        (tick c now eligible submit p).1 ≡ some key
        → get_elem? c.pool (n % length c.pool) ≡ some key
  round_robin calls now eligible submit key h =
      let e = run-cursor calls (init c, 0) (sym (zero-mod (length c.pool))) in
      rw e at (tick-key now eligible submit (run calls (init c, 0)).0 key h)

  -- After an interruption, no tick submits anything before the interval is over, and then only where
  -- it is eligible: with any ticks and interruptions between, none of them dated before `start`.
  pub waits_interval :
      (start : ℕ) (p : Policy) (n : ℕ) (calls : List Call) (now : ℕ) (eligible : Bool)
      (submit : String → Submission) (key : String)
      → 0 < c.interval
      → All (LateCall start) calls
      → start ≤ now
      → (tick c now eligible submit (run calls (interrupt c p, n)).0).1 ≡ some key
      → (eligible ≡ true) × (start + c.interval ≤ now)
  unfolding interrupt
  waits_interval start p n calls now eligible submit key long late last h =
      tick-waited start now eligible submit (run calls (interrupt c p, n)).0 key long last
        (run-Since start calls (interrupt c p, n) late tt) h
