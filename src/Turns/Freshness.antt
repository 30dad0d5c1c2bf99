-- ===== src/Turns/Freshness.antt =====
-- What dialogue_turns.py promises: a turn acts at most once, and never after a newer one began.
use vrc_agent.Prelude.{
  ◌<◌, ℕ, ◌+◌, ◌≤◌, String, ◌≡◌, true, false, Option, none, some, List, [], ◌∷◌, arith, eq_self, ok,
  Method,
}
use vrc_agent.Turns.{
  init, Turns, TurnToken, begin_turn, is_current, claim_current, apply_if_current,
  invalidate_pending,
}

-- A call by some thread. Of an operation only the effect on the turns matters here.
pub data Call : Type 0 where
  begin_call : ℕ → String → Call
  claim_call apply_call : ℕ → TurnToken → Call
  invalidate_call : ℕ → String → Call

abbrev nothing : Method (Unit {0}) (Unit {0}) (Unit {0})
nothing x = (ok tt, x)

unfoldable pub run_call : Call → Turns → Turns
run_call (begin_call now id) m = (begin_turn now id m).1
run_call (claim_call now t) m = (claim_current now t m).1
run_call (apply_call now t) m = (apply_if_current now t nothing (m, tt)).1.0
run_call (invalidate_call now reason) m = (invalidate_pending now reason m).1

unfoldable pub run : List Call → Turns → Turns
run [] m = m
run (c ∷ cs) m = run cs (run_call c m)

-- The token was issued, and is no longer the current one.
pub record IsStale (t : TurnToken) (m : Turns) : Type 0 where
  pub issued : t.version ≤ m.version
  pub spent : is_current t m ≡ false

run_call-IsStale : (c : Call) (t : TurnToken) (m : Turns) → IsStale t m → IsStale t (run_call c m)
unfolding run_call begin_turn claim_current apply_if_current invalidate_pending is_current
run_call-IsStale (begin_call now id) t m h = ground arith
run_call-IsStale (claim_call now u) t m h = ground arith
run_call-IsStale (apply_call now u) t m h = ground arith
run_call-IsStale (invalidate_call now reason) t m h = ground arith

run-IsStale : (cs : List Call) (t : TurnToken) (m : Turns) → IsStale t m → IsStale t (run cs m)
unfolding run
run-IsStale [] t m h = h
run-IsStale (c ∷ cs) t m h = run-IsStale cs t (run_call c m) (run_call-IsStale c t m h)

-- The pending turn, if there is one, has the newest version.
abbrev IsFreshPending : ℕ → Option TurnToken → Type 0
IsFreshPending version none = Unit
IsFreshPending version (some p) = p.version ≡ version

run_call-IsFreshPending :
    (c : Call) (m : Turns)
    → IsFreshPending m.version m.pending
    → IsFreshPending (run_call c m).version (run_call c m).pending
unfolding run_call begin_turn claim_current apply_if_current invalidate_pending
run_call-IsFreshPending (begin_call now id) m h = ground arith
run_call-IsFreshPending (claim_call now u) m h = ground arith
run_call-IsFreshPending (apply_call now u) m h = ground arith
run_call-IsFreshPending (invalidate_call now reason) m h = ground arith

module _ (now : ℕ) (t : TurnToken) (m : Turns) where
  claim-stale : IsStale t m → (claim_current now t m).0 ≡ false
  unfolding claim_current is_current
  claim-stale h = ground arith

  claim-current : (claim_current now t m).0 ≡ true → is_current t m ≡ true
  unfolding claim_current is_current
  claim-current h = ground arith

  claimed-IsStale :
      t.version ≤ m.version → (claim_current now t m).0 ≡ true → IsStale t (claim_current now t m).1
  unfolding claim_current is_current
  claimed-IsStale h e = ground arith

module _ (now : ℕ) (id : String) (m : Turns) where
  begin-current :
      (new : TurnToken) (m' : Turns) → begin_turn now id m ≡ (ok new, m') → is_current new m' ≡ true
  unfolding begin_turn is_current
  begin-current new m' e = ground (arith, eq_self id)

  begin-version :
      (new : TurnToken) (m' : Turns)
      → begin_turn now id m ≡ (ok new, m')
      → new.version ≡ m.version + 1
  unfolding begin_turn
  begin-version new m' e = ground arith

  begin-IsStale :
      (old new : TurnToken) (m' : Turns)
      → begin_turn now id m ≡ (ok new, m')
      → old.version ≤ m.version
      → IsStale old m'
  unfolding begin_turn is_current
  begin-IsStale old new m' e h = ground arith

run-IsFreshPending :
    (cs : List Call) (m : Turns)
    → IsFreshPending m.version m.pending
    → IsFreshPending (run cs m).version (run cs m).pending
unfolding run
run-IsFreshPending [] m h = h
run-IsFreshPending (c ∷ cs) m h =
    run-IsFreshPending cs (run_call c m) (run_call-IsFreshPending c m h)

current-issued :
    (before : List Call) (t : TurnToken)
    → is_current t (run before init) ≡ true
    → t.version ≤ (run before init).version
unfolding is_current
current-issued before t h = ground (arith, run-IsFreshPending before init tt)

module _ {X E : Type 0} (now : ℕ) (t : TurnToken) (operation : Method X E (Unit {0})) (m : Turns)
    (x : X) where
  apply-runs :
      is_current t m ≡ true → (apply_if_current now t operation (m, x)).1.1 ≡ (operation x).1
  unfolding apply_if_current is_current
  apply-runs h = ground arith

  apply-stale : IsStale t m → apply_if_current now t operation (m, x) ≡ (ok false, (m, x))
  unfolding apply_if_current is_current
  apply-stale h = ground arith

  apply-IsStale :
      t.version ≤ m.version
      → is_current t m ≡ true
      → IsStale t (apply_if_current now t operation (m, x)).1.0
  unfolding apply_if_current is_current
  apply-IsStale issued h = ground arith

-- Whatever was called before: when a token is claimed, then whatever is called after, no claim of
-- the same token succeeds again.
pub claim_once :
    (before after : List Call) (now later : ℕ) (t : TurnToken)
    → (claim_current now t (run before init)).0 ≡ true
    → (claim_current later t (run after (claim_current now t (run before init)).1)).0 ≡ false
claim_once before after now later t claimed = claim-stale later t _ (
    run-IsStale after t (claim_current now t (run before init)).1 (
      claimed-IsStale now t (run before init)
        (current-issued before t (claim-current now t (run before init) claimed)) claimed))

-- When a turn begins, its token is current and has a version above the last; and whatever is called
-- after, the token that was current before is never current again.
pub newer_wins :
    (before after : List Call) (now : ℕ) (id : String) (old new : TurnToken) (m : Turns)
    → begin_turn now id (run before init) ≡ (ok new, m)
    → is_current old (run before init) ≡ true
    → (is_current new m ≡ true)
      × (old.version < new.version)
      × (is_current old (run after m) ≡ false)
newer_wins before after now id old new m begun current = (
  begin-current now id (run before init) new m begun,
  ground (
    arith,
    current-issued before old current,
    begin-version now id (run before init) new m begun,
  ),
  (run-IsStale after old m (
      begin-IsStale now id (run before init) old new m begun
        (current-issued before old current))).spent,
)

-- An operation runs at most once for a turn, also when it raised: after its turn was current and it
-- ran, a later call with the same token, whatever was called between, answers False and leaves the
-- turns and the operation's own state as they are.
pub apply_once :
    {X E : Type 0} (before after : List Call) (now later : ℕ) (t : TurnToken)
    (operation : Method X E (Unit {0})) (x y : X)
    → is_current t (run before init) ≡ true
    → let first = (apply_if_current now t operation (run before init, x)).1 in
      let m = run after first.0 in
      (first.1 ≡ (operation x).1) × (apply_if_current later t operation (m, y) ≡ (ok false, (m, y)))
apply_once before after now later t operation x y current =
    let issued = current-issued before t current in
    let m = run before init in
    (
      apply-runs now t operation m x current,
      apply-stale later t operation _ y (
          run-IsStale after t (apply_if_current now t operation (m, x)).1.0
            (apply-IsStale now t operation m x issued current)),
    )
