-- ===== src/MacInput/Holding.antt =====
-- What the threads of mac_input_transport.py refer to, and the pictures they may return.
use vrc_agent.Prelude.Lists.{All-mono}
use vrc_agent.Prelude.{
  ℕ, String, ◌≡◌, ◌⊎◌, inl, inr, refl, Option, none, some, List, [], ◌∷◌, arith, nat_eq, string_eq,
  Option-cases, All,
}
use vrc_agent.MacInput.{Note}
use vrc_agent.MacInput.Threads.{
  Outcome, picture, failed, not_recorded, outcome_from, outcome_of, outcome_at, Thread, handling,
  handler_reporting, sending, waiting, reading, reporting, leaving, finished, System,
}
use vrc_agent.Waiting.{Store, Table}
use vrc_agent.Waiting.Laws.{IsOf, Stays}
use vrc_agent.Waiting.Kept.{IsKept, kept-given}
use vrc_agent.Protocol.Messages.{ScreenshotResponse}
use vrc_agent.Prelude.Dict.{lookup}

-- One of the responses is to the request and has the picture.
abbrev pub Answers : String → List ℕ → List ScreenshotResponse → Type 0
Answers id jpeg [] = ⊥
Answers id jpeg (m ∷ older) = ((m.request_id ≡ id) × (m.jpeg ≡ some jpeg)) ⊎ Answers id jpeg older

-- A request that returned a picture returned that of an accepted response to it.
abbrev pub IsAnswered : List ScreenshotResponse → String × Outcome → Type 0
IsAnswered responses (id, picture jpeg) = Answers id jpeg responses
IsAnswered responses (id, failed note) = Unit
IsAnswered responses (id, not_recorded) = Unit

-- The response may be given to the request.
abbrev pub IsGood : List ScreenshotResponse → String → ScreenshotResponse → Type 0
IsGood responses id m = (jpeg : List ℕ) → m.jpeg ≡ some jpeg → Answers id jpeg responses

abbrev pub ThreadOk :
    Store String ScreenshotResponse Note → List ScreenshotResponse → Thread → Type 0
ThreadOk store responses (sending x q n) = IsOf store q.request_id n
ThreadOk store responses (waiting id n) = IsOf store id n
ThreadOk store responses (reading id n) = IsOf store id n
ThreadOk store responses (reporting id n note) = Unit
ThreadOk store responses (leaving id n outcome) = IsAnswered responses (id, outcome)
ThreadOk store responses (handling m) = Unit
ThreadOk store responses (handler_reporting exc) = Unit
ThreadOk store responses finished = Unit

pub record IsSafe (s : System) : Type 0 where
  pub kept : IsKept (IsGood s.responses) s.receiver.pending
  pub held : All (ThreadOk s.receiver.pending.store s.responses) s.threads
  pub done : All (IsAnswered s.responses) s.outcomes

-- More responses answer no less.
Grows-IsAnswered :
    (m : ScreenshotResponse) (rs : List ScreenshotResponse) (x : String × Outcome)
    → IsAnswered rs x
    → IsAnswered (m ∷ rs) x
Grows-IsAnswered m rs (id, picture jpeg) h = inr h
Grows-IsAnswered m rs (id, failed note) h = tt
Grows-IsAnswered m rs (id, not_recorded) h = tt

pub All-IsAnswered :
    (m : ScreenshotResponse) (rs : List ScreenshotResponse) (xs : List (String × Outcome))
    → All (IsAnswered rs) xs
    → All (IsAnswered (m ∷ rs)) xs
All-IsAnswered m rs [] h = tt
All-IsAnswered m rs (x ∷ xs) h = (Grows-IsAnswered m rs x h.0, All-IsAnswered m rs xs h.1)

ThreadOk-Stays :
    (old new : Store String ScreenshotResponse Note) (rs : List ScreenshotResponse) (t : Thread)
    → Stays old new
    → ThreadOk old rs t
    → ThreadOk new rs t
ThreadOk-Stays old new rs (sending x q n) stays h = stays n q.request_id h
ThreadOk-Stays old new rs (waiting id n) stays h = stays n id h
ThreadOk-Stays old new rs (reading id n) stays h = stays n id h
ThreadOk-Stays old new rs (reporting id n note) stays h = tt
ThreadOk-Stays old new rs (leaving id n outcome) stays h = h
ThreadOk-Stays old new rs (handling m) stays h = tt
ThreadOk-Stays old new rs (handler_reporting exc) stays h = tt
ThreadOk-Stays old new rs finished stays h = tt

ThreadOk-Grows :
    (m : ScreenshotResponse) (store : Store String ScreenshotResponse Note)
    (rs : List ScreenshotResponse) (t : Thread)
    → ThreadOk store rs t
    → ThreadOk store (m ∷ rs) t
ThreadOk-Grows m store rs (sending x q n) h = h
ThreadOk-Grows m store rs (waiting id n) h = h
ThreadOk-Grows m store rs (reading id n) h = h
ThreadOk-Grows m store rs (reporting id n note) h = tt
ThreadOk-Grows m store rs (leaving id n o) h = Grows-IsAnswered m rs (id, o) h
ThreadOk-Grows m store rs (handling c) h = tt
ThreadOk-Grows m store rs (handler_reporting exc) h = tt
ThreadOk-Grows m store rs finished h = tt

pub held-Stays :
    (old new : Store String ScreenshotResponse Note) (rs : List ScreenshotResponse)
    (ts : List Thread)
    → Stays old new
    → All (ThreadOk old rs) ts
    → All (ThreadOk new rs) ts
held-Stays old new rs ts stays =
    All-mono (ThreadOk old rs) (ThreadOk new rs) ts (λ t. ThreadOk-Stays old new rs t stays)

pub held-Grows :
    (m : ScreenshotResponse) (store : Store String ScreenshotResponse Note)
    (rs : List ScreenshotResponse) (ts : List Thread)
    → All (ThreadOk store rs) ts
    → All (ThreadOk store (m ∷ rs)) ts
held-Grows m store rs ts =
    All-mono (ThreadOk store rs) (ThreadOk store (m ∷ rs)) ts (ThreadOk-Grows m store rs)

jpeg-IsAnswered :
    (rs : List ScreenshotResponse) (id : String) (o : Option (List ℕ))
    → ((jpeg : List ℕ) → o ≡ some jpeg → Answers id jpeg rs)
    → IsAnswered rs (id, outcome_from o)
jpeg-IsAnswered rs id none h = tt
jpeg-IsAnswered rs id (some jpeg) h = h jpeg refl

received-IsAnswered :
    (rs : List ScreenshotResponse) (id : String) (error : Option Note)
    (response : Option ScreenshotResponse)
    → ((m : ScreenshotResponse) → response ≡ some m → IsGood rs id m)
    → IsAnswered rs (id, outcome_of error response)
received-IsAnswered rs id (some note) response h = tt
received-IsAnswered rs id none none h = tt
received-IsAnswered rs id none (some m) h = jpeg-IsAnswered rs id m.jpeg (h m refl)

-- What a set object gives its request.
pub outcome-IsAnswered :
    (t : Table String ScreenshotResponse Note) (rs : List ScreenshotResponse) (id : String) (n : ℕ)
    → IsKept (IsGood rs) t
    → IsOf t.store id n
    → IsAnswered rs (id, outcome_at (lookup n t.store))
outcome-IsAnswered t rs id n kept own = elim (Option-cases (lookup n t.store)) [
  | inl absent ↦ ground (arith, absent, own)
  | inr (p, there) ↦ rw there (
      received-IsAnswered rs id p.error p.response
        (λ m given. kept-given (IsGood rs) t kept id n p m own there given))
]
