-- ===== src/Supervisor/Invariant/Halting.antt =====
-- `halt_all`: nothing waits and nothing owns a managed resource once it has returned.
use vrc_agent.Supervisor.Output.{touch, cancel_current}
use vrc_agent.Prelude.{eq_iff, modify, is_empty, returned, refl}
use vrc_agent.Prelude.Dict.{lookup-erase}
use vrc_agent.Supervisor.Output.{safe_neutralize}
use vrc_agent.Contracts.{at, resource_eq}
use vrc_agent.Contracts.{resource_eq}
use vrc_agent.Supervisor.Invariant.Scheduling.{held-resource}
use vrc_agent.Supervisor.Invariant.Cancelling.{
  cancel_current-IsValid, cancel_current-returned, IsActive,
}
use vrc_agent.Resources.{invalidate, current}
use vrc_agent.Prelude.Ends.{Ends-map, Ends-guard, Ends-bind, Ends-returned, Ends}
use vrc_agent.Supervisor.Invariant.{IsValid}
use vrc_agent.Prelude.{
  string_eq, eq_self, All, true, false, is_value, ◌≡◌, ◌>>=◌, Option, none, some, List, [], ◌∷◌,
  arith, ℕ, String, strip, inl, inr, Option-cases, Bool-cases,
}
use vrc_agent.Supervisor.{
  halt_result, empty_reason, HaltResult, halt_locked, SupervisorError, stopping, state_beq, lookup,
  PendingAction, Handle, Dict, Supervisor, ControlResource, World, halt_all, halt_resources,
  halt_resource, cancel_pending, managed_resources,
}

cancel_pending-IsValid :
    (w : World) (now : ℕ) (reason : String) (items : Dict ControlResource PendingAction)
    (s : Supervisor)
    → IsValid s
    → IsValid (cancel_pending w now reason items s)
unfolding cancel_pending
cancel_pending-IsValid w now reason [] s v = v
cancel_pending-IsValid w now reason ((r, p) ∷ rest) s v =
    cancel_pending-IsValid w now reason rest _ (record {
      slot = λ q. ground (arith, v.slot q, lookup-erase q r s.pending);
      fenced = v.fenced;
    })

IsValid-IsActive :
    (r : ControlResource) (h : Handle) (s : Supervisor)
    → IsValid s
    → lookup r s.current ≡ some h
    → state_beq h.state stopping ≡ false
    → IsActive h s
IsValid-IsActive r h s v e active = record {
  held = cc (e, held-resource r s h (v.slot r) e);
  active = active;
  own = ground (arith, v.slot r, e);
  waiting = ground (arith, v.slot r, e);
  others = λ q _. v.slot q;
  fenced = v.fenced;
}

eq_self_of : (o : Option Handle) → elim o as (λ _. Type 0) [
  | none ↦ Unit
  | some h ↦ is_value h.command.action_id (some h.command.action_id) ≡ true
]
eq_self_of none = tt
eq_self_of (some h) = eq_self h.command.action_id

module _ (w : World) (reason : String) (r : ControlResource) (s : Supervisor) (v : IsValid s) where
  neutralize-IsValid :
      lookup r s.current ≡ none → IsValid (safe_neutralize w r (current r s.resources).token s)
  unfolding safe_neutralize current
  neutralize-IsValid e = record {
    slot = λ q. ground (arith, v.slot q);
    fenced = ground (arith, v.slot r, e, v.fenced);
  }

  halt_resource-returned : returned (halt_resource w reason r (lookup r s.current) s).0 ≡ true
  unfolding halt_resource
  halt_resource-returned = elim (Option-cases (lookup r s.current)) [
    | inl e ↦ rw e refl
    | inr (h, e) ↦ rw e (elim (Bool-cases (state_beq h.state stopping)) [
      | inl done ↦ rw done refl
      | inr active ↦
          rw active (cancel_current-returned w h reason s (IsValid-IsActive r h s v e active))
    ])
  ]

  halt_resource-IsValid : IsValid (halt_resource w reason r (lookup r s.current) s).1
  unfolding halt_resource
  halt_resource-IsValid = elim (Option-cases (lookup r s.current)) [
    | inl e ↦ rw e (neutralize-IsValid e)
    | inr (h, e) ↦ rw e (elim (Bool-cases (state_beq h.state stopping)) [
      | inl done ↦ rw done v
      | inr active ↦
          rw active (cancel_current-IsValid w h reason s (IsValid-IsActive r h s v e active))
    ])
  ]

  pending-halt_resource : (halt_resource w reason r (lookup r s.current) s).1.pending ≡ s.pending
  unfolding halt_resource cancel_current invalidate
  pending-halt_resource = ground (arith, v.slot r, eq_self_of (lookup r s.current))

  owner-halt_resource :
      at (halt_resource w reason r (lookup r s.current) s).1.resources.owners r ≡ none
  unfolding halt_resource cancel_current invalidate
  owner-halt_resource = ground (arith, v.slot r, eq_self_of (lookup r s.current))

  owners-halt_resource :
      (q : ControlResource)
      → at s.resources.owners q ≡ none
      → at (halt_resource w reason r (lookup r s.current) s).1.resources.owners q ≡ none
  unfolding halt_resource cancel_current invalidate
  owners-halt_resource q e = ground (arith, v.slot r, eq_self_of (lookup r s.current))

-- Nothing waits, and nothing owns one of the resources.
pub record IsQuiet (rs : List ControlResource) (s : Supervisor) : Type 0 where
  pub valid : IsValid s
  pub idle : (q : ControlResource) → lookup q s.pending ≡ none
  pub unowned : All (λ r. at s.resources.owners r ≡ none) rs

IsQuiet-tail :
    (r : ControlResource) (rs : List ControlResource) (s : Supervisor)
    → IsQuiet (r ∷ rs) s
    → IsQuiet rs s
IsQuiet-tail r rs s q = record { valid = q.valid; idle = q.idle; unowned = q.unowned.1 }

unowned-halt_resource :
    (w : World) (reason : String) (r : ControlResource) (s : Supervisor)
    → IsValid s
    → (rs : List ControlResource) → All (λ q. at s.resources.owners q ≡ none) rs
    → All (λ q. at (halt_resource w reason r (lookup r s.current) s).1.resources.owners q ≡ none) rs
unowned-halt_resource w reason r s v [] a = tt
unowned-halt_resource w reason r s v (q ∷ rs) a =
    (owners-halt_resource w reason r s v q a.0, unowned-halt_resource w reason r s v rs a.1)

pending-cancel_pending :
    (w : World) (now : ℕ) (reason : String) (items : Dict ControlResource PendingAction)
    (s : Supervisor) (q : ControlResource)
    → (lookup q items ≡ none → lookup q s.pending ≡ none)
    → lookup q (cancel_pending w now reason items s).pending ≡ none
unfolding cancel_pending
pending-cancel_pending w now reason [] s q h = h refl
pending-cancel_pending w now reason ((r, p) ∷ rest) s q h =
    pending-cancel_pending w now reason rest _ q (λ e. ground (arith, lookup-erase q r s.pending))

-- What the loop of `halt_all` has reached: the resources seen so far are quiet.
halt_resources-Ends :
    (R : SupervisorError → Supervisor → Type 0) (w : World) (reason : String)
    (seen rs : List ControlResource) (s : Supervisor)
    → IsQuiet seen s
    → Ends (λ _ t. IsQuiet seen t × IsQuiet rs t) R (halt_resources w reason rs s)
unfolding halt_resources
halt_resources-Ends R w reason seen [] s q =
    (q, record { valid = q.valid; idle = q.idle; unowned = tt })
halt_resources-Ends R w reason seen (r ∷ rs) s q =
    let m = halt_resource w reason r (lookup r s.current) in
    let s' : Supervisor = (m s).1 in
    let q' : IsQuiet (r ∷ seen) s' = record {
      valid = halt_resource-IsValid w reason r s q.valid;
      idle = λ p. rw (pending-halt_resource w reason r s q.valid) (q.idle p);
      unowned = (
        owner-halt_resource w reason r s q.valid,
        unowned-halt_resource w reason r s q.valid seen q.unowned,
      );
    } in
    Ends-bind (λ _. IsQuiet (r ∷ seen)) (λ _ t. IsQuiet seen t × IsQuiet (r ∷ rs) t) R m
      (λ _. halt_resources w reason rs) s
      (Ends-returned (IsQuiet (r ∷ seen)) R (m s) (halt_resource-returned w reason r s q.valid) q')
      (λ _ t h.
        Ends-map (λ _ u. IsQuiet (r ∷ seen) u × IsQuiet rs u)
          (λ _ u. IsQuiet seen u × IsQuiet (r ∷ rs) u) R (halt_resources w reason rs t)
          (halt_resources-Ends R w reason (r ∷ seen) rs t h)
          (λ _ u (h1, h2). (
            IsQuiet-tail r seen u h1,
            record { valid = h1.valid; idle = h1.idle; unowned = (h1.unowned.0, h2.unowned) },
          )))

-- Why `halt_all` raises, and what that leaves.
abbrev pub Rejected : String → Supervisor → SupervisorError → Supervisor → Type 0
Rejected reason s e t = (e ≡ empty_reason) × (strip reason ≡ "") × (t ≡ s)

abbrev pub Halted : World → String → HaltResult → Supervisor → Type 0
Halted w why result t = IsQuiet (managed_resources w) t × (result.reason ≡ why)

halt_locked-Ends :
    (R : SupervisorError → Supervisor → Type 0) (w : World) (now : ℕ) (why : String)
    (s : Supervisor)
    → IsValid s
    → Ends (Halted w why) R (halt_locked w now why s)
unfolding halt_locked halt_result touch
halt_locked-Ends R w now why s v =
    Ends-bind (λ _ t. IsQuiet [] t × IsQuiet (managed_resources w) t) (Halted w why) R
      (halt_resources w why (managed_resources w))
      (λ _. modify (touch now) >>= λ _. halt_result w why) (cancel_pending w now why s.pending s)
      (halt_resources-Ends R w why [] (managed_resources w) (cancel_pending w now why s.pending s)
        (record {
          valid = cancel_pending-IsValid w now why s.pending s v;
          idle = λ q. pending-cancel_pending w now why s.pending s q (λ e. e);
          unowned = tt;
        }))
      (λ _ t (h1, h2). (
        record {
          valid = record { slot = h2.valid.slot; fenced = h2.valid.fenced };
          idle = h2.idle;
          unowned = h2.unowned;
        },
        refl,
      ))

-- Halting a valid supervisor raises only for a blank reason, and then changes nothing; otherwise
-- nothing waits any more and no managed resource has an owner.
pub halt_all-Ends :
    (w : World) (now : ℕ) (reason : String) (s : Supervisor)
    → IsValid s
    → Ends (Halted w (strip reason)) (Rejected reason s) (halt_all w now reason s)
unfolding halt_all
halt_all-Ends w now reason s v =
    Ends-guard (Halted w (strip reason)) (Rejected reason s) (is_empty (strip reason)) empty_reason
      (λ _. halt_locked w now (strip reason)) s
      (λ blank. (refl, (eq_iff (strip reason) "").0 blank, refl))
      (λ _. halt_locked-Ends (Rejected reason s) w now (strip reason) s v)
