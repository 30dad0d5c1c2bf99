-- ===== src/Waiting/Kept.antt =====
-- Every operation on the shared tables of Waiting.antt keeps them.
use vrc_agent.Waiting.Laws.{IsOf-made_for}
use vrc_agent.Prelude.{
  ℕ, ◌≤◌, ◌≡◌, inl, inr, refl, sym, subst, none, some, arith, Eq, nat_eq, string_eq, ◌==◌,
  Bool-cases,
}
use vrc_agent.Waiting.{Pending, Store, Table, empty, unset, fail_all, change, enter, leave}
use vrc_agent.Waiting.Laws.{
  IsOf, Stays, IsGiven, AllGiven, update-Stays, fail_entries-Stays, update-none, fail_entries-none,
  enter-Stays, enter-IsOf, enter-none, update-AllGiven, fail_entries-AllGiven, enter-AllGiven,
}
use vrc_agent.Prelude.Dict.{Dict, lookup, insert, lookup-insert, lookup-erase}

-- What was given may be given, the entries refer to the objects of their keys, and the numbers that are
-- not used yet are to no object.
pub record IsKept {ℓ} {K R E : Type ℓ} ⦃eq : Eq K⦄ (P : K → R → Type ℓ) (t : Table K R E)
    : Type ℓ where
  pub objects : AllGiven P t.store
  pub refer : (k : K) (n : ℕ) → lookup k t.entries ≡ some n → IsOf t.store k n
  pub unused : (n : ℕ) → t.made ≤ n → lookup n t.store ≡ none

module _ {ℓ} {K R E : Type ℓ} ⦃eq : Eq K⦄ (P : K → R → Type ℓ) where
  pub empty-IsKept : IsKept P (empty {K = K} {R = R} {E = E})
  empty-IsKept = record {
    objects = λ n p e. ground (arith, e);
    refer = λ k n e. ground (arith, e);
    unused = λ n le. refl;
  }

  enter-refer :
      (j : ℕ) (key : K) (d : Dict K ℕ) (store : Store K R E)
      → Stays store (insert j (unset key) store)
      → ((k : K) (n : ℕ) → lookup k d ≡ some n → IsOf store k n)
      → (k : K) (n : ℕ) → lookup k (insert key j d) ≡ some n
      → IsOf (insert j (unset key) store) k n
  enter-refer j key d store stays h k n e = elim (Bool-cases (k == key)) [
    | inl same ↦
        let new : j ≡ n = ground (arith, lookup-insert k key j d, same, e) in
        let name : key ≡ k = sym ((eq.beq_iff k key).0 same) in
        subst (λ x. IsOf (insert j (unset key) store) x n) name
          (subst (λ x. IsOf (insert j (unset key) store) key x) new
            (enter-IsOf j (unset key) store))
    | inr other ↦
        let old : lookup k d ≡ some n = ground (arith, lookup-insert k key j d, other, e) in
        stays n k (h k n old)
  ]

  module _ (t : Table K R E) (h : IsKept P t) where
    pub entered-Stays : (k : K) → Stays t.store (enter k t).store
    entered-Stays k = enter-Stays t.made (unset k) t.store (h.unused t.made (omega arith))

    pub entered-IsOf : (k : K) → IsOf (enter k t).store k t.made
    entered-IsOf k = enter-IsOf t.made (unset k) t.store

    pub enter-IsKept : (k : K) → IsKept P (enter k t)
    enter-IsKept k = record {
      objects = enter-AllGiven P t.made k t.store h.objects;
      refer = enter-refer t.made k t.entries t.store (entered-Stays k) h.refer;
      unused = enter-none t.made (unset k) t.store h.unused;
    }

    pub fail_all-IsKept : (e : E) → IsKept P (fail_all e t)
    fail_all-IsKept e = record {
      objects = fail_entries-AllGiven P e t.entries t.store h.objects;
      refer = λ k n there. fail_entries-Stays e t.entries t.store n k (h.refer k n there);
      unused = λ n le. fail_entries-none e t.entries t.store n (h.unused n le);
    }

    -- The object of a reference changes, keeps its key, and has what it may be given.
    pub change-IsKept :
        (n : ℕ) (f : Pending K R E → Pending K R E)
        → ((p : Pending K R E) → (f p).made_for ≡ p.made_for)
        → ((p : Pending K R E) → lookup n t.store ≡ some p → IsGiven P (f p))
        → IsKept P (change n f t)
    change-IsKept n f same own = record {
      objects = update-AllGiven P n f t.store own h.objects;
      refer = λ k j there. update-Stays n f t.store same j k (h.refer k j there);
      unused = λ j le. update-none n f t.store j (h.unused j le);
    }

    leave-lookup :
        (key : K) (n : ℕ) (k : K) (j : ℕ)
        → lookup k (leave key n t).entries ≡ some j
        → lookup k t.entries ≡ some j
    leave-lookup key n k j e = ground (arith, lookup-erase k key t.entries, e)

    pub leave-IsKept : (key : K) (n : ℕ) → IsKept P (leave key n t)
    leave-IsKept key n = record {
      objects = h.objects;
      refer = λ k j e. h.refer k j (leave-lookup key n k j e);
      unused = h.unused;
    }

    -- What the object of a reference was given.
    pub kept-given :
        (k : K) (n : ℕ) (p : Pending K R E) (m : R)
        → IsOf t.store k n
        → lookup n t.store ≡ some p
        → p.response ≡ some m
        → P k m
    kept-given k n p m own there given =
        let name : p.made_for ≡ k = IsOf-made_for t.store k n p own there in
        subst (λ x. P x m) name (h.objects n p there m given)

  -- More may be given.
  pub IsKept-mono :
      (Q : K → R → Type ℓ) (t : Table K R E)
      → ((k : K) (m : R) → P k m → Q k m)
      → IsKept P t
      → IsKept Q t
  IsKept-mono Q t more h = record {
    objects = λ n p e m given. more p.made_for m (h.objects n p e m given);
    refer = h.refer;
    unused = h.unused;
  }
