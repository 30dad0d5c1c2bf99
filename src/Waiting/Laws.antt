-- ===== src/Waiting/Laws.antt =====
-- What the shared tables of Waiting.antt keep: a reference stays to the object of its key, and a response
-- stays with the key that it was for.
use vrc_agent.Prelude.{
  ℕ, ◌+◌, ◌≤◌, ◌≡◌, inl, inr, refl, subst, Option, none, some, [], ◌∷◌, arith, nat_eq, string_eq,
  ◌==◌, if◌then◌else◌, Bool-cases, Option-cases,
}
use vrc_agent.Waiting.{Pending, Store, unset, with_error, updated, update, fail_entries}
use vrc_agent.Prelude.Dict.{Dict, lookup, insert, lookup-insert}
use mathlib.Core.Option

module _ {ℓ} {K R E : Type ℓ} where
  -- The key of a reference, if its object is in the store.
  abbrev pub owner : Option (Pending K R E) → Option K
  owner none = none
  owner (some p) = some p.made_for

  abbrev pub IsOf : Store K R E → K → ℕ → Type ℓ
  IsOf store k n = owner (lookup n store) ≡ some k

  pub IsOf-made_for :
      (store : Store K R E) (k : K) (n : ℕ) (p : Pending K R E)
      → IsOf store k n
      → lookup n store ≡ some p
      → p.made_for ≡ k
  IsOf-made_for store k n p own there = ground (arith, own, there)

  -- Objects of the store stay those of their keys.
  abbrev pub Stays : Store K R E → Store K R E → Type ℓ
  Stays old new = (n : ℕ) (k : K) → IsOf old k n → IsOf new k n

  lookup-updated :
      (n j : ℕ) (f : Pending K R E → Pending K R E) (store : Store K R E)
      (o : Option (Pending K R E))
      → lookup j store ≡ o
      → lookup n (updated j f store o) ≡ (if n == j then Option.map f o else lookup n store)
  lookup-updated n j f store none e = ground (arith, e)
  lookup-updated n j f store (some p) e = lookup-insert n j (f p) store

  lookup-update :
      (n j : ℕ) (f : Pending K R E → Pending K R E) (store : Store K R E)
      → lookup n (update j f store)
        ≡ (if n == j then Option.map f (lookup j store) else lookup n store)
  lookup-update n j f store = lookup-updated n j f store (lookup j store) refl

  pub update-Stays :
      (j : ℕ) (f : Pending K R E → Pending K R E) (store : Store K R E)
      → ((p : Pending K R E) → (f p).made_for ≡ p.made_for)
      → Stays store (update j f store)
  update-Stays j f store same n k h = elim (Option-cases (lookup j store)) [
    | inl absent ↦ ground (arith, lookup-update n j f store, absent, h)
    | inr (p, there) ↦ ground (arith, lookup-update n j f store, there, h, same p)
  ]

  pub fail_entries-Stays :
      (e : E) (d : Dict K ℕ) (store : Store K R E) → Stays store (fail_entries e d store)
  unfolding fail_entries
  fail_entries-Stays e [] store n k h = h
  fail_entries-Stays e ((_, j) ∷ d) store n k h =
      fail_entries-Stays e d (update j (with_error e) store) n k
        (update-Stays j (with_error e) store (λ p. refl) n k h)

  -- A reference that is to no object stays so.
  pub update-none :
      (j : ℕ) (f : Pending K R E → Pending K R E) (store : Store K R E) (n : ℕ)
      → lookup n store ≡ none
      → lookup n (update j f store) ≡ none
  update-none j f store n h = ground (arith, lookup-update n j f store, h)

  pub fail_entries-none :
      (e : E) (d : Dict K ℕ) (store : Store K R E) (n : ℕ)
      → lookup n store ≡ none
      → lookup n (fail_entries e d store) ≡ none
  unfolding fail_entries
  fail_entries-none e [] store n h = h
  fail_entries-none e ((_, j) ∷ d) store n h =
      fail_entries-none e d (update j (with_error e) store) n
        (update-none j (with_error e) store n h)

  -- A new object in the store.
  pub enter-Stays :
      (j : ℕ) (p : Pending K R E) (store : Store K R E)
      → lookup j store ≡ none
      → Stays store (insert j p store)
  enter-Stays j p store absent n k h = ground (arith, lookup-insert n j p store, absent, h)

  pub enter-IsOf :
      (j : ℕ) (p : Pending K R E) (store : Store K R E) → IsOf (insert j p store) p.made_for j
  enter-IsOf j p store = ground (arith, lookup-insert j j p store)

  pub enter-none :
      (j : ℕ) (p : Pending K R E) (store : Store K R E)
      → ((n : ℕ) → j ≤ n → lookup n store ≡ none)
      → (n : ℕ) → j + 1 ≤ n
      → lookup n (insert j p store) ≡ none
  enter-none j p store h n le =
      ground (arith, lookup-insert n j p store, h n (omega (arith, le)), le)

-- `P k m`: the response may be given to the key.
module _ {ℓ} {K R E : Type ℓ} (P : K → R → Type ℓ) where
  abbrev pub IsGiven : Pending K R E → Type ℓ
  IsGiven p = (m : R) → p.response ≡ some m → P p.made_for m

  abbrev pub AllGiven : Store K R E → Type ℓ
  AllGiven store = (n : ℕ) (p : Pending K R E) → lookup n store ≡ some p → IsGiven p

  pub update-AllGiven :
      (j : ℕ) (f : Pending K R E → Pending K R E) (store : Store K R E)
      → ((p : Pending K R E) → lookup j store ≡ some p → IsGiven (f p))
      → AllGiven store
      → AllGiven (update j f store)
  update-AllGiven j f store own h n p e = elim (Option-cases (lookup j store)) [
    | inl absent ↦
        let old : lookup n store ≡ some p = ground (arith, lookup-update n j f store, absent, e) in
        h n p old
    | inr (q, there) ↦ elim (Bool-cases (n == j)) [
      | inl same ↦
          let new : f q ≡ p = ground (arith, lookup-update n j f store, there, same, e) in
          subst IsGiven new (own q there)
      | inr other ↦
          let old : lookup n store ≡ some p = ground (arith, lookup-update n j f store, other, e) in
          h n p old
    ]
  ]

  pub fail_entries-AllGiven :
      (e : E) (d : Dict K ℕ) (store : Store K R E)
      → AllGiven store
      → AllGiven (fail_entries e d store)
  unfolding fail_entries
  fail_entries-AllGiven e [] store h = h
  fail_entries-AllGiven e ((_, j) ∷ d) store h =
      fail_entries-AllGiven e d (update j (with_error e) store)
        (update-AllGiven j (with_error e) store (λ p there. h j p there) h)

  pub enter-AllGiven :
      (j : ℕ) (k : K) (store : Store K R E) → AllGiven store → AllGiven (insert j (unset k) store)
  enter-AllGiven j k store h n p e = elim (Bool-cases (n == j)) [
    | inl same ↦
        let new : unset k ≡ p = ground (arith, lookup-insert n j (unset k) store, same, e) in
        subst IsGiven new (λ m made. ground (arith, made))
    | inr other ↦
        let old : lookup n store ≡ some p =
          ground (arith, lookup-insert n j (unset k) store, other, e) in
        h n p old
  ]
