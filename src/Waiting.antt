-- ===== src/Waiting.antt =====
-- The tables of pending objects that mac_input_transport.py and mac_output_transport.py share with the
-- threads that wait for them: `_PendingScreenshot`, `_PendingAck` and `_PendingCompletion`. A reference
-- is the number of an object in the store.
pub mod Laws
pub mod Kept
use vrc_agent.Prelude.Int.{ℤ, pos, negsuc, pos_part, neg_part, ltb_ℤ, leb_ℤ, eqb_ℤ, ◌≤ℤ◌, ◌<ℤ◌}
use vrc_agent.Prelude.{
  ℕ, zero, suc, ◌+◌, ◌-◌, ◌*◌, ◌/◌, ◌%◌, ◌≤◌, ◌<◌, max, String, ◌≡◌, ◌≢◌, ◌↔◌, ◌⊎◌, inl, inr, refl,
  sym, ap, ◌∙◌, subst, Bool, true, false, not, ◌&&◌, ◌||◌, Option, none, some, List, [], ◌∷◌, ◌++◌,
  map, reverse, arith, Eq, nat_eq, string_eq, ◌==◌, nat_beq, ltb, leb, if◌then◌else◌, is_value,
  is_value_iff, is_none, is_empty, eq_iff, eq_self, Bool-cases, Option-cases, strip, length,
  get_elem?, All, keep_last, append_bounded, Result, ok, err, Method, returned,
}
use vrc_agent.Prelude.Dict.{Dict, lookup, insert, erase}

-- Nothing reads `made_for`, the key that the object was made for.
pub record Pending {ℓ} (K R E : Type ℓ) : Type ℓ where
  pub made_for : K
  pub is_set : Bool
  pub response : Option R
  pub error : Option E

abbrev pub Store {ℓ} : Type ℓ → Type ℓ → Type ℓ → Type ℓ
Store K R E = Dict ℕ (Pending K R E)

-- The table, every object that was made, and the number of the next.
pub record Table {ℓ} (K R E : Type ℓ) : Type ℓ where
  pub entries : Dict K ℕ
  pub store : Store K R E
  pub made : ℕ

module _ {ℓ} {K R E : Type ℓ} where
  abbrev pub empty : Table K R E
  empty = record { entries = []; store = []; made = 0 }

  abbrev pub unset : K → Pending K R E
  unset k = record { made_for = k; is_set = false; response = none; error = none }

  abbrev pub with_error : E → Pending K R E → Pending K R E
  with_error e p = record p { error = some e; is_set = true }

  abbrev pub updated :
      ℕ → (Pending K R E → Pending K R E) → Store K R E → Option (Pending K R E) → Store K R E
  updated n f store none = store
  updated n f store (some p) = insert n (f p) store

  -- An object of the store is changed in place.
  abbrev pub update : ℕ → (Pending K R E → Pending K R E) → Store K R E → Store K R E
  update n f store = updated n f store (lookup n store)

  -- Every object of the table gets the error and is set.
  unfoldable pub fail_entries : E → Dict K ℕ → Store K R E → Store K R E
  fail_entries e [] store = store
  fail_entries e ((k, n) ∷ rest) store = fail_entries e rest (update n (with_error e) store)

  abbrev pub fail_all : E → Table K R E → Table K R E
  fail_all e t = record t { store = fail_entries e t.entries t.store }

  abbrev pub change : ℕ → (Pending K R E → Pending K R E) → Table K R E → Table K R E
  change n f t = record t { store = update n f t.store }

module _ {ℓ} {K R E : Type ℓ} ⦃eq : Eq K⦄ where
  -- A new object takes the place of the key.
  abbrev pub enter : K → Table K R E → Table K R E
  enter k t = record {
    entries = insert k t.made t.entries;
    store = insert t.made (unset k) t.store;
    made = t.made + 1;
  }

  -- The entry goes if it is still this object.
  abbrev pub leave : K → ℕ → Table K R E → Table K R E
  leave k n t = record t {
    entries = if is_value n (lookup k t.entries) then erase k t.entries else t.entries;
  }
