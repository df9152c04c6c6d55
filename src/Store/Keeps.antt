-- ===== src/Store/Keeps.antt =====
-- store.ts: properties of the store that code keeps, whether it throws or not.
use cf_open_agents_api.Prelude.{
  ℕ, ◌+◌, ◌≡◌, String, Bool, true, false, Result, ok, err, if◌then◌else◌, ltb, Result-cases, inl,
  inr, refl, Bool-cases,
}
use cf_open_agents_api.Machine.Types.{MachineError}
use cf_open_agents_api.Store.Memory.{
  Memory, Storing, StoredState, NewEntry, save, enqueue, remove, reschedule, settle, transaction,
  and_then, reading, writing,
}

-- The code keeps `P`.
pub record Keeps {J A : Type 0} (P : Memory J → Type 0) (body : Storing J A) : Type 0 where
  pub after : (s : Memory J) → P s → P (body s).1

-- The writes under which `P` is closed; `may_remove` says which entries may go.
pub record Closed {J : Type 0} (P : Memory J → Type 0) (may_remove : ℕ → Type 0) : Type 0 where
  pub closed_save : (k : String) (v : StoredState J) (s : Memory J) → P s → P (save k v s)
  pub closed_enqueue : (k : String) (e : NewEntry J) (s : Memory J) → P s → P (enqueue k e s)
  pub closed_remove : (id : ℕ) (s : Memory J) → may_remove id → P s → P (remove id s)
  pub closed_reschedule :
      (id attempts due : ℕ) (s : Memory J) → P s → P (reschedule id attempts due s)

pub Keeps-writing :
    {J : Type 0} (P : Memory J → Type 0) (f : Memory J → Memory J)
    → ((s : Memory J) → P s → P (f s))
    → Keeps P (writing f)
unfolding writing
Keeps-writing P f h = record { after = h }

module _ {J A : Type 0} (P : Memory J → Type 0) where
  pub Keeps-reading : (f : Memory J → Result MachineError A) → Keeps P (reading f)
  unfolding reading
  Keeps-reading f = record { after = λ s h. h }

  pub Keeps-if :
      (b : Bool) (m k : Storing J A) → Keeps P m → Keeps P k → Keeps P (if b then m else k)
  Keeps-if true m k hm hk = hm
  Keeps-if false m k hm hk = hk

  pub Keeps-if_eq :
      (b : Bool) (m k : Storing J A)
      → (b ≡ true → Keeps P m)
      → (b ≡ false → Keeps P k)
      → Keeps P (if b then m else k)
  Keeps-if_eq true m k hm hk = hm refl
  Keeps-if_eq false m k hm hk = hk refl

  -- A transaction keeps what its body keeps, if the nesting depth is no part of it.
  pub Keeps-transaction :
      (body : Storing J A)
      → ((s : Memory J) (n : ℕ) → P s → P (record s { depth = n }))
      → Keeps P body
      → Keeps P (transaction body)
  unfolding transaction settle
  Keeps-transaction body depth k = record {
    after = λ s h. elim (Bool-cases (ltb 0 s.depth)) [
      | inl e ↦ rw e (k.after s h)
      | inr e ↦
          rw e (settled s (body (record s { depth = s.depth + 1 })) h (k.after _ (depth s _ h)))
    ];
  }
    where
      settled :
          (s : Memory J) (r : Result MachineError A × Memory J) → P s → P r.1 → P (settle s r).1
      settled s (ok a, t) h g = depth t _ g
      settled s (err e, t) h g = depth s _ h

pub Keeps-and_then :
    {J A B : Type 0} (P : Memory J → Type 0) (m : Storing J A) (f : A → Storing J B)
    → Keeps P m
    → ((a : A) → Keeps P (f a))
    → Keeps P (and_then m f)
unfolding and_then
Keeps-and_then P m f hm hf = record {
  after = λ s h. elim (Result-cases (m s).0) [
    | inl (a, e) ↦ rw (e, and_then) ((hf a).after (m s).1 (hm.after s h))
    | inr (x, e) ↦ rw (e, and_then) (hm.after s h)
  ];
}

pub ruleset keeps_rules = (Keeps-reading, Keeps-if, Keeps-and_then)
