-- ===== src/Store/Transactions.antt =====
-- store.ts, `transaction`: all or nothing, and nested calls join the outer one.
use cf_open_agents_api.Prelude.{◌+◌, ◌-◌, ◌≡◌, ◌<◌, arith, Result, ok, err, refl, ap, ◌∙◌}
use cf_open_agents_api.Machine.Types.{MachineError}
use cf_open_agents_api.Store.Memory.{Memory, Storing, settle, transaction}

-- Code that leaves the nesting depth as it found it, as every body does that opens and closes its
-- transactions.
abbrev pub KeepsDepth : {J A : Type 0} → Storing J A → Type 0
KeepsDepth {J} body = (s : Memory J) → (body s).1.depth ≡ s.depth

module _ {J A : Type 0} (saved : Memory J) where
  settle_depth : (r : Result MachineError A × Memory J) → (settle saved r).1.depth ≡ r.1.depth - 1
  unfolding settle
  settle_depth (ok a, s) = refl
  settle_depth (err e, s) = refl

  settle_err :
      (r : Result MachineError A × Memory J) (e : MachineError)
      → r.0 ≡ err e
      → settle saved r ≡ (err e, record saved { depth = r.1.depth - 1 })
  unfolding settle
  settle_err (ok a, s) e h = cc
  settle_err (err f, s) e h = cc

  pub settle_ok :
      (r : Result MachineError A × Memory J) (a : A)
      → r.0 ≡ ok a
      → settle saved r ≡ (ok a, record r.1 { depth = r.1.depth - 1 })
  unfolding settle
  settle_ok (ok b, s) a h = cc
  settle_ok (err f, s) a h = cc

  pub settle_result : (r : Result MachineError A × Memory J) → (settle saved r).0 ≡ r.0
  unfolding settle
  settle_result (ok a, s) = refl
  settle_result (err e, s) = refl

module _ {J A : Type 0} (body : Storing J A) where
  pub transaction-KeepsDepth : KeepsDepth body → KeepsDepth (transaction body)
  unfolding transaction
  transaction-KeepsDepth keeps s = ground (
    arith,
    keeps s,
    keeps (record s { depth = s.depth + 1 }),
    settle_depth s (body (record s { depth = s.depth + 1 })),
  )

  -- An outer transaction whose body throws leaves the store exactly as it was, whatever the body
  -- wrote, and throws the same error.
  pub transaction_rolls_back :
      (s : Memory J) (e : MachineError)
      → s.depth ≡ 0
      → KeepsDepth body
      → (body (record s { depth = 1 })).0 ≡ err e
      → transaction body s ≡ (err e, s)
  unfolding transaction
  transaction_rolls_back s e outer keeps throws =
      ground (arith, keeps (record s { depth = 1 }), settle_err s (body (record s { depth = 1 })) e)

  pub transaction_commits :
      (s : Memory J) (a : A)
      → s.depth ≡ 0
      → KeepsDepth body
      → (body (record s { depth = 1 })).0 ≡ ok a
      → transaction body s ≡ (ok a, record (body (record s { depth = 1 })).1 { depth = 0 })
  unfolding transaction
  transaction_commits s a outer keeps h =
      ground (arith, keeps (record s { depth = 1 }), settle_ok s (body (record s { depth = 1 })) a)

  pub transaction_joins : (s : Memory J) → 0 < s.depth → transaction body s ≡ body s
  unfolding transaction
  transaction_joins s h = ground arith

  pub transaction_outer :
      (s : Memory J) → s.depth ≡ 0 → transaction body s ≡ settle s (body (record s { depth = 1 }))
  unfolding transaction
  transaction_outer s outer = ground arith

  -- A transaction that wrote nothing leaves the store as it was.
  pub transaction_reads :
      (s : Memory J) (a : A)
      → s.depth ≡ 0
      → body (record s { depth = 1 }) ≡ (ok a, record s { depth = 1 })
      → transaction body s ≡ (ok a, s)
  transaction_reads s a outer h = transaction_outer s outer ∙ ap (settle s) h ∙ restored
    where
      restored : settle s (ok a, record s { depth = 1 }) ≡ (ok a, s)
      restored = unfold settle in ground arith
