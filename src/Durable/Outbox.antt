-- ===== src/Durable/Outbox.antt =====
-- durable.ts over store.ts: the outbox through any sequence of calls.
use cf_open_agents_api.Prelude.{
  ℕ, ◌≡◌, ◌≢◌, ◌<◌, String, true, false, Option, none, some, List, [], ◌∷◌, Result, ok, err, arith,
  string_eq, All, Member, All-Member, Member-of_filter, inl, inr, refl, sym, ap, subst, ◌∙◌,
}
use cf_open_agents_api.Machine.Types.{Event, Step, MachineError}
use cf_open_agents_api.Store.Memory.{Memory, OutboxEntry, outbox}
use cf_open_agents_api.Store.Keeps.{Keeps, Closed}
use cf_open_agents_api.Store.Outbox.{
  Increasing, IsOrdered, IsOrdered-Closed, Retains, Retains-Closed, Member-Retains,
}
use cf_open_agents_api.Durable.Defs.{Options, success, Taken, run, skipped, idle}
use cf_open_agents_api.Durable.System.{
  System, Action, applies, takes, finishes, fires, after_take, take_next, finish_next, act,
}
use cf_open_agents_api.Durable.Keeps.{
  arm-Keeps, apply-Keeps, finish_command-Keeps, fire_timers-Keeps, take-Keeps,
}

-- What the host writes beside a transition keeps `K`.
abbrev pub HostKeeps : {D P C F J : Type 0} → (Memory J → Type 0) → Action D P C F J → Type 0
HostKeeps {D} K (applies event facts now alongside) = (st : Step D _) → Keeps K (alongside st)
HostKeeps K (takes now) = Unit {0}
HostKeeps K (finishes exit facts now) = Unit {0}
HostKeeps K (fires facts clock) = Unit {0}

-- The entry that the action removes because its handler succeeded.
abbrev pub Completes : {D P C F J : Type 0} → Action D P C F J → System C J → ℕ → Type 0
Completes {P = P} {J = J} (finishes exit facts now) sys id =
    (answer : Option (Event P)) × (entry : OutboxEntry J) × (exit ≡ success answer)
    × (sys.running ≡ some entry)
    × (entry.id ≡ id)
Completes _ sys id = ⊥

module _ {D P C F J : Type 0} (o : Options D P C F J) (K : Memory J → Type 0)
    (may_remove : ℕ → Type 0) (c : Closed K may_remove)
    (depth : (s : Memory J) (n : ℕ) → K s → K (record s { depth = n })) where
  after_take-Keeps :
      (r : Result MachineError (Taken C J) × Memory J) (sys : System C J)
      → K r.1
      → K (after_take o r sys).memory
  unfolding after_take
  after_take-Keeps (err e, s) sys h = h
  after_take-Keeps (ok idle, s) sys h = h
  after_take-Keeps (ok skipped, s) sys h = arm-Keeps o K may_remove c depth tt _ h
  after_take-Keeps (ok (run entry command), s) sys h = h

  -- An action keeps what every write keeps, if it may remove what it removes.
  act-Keeps :
      (a : Action D P C F J) (sys : System C J)
      → HostKeeps K a
      → ((e : OutboxEntry J) (rest : List (OutboxEntry J))
          → outbox o.key sys.memory ≡ e ∷ rest
          → e.release ≡ false
          → may_remove e.id)
      → ((id : ℕ) → Completes a sys id → may_remove id)
      → K sys.memory
      → K (act o a sys).memory
  unfolding act take_next finish_next
  act-Keeps (applies event facts now alongside) sys host may_take may_finish h =
      apply-Keeps o K may_remove c depth event facts now alongside sys.world host h
  act-Keeps (takes now) sys host may_take may_finish h = take_it sys.running
    where
      take_it : (r : Option (OutboxEntry J)) → K (take_next o r now sys).memory
      take_it none =
          after_take-Keeps _ sys (take-Keeps o K may_remove c depth now sys.memory may_take h)
      take_it (some entry) = h
  act-Keeps (finishes exit facts now) sys host may_take may_finish h = finish_it sys.running refl
    where
      finish_it :
          (r : Option (OutboxEntry J))
          → sys.running ≡ r
          → K (finish_next o r exit facts now sys).memory
      finish_it none e = h
      finish_it (some entry) e =
          finish_command-Keeps o K may_remove c depth entry exit facts now sys.world
            (λ answer won. may_finish entry.id (answer, entry, won, e, refl)) h
  act-Keeps (fires facts clock) sys host may_take may_finish h =
      fire_timers-Keeps o K may_remove c depth facts clock sys.world h

module _ {J : Type 0} where
  Increasing-above :
      (x y : OutboxEntry J) (xs : List (OutboxEntry J))
      → All (λ z. x.id < z.id) xs
      → Member y xs
      → x.id < y.id
  Increasing-above x y xs h m = All-Member (λ z. x.id < z.id) y xs h m

  -- No two entries share an identifier.
  pub Increasing-unique :
      (x y : OutboxEntry J) (xs : List (OutboxEntry J))
      → Increasing xs
      → Member x xs
      → Member y xs
      → x.id ≡ y.id
      → x ≡ y
  Increasing-unique x y [] h mx my e = elim mx [ ]
  Increasing-unique x y (z ∷ zs) h (inl ex) (inl ey) e = ex ∙ sym ey
  Increasing-unique x y (z ∷ zs) h (inl ex) (inr my) e =
      absurd (omega (arith, ap (λ t. t.id) ex, Increasing-above z y zs h.0 my))
  Increasing-unique x y (z ∷ zs) h (inr mx) (inl ey) e =
      absurd (omega (arith, ap (λ t. t.id) ey, Increasing-above z x zs h.0 mx))
  Increasing-unique x y (z ∷ zs) h (inr mx) (inr my) e = Increasing-unique x y zs h.1 mx my e

  pub outbox_first :
      (key : String) (s : Memory J) (x : OutboxEntry J) (rest : List (OutboxEntry J))
      → outbox key s ≡ x ∷ rest
      → Member x s.entries
  unfolding outbox
  outbox_first key s x rest first =
      (Member-of_filter _ x s.entries (subst (Member x) (sym first) (inl refl))).0

module _ {D P C F J : Type 0} (o : Options D P C F J) where
  -- Identifiers keep growing in enqueue order through every action, if what the host writes beside
  -- a transition keeps that too.
  pub act-IsOrdered :
      (a : Action D P C F J) (sys : System C J)
      → HostKeeps IsOrdered a
      → IsOrdered sys.memory
      → IsOrdered (act o a sys).memory
  act-IsOrdered a sys host h =
      act-Keeps o IsOrdered (λ _. Unit {0}) IsOrdered-Closed
        (λ s n k. record { fresh = k.fresh; increasing = k.increasing }) a sys host
        (λ e rest _ _. tt) (λ id _. tt) h

  -- In a store whose identifiers are in order, a release command stays in the outbox through every
  -- action but the success of its own handler, if what the host writes beside a transition keeps it:
  -- an action that fails, a state that moved on and a stale epoch do not drop it.
  pub release_kept :
      (a : Action D P C F J) (sys : System C J) (e : OutboxEntry J)
      → IsOrdered sys.memory
      → Member e sys.memory.entries
      → e.release ≡ true
      → HostKeeps (Retains e) a
      → ¬ Completes a sys e.id
      → Retains e (act o a sys).memory
  release_kept a sys e ordered inside releases host open_ =
      act-Keeps o (Retains e) (λ id. id ≢ e.id) (Retains-Closed e)
        (λ s n k. record { entry = k.entry; inside = k.inside; same = k.same }) a sys host not_first
        (λ id done same. open_ (subst (Completes a sys) same done))
        (Member-Retains e sys.memory inside)
    where
      not_first :
          (x : OutboxEntry J) (rest : List (OutboxEntry J))
          → outbox o.key sys.memory ≡ x ∷ rest
          → x.release ≡ false
          → x.id ≢ e.id
      not_first x rest first plain same =
          let eq =
            Increasing-unique x e sys.memory.entries ordered.increasing
              (outbox_first o.key sys.memory x rest first) inside same in
          absurd (cc (eq, plain, releases))
