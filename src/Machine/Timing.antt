-- ===== src/Machine/Timing.antt =====
-- machine.ts, `timers`: the deadlines of a state, earliest first.
use cf_open_agents_api.Prelude.{
  ℕ, ◌≤◌, String, ◌≡◌, Bool, false, List, [], ◌∷◌, arith, ok, leb, All, Member, inl, inr, ◌⊎◌, ◌↔◌,
  Bool-cases, lookup, some, string_eq, >>=-eq-ok, sym, subst,
}
use cf_open_agents_api.Machine.Types.{
  State, StateSpec, Due, Deadline, undefined, not_finite, at_time, Machine,
}
use cf_open_agents_api.Machine.Defs.{
  defined_timers, insert_due, sort_due, derive_timers, timers, spec_of,
}

-- Each deadline is at most those after it.
abbrev pub IsSorted : List Due → Type 0
IsSorted [] = Unit {0}
IsSorted (d ∷ ds) = All (λ x. d.time ≤ x.time) ds × IsSorted ds

All-insert_due :
    (P : Due → Type 0) (d : Due) (ds : List Due) → P d → All P ds → All P (insert_due d ds)
unfolding insert_due
All-insert_due P d [] p h = (p, tt)
All-insert_due P d (x ∷ xs) p h = elim (Bool-cases (leb d.time x.time)) [
  | inl e ↦ rw e (p, h)
  | inr e ↦ rw e (h.0, All-insert_due P d xs p h.1)
]

All_le_trans :
    (a b : ℕ) (ds : List Due) → a ≤ b → All (λ x. b ≤ x.time) ds → All (λ x. a ≤ x.time) ds
All_le_trans a b [] h p = tt
All_le_trans a b (x ∷ xs) h p = (omega arith, All_le_trans a b xs h p.1)

insert_due-IsSorted : (d : Due) (ds : List Due) → IsSorted ds → IsSorted (insert_due d ds)
unfolding insert_due
insert_due-IsSorted d [] h = (tt, tt)
insert_due-IsSorted d (x ∷ xs) h = elim (Bool-cases (leb d.time x.time)) [
  | inl e ↦ rw e ((ground arith, All_le_trans d.time x.time xs (ground arith) h.0), h)
  | inr e ↦
      rw e (
        All-insert_due (λ y. x.time ≤ y.time) d xs (ground arith) h.0,
        insert_due-IsSorted d xs h.1,
      )
]

sort_due-IsSorted : (ds : List Due) → IsSorted (sort_due ds)
unfolding sort_due
sort_due-IsSorted [] = tt
sort_due-IsSorted (d ∷ ds) = insert_due-IsSorted d (sort_due ds) (sort_due-IsSorted ds)

Member-insert_due : (a d : Due) (ds : List Due) → (a ≡ d) ⊎ Member a ds → Member a (insert_due d ds)
unfolding insert_due
Member-insert_due a d [] h = h
Member-insert_due a d (x ∷ xs) h = ground (arith, Member-insert_due a d xs)

Member-sort_due : (a : Due) (ds : List Due) → Member a ds → Member a (sort_due ds)
unfolding sort_due
Member-sort_due a [] h = h
Member-sort_due a (d ∷ ds) (inl e) = Member-insert_due a d (sort_due ds) (inl e)
Member-sort_due a (d ∷ ds) (inr h) =
    Member-insert_due a d (sort_due ds) (inr (Member-sort_due a ds h))

Member-of_insert_due :
    (a d : Due) (ds : List Due) → Member a (insert_due d ds) → (a ≡ d) ⊎ Member a ds
unfolding insert_due
Member-of_insert_due a d [] h = h
Member-of_insert_due a d (x ∷ xs) h = ground (arith, Member-of_insert_due a d xs)

Member-of_sort_due : (a : Due) (ds : List Due) → Member a (sort_due ds) → Member a ds
unfolding sort_due
Member-of_sort_due a [] h = h
Member-of_sort_due a (d ∷ ds) h =
    ground (arith, Member-of_insert_due a d (sort_due ds) h, Member-of_sort_due a ds)

-- The deadlines that are defined, as they stand in what the timers' function returned.
Member-defined_timers :
    (a : Due) (entries : List (String × Deadline)) (ds : List Due)
    → defined_timers entries ≡ ok ds
    → Member (a.event, at_time a.time) entries
    → Member a ds
unfolding defined_timers
Member-defined_timers a [] ds h m = elim m [ ]
Member-defined_timers a ((event, undefined) ∷ rest) ds h m =
    ground (arith, Member-defined_timers a rest ds h)
Member-defined_timers a ((event, not_finite) ∷ rest) ds h m = cc
Member-defined_timers a ((event, at_time t) ∷ rest) ds h m =
    let (later, e, eq) = >>=-eq-ok (defined_timers rest) _ h in
    ground (arith, Member-defined_timers a rest later e)

Member-of_defined_timers :
    (a : Due) (entries : List (String × Deadline)) (ds : List Due)
    → defined_timers entries ≡ ok ds
    → Member a ds
    → Member (a.event, at_time a.time) entries
unfolding defined_timers
Member-of_defined_timers a [] ds h m = ground arith
Member-of_defined_timers a ((event, undefined) ∷ rest) ds h m =
    inr (Member-of_defined_timers a rest ds h m)
Member-of_defined_timers a ((event, not_finite) ∷ rest) ds h m = cc
Member-of_defined_timers a ((event, at_time t) ∷ rest) ds h m =
    let (later, e, eq) = >>=-eq-ok (defined_timers rest) _ h in
    ground (arith, Member-of_defined_timers a rest later e)

module _ {D P C F : Type 0} (m : Machine D P C F) where
  timers_lem :
      (s : State D) (derive : D → List (String × Deadline)) (ds : List Due)
      → lookup s.tag m.implementation.timers ≡ some derive
      → timers m s ≡ ok ds
      → (spec : StateSpec D) × (lookup s.tag m.definition.states ≡ some spec)
        × (derive_timers spec.terminal s.content derive ≡ ok ds)
  unfolding timers spec_of
  timers_lem s derive ds found h = ground arith

  derive_timers_lem :
      (dead : Bool) (content : D) (derive : D → List (String × Deadline)) (ds : List Due)
      → dead ≡ false
      → derive_timers dead content derive ≡ ok ds
      → (due : List Due) × (defined_timers (derive content) ≡ ok due) × (ds ≡ sort_due due)
  unfolding derive_timers
  derive_timers_lem dead content derive ds live h = ground arith

  -- The timers of a live state are exactly the deadlines that its data defines, earliest first.
  pub timers_exact :
      (s : State D) (derive : D → List (String × Deadline)) (spec : StateSpec D) (ds : List Due)
      (a : Due)
      → lookup s.tag m.implementation.timers ≡ some derive
      → lookup s.tag m.definition.states ≡ some spec
      → spec.terminal ≡ false
      → timers m s ≡ ok ds
      → IsSorted ds × (Member a ds ↔ Member (a.event, at_time a.time) (derive s.content))
  timers_exact s derive spec ds a found source live h =
      let (spec', source', h1) = timers_lem s derive ds found h in
      let live' : spec'.terminal ≡ false = cc in
      let (due, h2, sorted) = derive_timers_lem spec'.terminal s.content derive ds live' h1 in
      (
        rw sorted (sort_due-IsSorted due),
        (
          λ m.
              Member-of_defined_timers a _ due h2
                (Member-of_sort_due a due (subst (Member a) sorted m)),
          λ m.
              subst (Member a) (sym sorted)
                (Member-sort_due a due (Member-defined_timers a _ due h2 m)),
        ),
      )
