-- ===== src/Store/Outbox.antt =====
-- store.ts: the identifiers of the outbox, and what an operation does to an entry.
use cf_open_agents_api.Prelude.{
  ℕ, ◌<◌, ◌≡◌, ◌≢◌, String, Bool, true, not, List, [], ◌∷◌, ◌++◌, map, arith, ◌==◌, nat_eq,
  string_eq, filter, All, Member, All-append, All-map_of, All-filter, Member-filter,
  Member-append_left, Member-map, refl, inl, inr, Bool-cases,
}
use cf_open_agents_api.Store.Memory.{
  Memory, OutboxEntry, NewEntry, set_attempt, save, enqueue, remove, reschedule,
}
use cf_open_agents_api.Store.Keeps.{Closed}

-- Identifiers grow along the list.
abbrev pub Increasing : {J : Type 0} → List (OutboxEntry J) → Type 0
Increasing [] = Unit {0}
Increasing (x ∷ xs) = All (λ y. x.id < y.id) xs × Increasing xs

-- Identifiers grow in enqueue order and lie below the next one, so that none is used twice.
pub record IsOrdered {J : Type 0} (s : Memory J) : Type 0 where
  pub fresh : All (λ x. x.id < s.next) s.entries
  pub increasing : Increasing s.entries

module _ {J : Type 0} where
  Increasing-append :
      (xs : List (OutboxEntry J)) (x : OutboxEntry J)
      → Increasing xs
      → All (λ y. y.id < x.id) xs
      → Increasing (xs ++ x ∷ [])
  Increasing-append [] x h b = (tt, tt)
  Increasing-append (y ∷ ys) x h b =
      (All-append _ ys (x ∷ []) h.0 (b.0, tt), Increasing-append ys x h.1 b.1)

  Increasing-filter :
      (p : OutboxEntry J → Bool) (xs : List (OutboxEntry J))
      → Increasing xs
      → Increasing (filter p xs)
  Increasing-filter p [] h = tt
  Increasing-filter p (x ∷ xs) h = elim (Bool-cases (p x)) [
    | inl e ↦ rw e (All-filter _ p xs h.0, Increasing-filter p xs h.1)
    | inr e ↦ rw e (Increasing-filter p xs h.1)
  ]

  set_attempt_id :
      (id attempts due : ℕ) (e : OutboxEntry J) → (set_attempt id attempts due e).id ≡ e.id
  set_attempt_id id attempts due e = ground arith

  All-set_attempt :
      (P : ℕ → Type 0) (id attempts due : ℕ) (xs : List (OutboxEntry J))
      → All (λ x. P x.id) xs
      → All (λ x. P x.id) (map (set_attempt id attempts due) xs)
  All-set_attempt P id attempts due [] h = tt
  All-set_attempt P id attempts due (x ∷ xs) h =
      (rw (set_attempt_id id attempts due x) h.0, All-set_attempt P id attempts due xs h.1)

  Increasing-set_attempt :
      (id attempts due : ℕ) (xs : List (OutboxEntry J))
      → Increasing xs
      → Increasing (map (set_attempt id attempts due) xs)
  Increasing-set_attempt id attempts due [] h = tt
  Increasing-set_attempt id attempts due (x ∷ xs) h = (
    rw (set_attempt_id id attempts due x) (All-set_attempt (λ n. x.id < n) id attempts due xs h.0),
    Increasing-set_attempt id attempts due xs h.1,
  )

  enqueue-IsOrdered :
      (k : String) (e : NewEntry J) (s : Memory J) → IsOrdered s → IsOrdered (enqueue k e s)
  unfolding enqueue
  enqueue-IsOrdered k e s h = record {
    fresh =
        All-append _ s.entries _ (All-map_of (λ x p. omega arith) s.entries h.fresh)
          (omega arith, tt);
    increasing = Increasing-append s.entries _ h.increasing h.fresh;
  }

  pub IsOrdered-Closed : Closed {J = J} IsOrdered (λ id. Unit {0})
  unfolding save remove reschedule
  IsOrdered-Closed = record {
    closed_save = λ k v s h. record { fresh = h.fresh; increasing = h.increasing };
    closed_enqueue = enqueue-IsOrdered;
    closed_remove = λ id s _ h. record {
      fresh = All-filter _ _ s.entries h.fresh;
      increasing = Increasing-filter _ s.entries h.increasing;
    };
    closed_reschedule = λ id attempts due s h. record {
      fresh = All-set_attempt (λ n. n < s.next) id attempts due s.entries h.fresh;
      increasing = Increasing-set_attempt id attempts due s.entries h.increasing;
    };
  }

  -- Two entries for one command: they differ at most in the attempt's number and time.
  pub record SameCommand (x y : OutboxEntry J) : Type 0 where
    pub same_id : x.id ≡ y.id
    pub same_machine : x.machine ≡ y.machine
    pub same_command : x.command ≡ y.command
    pub same_epoch : x.epoch ≡ y.epoch
    pub same_release : x.release ≡ y.release

  set_attempt-SameCommand :
      (id attempts due : ℕ) (x y : OutboxEntry J)
      → SameCommand x y
      → SameCommand (set_attempt id attempts due x) y
  set_attempt-SameCommand id attempts due x y h = elim (Bool-cases (x.id == id)) [
    | inl e ↦ rw e (record {
      same_id = h.same_id;
      same_machine = h.same_machine;
      same_command = h.same_command;
      same_epoch = h.same_epoch;
      same_release = h.same_release;
    })
    | inr e ↦ rw e h
  ]

  -- The command of an entry is in the outbox.
  pub record Retains (e : OutboxEntry J) (s : Memory J) : Type 0 where
    pub entry : OutboxEntry J
    pub inside : Member entry s.entries
    pub same : SameCommand entry e

  pub Member-Retains : (e : OutboxEntry J) (s : Memory J) → Member e s.entries → Retains e s
  Member-Retains e s h = record {
    entry = e;
    inside = h;
    same = record {
      same_id = refl;
      same_machine = refl;
      same_command = refl;
      same_epoch = refl;
      same_release = refl;
    };
  }

  -- A command is retained by every write but the removal of its own identifier.
  pub Retains-Closed : (e : OutboxEntry J) → Closed (Retains e) (λ id. id ≢ e.id)
  unfolding save enqueue remove reschedule
  Retains-Closed e = record {
    closed_save = λ k v s h. record { entry = h.entry; inside = h.inside; same = h.same };
    closed_enqueue = λ k n s h. record {
      entry = h.entry;
      inside = Member-append_left h.entry s.entries _ h.inside;
      same = h.same;
    };
    closed_remove = λ id s other h. record {
      entry = h.entry;
      inside =
          Member-filter _ h.entry s.entries h.inside (unlike id h.entry.id other h.same.same_id);
      same = h.same;
    };
    closed_reschedule = λ id attempts due s h. record {
      entry = set_attempt id attempts due h.entry;
      inside = Member-map (set_attempt id attempts due) h.entry s.entries h.inside;
      same = set_attempt-SameCommand id attempts due h.entry e h.same;
    };
  }
    where
      unlike : (id own : ℕ) → id ≢ e.id → own ≡ e.id → not (own == id) ≡ true
      unlike id own other same = ground arith
