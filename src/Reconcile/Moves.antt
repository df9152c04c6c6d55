-- ===== src/Reconcile/Moves.antt =====
-- session-reconcile.ts: what the effects of a tick may do, whatever the runtime answers. A write
-- finds the record at the tick's execution, a poll waits within the tick's bounds, and the polls are
-- counted.
use cf_open_agents_api.Prelude.{
  ℕ, ◌+◌, ◌≤◌, ◌≡◌, refl, Bool, false, ◌⊎◌, true, List, [], ◌∷◌, All, Result, ok, err, arith,
}
use cf_open_agents_api.Errors.Domain.{DomainError}
use cf_open_agents_api.Errors.Boundary.{Thrown}
use cf_open_agents_api.Turns.State.{TurnExecution, Live}
use cf_open_agents_api.Reconcile.Tick.{
  Request, Asked, Written, World, Tick, pure, fail, bound, ◌>>=◌, rescued, catch_tags, current_time,
  Answer, call, is_current, read_fenced, committed, admitted, admitted_row, fenced, SessionRow,
  row_there, row_absent, row_faulty,
}

-- How many of the requests are polls.
abbrev pub polls_of : List Asked → ℕ
polls_of [] = 0
polls_of (a ∷ asked) = elim a.request [ Request.poll after wait ↦ 1 | _ ↦ 0 ] + polls_of asked

-- The record was there and stood at the execution when the store was written.
abbrev pub FencedWrite : TurnExecution → Written → Type 0
FencedWrite execution written =
    (written.row ≡ row_there) × (is_current execution written.before.stored ≡ true)

module _ (execution : TurnExecution) (budget_end : ℕ) where
  -- A poll waits for at most 25 seconds, and only where it ends half a second before the tick's budget
  -- and before the turn's deadline.
  abbrev pub InBounds : Request → ℕ → Type 0
  InBounds (Request.poll after wait) at =
      (wait ≤ 25000)
      × ((wait ≡ 0) ⊎ ((at + wait + 500 ≤ budget_end) × (at + wait + 500 ≤ execution.deadline)))
  InBounds _ at = Unit

  abbrev pub BoundedRequest : Asked → Type 0
  BoundedRequest asked = InBounds asked.request asked.at

  -- What an effect with at most `n` polls makes of the world.
  pub record Moves (n : ℕ) (w w' : World) : Type 0 where
    pub writes : All (FencedWrite execution) w.writes → All (FencedWrite execution) w'.writes
    pub bounds : All BoundedRequest w.asked → All BoundedRequest w'.asked
    pub polls : polls_of w'.asked ≤ polls_of w.asked + n

  pub record Moved {A : Type 0} (n : ℕ) (m : Tick A) : Type 0 where
    pub moves : (w : World) → Moves n w (m w).1

  pub stays : (n : ℕ) (w : World) → Moves n w w
  stays n w = record { writes = λ h. h; bounds = λ h. h; polls = omega arith }

  pub Moves-trans : (n m : ℕ) {u v w : World} → Moves n u v → Moves m v w → Moves (n + m) u w
  Moves-trans n m p q = record {
    writes = λ h. q.writes (p.writes h);
    bounds = λ h. q.bounds (p.bounds h);
    polls = omega (arith, p.polls, q.polls);
  }

  pub Moved-more : {A : Type 0} (n m : ℕ) (t : Tick A) → n ≤ m → Moved n t → Moved m t
  Moved-more n m t le p = record {
    moves = λ w.
        let q = p.moves w in
        record { writes = q.writes; bounds = q.bounds; polls = omega (arith, q.polls) };
  }

  pub pure-Moved : {A : Type 0} (a : A) → Moved 0 (pure a)
  unfolding pure
  pure-Moved a = record { moves = stays 0 }

  pub fail-Moved : {A : Type 0} (e : DomainError) → Moved 0 (fail {A = A} e)
  unfolding fail
  fail-Moved e = record { moves = stays 0 }

  pub current_time-Moved : Moved 0 current_time
  unfolding current_time
  current_time-Moved = record { moves = stays 0 }

  pub bound-Moves :
      {A B : Type 0} (m : ℕ) (next : A → Tick B) (r : Result DomainError A) (w : World)
      → ((a : A) → Moved m (next a))
      → Moves m w (bound next r w).1
  bound-Moves m next (ok a) w p = (p a).moves w
  bound-Moves m next (err e) w p = stays m w

  pub >>=-Moved :
      {A B : Type 0} (n m : ℕ) (first : Tick A) (next : A → Tick B)
      → Moved n first
      → ((a : A) → Moved m (next a))
      → Moved (n + m) (first >>= next)
  unfolding ◌>>=◌
  >>=-Moved n m first next p q = record {
    moves = λ w. Moves-trans n m (p.moves w) (bound-Moves m next (first w).0 (first w).1 q);
  }

  pub rescued-Moves :
      {A : Type 0} (m : ℕ) (handler : DomainError → Tick A) (r : Result DomainError A) (w : World)
      → ((e : DomainError) → Moved m (handler e))
      → Moves m w (rescued handler r w).1
  rescued-Moves m handler (ok a) w p = stays m w
  rescued-Moves m handler (err e) w p = (p e).moves w

  pub catch_tags-Moved :
      {A : Type 0} (n m : ℕ) (first : Tick A) (handler : DomainError → Tick A)
      → Moved n first
      → ((e : DomainError) → Moved m (handler e))
      → Moved (n + m) (catch_tags first handler)
  unfolding catch_tags
  catch_tags-Moved n m first handler p q = record {
    moves = λ w. Moves-trans n m (p.moves w) (rescued-Moves m handler (first w).0 (first w).1 q);
  }

  pub read_fenced-Moved : Moved 0 (read_fenced execution)
  unfolding read_fenced
  read_fenced-Moved = record { moves = stays 0 }

  committed-Moves :
      {A : Type 0} (w : World) (r : Result DomainError (A × Live))
      → w.session_row ≡ row_there
      → is_current execution w.live.stored ≡ true
      → Moves 0 w (committed w r).1
  committed-Moves w (ok (a, after)) there h = record {
    writes = λ p. ((there, h), p);
    bounds = λ p. p;
    polls = omega arith;
  }
  committed-Moves w (err e) there h = stays 0 w

  admitted-Moves :
      {A : Type 0} (f : World → Result DomainError (A × Live)) (w : World) (b : Bool)
      → w.session_row ≡ row_there
      → is_current execution w.live.stored ≡ b
      → Moves 0 w (committed w (admitted execution f b w)).1
  admitted-Moves f w true there h = committed-Moves w (f w) there h
  admitted-Moves f w false there h = stays 0 w

  row_Moves :
      {A : Type 0} (f : World → Result DomainError (A × Live)) (w : World) (row : SessionRow)
      → w.session_row ≡ row
      → Moves 0 w (committed w (admitted_row execution f row w)).1
  row_Moves f w row_there h = admitted-Moves f w (is_current execution w.live.stored) h refl
  row_Moves f w row_absent h = stays 0 w
  row_Moves f w (row_faulty e) h = stays 0 w

  fenced-Moves :
      {A : Type 0} (f : World → Result DomainError (A × Live)) (w : World)
      → Moves 0 w (fenced execution f w).1
  unfolding fenced
  fenced-Moves f w = row_Moves f w w.session_row refl

  pub fenced-Moved :
      {A : Type 0} (f : World → Result DomainError (A × Live)) → Moved 0 (fenced execution f)
  fenced-Moved f = record { moves = fenced-Moves f }

  pub call-Moves :
      {A : Type 0} (n : ℕ) (request : Request) (f : World → Answer A) (g : Thrown → DomainError)
      (w : World)
      → InBounds request w.now
      → polls_of (record { request = request; at = w.now } ∷ w.asked) ≤ polls_of w.asked + n
      → Moves n w (call request f g w).1
  unfolding call
  call-Moves n request f g w h c = record { writes = λ p. p; bounds = λ p. (h, p); polls = c }
