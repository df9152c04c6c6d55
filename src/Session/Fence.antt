-- ===== src/Session/Fence.antt =====
-- persistence/session-tx.ts: what a fenced record is, and what every stored record is.
use cf_open_agents_api.Prelude.{
  ◌≡◌, inl, inr, true, false, Option, none, some, Result, ok, err, arith, refl, sym, ap, ◌∙◌,
  nat_eq, string_eq, nat_beq_iff, eq_iff, Bool-cases, Option-cases, Result-cases,
}
use cf_open_agents_api.Session.Record.{
  Execution, SessionRecord, SessionError, migrate, is_valid, runs, upgraded,
}
use cf_open_agents_api.Session.Tx.{
  Rows, Sizes, Tx, and_then, answers, write, put_session, admit_record, read_record, stored_session,
  session, matching, same_execution, fenced,
}

pub and_then_ok :
    {W A B : Type 0} (m : Tx W A) (f : A → Tx W B) (s t : W) (a : A)
    → m s ≡ (ok a, t)
    → and_then m f s ≡ f a t
unfolding and_then
and_then_ok {W} {A} {B} m f s t a h =
    ap (λ z. elim z.0 as (λ _. Result SessionError B × W) [ err e ↦ (err e, z.1) | ok x ↦ f x z.1 ])
      h

module _ {R X E S : Type 0} where
  -- A stored record whose execution and phase agree.
  pub record IsConsistent (s : Rows R X E S) : Type 0 where
    pub consistent : (r : SessionRecord R X E S) → s.session ≡ some r → is_valid r ≡ true

  upgraded_valid : (r : SessionRecord R X E S) → is_valid (upgraded r) ≡ is_valid r
  unfolding is_valid
  upgraded_valid r = elim (Option-cases r.execution) [ inl e ↦ rw e refl | inr (x, e) ↦ rw e refl ]

  -- Migration changes neither what `validate` reads, nor whether the session is deleted.
  pub migrate_keeps :
      (r t : SessionRecord R X E S)
      → migrate r ≡ ok t
      → (is_valid t ≡ is_valid r)
        × (t.deleted ≡ r.deleted)
        × (t.session ≡ r.session)
        × (t.generation ≡ r.generation)
        × (t.phase ≡ r.phase)
  unfolding migrate
  migrate_keeps r t h = ground (arith, upgraded_valid r)

  valid_execution :
      (r : SessionRecord R X E S) (x : Execution R X)
      → is_valid r ≡ true
      → r.execution ≡ some x
      → (runs r.phase ≡ true) × (x.generation ≡ r.generation) × (x.session_id ≡ r.session.id)
  unfolding is_valid
  valid_execution r x h e =
      let found = rw (e, is_valid) at h in
      ground (arith, found, nat_beq_iff x.generation r.generation, eq_iff x.session_id r.session.id)

module _ {R X E S : Type 0} (sizes : Sizes R X E S) where
  admit_record_lem :
      (original r t : SessionRecord R X E S) (s : Rows R X E S)
      → (admit_record sizes original r s).0 ≡ ok (some t)
      → (r ≡ t) × (is_valid r ≡ true)
  unfolding admit_record and_then put_session write
  admit_record_lem original r t s h = ground arith

  pub session_some :
      (stored : SessionRecord R X E S) (s : Rows R X E S)
      → s.session ≡ some stored
      → session sizes s ≡ read_record sizes stored s
  unfolding session stored_session
  session_some stored s e = ap (λ o. stored_session sizes o s) e

  pub read_record_ok :
      (stored r : SessionRecord R X E S) (s : Rows R X E S)
      → migrate stored ≡ ok r
      → read_record sizes stored s ≡ admit_record sizes stored r s
  unfolding read_record
  read_record_ok stored r s m = rw (m, read_record) refl

  -- What `session()` returns is the migrated stored record, and it is valid.
  pub session_lem :
      (s : Rows R X E S) (r : SessionRecord R X E S)
      → (session sizes s).0 ≡ ok (some r)
      → ((stored : SessionRecord R X E S) × (s.session ≡ some stored) × (migrate stored ≡ ok r))
        × (is_valid r ≡ true)
  unfolding session stored_session read_record
  session_lem s r h = elim (Option-cases s.session) [
    | inl e ↦ absurd (ground arith)
    | inr (stored, e) ↦ elim (Result-cases (migrate stored)) [
      | inr (x, m) ↦ absurd (ground arith)
      | inl (t, m) ↦
          let read = read_record_ok stored t s m in
          let (same, valid) =
            admit_record_lem stored t r s
              (ap (λ z. z.0) (sym read) ∙ ap (λ z. z.0) (sym (session_some stored s e)) ∙ h) in
          ((stored, e, m ∙ ap ok same), ap is_valid (sym same) ∙ valid)
    ]
  ]

  and_then_answers :
      {A B : Type 0} (m : Tx (Rows R X E S) A) (f : A → Result SessionError B) (s : Rows R X E S)
      (b : B)
      → (and_then m (λ a. answers (f a)) s).0 ≡ ok b
      → (a : A) × ((m s).0 ≡ ok a) × (f a ≡ ok b)
  unfolding and_then
  and_then_answers m f s b h = ground arith

  same_execution_lem :
      (o : Option (Execution R X)) (x : Execution R X)
      → same_execution o x ≡ true
      → (y : Execution R X) × (o ≡ some y) × (y.generation ≡ x.generation) × (y.turn_id ≡ x.turn_id)
  same_execution_lem none x h = cc
  same_execution_lem (some y) x h =
      let ids : (y.generation ≡ x.generation) × (y.turn_id ≡ x.turn_id) =
        ground (arith, nat_beq_iff y.generation x.generation, eq_iff y.turn_id x.turn_id) in
      (y, refl, ids.0, ids.1)

  matching_lem :
      (x : Execution R X) (found : Option (SessionRecord R X E S)) (r : SessionRecord R X E S)
      → matching x found ≡ ok r
      → (found ≡ some r)
        × (r.deleted ≡ false)
        × ((y : Execution R X) × (r.execution ≡ some y)
            × (y.generation ≡ x.generation)
            × (y.turn_id ≡ x.turn_id))
  matching_lem x none r h = cc
  matching_lem x (some t) r h = elim (Bool-cases (same_execution t.execution x)) [
    | inr e ↦ absurd (ground arith)
    | inl e ↦
        let this : t ≡ r = ground arith in
        let kept : t.deleted ≡ false = ground arith in
        rw this (
          refl,
          ap (λ z. z.deleted) (sym this) ∙ kept,
          same_execution_lem r.execution x (ap (λ z. same_execution z.execution x) (sym this) ∙ e),
        )
  ]

  -- `fenced` certifies only the stored record, migrated and valid, of a session that is not
  -- deleted and that runs the very execution it was asked for: the turn and the generation are those
  -- of its execution, the generation is also the record's, and the phase is one of a running turn.
  pub fenced_is_current :
      (x : Execution R X) (s : Rows R X E S) (r : SessionRecord R X E S)
      → (fenced sizes x s).0 ≡ ok r
      → ((stored : SessionRecord R X E S) × (s.session ≡ some stored) × (migrate stored ≡ ok r))
        × (r.deleted ≡ false)
        × (runs r.phase ≡ true)
        × (r.generation ≡ x.generation)
        × ((y : Execution R X) × (r.execution ≡ some y)
            × (y.generation ≡ x.generation)
            × (y.turn_id ≡ x.turn_id)
            × (y.session_id ≡ r.session.id))
  unfolding fenced
  fenced_is_current x s r h =
      let (found, read, matched) = and_then_answers (session sizes) (matching x) s r h in
      let (this, live, (y, runs_it, generation, turn)) = matching_lem x found r matched in
      let (stored, valid) = session_lem s r (read ∙ ap ok this) in
      let (phase, same, id) = valid_execution r y valid runs_it in
      (stored, live, phase, sym same ∙ generation, (y, runs_it, generation, turn, id))
