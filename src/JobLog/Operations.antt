-- ===== src/JobLog/Operations.antt =====
-- lifecycle.ts, `Operations`: the outcome of an operation is kept, and a repeated call is answered
-- from it. An operation's effect is a function of the outside `W`; calls come one after another, so
-- the memo of `Effect.cached` holds the outcome when `perform` returns.
use cf_open_agents_api.Prelude.{
  String, ◌≡◌, ◌≢◌, none, some, List, [], ◌∷◌, Result, ok, err, if◌then◌else◌, ◌==◌, string_eq,
  eq_iff, lookup, insert, lookup-insert, lookup-insert_self, arith, refl, sym, ap, ◌∙◌,
  Option-cases, inl, inr, Bool-cases,
}

-- An entry: the canonical JSON of the first input, and the outcome of the first effect.
pub record Entry (F : Type 0) : Type 0 where
  pub fingerprint : String
  pub outcome : Result F (Unit {0})

pub data PerformError (F : Type 0) : Type 0 where
  idempotency_conflict : PerformError F
  operation_failed : F → PerformError F

pub record Operations (F W : Type 0) : Type 0 where
  pub entries : List (String × Entry F)
  pub outside : W

abbrev pub answer : {F : Type 0} → Result F (Unit {0}) → Result (PerformError F) (Unit {0})
answer (ok u) = ok u
answer (err f) = err (operation_failed f)

-- `perform` of an identifier that has an entry.
abbrev pub repeated : {F : Type 0} → String → Entry F → Result (PerformError F) (Unit {0})
repeated fingerprint entry =
    if entry.fingerprint == fingerprint then answer entry.outcome else err idempotency_conflict

-- A call of `perform`.
pub record Request (F W : Type 0) : Type 0 where
  pub id : String
  pub fingerprint : String
  pub effect : W → Result F (Unit {0}) × W

repeated_same :
    {F : Type 0} (entry : Entry F) → repeated entry.fingerprint entry ≡ answer entry.outcome
repeated_same entry = ground (arith, eq_iff entry.fingerprint entry.fingerprint)

repeated_other :
    {F : Type 0} (entry : Entry F) (other : String)
    → entry.fingerprint ≢ other
    → repeated other entry ≡ err idempotency_conflict
repeated_other entry other differs = ground (arith, eq_iff entry.fingerprint other)

module _ {F W : Type 0} where
  -- `perform(id, input, effect)`, with the input's fingerprint.
  unfoldable pub perform :
      String
      → String
      → (W → Result F (Unit {0}) × W)
      → Operations F W
      → Result (PerformError F) (Unit {0}) × Operations F W
  perform id fingerprint effect s = elim (lookup id s.entries) [
    | some entry ↦ (repeated fingerprint entry, s)
    | none ↦
        let ran = effect s.outside in
        (
          answer ran.0,
          record {
            entries = insert id (record { fingerprint = fingerprint; outcome = ran.0 }) s.entries;
            outside = ran.1;
          },
        )
  ]

  unfoldable pub performs : List (Request F W) → Operations F W → Operations F W
  performs [] s = s
  performs (r ∷ rs) s = performs rs (perform r.id r.fingerprint r.effect s).1

  -- An entry is never replaced.
  perform_keeps :
      (id : String) (entry : Entry F) (r : Request F W) (s : Operations F W)
      → lookup id s.entries ≡ some entry
      → lookup id (perform r.id r.fingerprint r.effect s).1.entries ≡ some entry
  unfolding perform
  perform_keeps id entry r s h = elim (Option-cases (lookup r.id s.entries)) [
    | inr (other, e) ↦ rw (e, perform) h
    | inl e ↦ elim (Bool-cases (r.id == id)) [
      | inl same ↦ absurd (cc (ap (λ k. lookup k s.entries) ((eq_iff r.id id).0 same), e, h))
      | inr apart ↦ rw (e, perform) (lookup-insert r.id id _ s.entries ∙ ground (arith, apart, h))
    ]
  ]

  performs_keep :
      (id : String) (entry : Entry F) (rs : List (Request F W)) (s : Operations F W)
      → lookup id s.entries ≡ some entry
      → lookup id (performs rs s).entries ≡ some entry
  unfolding performs
  performs_keep id entry [] s h = h
  performs_keep id entry (r ∷ rs) s h = performs_keep id entry rs _ (perform_keeps id entry r s h)

  perform_first :
      (id fingerprint : String) (effect : W → Result F (Unit {0}) × W) (s : Operations F W)
      → lookup id s.entries ≡ none
      → lookup id (perform id fingerprint effect s).1.entries
        ≡ some (record { fingerprint = fingerprint; outcome = (effect s.outside).0 })
  unfolding perform
  perform_first id fingerprint effect s h = rw (h, perform) (lookup-insert_self id _ s.entries)

  perform_again :
      (id fingerprint : String) (effect : W → Result F (Unit {0}) × W) (s : Operations F W)
      (entry : Entry F)
      → lookup id s.entries ≡ some entry
      → perform id fingerprint effect s ≡ (repeated fingerprint entry, s)
  unfolding perform
  perform_again id fingerprint effect s entry h = rw (h, perform) refl

  perform-answer :
      (id fingerprint : String) (effect : W → Result F (Unit {0}) × W) (s : Operations F W)
      → lookup id s.entries ≡ none
      → (perform id fingerprint effect s).0 ≡ answer (effect s.outside).0
  unfolding perform
  perform-answer id fingerprint effect s h = rw (h, perform) refl

  -- A repeated operation is answered with its first outcome, a failure too, and its effect does not
  -- run again, whatever other operations come between; with another input it is refused, and
  -- nothing runs either.
  pub replays :
      (id fingerprint other : String) (effect again : W → Result F (Unit {0}) × W)
      (rs : List (Request F W)) (s : Operations F W)
      → lookup id s.entries ≡ none
      → fingerprint ≢ other
      → let first = perform id fingerprint effect s in
        let later = performs rs first.1 in
        (perform id fingerprint again later ≡ (first.0, later))
        × (perform id other again later ≡ (err idempotency_conflict, later))
  replays id fingerprint other effect again rs s new differs =
      let first = perform id fingerprint effect s in
      let entry : Entry F = record { fingerprint = fingerprint; outcome = (effect s.outside).0 } in
      let kept = performs_keep id entry rs first.1 (perform_first id fingerprint effect s new) in
      let later = performs rs first.1 in
      (
        perform_again id fingerprint again later entry kept
            ∙ ap (λ a. (a, later))
                (repeated_same entry ∙ sym (perform-answer id fingerprint effect s new)),
        perform_again id other again later entry kept
            ∙ ap (λ a. (a, later)) (repeated_other entry other differs),
      )
