-- ===== src/Session/Deletion.antt =====
-- session-state.ts, `markDeleted` and `purgeRecords`: a deletion is final, and can be tried again.
use cf_open_agents_api.Prelude.{
  String, ◌≡◌, Bool, true, false, Option, none, some, [], ok, err, arith, refl, sym, subst, ap, ◌∙◌,
  Option-cases, Result-cases, inl, inr, ltb, ◌==◌, nat_eq, string_eq, nat_beq_iff,
}
use cf_open_agents_api.Session.Record.{
  Execution, SessionRecord, session_not_found, superseded, migrate, is_valid, is_current,
}
use cf_open_agents_api.Session.Tx.{
  Rows, Sizes, and_then, answers, write, put_session, admit_record, read_record, session, present,
  require_session, save, max_row_bytes, matching, fenced,
}
use cf_open_agents_api.Session.Transitions.{
  Deleted, delete_record, delete_stored, mark_deleted, purge, purge_as, known_id, is_live,
  purge_records,
}
use cf_open_agents_api.Session.Fence.{session_some, read_record_ok, and_then_ok}

module _ {R X E S : Type 0} where
  migrate_version : (r t : SessionRecord R X E S) → migrate r ≡ ok t → t.schema_version ≡ some 2
  unfolding migrate
  migrate_version r t h = elim (Option-cases r.schema_version) [
    | inl e ↦ ground arith
    | inr (v, e) ↦ ground (arith, nat_beq_iff v 2)
  ]

module _ {R X E S : Type 0} (sizes : Sizes R X E S) where
  delete_record_lem :
      (r : SessionRecord R X E S) (s : Rows R X E S) (d : Deleted)
      → (delete_record sizes r s).0 ≡ ok d
      → (r.execution ≡ none)
        × (d.id ≡ r.session.id)
        × (is_valid (record r { deleted = true }) ≡ true)
        × ((delete_record sizes r s).1 ≡ record s { session = some (record r { deleted = true }) })
  unfolding delete_record save put_session write and_then
  delete_record_lem r s d h = elim (Option-cases r.execution) [
    | inr (x, e) ↦ absurd (ground arith)
    | inl e ↦ ground arith
  ]

  delete_stored_lem :
      (stored : SessionRecord R X E S) (s : Rows R X E S) (d : Deleted)
      → (delete_stored sizes (some stored) s).0 ≡ ok d
      → (r : SessionRecord R X E S) × (migrate stored ≡ ok r)
        × ((delete_record sizes r s).0 ≡ ok d)
        × ((delete_stored sizes (some stored) s).1 ≡ (delete_record sizes r s).1)
  unfolding delete_stored and_then
  delete_stored_lem stored s d h = elim (Result-cases (migrate stored)) [
    | inr (x, e) ↦ absurd (ground arith)
    | inl (r, e) ↦
        let same =
          and_then_ok (answers (migrate stored)) (delete_record sizes) s s r (ap (λ z. (z, s)) e) in
        (r, e, ap (λ z. z.0) (sym same) ∙ h, ap (λ z. z.1) same)
  ]

  -- A record as `markDeleted` leaves it.
  record IsDeleted (dead : SessionRecord R X E S) : Type 0 where
    marked : dead.deleted ≡ true
    current : dead.schema_version ≡ some 2
    valid : is_valid dead ≡ true

  mark_deleted_lem :
      (stored : SessionRecord R X E S) (s : Rows R X E S) (d : Deleted)
      → s.session ≡ some stored
      → (mark_deleted sizes s).0 ≡ ok d
      → (dead : SessionRecord R X E S) × (d.id ≡ dead.session.id)
        × ((mark_deleted sizes s).1.session ≡ some dead)
        × IsDeleted dead
  unfolding mark_deleted
  mark_deleted_lem stored s d e h =
      let stored_first = ap (λ o. delete_stored sizes o s) e in
      let (r, migrated, deleted, same) =
        delete_stored_lem stored s d (ap (λ z. z.0) (sym stored_first) ∙ h) in
      let (idle, id, valid, left) = delete_record_lem r s d deleted in
      (
        record r { deleted = true },
        id,
        ap (λ z. z.1.session) stored_first ∙ ap (λ z. z.session) (same ∙ left),
        record { marked = refl; current = migrate_version stored r migrated; valid = valid },
      )

  admit_current :
      (dead : SessionRecord R X E S) (s : Rows R X E S)
      → IsDeleted dead
      → admit_record sizes dead dead s ≡ (ok (some dead), s)
  unfolding admit_record
  admit_current dead s h =
      let now : is_current dead ≡ true =
        ap (λ o. elim o as (λ _. Bool) [ none ↦ false | some v ↦ v == 2 ]) h.current in
      rw h.valid (rw now refl)

  migrate_current :
      (dead : SessionRecord R X E S) → dead.schema_version ≡ some 2 → migrate dead ≡ ok dead
  unfolding migrate
  migrate_current dead e = ground (arith, e)

  session_dead :
      (dead : SessionRecord R X E S) (s : Rows R X E S)
      → s.session ≡ some dead
      → IsDeleted dead
      → session sizes s ≡ (ok (some dead), s)
  unfolding read_record
  session_dead dead s e h =
      session_some sizes dead s e
      ∙ read_record_ok sizes dead dead s (migrate_current dead h.current)
      ∙ admit_current dead s h

  dead_absent :
      (dead : SessionRecord R X E S)
      → dead.deleted ≡ true
      → present (some dead) ≡ err session_not_found
  dead_absent dead h = rw h refl

  dead_asleep : (dead : SessionRecord R X E S) → dead.deleted ≡ true → is_live (some dead) ≡ false
  dead_asleep dead h = rw h refl

  dead_superseded :
      (x : Execution R X) (dead : SessionRecord R X E S)
      → dead.deleted ≡ true
      → matching x (some dead) ≡ err superseded
  dead_superseded x dead h = rw h refl

  -- After `markDeleted` of a stored session, `requireSession` finds no session, and `fenced` answers
  -- that every execution was superseded; neither changes a row.
  pub deletion_is_final :
      (stored : SessionRecord R X E S) (s : Rows R X E S) (d : Deleted) (x : Execution R X)
      → s.session ≡ some stored
      → (mark_deleted sizes s).0 ≡ ok d
      → let after = (mark_deleted sizes s).1 in
        (require_session sizes after ≡ (err session_not_found, after))
        × (fenced sizes x after ≡ (err superseded, after))
  unfolding require_session fenced
  deletion_is_final stored s d x e h =
      let after = (mark_deleted sizes s).1 in
      let (dead, id, left, gone) = mark_deleted_lem stored s d e h in
      let found = session_dead dead after left gone in
      (
        and_then_ok (session sizes) _ after after (some dead) found
            ∙ ap (λ o. (o, after)) (dead_absent dead gone.marked),
        and_then_ok (session sizes) _ after after (some dead) found
            ∙ ap (λ o. (o, after)) (dead_superseded x dead gone.marked),
      )

  purge_as_lem :
      (id : String) (s : Rows R X E S)
      → (purge_as sizes (some id) s).0 ≡ ok true
      → ((id == "") ≡ false)
        × ((purge_as sizes (some id) s).1 ≡ record (purge s) { tombstone = some id })
        × (ltb max_row_bytes (sizes.of_tombstone id) ≡ false)
  unfolding purge_as write and_then
  purge_as_lem id s h = ground arith

  -- The rows that a purge leaves.
  abbrev purged_rows : String → Rows R X E S
  purged_rows id = record {
    session = none;
    tombstone = some id;
    environment = none;
    rest = [];
    events = [];
  }

  purge_purged :
      (id : String)
      → (id == "") ≡ false
      → ltb max_row_bytes (sizes.of_tombstone id) ≡ false
      → purge_records sizes (purged_rows id) ≡ (ok true, purged_rows id)
  unfolding purge_records purge_as write and_then
  purge_purged id full h = ground (arith, full, h)

  mark_purged : (d : Deleted) → mark_deleted sizes (purged_rows d.id) ≡ (ok d, purged_rows d.id)
  unfolding mark_deleted delete_stored
  mark_purged d = refl

  purge_dead :
      (dead : SessionRecord R X E S) (s : Rows R X E S)
      → s.session ≡ some dead
      → dead.deleted ≡ true
      → purge_records sizes s ≡ purge_as sizes (some dead.session.id) s
  unfolding purge_records
  purge_dead dead s e h =
      let asleep : is_live s.session ≡ false = ap is_live e ∙ dead_asleep dead h in
      let known : known_id s ≡ some dead.session.id =
        ap (λ o. elim o as (λ _. Option String) [ none ↦ s.tombstone | some r ↦ some r.session.id ])
          e in
      rw asleep (ap (λ o. purge_as sizes o s) known)

  -- A deletion can be tried again: once a deleted session's records are purged, `markDeleted` gives
  -- the answer that it gave before, from the tombstone, and another purge changes nothing more. No
  -- event and no other row is left.
  pub deletion_repeats :
      (stored : SessionRecord R X E S) (s : Rows R X E S) (d : Deleted)
      → s.session ≡ some stored
      → (mark_deleted sizes s).0 ≡ ok d
      → (purge_records sizes (mark_deleted sizes s).1).0 ≡ ok true
      → let after = (purge_records sizes (mark_deleted sizes s).1).1 in
        (after ≡ record (purge s) { tombstone = some d.id })
        × (mark_deleted sizes after ≡ (ok d, after))
        × (purge_records sizes after ≡ (ok true, after))
  deletion_repeats stored s d e h purged =
      let (dead, id, left, gone) = mark_deleted_lem stored s d e h in
      let whole = purge_dead dead (mark_deleted sizes s).1 left gone.marked in
      let (full, rows, fits) =
        purge_as_lem dead.session.id (mark_deleted sizes s).1
          (ap (λ z. z.0) (sym whole) ∙ purged) in
      let left_rows : (purge_records sizes (mark_deleted sizes s).1).1 ≡ purged_rows d.id =
        ap (λ z. z.1) whole ∙ rows ∙ ap purged_rows (sym id) in
      (
        left_rows,
        subst (λ z. mark_deleted sizes z ≡ (ok d, z)) (sym left_rows) (mark_purged d),
        subst (λ z. purge_records sizes z ≡ (ok true, z)) (sym left_rows)
            (purge_purged d.id (ap (λ i. i == "") id ∙ full)
              (ap (λ i. ltb max_row_bytes (sizes.of_tombstone i)) id ∙ fits)),
      )
