-- ===== src/Turns/Repeated.antt =====
-- session-state.ts, `acceptBatch`: a batch that a poll repeats is recorded once.
use cf_open_agents_api.Prelude.{
  ℕ, ◌+◌, ◌≤◌, ◌≡◌, refl, sym, ap, ◌∙◌, subst, String, true, false, List, [], ◌∷◌, ◌++◌, length,
  Result, ok, err, leb, ◌>>=◌, Result-cases, >>=-eq-ok, inl, inr, length-append, arith, nat_eq,
  ◌==◌,
}
use cf_open_agents_api.Stream.Types.{SessionView}
use cf_open_agents_api.Stream.Rows.{StreamError, Write}
use cf_open_agents_api.Stream.Text.{append_assoc}
use cf_open_agents_api.Stream.Accept.{accept_runtime_event}
use cf_open_agents_api.Turns.State.{BatchEntry}
use cf_open_agents_api.Turns.Batch.{Accepting, accept_entry, accept_entries, accept_next, moved_on}

-- The entries have consecutive numbers, from one on.
abbrev pub Consecutive : ℕ → List BatchEntry → Type 0
Consecutive n [] = Unit
Consecutive n (entry ∷ entries) = (entry.seq ≡ n) × Consecutive (n + 1) entries

-- The pages that polls answer, each from where some earlier page ended or from before: what was seen,
-- the pages, and what they bring that was not seen.
pub data Delivers : List BatchEntry → List (List BatchEntry) → List BatchEntry → Type 0 where
  none_more : {seen : List BatchEntry} → Delivers seen [] []
  next_page :
      {seen rest : List BatchEntry} {pages : List (List BatchEntry)}
      (old again new : List BatchEntry)
      → seen ≡ old ++ again
      → Delivers (seen ++ new) pages rest
      → Delivers seen ((again ++ new) ∷ pages) (new ++ rest)

Consecutive-append :
    (n : ℕ) (xs ys : List BatchEntry)
    → Consecutive n (xs ++ ys)
    → Consecutive n xs × Consecutive (n + length xs) ys
Consecutive-append n [] ys h =
    let e : n ≡ n + length {A = BatchEntry} [] = omega arith in
    (tt, subst (λ k. Consecutive k ys) e h)
Consecutive-append n (x ∷ xs) ys h =
    let r = Consecutive-append (n + 1) xs ys h.1 in
    let e : n + 1 + length xs ≡ n + length (x ∷ xs) = omega arith in
    ((h.0, r.0), subst (λ k. Consecutive k ys) e r.1)

-- The numbers of a page's entries, those that were seen and the others.
page_numbers :
    (old again unseen : List BatchEntry)
    → Consecutive 1 ((old ++ again) ++ unseen)
    → Consecutive (length old + 1) again × Consecutive (length old + length again + 1) unseen
page_numbers old again unseen h =
    let whole = Consecutive-append 1 (old ++ again) unseen h in
    let e1 : 1 + length old ≡ length old + 1 = omega arith in
    let e2 : 1 + length (old ++ again) ≡ length old + length again + 1 =
      omega (arith, length-append old again) in
    (
      subst (λ k. Consecutive k again) e1 (Consecutive-append 1 old again whole.0).1,
      subst (λ k. Consecutive k unseen) e2 whole.1,
    )

abbrev cursor_of : Result StreamError Accepting → ℕ
cursor_of (ok a) = a.next.cursor
cursor_of (err e) = 0

module _ (now : ℕ → ℕ) (identifier : ℕ → String → String) (turn_id : String) where
  -- The pages one after another.
  abbrev pub accept_pages : List (List BatchEntry) → Accepting → Result StreamError Accepting
  accept_pages [] a = ok a
  accept_pages (page ∷ pages) a =
      accept_entries now identifier turn_id page a >>= accept_pages pages

  bind_assoc :
      (r : Result StreamError Accepting) (f g : Accepting → Result StreamError Accepting)
      → ((r >>= f) >>= g) ≡ (r >>= λ a. f a >>= g)
  bind_assoc (ok a) f g = refl
  bind_assoc (err e) f g = refl

  accept_entries-append :
      (xs ys : List BatchEntry) (a : Accepting)
      → accept_entries now identifier turn_id (xs ++ ys) a
        ≡ (accept_entries now identifier turn_id xs a >>= accept_entries now identifier turn_id ys)
  unfolding accept_entries
  accept_entries-append [] ys a = refl
  accept_entries-append (x ∷ xs) ys a =
      elim (Result-cases (accept_entry now identifier turn_id x a)) [
        | inl (b, e) ↦ rw e (accept_entries-append xs ys b)
        | inr (fault, e) ↦ rw e refl
      ]

  entry_passed :
      (x : BatchEntry) (a : Accepting)
      → x.seq ≤ a.next.cursor
      → accept_entry now identifier turn_id x a ≡ ok a
  unfolding accept_entry
  entry_passed x a h = let p : leb x.seq a.next.cursor ≡ true = ground (arith, h) in rw p refl

  entry_next :
      (x : BatchEntry) (a : Accepting)
      → x.seq ≡ a.next.cursor + 1
      → accept_entry now identifier turn_id x a ≡ accept_next now identifier turn_id x a
  unfolding accept_entry
  entry_next x a h =
      let p : leb x.seq a.next.cursor ≡ false = ground (arith, h) in
      let q : (x.seq == a.next.cursor + 1) ≡ true =
        (nat_eq.equal_iff x.seq (a.next.cursor + 1)).1 h in
      rw (p, q) refl

  moved_on_cursor :
      (seq : ℕ) (a b : Accepting) (r : Result StreamError (List Write × SessionView))
      → moved_on now identifier turn_id seq a r ≡ ok b
      → b.next.cursor ≡ seq
  moved_on_cursor seq a b (err e) h = cc
  moved_on_cursor seq a b (ok (writes, view)) h = sym (ap cursor_of h)

  -- Entries that the cursor has passed change nothing.
  passed :
      (n : ℕ) (xs : List BatchEntry) (a : Accepting)
      → Consecutive (n + 1) xs
      → n + length xs ≤ a.next.cursor
      → accept_entries now identifier turn_id xs a ≡ ok a
  unfolding accept_entries
  passed n [] a h c = refl
  passed n (x ∷ xs) a h c =
      let low : x.seq ≤ a.next.cursor = omega (arith, h.0, c) in
      let room : n + 1 + length xs ≤ a.next.cursor = omega (arith, c) in
      rw (entry_passed x a low) (passed (n + 1) xs a h.1 room)

  next_cursor :
      (x : BatchEntry) (a b : Accepting)
      → accept_next now identifier turn_id x a ≡ ok b
      → b.next.cursor ≡ x.seq
  unfolding accept_next
  next_cursor x a b h =
      moved_on_cursor x.seq a b
        (accept_runtime_event (now x.seq) (identifier x.seq) turn_id a.next.session x.event a.rows)
        h

  -- Consecutive entries from the cursor on move it past the last of them.
  recorded :
      (xs : List BatchEntry) (a b : Accepting)
      → Consecutive (a.next.cursor + 1) xs
      → accept_entries now identifier turn_id xs a ≡ ok b
      → b.next.cursor ≡ a.next.cursor + length xs
  unfolding accept_entries
  recorded [] a b h e = omega (arith, ap cursor_of e)
  recorded (x ∷ xs) a b h e =
      let (c, e1, e2) =
        >>=-eq-ok (accept_entry now identifier turn_id x a)
          (accept_entries now identifier turn_id xs) e in
      let at : c.next.cursor ≡ a.next.cursor + 1 =
        next_cursor x a c (sym (entry_next x a h.0) ∙ e1) ∙ h.0 in
      let later = subst (λ k. Consecutive (k + 1) xs) (sym at) h.1 in
      omega (arith, recorded xs c b later e2, at)

  -- From a session whose cursor is the number of events it has seen, pages of one log, each from where
  -- some earlier page ended or from before, come to what the unseen events come to by themselves,
  -- each accepted once and in order, or to the same error.
  pub pages_recorded_once :
      (seen rest : List BatchEntry) (pages : List (List BatchEntry)) (a : Accepting)
      → Delivers seen pages rest
      → Consecutive 1 (seen ++ rest)
      → a.next.cursor ≡ length seen
      → accept_pages pages a ≡ accept_entries now identifier turn_id rest a
  pages_recorded_once seen rest pages a none_more h c = unfold accept_entries in refl
  pages_recorded_once seen rest pages a (next_page {rest = more} {pages = later} old again new e d)
        h c =
      let numbers =
        page_numbers old again (new ++ more)
          (subst (λ l. Consecutive 1 (l ++ (new ++ more))) e h) in
      let at : length old + length again ≡ a.next.cursor =
        omega (arith, c, ap length e, length-append old again) in
      let again_passed = passed (length old) again a numbers.0 (omega (arith, at)) in
      let news : Consecutive (a.next.cursor + 1) (new ++ more) =
        subst (λ k. Consecutive (k + 1) (new ++ more)) at numbers.1 in
      let page =
        accept_entries-append again new a
        ∙ ap (λ r. r >>= accept_entries now identifier turn_id new) again_passed in
      elim (Result-cases (accept_entries now identifier turn_id new a)) [
        | inl (b, eb) ↦
            (let first = (Consecutive-append (a.next.cursor + 1) new more news).0 in
              let reached : b.next.cursor ≡ length (seen ++ new) =
                omega (arith, recorded new a b first eb, c, length-append seen new) in
              let all_numbers = subst (Consecutive 1) (sym (append_assoc seen new more)) h in
              ap (λ r. r >>= accept_pages later) (page ∙ eb)
              ∙ pages_recorded_once (seen ++ new) more later b d all_numbers reached
              ∙ sym (
                  accept_entries-append new more a
                  ∙ ap (λ r. r >>= accept_entries now identifier turn_id more) eb))
        | inr (fault, ef) ↦
            (ap (λ r. r >>= accept_pages later) (page ∙ ef)
              ∙ sym (
                  accept_entries-append new more a
                  ∙ ap (λ r. r >>= accept_entries now identifier turn_id more) ef))
      ]
