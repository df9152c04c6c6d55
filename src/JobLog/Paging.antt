-- ===== src/JobLog/Paging.antt =====
-- lifecycle.ts, `poll`: a reader that continues from the last batch's cursor misses nothing.
use cf_open_agents_api.Prelude.{
  ℕ, zero, suc, ◌+◌, ◌-◌, ◌≤◌, ◌<◌, ◌≡◌, ◌⊎◌, inl, inr, true, ◌||◌, List, [], ◌∷◌, ◌++◌, length,
  length-append, take, drop, min, Result, ok, err, ltb, arith, refl, sym, ap, ◌∙◌, Bool-cases,
  subst, ◌↔◌,
}
use cf_open_agents_api.JobLog.Log.{
  Logged, JobState, event_log_limit, status_of, terminal, settled, set_status, request_cancel, fail,
  close, emit, Call, sets, requests_cancel, fails, closes, emits, call, calls, new_log,
}
use cf_open_agents_api.JobLog.Poll.{
  Batch, PollError, invalid_cursor, last_seq, page_limit, page, poll,
}
use cf_open_agents_api.JobLog.Kept.{Numbered, IsLog, calls-IsLog}

module _ {A : Type 0} where
  length-take : (n : ℕ) (xs : List A) → length (take n xs) ≡ min n (length xs)
  length-take zero xs = omega arith
  length-take (suc n) [] = omega arith
  length-take (suc n) (x ∷ xs) = omega (arith, length-take n xs)

  length-drop : (n : ℕ) (xs : List A) → length (drop n xs) ≡ length xs - n
  length-drop zero xs = omega arith
  length-drop (suc n) [] = omega arith
  length-drop (suc n) (x ∷ xs) = omega (arith, length-drop n xs)

  take-drop : (n : ℕ) (xs : List A) → take n xs ++ drop (length (take n xs)) xs ≡ xs
  take-drop zero xs = refl
  take-drop (suc n) [] = refl
  take-drop (suc n) (x ∷ xs) = ap (◌∷◌ x) (take-drop n xs)

  append_nil : (xs : List A) → xs ++ [] ≡ xs
  append_nil [] = refl
  append_nil (x ∷ xs) = ap (◌∷◌ x) (append_nil xs)

  append_assoc : (xs ys zs : List A) → (xs ++ ys) ++ zs ≡ xs ++ (ys ++ zs)
  append_assoc [] ys zs = refl
  append_assoc (x ∷ xs) ys zs = ap (◌∷◌ x) (append_assoc xs ys zs)

  drop_nil : (n : ℕ) → drop {A = A} n [] ≡ []
  drop_nil zero = refl
  drop_nil (suc n) = refl

  drop-drop : (m n : ℕ) (xs : List A) → drop n (drop m xs) ≡ drop (m + n) xs
  drop-drop zero n xs = ap (λ k. drop k xs) {x = n} {y = 0 + n} (omega arith)
  drop-drop (suc m) n [] = drop_nil n ∙ sym (drop_nil (suc m + n))
  drop-drop (suc m) n (x ∷ xs) =
      drop-drop m n xs ∙ ap (λ k. drop k (x ∷ xs)) {x = suc (m + n)} {y = suc m + n} (omega arith)

  drop-append : (n : ℕ) (xs ys : List A) → n ≤ length xs → drop n (xs ++ ys) ≡ drop n xs ++ ys
  drop-append zero xs ys h = refl
  drop-append (suc n) [] ys h = absurd (omega (arith, h))
  drop-append (suc n) (x ∷ xs) ys h = drop-append n xs ys (omega (arith, h))

module _ {E : Type 0} where
  Numbered-drop : (k n : ℕ) (xs : List (Logged E)) → Numbered n xs → Numbered (k + n) (drop k xs)
  Numbered-drop zero n xs h = subst (λ m. Numbered m xs) {x = n} (omega arith) h
  Numbered-drop (suc k) n [] h = tt
  Numbered-drop (suc k) n (x ∷ xs) h =
      subst (λ m. Numbered m (drop k xs)) {x = k + suc n} (omega arith)
        (Numbered-drop k (suc n) xs h.1)

  Numbered-take : (k n : ℕ) (xs : List (Logged E)) → Numbered n xs → Numbered n (take k xs)
  Numbered-take zero n xs h = tt
  Numbered-take (suc k) n [] h = tt
  Numbered-take (suc k) n (x ∷ xs) h = (h.0, Numbered-take k (suc n) xs h.1)

  last_seq-Numbered :
      (n : ℕ) (xs : List (Logged E)) → Numbered (suc n) xs → last_seq xs n ≡ n + length xs
  last_seq-Numbered n [] h = omega arith
  last_seq-Numbered n (x ∷ xs) h =
      ap (last_seq xs) h.0 ∙ last_seq-Numbered (suc n) xs h.1 ∙ omega arith

  -- The cursor of a page is where the page ends.
  page_cursor :
      (encoded : E → ℕ) (s : JobState E) (after : ℕ)
      → IsLog encoded s
      → (page s after).cursor ≡ after + length (page s after).events
  unfolding page
  page_cursor encoded s after h = last_seq-Numbered after _ (
      Numbered-take page_limit (suc after) _ (
        subst (λ m. Numbered m (drop after s.events)) {x = after + 1} (omega arith)
          (Numbered-drop after 1 s.events h.numbered)))

  -- What a page leaves unread.
  page_rest :
      (encoded : E → ℕ) (s : JobState E) (after : ℕ)
      → IsLog encoded s
      → (page s after).events ++ drop (page s after).cursor s.events ≡ drop after s.events
  unfolding page
  page_rest encoded s after h =
      let events = take page_limit (drop after s.events) in
      ap (λ k. events ++ drop k s.events) (page_cursor encoded s after h)
      ∙ ap (◌++◌ events) (sym (drop-drop after (length events) s.events))
      ∙ take-drop page_limit (drop after s.events)

  emit_appends :
      (encoded : E → ℕ) (event : E) (s : JobState E)
      → (xs : List (Logged E)) × ((emit encoded event s).1.events ≡ s.events ++ xs)
  unfolding emit
  emit_appends encoded event s = elim (Bool-cases (settled s.outcome || s.closing)) [
    | inl e ↦ ([], rw e (sym (append_nil s.events)))
    | inr e ↦ elim (Bool-cases (ltb event_log_limit (s.bytes + encoded event))) [
      | inl over ↦ ([], rw e (rw over (sym (append_nil s.events))))
      | inr fits ↦ (record { seq = length s.events + 1; event = event } ∷ [], rw e (rw fits refl))
    ]
  ]

  -- Calls only append events.
  call_appends :
      (encoded : E → ℕ) (c : Call E) (s : JobState E)
      → (xs : List (Logged E)) × ((call encoded c s).events ≡ s.events ++ xs)
  unfolding call set_status request_cancel fail close
  call_appends encoded (sets status) s = ([], ground (arith, append_nil s.events))
  call_appends encoded requests_cancel s = ([], ground (arith, append_nil s.events))
  call_appends encoded (fails error) s = ([], ground (arith, append_nil s.events))
  call_appends encoded closes s = ([], ground (arith, append_nil s.events))
  call_appends encoded (emits event) s = emit_appends encoded event s

  calls_append :
      (encoded : E → ℕ) (cs : List (Call E)) (s : JobState E)
      → (xs : List (Logged E)) × ((calls encoded cs s).events ≡ s.events ++ xs)
  unfolding calls
  calls_append encoded [] s = ([], sym (append_nil s.events))
  calls_append encoded (c ∷ cs) s =
      let (xs, e) = call_appends encoded c s in
      let (ys, f) = calls_append encoded cs (call encoded c s) in
      (xs ++ ys, f ∙ ap (λ zs. zs ++ ys) e ∙ append_assoc s.events xs ys)

  -- A page, and what its cursor leaves in any later log, are what was to be read.
  page_then :
      (encoded : E → ℕ) (s w : JobState E) (after : ℕ) (xs : List (Logged E))
      → IsLog encoded s
      → after ≤ length s.events
      → w.events ≡ s.events ++ xs
      → ((page s after).cursor ≤ length s.events)
        × ((page s after).events ++ drop (page s after).cursor w.events ≡ drop after w.events)
  unfolding page
  page_then encoded s w after xs h inside e =
      let at = page_cursor encoded s after h in
      let below : (page s after).cursor ≤ length s.events =
        omega
          (arith, at, length-take page_limit (drop after s.events), length-drop after s.events) in
      let events = (page s after).events in
      (
        below,
        ap (λ ys. events ++ drop (page s after).cursor ys) e
            ∙ ap (◌++◌ events) (drop-append (page s after).cursor s.events xs below)
            ∙ sym (append_assoc events (drop (page s after).cursor s.events) xs)
            ∙ ap (λ ys. ys ++ xs) (page_rest encoded s after h)
            ∙ sym (drop-append after s.events xs inside)
            ∙ ap (drop after) (sym e),
      )

-- One poll of a reader: the calls before it, how long it may wait, and the calls while it does.
pub record Round (E : Type 0) : Type 0 where
  pub before : List (Call E)
  pub wait : ℕ
  pub meanwhile : List (Call E)

-- The log after some rounds, what the reader has, and its cursor.
pub record Reading (E : Type 0) : Type 0 where
  pub log : JobState E
  pub events : List (Logged E)
  pub cursor : ℕ

module _ {E : Type 0} (encoded : E → ℕ) where
  abbrev read_on : Batch E → Result PollError (Reading E) → Result PollError (Reading E)
  read_on b (err e) = err e
  read_on b (ok r) = ok (record r { events = b.events ++ r.events })

  abbrev follow_batch :
      (ℕ → Result PollError (Reading E)) → Result PollError (Batch E) → Result PollError (Reading E)
  follow_batch rest (err e) = err e
  follow_batch rest (ok b) = read_on b (rest b.cursor)

  -- A reader that polls from the cursor of the last batch, while others call the log.
  unfoldable pub follow : List (Round E) → JobState E → ℕ → Result PollError (Reading E)
  follow [] s after = ok (record { log = s; events = []; cursor = after })
  follow (r ∷ rs) s after =
      let t = calls encoded r.before s in
      follow_batch (follow rs (calls encoded r.meanwhile t))
        (poll after r.wait (calls encoded r.meanwhile) t)

  -- A poll from a cursor inside the log answers with a page of the log before or after the wait.
  poll_pages :
      (after wait : ℕ) (cs : List (Call E)) (s : JobState E)
      → after ≤ length s.events
      → (poll after wait (calls encoded cs) s ≡ ok (page s after))
        ⊎ (poll after wait (calls encoded cs) s ≡ ok (page (calls encoded cs s) after))
  unfolding poll
  poll_pages after wait cs s inside = ground arith

  -- What a reader has, with what its cursor leaves, is what it was to read; and the log has grown.
  record Resumes (s : JobState E) (after : ℕ) (r : Reading E) : Type 0 where
    added : List (Logged E)
    grown : r.log.events ≡ s.events ++ added
    read : r.events ++ drop r.cursor r.log.events ≡ drop after r.log.events

  batch_Resumes :
      (s v : JobState E) (after : ℕ) (xs ys : List (Logged E)) (r : Reading E)
      → IsLog encoded v
      → after ≤ length v.events
      → v.events ≡ s.events ++ xs
      → r.log.events ≡ v.events ++ ys
      → r.events ++ drop r.cursor r.log.events ≡ drop (page v after).cursor r.log.events
      → Resumes s after (record r { events = (page v after).events ++ r.events })
  batch_Resumes s v after xs ys r h inside e f read = record {
    added = xs ++ ys;
    grown = f ∙ ap (λ zs. zs ++ ys) e ∙ append_assoc s.events xs ys;
    read =
        append_assoc (page v after).events r.events (drop r.cursor r.log.events)
        ∙ ap (◌++◌ (page v after).events) read
        ∙ (page_then encoded v r.log after ys h inside f).1;
  }

  abbrev Answers : (ℕ → Result PollError (Reading E)) → JobState E → ℕ → Type 0
  Answers rest s after = (r : Reading E) × (rest after ≡ ok r) × Resumes s after r

  -- One round: the batch is a page of `v`, and the rest of the rounds starts from `u`.
  round_Answers :
      (rest : ℕ → Result PollError (Reading E)) (s v u : JobState E) (after : ℕ)
      (xs ms : List (Logged E)) (polled : Result PollError (Batch E))
      → polled ≡ ok (page v after)
      → IsLog encoded v
      → after ≤ length v.events
      → v.events ≡ s.events ++ xs
      → u.events ≡ v.events ++ ms
      → ((c : ℕ) → c ≤ length u.events → Answers rest u c)
      → (r : Reading E) × (follow_batch rest polled ≡ ok r) × Resumes s after r
  round_Answers rest s v u after xs ms polled answer h inside e f rounds =
      let (below, _) = page_then encoded v v after [] h inside (sym (append_nil v.events)) in
      let within : (page v after).cursor ≤ length u.events =
        omega (arith, below, length-append v.events ms, ap (λ ys. length ys) f) in
      let (r, ran, resumes) = rounds (page v after).cursor within in
      (
        record r { events = (page v after).events ++ r.events },
        ap (follow_batch rest) answer ∙ ap (read_on (page v after)) ran,
        batch_Resumes s v after xs (ms ++ resumes.added) r h inside e
            (resumes.grown
              ∙ ap (λ ys. ys ++ resumes.added) f
              ∙ append_assoc v.events ms resumes.added)
            resumes.read,
      )

  follow-Answers :
      (rs : List (Round E)) (s : JobState E) (after : ℕ)
      → IsLog encoded s
      → after ≤ length s.events
      → Answers (follow rs s) s after
  unfolding follow
  follow-Answers [] s after h inside = (
    record { log = s; events = []; cursor = after },
    refl,
    record { added = []; grown = sym (append_nil s.events); read = refl },
  )
  follow-Answers (r ∷ rs) s after h inside =
      let t = calls encoded r.before s in
      let u = calls encoded r.meanwhile t in
      let (xs, e) = calls_append encoded r.before s in
      let (ms, f) = calls_append encoded r.meanwhile t in
      let ht = calls-IsLog encoded r.before s h in
      let hu = calls-IsLog encoded r.meanwhile t ht in
      let it : after ≤ length t.events =
        omega (arith, inside, length-append s.events xs, ap (λ ys. length ys) e) in
      let iu : after ≤ length u.events =
        omega (arith, it, length-append t.events ms, ap (λ ys. length ys) f) in
      let rounds = λ (c : ℕ) (b : c ≤ length u.events). follow-Answers rs u c hu b in
      elim (poll_pages after r.wait r.meanwhile t it) [
        | inl p ↦ round_Answers (follow rs u) s t u after xs ms _ p ht it e f rounds
        | inr p ↦
            round_Answers (follow rs u) s u u after (xs ++ ms) [] _ p hu iu
              (f ∙ ap (λ ys. ys ++ ms) e ∙ append_assoc s.events xs ms) (sym (append_nil u.events))
              rounds
      ]

  new_log-IsLog : IsLog encoded (new_log {E = E})
  new_log-IsLog = record { numbered = tt; counted = refl; bounded = omega arith; sealed = inl refl }

  -- A reader of a new log that polls from the start, and then each time from the cursor of the last
  -- batch, is never refused, whatever calls come before, between and during its polls. What it has
  -- read, followed by the events behind its cursor, is the log: nothing is missed or read twice.
  pub follow_complete :
      (rs : List (Round E))
      → (r : Reading E) × (follow rs new_log 0 ≡ ok r)
        × (r.events ++ drop r.cursor r.log.events ≡ r.log.events)
  follow_complete rs =
      let (r, ran, resumes) = follow-Answers rs new_log 0 new_log-IsLog (omega arith) in
      (r, ran, resumes.read)

  -- Polling is refused exactly for a cursor beyond the log.
  pub poll_refuses :
      (after wait : ℕ) (cs : List (Call E)) (s : JobState E)
      → (poll after wait (calls encoded cs) s ≡ err invalid_cursor) ↔ (length s.events < after)
  unfolding poll
  poll_refuses after wait cs s = (λ h. ground arith, λ h. ground arith)

  page_status :
      (s : JobState E) (after : ℕ)
      → terminal (page s after).status ≡ true
      → (length s.events ≤ after + length (page s after).events)
        × (status_of s.outcome ≡ (page s after).status)
  unfolding page
  page_status s after h =
      let events = take page_limit (drop after s.events) in
      elim (Bool-cases (ltb (after + length events) (length s.events))) [
        | inl more ↦ absurd (cc (rw (more, page) at h))
        | inr none_left ↦ (ground arith, rw none_left refl)
      ]

  -- A batch says that the job has ended only when it reaches the end of the log that it is a page
  -- of, so a reader that stops there has every event.
  pub terminal_is_last :
      (s : JobState E) (after : ℕ)
      → IsLog encoded s
      → after ≤ length s.events
      → terminal (page s after).status ≡ true
      → ((page s after).cursor ≡ length s.events) × (status_of s.outcome ≡ (page s after).status)
  terminal_is_last s after h inside ended =
      let at = page_cursor encoded s after h in
      let (below, _) = page_then encoded s s after [] h inside (sym (append_nil s.events)) in
      let (past, same) = page_status s after ended in (omega (arith, at, below, past), same)
