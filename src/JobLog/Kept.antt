-- ===== src/JobLog/Kept.antt =====
-- lifecycle.ts, `JobLog`: what every call keeps.
use cf_open_agents_api.Prelude.{
  ℕ, suc, ◌+◌, ◌≤◌, ◌≡◌, ◌≢◌, ◌⊎◌, inl, inr, String, true, false, ◌||◌, List, [], ◌∷◌, ◌++◌, length,
  ltb, arith, refl, sym, ap, ◌∙◌, Bool-cases, subst,
}
use cf_open_agents_api.JobLog.Log.{
  Outcome, Progress, Logged, JobState, event_log_limit, settled, set_status, request_cancel, fail,
  close, emit, Call, sets, requests_cancel, fails, closes, emits, call, calls,
}

module _ {E : Type 0} where
  -- Sequence numbers from `n` on, without a gap.
  abbrev pub Numbered : ℕ → List (Logged E) → Type 0
  Numbered n [] = Unit {0}
  Numbered n (x ∷ xs) = (x.seq ≡ n) × Numbered (suc n) xs

  abbrev pub total : (E → ℕ) → List (Logged E) → ℕ
  total encoded [] = 0
  total encoded (x ∷ xs) = encoded x.event + total encoded xs

  -- Events are numbered from 1, their bytes are counted and within the limit, and a sealed log has
  -- an outcome.
  pub record IsLog (encoded : E → ℕ) (s : JobState E) : Type 0 where
    pub numbered : Numbered 1 s.events
    pub counted : s.bytes ≡ total encoded s.events
    pub bounded : s.bytes ≤ event_log_limit
    pub sealed : (s.closing ≡ false) ⊎ (settled s.outcome ≡ true)

  Numbered-append :
      (n : ℕ) (xs : List (Logged E)) (x : Logged E)
      → Numbered n xs
      → x.seq ≡ length xs + n
      → Numbered n (xs ++ x ∷ [])
  Numbered-append n [] x h e = (omega arith, tt)
  Numbered-append n (y ∷ ys) x h e = (h.0, Numbered-append (suc n) ys x h.1 (omega arith))

  total-append :
      (encoded : E → ℕ) (xs : List (Logged E)) (x : Logged E)
      → total encoded (xs ++ x ∷ []) ≡ total encoded xs + encoded x.event
  total-append encoded [] x = omega arith
  total-append encoded (y ∷ ys) x = omega (arith, total-append encoded ys x)

  -- A terminal outcome is absorbing: after it no call changes the outcome, the events or the bytes,
  -- and no event is retained.
  pub absorbed :
      (encoded : E → ℕ) (c : Call E) (event : E) (s : JobState E)
      → settled s.outcome ≡ true
      → ((call encoded c s).outcome ≡ s.outcome)
        × ((call encoded c s).events ≡ s.events)
        × ((call encoded c s).bytes ≡ s.bytes)
        × ((emit encoded event s).0 ≡ false)
  unfolding call set_status request_cancel fail close emit
  absorbed encoded (sets status) event s h = ground arith
  absorbed encoded requests_cancel event s h = ground arith
  absorbed encoded (fails error) event s h = ground arith
  absorbed encoded closes event s h = ground arith
  absorbed encoded (emits e) event s h = ground arith

  abbrev IsSealedRight : JobState E → Type 0
  IsSealedRight s = (s.closing ≡ false) ⊎ (settled s.outcome ≡ true)

  -- A call that records no event.
  IsLog-same :
      (encoded : E → ℕ) (s t : JobState E)
      → t.events ≡ s.events
      → t.bytes ≡ s.bytes
      → IsSealedRight t
      → IsLog encoded s
      → IsLog encoded t
  IsLog-same encoded s t events bytes sealed h = record {
    numbered = subst (Numbered 1) (sym events) h.numbered;
    counted = bytes ∙ h.counted ∙ ap (total encoded) (sym events);
    bounded = omega (arith, h.bounded);
    sealed = sealed;
  }

  set_status-IsLog :
      (encoded : E → ℕ) (status : Progress) (s : JobState E)
      → IsLog encoded s
      → IsLog encoded (set_status status s)
  unfolding set_status
  set_status-IsLog encoded status s h =
      IsLog-same encoded s _ (ground arith) (ground arith) (ground (arith, h.sealed)) h

  request_cancel-IsLog :
      (encoded : E → ℕ) (s : JobState E) → IsLog encoded s → IsLog encoded (request_cancel s)
  unfolding request_cancel
  request_cancel-IsLog encoded s h =
      IsLog-same encoded s _ (ground arith) (ground arith) (ground (arith, h.sealed)) h

  fail-IsLog :
      (encoded : E → ℕ) (error : String) (s : JobState E)
      → IsLog encoded s
      → IsLog encoded (fail error s)
  unfolding fail
  fail-IsLog encoded error s h =
      IsLog-same encoded s _ (ground arith) (ground arith) (ground (arith, h.sealed)) h

  close-IsLog : (encoded : E → ℕ) (s : JobState E) → IsLog encoded s → IsLog encoded (close s)
  unfolding close
  close-IsLog encoded s h =
      IsLog-same encoded s _ (ground arith) (ground arith) (ground (arith, h.sealed)) h

  emit-IsLog :
      (encoded : E → ℕ) (event : E) (s : JobState E)
      → IsLog encoded s
      → IsLog encoded (emit encoded event s).1
  unfolding emit
  emit-IsLog encoded event s h = elim (Bool-cases (settled s.outcome || s.closing)) [
    | inl e ↦ rw e h
    | inr e ↦ rw e (elim (Bool-cases (ltb event_log_limit (s.bytes + encoded event))) [
      | inl over ↦ rw over (IsLog-same encoded s _ refl refl (inr refl) h)
      | inr fits ↦ rw fits (record {
        numbered = Numbered-append 1 s.events _ h.numbered refl;
        counted = ap (λ n. n + encoded event) h.counted ∙ sym (total-append encoded s.events _);
        bounded = ground arith;
        sealed = h.sealed;
      })
    ])
  ]

  -- Every call keeps the log well formed: events numbered from 1 without a gap, their bytes counted
  -- and within the limit, and an outcome in a sealed log.
  pub call-IsLog :
      (encoded : E → ℕ) (c : Call E) (s : JobState E)
      → IsLog encoded s
      → IsLog encoded (call encoded c s)
  unfolding call
  call-IsLog encoded (sets status) s h = set_status-IsLog encoded status s h
  call-IsLog encoded requests_cancel s h = request_cancel-IsLog encoded s h
  call-IsLog encoded (fails error) s h = fail-IsLog encoded error s h
  call-IsLog encoded closes s h = close-IsLog encoded s h
  call-IsLog encoded (emits event) s h = emit-IsLog encoded event s h

  -- Every log that calls make from a new one is well formed.
  pub calls-IsLog :
      (encoded : E → ℕ) (cs : List (Call E)) (s : JobState E)
      → IsLog encoded s
      → IsLog encoded (calls encoded cs s)
  unfolding calls
  calls-IsLog encoded [] s h = h
  calls-IsLog encoded (c ∷ cs) s h =
      calls-IsLog encoded cs (call encoded c s) (call-IsLog encoded c s h)

  -- Cancellation was requested, and the job did not complete before.
  abbrev pub IsCancelling : JobState E → Type 0
  IsCancelling s = (s.cancelling ≡ true) × (s.outcome ≢ Outcome.completed)

  call-IsCancelling :
      (encoded : E → ℕ) (c : Call E) (s : JobState E)
      → IsCancelling s
      → IsCancelling (call encoded c s)
  unfolding call set_status request_cancel fail close emit
  call-IsCancelling encoded (sets status) s h = ground arith
  call-IsCancelling encoded requests_cancel s h = ground arith
  call-IsCancelling encoded (fails error) s h = ground arith
  call-IsCancelling encoded closes s h = ground arith
  call-IsCancelling encoded (emits event) s h = ground arith

  -- Once cancellation is requested of a job that has not completed, no calls complete it.
  pub cancelling_never_completes :
      (encoded : E → ℕ) (cs : List (Call E)) (s : JobState E)
      → s.cancelling ≡ true
      → s.outcome ≢ Outcome.completed
      → (calls encoded cs s).outcome ≢ Outcome.completed
  unfolding calls
  cancelling_never_completes encoded [] s asked open_ = open_
  cancelling_never_completes encoded (c ∷ cs) s asked open_ =
      let h = call-IsCancelling encoded c s (asked, open_) in
      cancelling_never_completes encoded cs (call encoded c s) h.0 h.1

  call_closed :
      (encoded : E → ℕ) (c : Call E) (s : JobState E) → s.closing ≡ true → call encoded c s ≡ s
  unfolding call set_status request_cancel fail close emit
  call_closed encoded (sets status) s h = ground arith
  call_closed encoded requests_cancel s h = ground arith
  call_closed encoded (fails error) s h = ground arith
  call_closed encoded closes s h = ground arith
  call_closed encoded (emits event) s h = ground arith

  calls_closed :
      (encoded : E → ℕ) (cs : List (Call E)) (s : JobState E)
      → s.closing ≡ true
      → calls encoded cs s ≡ s
  unfolding calls
  calls_closed encoded [] s h = refl
  calls_closed encoded (c ∷ cs) s h =
      ap (calls encoded cs) (call_closed encoded c s h) ∙ calls_closed encoded cs s h

  -- After `close()`, no calls change the state at all.
  pub sealed_forever :
      (encoded : E → ℕ) (cs : List (Call E)) (s : JobState E) → calls encoded cs (close s) ≡ close s
  unfolding close
  sealed_forever encoded cs s = calls_closed encoded cs (close s) (ground arith)
