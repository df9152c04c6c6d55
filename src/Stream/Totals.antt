-- ===== src/Stream/Totals.antt =====
-- The usage of a session as the sum of its turns' usage, and what a written turn does to it.
use cf_open_agents_api.Prelude.{
  ℕ, ◌+◌, ◌-◌, ◌≡◌, refl, sym, ap, ◌∙◌, subst, String, Option, some, List, [], ◌∷◌, All, lookup,
  insert, ◌==◌, string_eq, ◌⊎◌, inl, inr, Bool-cases, arith,
}
use cf_open_agents_api.Stream.Types.{TokenUsage, Turn, SessionView}
use cf_open_agents_api.Stream.Items.{or_else}
use cf_open_agents_api.Stream.Accept.{no_usage, add_usage}
use cf_open_agents_api.Stream.Subagents.{usage_of}

-- One count of a turn's usage, of a stored turn, and of all of them.
abbrev pub used : (TokenUsage → ℕ) → Option Turn → ℕ
used count turn = count (or_else (usage_of turn) no_usage)

abbrev pub total : (TokenUsage → ℕ) → List (String × Turn) → ℕ
total count [] = 0
total count ((id, turn) ∷ turns) = used count (some turn) + total count turns

-- Every turn's row stands under its identifier.
abbrev pub Named : List (String × Turn) → Type 0
Named turns = All (λ row. row.1.id ≡ row.0) turns

-- A count of the session is the sum of its turns' counts.
abbrev pub Totals : (TokenUsage → ℕ) → SessionView → List (String × Turn) → Type 0
Totals count view turns = count (or_else view.usage no_usage) ≡ total count turns

-- The session's usage is the sum of its turns' usage, count by count.
abbrev pub Accounted : SessionView → List (String × Turn) → Type 0
Accounted view turns =
    Named turns
    × Totals (λ u. u.input_tokens) view turns
    × Totals (λ u. u.output_tokens) view turns
    × Totals (λ u. u.total_tokens) view turns
    × Totals (λ u. u.cached_tokens) view turns
    × Totals (λ u. u.reasoning_tokens) view turns

Named-insert :
    (turn : Turn) (turns : List (String × Turn)) → Named turns → Named (insert turn.id turn turns)
Named-insert turn [] h = (refl, tt)
Named-insert turn ((k, t) ∷ turns) h = elim (Bool-cases (k == turn.id)) [
  | inl e ↦ rw e (sym ((string_eq.equal_iff k turn.id).0 e), h.1)
  | inr e ↦ rw e (h.0, Named-insert turn turns h.1)
]

total-insert :
    (count : TokenUsage → ℕ) (id : String) (turn : Turn) (turns : List (String × Turn))
    → count no_usage ≡ 0
    → total count (insert id turn turns) + used count (lookup id turns)
      ≡ total count turns + used count (some turn)
total-insert count id turn [] z = omega (arith, z)
total-insert count id turn ((k, t) ∷ turns) z = elim (Bool-cases (k == id)) [
  | inl e ↦ rw e (omega arith)
  | inr e ↦ rw e (omega (arith, total-insert count id turn turns z))
]

-- What an event does to the turns: nothing, or one turn is written, and the session's usage moves as
-- that turn's does.
abbrev pub Effect : SessionView → List (String × Turn) → SessionView → List (String × Turn) → Type 0
Effect view turns next after =
    ((next.usage ≡ view.usage) × (after ≡ turns))
    ⊎ ((turn : Turn) × (after ≡ insert turn.id turn turns)
        × (((next.usage ≡ view.usage) × (turn.usage ≡ usage_of (lookup turn.id turns)))
            ⊎ (next.usage
                ≡ some (
                    add_usage (or_else view.usage no_usage) (or_else turn.usage no_usage)
                      (or_else (usage_of (lookup turn.id turns)) no_usage)))))

module _ (count : TokenUsage → ℕ) (zeroes : count no_usage ≡ 0)
    (adds : (t n p : TokenUsage) → count (add_usage t n p) ≡ count t + count n - count p) where
  Totals-kept :
      (view next : SessionView) (turns after : List (String × Turn))
      → Effect view turns next after
      → Totals count view turns
      → Totals count next after
  Totals-kept view next turns after (inl (u, e)) t =
      ap (λ o. count (or_else o no_usage)) u ∙ t ∙ sym (ap (total count) e)
  Totals-kept view next turns after (inr (turn, e, inl (u, same))) t =
      let moved = total-insert count turn.id turn turns zeroes in
      let same_count = ap (λ o. count (or_else o no_usage)) same in
      let written_total : total count (insert turn.id turn turns) ≡ total count turns =
        omega (arith, moved, same_count) in
      ap (λ o. count (or_else o no_usage)) u ∙ t ∙ sym (ap (total count) e ∙ written_total)
  Totals-kept view next turns after (inr (turn, e, inr u)) t =
      let moved = total-insert count turn.id turn turns zeroes in
      let sum =
        adds (or_else view.usage no_usage) (or_else turn.usage no_usage)
          (or_else (usage_of (lookup turn.id turns)) no_usage) in
      ap (λ o. count (or_else o no_usage)) u
      ∙ omega (arith, sum, moved, t)
      ∙ sym (ap (total count) e)

Named-kept :
    (view next : SessionView) (turns after : List (String × Turn))
    → Effect view turns next after
    → Named turns
    → Named after
Named-kept view next turns after (inl (u, e)) h = subst Named (sym e) h
Named-kept view next turns after (inr (turn, e, how)) h =
    subst Named (sym e) (Named-insert turn turns h)

pub accounted :
    (view next : SessionView) (turns after : List (String × Turn))
    → Effect view turns next after
    → Accounted view turns
    → Accounted next after
unfolding add_usage
accounted view next turns after e (n, a, b, c, d, f) = (
  Named-kept view next turns after e n,
  Totals-kept (λ u. u.input_tokens) refl (λ t n p. refl) view next turns after e a,
  Totals-kept (λ u. u.output_tokens) refl (λ t n p. refl) view next turns after e b,
  Totals-kept (λ u. u.total_tokens) refl (λ t n p. refl) view next turns after e c,
  Totals-kept (λ u. u.cached_tokens) refl (λ t n p. refl) view next turns after e d,
  Totals-kept (λ u. u.reasoning_tokens) refl (λ t n p. refl) view next turns after e f,
)
