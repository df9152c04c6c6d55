-- ===== src/Stream/Summary.antt =====
-- session-events.ts, `acceptReasoning`: what the stored parts of a summary become, and what a client
-- that follows the published events has.
use cf_open_agents_api.Prelude.{
  ℕ, zero, suc, ◌+◌, ◌-◌, ◌≡◌, refl, sym, ap, ◌∙◌, Bool, true, false, ◌&&◌, List, [], ◌∷◌, ◌++◌,
  length, drop, ltb, nat_eq, inl, inr, Bool-cases, length-append, arith, ◌<◌, subst,
}
use cf_open_agents_api.Stream.Types.{Text, Place, summary_part_added, summary_text_delta}
use cf_open_agents_api.Stream.Rows.{Write, append}
use cf_open_agents_api.Stream.Reasoning.{
  ensure_part, ensure_parts, set_part, part_at, starts_with, delta_of_part, accept_parts,
}
use cf_open_agents_api.Stream.Text.{append_nil, append_assoc}

-- What a client makes of one event: a part is added, or a delta continues one.
abbrev pub followed : Write → List Text → List Text
followed (append (summary_part_added place i t)) parts = parts ++ t ∷ []
followed (append (summary_text_delta place i t)) parts = set_part i (part_at i parts ++ t) parts
followed _ parts = parts

abbrev pub all_followed : List Write → List Text → List Text
all_followed [] parts = parts
all_followed (w ∷ ws) parts = all_followed ws (followed w parts)

-- Every new text continues the part it replaces.
abbrev pub continues : List Text → List Text → Bool
continues [] parts = true
continues (t ∷ ts) [] = true
continues (t ∷ ts) (p ∷ ps) = starts_with p t && continues ts ps

set_part-append :
    (before : List Text) (x t : Text) (after : List Text)
    → set_part (length before) t (before ++ x ∷ after) ≡ before ++ t ∷ after
set_part-append [] x t after = refl
set_part-append (b ∷ bs) x t after = ap (◌∷◌ b) (set_part-append bs x t after)

part_at-append :
    (before : List Text) (x : Text) (after : List Text)
    → part_at (length before) (before ++ x ∷ after) ≡ x
part_at-append [] x after = refl
part_at-append (b ∷ bs) x after = part_at-append bs x after

starts_with-drop : (p t : Text) → starts_with p t ≡ true → p ++ drop (length p) t ≡ t
starts_with-drop [] t h = refl
starts_with-drop (c ∷ cs) [] h = cc
starts_with-drop (c ∷ cs) (d ∷ ds) h = ground (arith, starts_with-drop cs ds, nat_eq.equal_iff d c)

starts_with-length :
    (p t : Text) → starts_with p t ≡ true → ltb (length p) (length t) ≡ false → p ≡ t
starts_with-length [] [] h g = refl
starts_with-length [] (d ∷ ds) h g = ground arith
starts_with-length (c ∷ cs) [] h g = cc
starts_with-length (c ∷ cs) (d ∷ ds) h g =
    ground (arith, starts_with-length cs ds, nat_eq.equal_iff d c)

pub and-eq-true : (a b : Bool) → (a && b) ≡ true → (a ≡ true) × (b ≡ true)
and-eq-true true b h = (refl, h)
and-eq-true false b h = cc

drop_nil : (n : ℕ) → drop {A = Text} n [] ≡ []
drop_nil zero = refl
drop_nil (suc n) = refl

continues_nil : (ts : List Text) → continues ts [] ≡ true
continues_nil [] = refl
continues_nil (t ∷ ts) = refl

all_followed-append :
    (ws vs : List Write) (parts : List Text)
    → all_followed (ws ++ vs) parts ≡ all_followed vs (all_followed ws parts)
all_followed-append [] vs parts = refl
all_followed-append (w ∷ ws) vs parts = all_followed-append ws vs (followed w parts)

-- A part that is there needs nothing; the next part is added.
module _ (place : Place) (i : ℕ) (before : List Text) (e : i ≡ length before) where
  ensure_part-present :
      (x : Text) (after : List Text)
      → ensure_part place i (before ++ x ∷ after) ≡ (before ++ x ∷ after, [])
  unfolding ensure_part ensure_parts
  ensure_part-present x after =
      let left : i + 1 - length (before ++ x ∷ after) ≡ 0 =
        omega (arith, e, length-append before (x ∷ after)) in
      ap (λ n. ensure_parts place n (before ++ x ∷ after)) left

  ensure_part-next :
      ensure_part place i before ≡ (before ++ [] ∷ [], append (summary_part_added place i []) ∷ [])
  unfolding ensure_part ensure_parts
  ensure_part-next =
      let left : i + 1 - length before ≡ 1 = omega (arith, e) in
      ap (λ n. ensure_parts place n before) left
      ∙ ap (λ n. (before ++ [] ∷ [], append (summary_part_added place n []) ∷ [])) (sym e)

  set_part-present :
      (x t : Text) (after : List Text)
      → set_part i t (before ++ x ∷ after) ≡ (before ++ t ∷ []) ++ after
  set_part-present x t after =
      ap (λ n. set_part n t (before ++ x ∷ after)) e
      ∙ set_part-append before x t after
      ∙ sym (append_assoc before (t ∷ []) after)

  part_at-present : (x : Text) (after : List Text) → part_at i (before ++ x ∷ after) ≡ x
  part_at-present x after =
      ap (λ n. part_at n (before ++ x ∷ after)) e ∙ part_at-append before x after

  next_length : (t : Text) → i + 1 ≡ length (before ++ t ∷ [])
  next_length t = omega (arith, e, length-append before (t ∷ []))

  -- One round over a part that is there, and over one that is not.
  accept_parts-present :
      (t : Text) (ts : List Text) (x : Text) (after : List Text)
      → let rest = accept_parts place (i + 1) ts ((before ++ t ∷ []) ++ after) in
        accept_parts place i (t ∷ ts) (before ++ x ∷ after)
        ≡ (rest.0, delta_of_part place i x t ++ rest.1)
  unfolding accept_parts
  accept_parts-present t ts x after =
      rw (ensure_part-present x after, part_at-present x after, set_part-present x t after) refl

  accept_parts-next :
      (t : Text) (ts : List Text)
      → let rest = accept_parts place (i + 1) ts ((before ++ t ∷ []) ++ []) in
        accept_parts place i (t ∷ ts) before
        ≡ (rest.0, append (summary_part_added place i []) ∷ delta_of_part place i [] t ++ rest.1)
  unfolding accept_parts
  accept_parts-next t ts =
      rw (ensure_part-next, part_at-present [] [], set_part-present [] t []) refl

  -- What a client makes of one text's delta.
  followed-delta :
      (p t : Text) (after : List Text)
      → starts_with p t ≡ true
      → all_followed (delta_of_part place i p t) (before ++ p ∷ after) ≡ (before ++ t ∷ []) ++ after
  followed-delta p t after h = elim (Bool-cases (ltb (length p) (length t))) [
    | inl longer ↦
        rw
          (
            h,
            longer,
            part_at-present p after,
            set_part-present p (p ++ drop (length p) t) after,
            starts_with-drop p t h,
          )
          refl
    | inr same ↦
        rw (h, same)
          (ap (λ q. before ++ q ∷ after) (starts_with-length p t h same)
            ∙ sym (append_assoc before (t ∷ []) after))
  ]

-- The merged parts are the event's texts, then the older parts beyond them.
merged_from :
    (place : Place) (i : ℕ) (ts before after : List Text)
    → i ≡ length before
    → (accept_parts place i ts (before ++ after)).0 ≡ before ++ (ts ++ drop (length ts) after)
unfolding accept_parts
merged_from place i [] before after e = refl
merged_from place i (t ∷ ts) before [] e =
    ap (λ l. (accept_parts place i (t ∷ ts) l).0) (append_nil before)
    ∙ ap (λ r. r.0) (accept_parts-next place i before e t ts)
    ∙ merged_from place (i + 1) ts (before ++ t ∷ []) [] (next_length place i before e t)
    ∙ append_assoc before (t ∷ []) (ts ++ drop (length ts) [])
    ∙ ap (λ l. before ++ (t ∷ (ts ++ l))) (drop_nil (length ts))
merged_from place i (t ∷ ts) before (x ∷ after) e =
    ap (λ r. r.0) (accept_parts-present place i before e t ts x after)
    ∙ merged_from place (i + 1) ts (before ++ t ∷ []) after (next_length place i before e t)
    ∙ append_assoc before (t ∷ []) (ts ++ drop (length ts) after)

-- A client that has the stored parts and follows the published events has the merged parts, when
-- every text continues the part it replaces.
followed_from :
    (place : Place) (i : ℕ) (ts before after : List Text)
    → i ≡ length before
    → continues ts after ≡ true
    → let merged = accept_parts place i ts (before ++ after) in
      all_followed merged.1 (before ++ after) ≡ merged.0
followed_from place i [] before after e c = unfold accept_parts in refl
followed_from place i (t ∷ ts) before [] e c =
    rw (append_nil before, accept_parts-next place i before e t ts)
      (all_followed-append (delta_of_part place i [] t) _ (before ++ [] ∷ [])
        ∙ ap (all_followed (accept_parts place (i + 1) ts ((before ++ t ∷ []) ++ [])).1)
            (followed-delta place i before e [] t [] refl)
        ∙ followed_from place (i + 1) ts (before ++ t ∷ []) [] (next_length place i before e t)
            (continues_nil ts))
followed_from place i (t ∷ ts) before (x ∷ after) e c =
    let each = and-eq-true (starts_with x t) (continues ts after) c in
    rw (accept_parts-present place i before e t ts x after) (
      all_followed-append (delta_of_part place i x t) _ (before ++ x ∷ after)
      ∙ ap (all_followed (accept_parts place (i + 1) ts ((before ++ t ∷ []) ++ after)).1)
          (followed-delta place i before e x t after each.0)
      ∙ followed_from place (i + 1) ts (before ++ t ∷ []) after (next_length place i before e t)
          each.1)

-- The parts of a whole summary's event are its texts, whether or not they continue the stored parts,
-- then what the stored parts have beyond them.
pub summary_merged :
    (place : Place) (summary parts : List Text)
    → (accept_parts place 0 summary parts).0 ≡ summary ++ drop (length summary) parts
summary_merged place summary parts = merged_from place 0 summary [] parts refl

-- A client that has the stored parts and follows the events that a whole summary publishes has the
-- summary's texts, then the stored parts beyond them, when every text continues the stored part of
-- its index.
pub summary_followed :
    (place : Place) (summary parts : List Text)
    → continues summary parts ≡ true
    → all_followed (accept_parts place 0 summary parts).1 parts
      ≡ summary ++ drop (length summary) parts
summary_followed place summary parts c =
    followed_from place 0 summary [] parts refl c ∙ summary_merged place summary parts

-- Parts with no text, and the events that add them, from an index on.
abbrev pub empties : ℕ → List Text
empties zero = []
empties (suc n) = [] ∷ empties n

abbrev pub parts_added : Place → ℕ → ℕ → List Write
parts_added place i zero = []
parts_added place i (suc n) = append (summary_part_added place i []) ∷ parts_added place (i + 1) n

ensured :
    (place : Place) (n : ℕ) (parts : List Text)
    → ensure_parts place n parts ≡ (parts ++ empties n, parts_added place (length parts) n)
unfolding ensure_parts
ensured place zero parts = ap (λ l. (l, [])) (sym (append_nil parts))
ensured place (suc n) parts =
    let longer = parts ++ [] ∷ [] in
    let count : length longer ≡ length parts + 1 = omega (arith, length-append parts ([] ∷ [])) in
    rw (ensured place n longer, append_assoc parts ([] ∷ []) (empties n), count) refl

length-empties : (n : ℕ) → length (empties n) ≡ n
length-empties zero = refl
length-empties (suc n) = omega (arith, length-empties n)

-- The loop that makes a summary's part ready ends with the part there: the parts are the ones before
-- and as many empty ones as the index needs, none when it is there, and each has its event in order.
pub part_ensured :
    (place : Place) (i : ℕ) (parts : List Text)
    → let left = i + 1 - length parts in
      let ready = ensure_part place i parts in
      (ready.0 ≡ parts ++ empties left)
      × (ready.1 ≡ parts_added place (length parts) left)
      × (i < length ready.0)
unfolding ensure_part
part_ensured place i parts =
    let left = i + 1 - length parts in
    let e = ensured place left parts in
    (
      ap (λ r. r.0) e,
      ap (λ r. r.1) e,
      subst (λ n. i < n) (sym (ap (λ r. length r.0) e ∙ length-append parts (empties left)))
          (omega (arith, length-empties left)),
    )
