-- ===== src/Prelude/Assoc.antt =====
-- A keyed record or map of the source as an association list, in insertion order.
use mathlib.Core.Path.{◌≡◌, refl, subst}
use mathlib.Core.Logic.{inl, inr}
use mathlib.Core.Bool.{true}
use mathlib.Core.Option.{Option, none, some}
use mathlib.Core.List.{List, [], ◌∷◌}
use native.Mathlib.Omega.{arith}
use cf_open_agents_api.Prelude.Tests.{if◌then◌else◌, Equality, ◌==◌, Bool-cases}
use cf_open_agents_api.Prelude.Lists.{contains, All, Member}

module _ {ℓ κ} {K : Type ℓ} {V : Type κ} ⦃e : Equality K⦄ where
  -- `record[key]`, `map.get(key)`
  abbrev pub lookup : K → List (K × V) → Option V
  lookup k [] = none
  lookup k ((j, v) ∷ m) = if j == k then some v else lookup k m

  -- `{ ...record, [key]: value }`, `map.set(key, value)`
  abbrev pub insert : K → V → List (K × V) → List (K × V)
  insert k v [] = (k, v) ∷ []
  insert k v ((j, w) ∷ m) = if j == k then (j, v) ∷ m else (j, w) ∷ insert k v m

  -- `map.delete(key)`
  abbrev pub erase : K → List (K × V) → List (K × V)
  erase k [] = []
  erase k ((j, w) ∷ m) = let rest = erase k m in if j == k then rest else (j, w) ∷ rest

  pub lookup-insert :
      (k j : K) (v : V) (m : List (K × V))
      → lookup j (insert k v m) ≡ (if k == j then some v else lookup j m)
  lookup-insert k j v [] = refl
  lookup-insert k j v ((i, w) ∷ m) =
      ground (arith, e.equal_iff k j, e.equal_iff i k, e.equal_iff i j, lookup-insert k j v m)

  pub lookup-insert_self : (k : K) (v : V) (m : List (K × V)) → lookup k (insert k v m) ≡ some v
  lookup-insert_self k v m = ground (arith, lookup-insert k k v m, e.equal_iff k k)

  pub lookup-erase :
      (k j : K) (m : List (K × V)) → lookup j (erase k m) ≡ (if k == j then none else lookup j m)
  lookup-erase k j [] = ground arith
  lookup-erase k j ((i, w) ∷ m) =
      ground (arith, e.equal_iff k j, e.equal_iff i k, e.equal_iff i j, lookup-erase k j m)

-- `Object.keys(record)`, `Object.values(record)`
abbrev pub keys {ℓ κ} : {K : Type ℓ} {V : Type κ} → List (K × V) → List K
keys [] = []
keys ((k, v) ∷ m) = k ∷ keys m

module _ {ℓ} {K V : Type ℓ} ⦃e : Equality K⦄ where
  -- A key that is among the keys has a value.
  pub lookup_of_key :
      (k : K) (m : List (K × V)) → contains (keys m) k ≡ true → (v : V) × (lookup k m ≡ some v)
  lookup_of_key k [] h = cc
  lookup_of_key k ((j, w) ∷ m) h = elim (Bool-cases (j == k)) [
    | inl t ↦ (w, rw t)
    | inr t ↦ (let r = lookup_of_key k m (rw t at h) in (r.0, rw t r.1))
  ]

  pub contains-keys :
      (k : K) (m : List (K × V)) (v : V) → lookup k m ≡ some v → contains (keys m) k ≡ true
  contains-keys k [] v h = cc
  contains-keys k ((j, w) ∷ m) v h = ground (arith, contains-keys k m v)

  pub All-lookup {κ} :
      (P : K → V → Type κ) (k : K) (v : V) (m : List (K × V))
      → All (λ x. P x.0 x.1) m
      → lookup k m ≡ some v
      → P k v
  All-lookup P k v [] a h = absurd (cc)
  All-lookup P k v ((j, w) ∷ m) a h = elim (Bool-cases (j == k)) [
    | inl t ↦ subst (λ y. P y v) ((e.equal_iff j k).0 t) (subst (P j) (ground arith) a.0)
    | inr t ↦ All-lookup P k v m a.1 (rw t at h)
  ]

module _ {K V : Type 0} ⦃e : Equality K⦄ where
  pub Member-of_lookup : (k : K) (m : List (K × V)) (v : V) → lookup k m ≡ some v → Member (k, v) m
  Member-of_lookup k [] v h = cc
  Member-of_lookup k ((j, w) ∷ m) v h = ground (arith, e.equal_iff j k, Member-of_lookup k m v)
