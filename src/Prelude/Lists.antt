-- ===== src/Prelude/Lists.antt =====
-- Lists over the native numbers, with the tests and searches of the source's arrays.
use Prim.Native.Nat.{ℕ, zero, suc, ◌+◌, ◌≤◌}
use mathlib.Core.Path.{◌≡◌, refl, sym, ap, subst}
use mathlib.Core.Logic.{◌⊎◌, inl, inr}
use mathlib.Core.Bool.{Bool, true, false, not, ◌&&◌, ◌||◌}
use mathlib.Core.Option.{Option, none, some}
use mathlib.Core.List.{List, [], ◌∷◌, ◌++◌, map}
use native.Mathlib.Omega.{arith}
use cf_open_agents_api.Prelude.Tests.{if◌then◌else◌, Equality, ◌==◌, Bool-cases}

module _ {ℓ} {A : Type ℓ} where
  abbrev pub length : List A → ℕ
  length [] = 0
  length (x ∷ xs) = suc (length xs)

  abbrev pub take : ℕ → List A → List A
  take zero xs = []
  take (suc n) [] = []
  take (suc n) (x ∷ xs) = x ∷ take n xs

  abbrev pub drop : ℕ → List A → List A
  drop zero xs = xs
  drop (suc n) [] = []
  drop (suc n) (x ∷ xs) = drop n xs

  -- `array.filter(test)`
  abbrev pub filter : (A → Bool) → List A → List A
  filter p [] = []
  filter p (x ∷ xs) = let rest = filter p xs in if p x then x ∷ rest else rest

  -- `array.some(test)`
  abbrev pub any : (A → Bool) → List A → Bool
  any p [] = false
  any p (x ∷ xs) = p x || any p xs

  abbrev pub all : (A → Bool) → List A → Bool
  all p [] = true
  all p (x ∷ xs) = p x && all p xs

  -- `array.find(test)`
  abbrev pub find : (A → Bool) → List A → Option A
  find p [] = none
  find p (x ∷ xs) = let rest = find p xs in if p x then some x else rest

  -- `array.includes(value)`
  abbrev pub contains : ⦃e : Equality A⦄ → List A → A → Bool
  contains [] a = false
  contains (x ∷ xs) a = x == a || contains xs a

  -- No value occurs twice.
  abbrev pub distinct : ⦃e : Equality A⦄ → List A → Bool
  distinct [] = true
  distinct (x ∷ xs) = not (contains xs x) && distinct xs

  -- A predicate on every element, and a value among the elements.
  abbrev pub All {κ} : (A → Type κ) → List A → Type κ
  All P [] = Unit
  All P (x ∷ xs) = P x × All P xs

  pub length-append : (xs ys : List A) → length (xs ++ ys) ≡ length xs + length ys
  length-append [] ys = omega arith
  length-append (x ∷ xs) ys = omega (arith, length-append xs ys)

  pub length-filter-le : (p : A → Bool) (xs : List A) → length (filter p xs) ≤ length xs
  length-filter-le p [] = omega arith
  length-filter-le p (x ∷ xs) = ground (arith, length-filter-le p xs)

  pub All-append {κ} : (P : A → Type κ) (xs ys : List A) → All P xs → All P ys → All P (xs ++ ys)
  All-append P [] ys hx hy = hy
  All-append P (x ∷ xs) ys hx hy = (hx.0, All-append P xs ys hx.1 hy)

  pub All-append_left {κ} : (P : A → Type κ) (xs ys : List A) → All P (xs ++ ys) → All P xs
  All-append_left P [] ys h = tt
  All-append_left P (x ∷ xs) ys h = (h.0, All-append_left P xs ys h.1)

  pub All-append_right {κ} : (P : A → Type κ) (xs ys : List A) → All P (xs ++ ys) → All P ys
  All-append_right P [] ys h = h
  All-append_right P (x ∷ xs) ys h = All-append_right P xs ys h.1

  pub All-map_of {κ μ} :
      {P : A → Type κ} {Q : A → Type μ}
      → ((a : A) → P a → Q a)
      → (xs : List A) → All P xs
      → All Q xs
  All-map_of f [] h = tt
  All-map_of f (x ∷ xs) h = (f x h.0, All-map_of f xs h.1)

  pub All-filter {κ} :
      (P : A → Type κ) (p : A → Bool) (xs : List A) → All P xs → All P (filter p xs)
  All-filter P p [] h = tt
  All-filter P p (x ∷ xs) h = elim (Bool-cases (p x)) [
    | inl e ↦ rw e (h.0, All-filter P p xs h.1)
    | inr e ↦ rw e (All-filter P p xs h.1)
  ]

  -- What a test passes.
  pub All-filter_test : (p : A → Bool) (xs : List A) → All (λ x. p x ≡ true) (filter p xs)
  All-filter_test p [] = tt
  All-filter_test p (x ∷ xs) = elim (Bool-cases (p x)) [
    | inl e ↦ rw e (e, All-filter_test p xs)
    | inr e ↦ rw e (All-filter_test p xs)
  ]

  pub any-append : (p : A → Bool) (xs ys : List A) → any p (xs ++ ys) ≡ (any p xs || any p ys)
  any-append p [] ys = refl
  any-append p (x ∷ xs) ys = ground (arith, any-append p xs ys)

  pub filter-append :
      (p : A → Bool) (xs ys : List A) → filter p (xs ++ ys) ≡ filter p xs ++ filter p ys
  filter-append p [] ys = refl
  filter-append p (x ∷ xs) ys = elim (Bool-cases (p x)) [
    | inl e ↦ rw e (ap (◌∷◌ x) (filter-append p xs ys))
    | inr e ↦ rw e (filter-append p xs ys)
  ]

pub All_of_map {ℓ κ μ} :
    {A : Type ℓ} {B : Type κ} (f : A → B) (P : B → Type μ) (xs : List A)
    → All P (map f xs)
    → All (λ a. P (f a)) xs
All_of_map f P [] h = tt
All_of_map f P (x ∷ xs) h = (h.0, All_of_map f P xs h.1)

-- A value among the elements of a list.
abbrev pub Member : {A : Type 0} → A → List A → Type 0
Member a [] = ⊥
Member a (x ∷ xs) = (a ≡ x) ⊎ Member a xs

module _ {A : Type 0} where
  pub Member-append_left : (a : A) (xs ys : List A) → Member a xs → Member a (xs ++ ys)
  Member-append_left a [] ys h = elim h [ ]
  Member-append_left a (x ∷ xs) ys (inl e) = inl e
  Member-append_left a (x ∷ xs) ys (inr h) = inr (Member-append_left a xs ys h)

  pub Member-append_right : (a : A) (xs ys : List A) → Member a ys → Member a (xs ++ ys)
  Member-append_right a [] ys h = h
  Member-append_right a (x ∷ xs) ys h = inr (Member-append_right a xs ys h)

  pub Member-append_cases :
      (a : A) (xs ys : List A) → Member a (xs ++ ys) → Member a xs ⊎ Member a ys
  Member-append_cases a [] ys h = inr h
  Member-append_cases a (x ∷ xs) ys (inl e) = inl (inl e)
  Member-append_cases a (x ∷ xs) ys (inr h) = elim (Member-append_cases a xs ys h) [
    | inl l ↦ inl (inr l)
    | inr r ↦ inr r
  ]

  pub All-Member {κ} : (P : A → Type κ) (a : A) (xs : List A) → All P xs → Member a xs → P a
  All-Member P a [] h m = elim m [ ]
  All-Member P a (x ∷ xs) h (inl e) = subst P (sym e) h.0
  All-Member P a (x ∷ xs) h (inr m) = All-Member P a xs h.1 m

  pub All_of_Member {κ} : {P : A → Type κ} (xs : List A) → ((a : A) → Member a xs → P a) → All P xs
  All_of_Member [] f = tt
  All_of_Member (x ∷ xs) f = (f x (inl refl), All_of_Member xs (λ a m. f a (inr m)))

  pub Member-of_filter :
      (p : A → Bool) (a : A) (xs : List A) → Member a (filter p xs) → Member a xs × (p a ≡ true)
  Member-of_filter p a [] h = elim h [ ]
  Member-of_filter p a (x ∷ xs) h = ground (arith, Member-of_filter p a xs)

  pub Member-filter :
      (p : A → Bool) (a : A) (xs : List A) → Member a xs → p a ≡ true → Member a (filter p xs)
  Member-filter p a [] h t = h
  Member-filter p a (x ∷ xs) (inl e) t = ground arith
  Member-filter p a (x ∷ xs) (inr h) t = ground (arith, Member-filter p a xs h t)

  pub Member-map :
      {B : Type 0} (f : A → B) (a : A) (xs : List A) → Member a xs → Member (f a) (map f xs)
  Member-map f a [] h = elim h [ ]
  Member-map f a (x ∷ xs) (inl e) = inl (ap f e)
  Member-map f a (x ∷ xs) (inr h) = inr (Member-map f a xs h)

module _ {A : Type 0} ⦃e : Equality A⦄ where
  pub contains-Member : (xs : List A) (a : A) → contains xs a ≡ true → Member a xs
  contains-Member [] a h = cc
  contains-Member (x ∷ xs) a h = ground (arith, contains-Member xs a, e.equal_iff x a)

  pub Member-contains : (xs : List A) (a : A) → Member a xs → contains xs a ≡ true
  Member-contains [] a h = elim h [ ]
  Member-contains (x ∷ xs) a h = ground (arith, Member-contains xs a, e.equal_iff x a)

pub Member-of_map :
    {A B : Type 0} (f : A → B) (b : B) (xs : List A)
    → Member b (map f xs)
    → (a : A) × Member a xs × (b ≡ f a)
Member-of_map f b [] h = elim h [ ]
Member-of_map f b (x ∷ xs) (inl e) = (x, inl refl, e)
Member-of_map f b (x ∷ xs) (inr h) = let (a, m, e) = Member-of_map f b xs h in (a, inr m, e)
