-- ===== src/Common/Lists.antt =====
-- Lists as the vectors of Rust, over the native numbers.
use Prim.Native.Nat.{ℕ, zero, suc, ◌+◌}
use mathlib.Core.Path.{◌≡◌, refl}
use mathlib.Core.Bool.{Bool, true, false, ◌||◌}
use mathlib.Core.Option.{Option, none, some}
use mathlib.Core.List.{List, [], ◌∷◌, ◌++◌}
use mathlib.Core.Logic.{◌⊎◌, inl, inr}
use native.Mathlib.Omega.{arith}
use aera_v.Common.Tests.{if◌then◌else◌, Bool-cases}

abbrev later : Option ℕ → Option ℕ
later none = none
later (some i) = some (suc i)

later-suc : (m : Option ℕ) (i : ℕ) → later m ≡ some i → (j : ℕ) × (i ≡ suc j) × (m ≡ some j)
later-suc none i h = cc
later-suc (some j) i h = (j, cc, refl)

later-none : (m : Option ℕ) → later m ≡ none → m ≡ none
later-none none h = refl
later-none (some i) h = cc

-- To split on an option and keep the equation.
pub Option-cases {ℓ} : {A : Type ℓ} (m : Option A) → (m ≡ none) ⊎ ((a : A) × (m ≡ some a))
Option-cases none = inl refl
Option-cases (some a) = inr (a, refl)

module _ {ℓ} {A : Type ℓ} where
  abbrev pub length : List A → ℕ
  length [] = 0
  length (_ ∷ xs) = suc (length xs)

  abbrev pub get_elem? : List A → ℕ → Option A
  get_elem? [] i = none
  get_elem? (x ∷ xs) zero = some x
  get_elem? (x ∷ xs) (suc i) = get_elem? xs i

  -- `v[i] = x`
  abbrev pub set : List A → ℕ → A → List A
  set [] i v = []
  set (x ∷ xs) zero v = v ∷ xs
  set (x ∷ xs) (suc i) v = x ∷ set xs i v

  -- `v.remove(i)`
  abbrev pub erase_idx : List A → ℕ → List A
  erase_idx [] i = []
  erase_idx (x ∷ xs) zero = xs
  erase_idx (x ∷ xs) (suc i) = x ∷ erase_idx xs i

  -- `v.iter().position(p)`
  abbrev pub position : (A → Bool) → List A → Option ℕ
  position p [] = none
  position p (x ∷ xs) = if p x then some zero else later (position p xs)

  -- `v.iter().any(p)`
  abbrev pub any : (A → Bool) → List A → Bool
  any p [] = false
  any p (x ∷ xs) = p x || any p xs

  -- The sum of a measure over a list.
  abbrev pub sum_map : (A → ℕ) → List A → ℕ
  sum_map f [] = 0
  sum_map f (x ∷ xs) = f x + sum_map f xs

  pub sum_map-set :
      (f : A → ℕ) (xs : List A) (i : ℕ) (x y : A)
      → get_elem? xs i ≡ some x
      → sum_map f (set xs i y) + f x ≡ sum_map f xs + f y
  sum_map-set f [] i x y h = cc
  sum_map-set f (z ∷ xs) zero x y h = ground arith
  sum_map-set f (z ∷ xs) (suc i) x y h = omega (arith, sum_map-set f xs i x y h)

  pub sum_map-erase_idx :
      (f : A → ℕ) (xs : List A) (i : ℕ) (x : A)
      → get_elem? xs i ≡ some x
      → sum_map f (erase_idx xs i) + f x ≡ sum_map f xs
  sum_map-erase_idx f [] i x h = cc
  sum_map-erase_idx f (z ∷ xs) zero x h = ground arith
  sum_map-erase_idx f (z ∷ xs) (suc i) x h = omega (arith, sum_map-erase_idx f xs i x h)

  pub sum_map-append_one :
      (f : A → ℕ) (xs : List A) (y : A) → sum_map f (xs ++ (y ∷ [])) ≡ sum_map f xs + f y
  sum_map-append_one f [] y = omega arith
  sum_map-append_one f (x ∷ xs) y = omega (arith, sum_map-append_one f xs y)

  pub get_elem?-set :
      (xs : List A) (i : ℕ) (x y : A) → get_elem? xs i ≡ some x → get_elem? (set xs i y) i ≡ some y
  get_elem?-set [] i x y h = cc
  get_elem?-set (z ∷ xs) zero x y h = refl
  get_elem?-set (z ∷ xs) (suc i) x y h = get_elem?-set xs i x y h

  -- An element that a search finds passes its test.
  pub position-found :
      (p : A → Bool) (xs : List A) (i : ℕ) (x : A)
      → position p xs ≡ some i
      → get_elem? xs i ≡ some x
      → p x ≡ true
  position-found p [] i x h g = cc
  position-found p (z ∷ xs) zero x h g = elim (Bool-cases (p z)) [
    | inl e ↦ cc
    | inr e ↦
        let (j, k, _) = later-suc (position p xs) zero (rw e at h) in absurd (omega (arith, k))
  ]
  position-found p (z ∷ xs) (suc i) x h g = elim (Bool-cases (p z)) [
    | inl e ↦ let h' : some zero ≡ some (suc i) = rw e at h in cc
    | inr e ↦
        let (j, k, found) = later-suc (position p xs) (suc i) (rw e at h) in
        let same : i ≡ j = omega (arith, k) in position-found p xs i x (rw same found) g
  ]

  -- An element appended to a list without a match is found at its end.
  pub position-append_one :
      (p : A → Bool) (xs : List A) (y : A)
      → position p xs ≡ none
      → p y ≡ true
      → position p (xs ++ (y ∷ [])) ≡ some (length xs)
  position-append_one p [] y h e = rw e refl
  position-append_one p (x ∷ xs) y h e = elim (Bool-cases (p x)) [
    | inl t ↦ let h' : some zero ≡ none = rw t at h in cc
    | inr f ↦
        let rest = position-append_one p xs y (later-none (position p xs) (rw f at h)) e in
        rw (f, rest) refl
  ]
