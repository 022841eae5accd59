-- ===== src/Oracle/History.antt =====
-- The observations of state/market_oracle.rs in the order of their timestamps: the newest of them,
-- and when the history counts as long enough.
use mathlib.Core.List.Memᴰ
use mathlib.Core.List.{Memᴰ}
use aera_v.Common.{◌≡◌, List, [], ◌∷◌, some, leb→le, arith, Bool-cases, inl, inr}
use aera_v.Common.Int.{ℤ, ◌≤ℤ◌, leb_ℤ}
use aera_v.Oracle.MarketOracle.{
  Observation, MarketOracle, insert_observation, sort_observations, ordered, last, latest,
}

-- No observation is newer than a time.
abbrev pub NoneAfter : ℤ → List Observation → Type 0
NoneAfter t [] = Unit {0}
NoneAfter t (o ∷ os) = (o.unix_timestamp ≤ℤ t) × NoneAfter t os

abbrev NoneBefore : ℤ → List Observation → Type 0
NoneBefore t [] = Unit {0}
NoneBefore t (o ∷ os) = (t ≤ℤ o.unix_timestamp) × NoneBefore t os

abbrev InOrder : List Observation → Type 0
InOrder [] = Unit {0}
InOrder (o ∷ os) = NoneBefore o.unix_timestamp os × InOrder os

NoneBefore-trans : (s t : ℤ) (os : List Observation) → s ≤ℤ t → NoneBefore t os → NoneBefore s os
NoneBefore-trans s t [] h k = tt
NoneBefore-trans s t (o ∷ os) h (a, k) = (omega arith, NoneBefore-trans s t os h k)

insert_observation-NoneBefore :
    (t : ℤ) (o : Observation) (os : List Observation)
    → t ≤ℤ o.unix_timestamp
    → NoneBefore t os
    → NoneBefore t (insert_observation o os)
unfolding insert_observation
insert_observation-NoneBefore t o [] h k = (h, tt)
insert_observation-NoneBefore t o (x ∷ xs) h (a, k) =
    elim (Bool-cases (leb_ℤ o.unix_timestamp x.unix_timestamp)) [
      | inl e ↦ rw e (h, (a, k))
      | inr e ↦ rw e (a, insert_observation-NoneBefore t o xs h k)
    ]

insert_observation-InOrder :
    (o : Observation) (os : List Observation) → InOrder os → InOrder (insert_observation o os)
unfolding insert_observation
insert_observation-InOrder o [] h = (tt, tt)
insert_observation-InOrder o (x ∷ xs) (a, h) =
    elim (Bool-cases (leb_ℤ o.unix_timestamp x.unix_timestamp)) [
      | inl e ↦
          let le : o.unix_timestamp ≤ℤ x.unix_timestamp = leb→le _ _ e in
          rw e ((le, NoneBefore-trans o.unix_timestamp x.unix_timestamp xs le a), (a, h))
      | inr e ↦
          let le : x.unix_timestamp ≤ℤ o.unix_timestamp = ground arith in
          rw e (
            insert_observation-NoneBefore x.unix_timestamp o xs le a,
            insert_observation-InOrder o xs h,
          )
    ]

sort_observations-InOrder : (os : List Observation) → InOrder (sort_observations os)
unfolding sort_observations
sort_observations-InOrder [] = tt
sort_observations-InOrder (o ∷ os) =
    insert_observation-InOrder o (sort_observations os) (sort_observations-InOrder os)

insert_observation-NoneAfter :
    (t : ℤ) (o : Observation) (os : List Observation)
    → NoneAfter t (insert_observation o os)
    → (o.unix_timestamp ≤ℤ t) × NoneAfter t os
unfolding insert_observation
insert_observation-NoneAfter t o [] (h, k) = (h, tt)
insert_observation-NoneAfter t o (x ∷ xs) h =
    elim (Bool-cases (leb_ℤ o.unix_timestamp x.unix_timestamp)) [
      | inl e ↦ let (a, k) : NoneAfter t (o ∷ x ∷ xs) = rw e at h in (a, k)
      | inr e ↦
          let (a, k) : NoneAfter t (x ∷ insert_observation o xs) = rw e at h in
          let (b, l) = insert_observation-NoneAfter t o xs k in (b, (a, l))
    ]

sort_observations-NoneAfter :
    (t : ℤ) (os : List Observation) → NoneAfter t (sort_observations os) → NoneAfter t os
unfolding sort_observations
sort_observations-NoneAfter t [] h = tt
sort_observations-NoneAfter t (o ∷ os) h =
    let (a, k) = insert_observation-NoneAfter t o (sort_observations os) h in
    (a, sort_observations-NoneAfter t os k)

insert_observation-mem :
    (a o : Observation) (os : List Observation) → Memᴰ a (insert_observation o os) → Memᴰ a (o ∷ os)
unfolding insert_observation
insert_observation-mem a o [] h = h
insert_observation-mem a o (x ∷ xs) h =
    elim (Bool-cases (leb_ℤ o.unix_timestamp x.unix_timestamp)) [
      | inl e ↦ rw e at h
      | inr e ↦
          let k : Memᴰ a (x ∷ insert_observation o xs) = rw e at h in
          elim (Memᴰ.cases_cons k) [
            | inl s ↦ Memᴰ.tail (Memᴰ.head s)
            | inr r ↦ elim (Memᴰ.cases_cons (insert_observation-mem a o xs r)) [
              | inl s ↦ Memᴰ.head s
              | inr q ↦ Memᴰ.tail (Memᴰ.tail q)
            ]
          ]
    ]

pub sort_observations-mem :
    (a : Observation) (os : List Observation) → Memᴰ a (sort_observations os) → Memᴰ a os
unfolding sort_observations
sort_observations-mem a [] h = h
sort_observations-mem a (o ∷ os) h =
    elim (Memᴰ.cases_cons (insert_observation-mem a o (sort_observations os) h)) [
      | inl s ↦ Memᴰ.head s
      | inr r ↦ Memᴰ.tail (sort_observations-mem a os r)
    ]

pub last-mem : (os : List Observation) (o : Observation) → last os ≡ some o → Memᴰ o os
unfolding last
last-mem [] o h = cc
last-mem (x ∷ []) o h = Memᴰ.head cc
last-mem (x ∷ y ∷ os) o h = Memᴰ.tail (last-mem (y ∷ os) o h)

last-after :
    (t : ℤ) (os : List Observation) (o : Observation)
    → NoneBefore t os
    → last os ≡ some o
    → t ≤ℤ o.unix_timestamp
unfolding last
last-after t [] o k h = cc
last-after t (x ∷ []) o (a, _) h = let same : x ≡ o = cc in rw (← same) a
last-after t (x ∷ y ∷ os) o (_, k) h = last-after t (y ∷ os) o k h

last-NoneAfter :
    (os : List Observation) (o : Observation)
    → InOrder os
    → last os ≡ some o
    → NoneAfter o.unix_timestamp os
unfolding last
last-NoneAfter [] o k h = tt
last-NoneAfter (x ∷ []) o k h = let same : x ≡ o = cc in rw (← same) (omega arith, tt)
last-NoneAfter (x ∷ y ∷ os) o (a, k) h =
    (last-after x.unix_timestamp (y ∷ os) o a h, last-NoneAfter (y ∷ os) o k h)

-- The latest observation is a recorded one, and no recorded one is newer.
pub latest-newest :
    (m : MarketOracle) (o : Observation)
    → latest m ≡ some o
    → Memᴰ o m.observations × NoneAfter o.unix_timestamp m.observations
unfolding latest ordered
latest-newest m o h = (
  sort_observations-mem o m.observations (last-mem _ o h),
  sort_observations-NoneAfter _ m.observations
      (last-NoneAfter _ o (sort_observations-InOrder m.observations) h),
)
