-- ===== src/Common/Errors.antt =====
-- Errors as values (programs/aera/src/errors.rs), and the rules by which the proofs follow a chain of fallible steps.
use Prim.Native.Nat.{ℕ}
use mathlib.Core.Path.{◌≡◌, refl, subst, ap}
use mathlib.Core.Bool.{Bool, true, false}
use aera_v.Common.Tests.{if◌then◌else◌}

-- `AeraError`, with one constructor more: `external` is a refusal by code outside the program, a
-- token program or Anchor's account checks, with its code.
pub data AeraError : Type 0 where
  math_overflow zero_amount deposit_too_small : AeraError
  invalid_config ltv_above_hard_max bonus_above_hard_max : AeraError
  reserve_factor_above_hard_max origination_fee_above_hard_max : AeraError
  haircut_below_hard_min invalid_timelock : AeraError
  no_pending_config timelock_not_elapsed : AeraError
  reserve_stale obligation_stale : AeraError
  invalid_oracle_price circuit_breaker_tripped : AeraError
  oracle_account_mismatch oracle_owner_mismatch oracle_account_malformed : AeraError
  oracle_mint_mismatch oracle_zero_supply oracle_zero_backing : AeraError
  oracle_withdrawal_fee_too_high oracle_rate_below_floor oracle_rate_above_ceiling : AeraError
  unknown_oracle_source oracle_stale oracle_borrow_frozen oracle_emergency : AeraError
  invalid_oracle_config oracle_program_data_mismatch oracle_program_upgraded : AeraError
  oracle_authority_changed oracle_bootstrap_inconsistent oracle_bootstrapping : AeraError
  borrow_paused protocol_paused borrow_not_enabled collateral_not_enabled : AeraError
  supply_cap_exceeded borrow_cap_exceeded per_wallet_cap_exceeded : AeraError
  per_wallet_borrow_cap_exceeded unexpected_amm_program unexpected_pool_pair : AeraError
  insufficient_pool_depth pools_disagree observation_too_soon amm_deployment_changed : AeraError
  borrow_too_large withdraw_too_large obligation_healthy obligation_has_collateral : AeraError
  no_bad_debt insufficient_reserve_liquidity liquidation_too_large : AeraError
  too_many_reserves reserve_not_found invalid_obligation_account market_mismatch : AeraError
  global_mismatch not_admin wrong_fee_destination nothing_to_collect : AeraError
  already_migrated not_migratable migration_changed_state : AeraError
  external : ℕ → AeraError

pub data Outcome {ℓ} (A : Type ℓ) : Type ℓ where
  ok : A → Outcome A
  err : AeraError → Outcome A

infixl 5 ◌>>=◌ ◌>>◌
unfoldable pub ◌>>=◌ {ℓ κ} : {A : Type ℓ} {B : Type κ} → Outcome A → (A → Outcome B) → Outcome B
ok a >>= f = f a
err e >>= f = err e

abbrev pub ◌>>◌ {ℓ} : {B : Type ℓ} → Outcome (Unit {0}) → Outcome B → Outcome B
m >> k = m >>= λ _. k

-- `require!(test, error)`
unfoldable pub require : Bool → AeraError → Outcome (Unit {0})
require true e = ok tt
require false e = err e

-- What holds of the value, if there is one. The family is indexed by the outcome, so that a chain
-- of steps is followed by its rule for `>>=` with every step shut.
pub data Ensures {ℓ κ} {A : Type ℓ} (P : A → Type κ) : Outcome A → Type (ℓ ⊔ κ) where
  returns : {a : A} → P a → Ensures P (ok a)
  fails : {e : AeraError} → Ensures P (err e)

module _ {ℓ κ ι} {A : Type ℓ} {B : Type κ} {P : A → Type ι} where
  pub Ensures->>= {μ} :
      {Q : B → Type μ} {m : Outcome A} {f : A → Outcome B}
      → Ensures P m
      → ((a : A) → P a → Ensures Q (f a))
      → Ensures Q (m >>= f)
  unfolding ◌>>=◌
  Ensures->>= (returns {a} p) k = k a p
  Ensures->>= fails k = fails

value_or {ℓ} : {A : Type ℓ} → A → Outcome A → A
value_or d (ok a) = a
value_or d (err e) = d

-- The same, read at a run that has returned.
pub Ensures-ok {ℓ κ} :
    {A : Type ℓ} {P : A → Type κ} {m : Outcome A} {a : A} → Ensures P m → m ≡ ok a → P a
unfolding value_or
Ensures-ok {P = P} (returns {a = b} p) e = subst P (ap (value_or b) e) p
Ensures-ok fails e = cc

-- Every run ensures that it is the run it is.
pub Ensures-itself {ℓ} : {A : Type ℓ} (m : Outcome A) → Ensures (λ a. m ≡ ok a) m
Ensures-itself (ok a) = returns refl
Ensures-itself (err e) = fails

-- Weaker conclusions follow.
pub Ensures-map {ℓ κ μ} :
    {A : Type ℓ} {P : A → Type κ} {Q : A → Type μ} {m : Outcome A}
    → Ensures P m
    → ((a : A) → P a → Q a)
    → Ensures Q m
Ensures-map (returns {a} p) k = returns (k a p)
Ensures-map fails k = fails

-- A run that returns, with a value of which `P` holds.
pub data Returns {ℓ κ} {A : Type ℓ} (P : A → Type κ) : Outcome A → Type (ℓ ⊔ κ) where
  done : {a : A} → P a → Returns P (ok a)

module _ {ℓ κ ι} {A : Type ℓ} {B : Type κ} {P : A → Type ι} where
  pub Returns->>= {μ} :
      {Q : B → Type μ} {m : Outcome A} {f : A → Outcome B}
      → Returns P m
      → ((a : A) → P a → Returns Q (f a))
      → Returns Q (m >>= f)
  unfolding ◌>>=◌
  Returns->>= (done {a} p) k = k a p

pub Returns-map {ℓ κ μ} :
    {A : Type ℓ} {P : A → Type κ} {Q : A → Type μ} {m : Outcome A}
    → Returns P m
    → ((a : A) → P a → Q a)
    → Returns Q m
Returns-map (done {a} p) k = done (k a p)

pub Returns-ok {ℓ} : {A : Type ℓ} {m : Outcome A} {a : A} → Returns (λ x. x ≡ a) m → m ≡ ok a
Returns-ok (done e) = ap ok e

pub Returns-eq {ℓ κ} :
    {A : Type ℓ} {P : A → Type κ} {m : Outcome A} → Returns P m → (a : A) × (m ≡ ok a) × P a
Returns-eq (done {a} p) = (a, refl, p)

-- The rules for a guard.
pub require-Ensures : (b : Bool) (e : AeraError) → Ensures (λ _. b ≡ true) (require b e)
unfolding require
require-Ensures true e = returns refl
require-Ensures false e = fails

pub require-Returns : {b : Bool} (e : AeraError) → b ≡ true → Returns (λ _. b ≡ true) (require b e)
unfolding require
require-Returns {b = true} e h = done h
require-Returns {b = false} e h = cc

module _ {ℓ κ} {A : Type ℓ} {P : A → Type κ} (a : A) (e : AeraError) where
  pub Ensures-if : (b : Bool) → (b ≡ true → P a) → Ensures P (if b then ok a else err e)
  Ensures-if true k = returns (k refl)
  Ensures-if false k = fails

  pub Returns-if : {b : Bool} → b ≡ true → P a → Returns P (if b then ok a else err e)
  Returns-if {b = true} h p = done p
  Returns-if {b = false} h p = cc

  pub Ensures-unless : (b : Bool) → (b ≡ false → P a) → Ensures P (if b then err e else ok a)
  Ensures-unless true k = fails
  Ensures-unless false k = returns (k refl)

  pub Returns-unless : {b : Bool} → b ≡ false → P a → Returns P (if b then err e else ok a)
  Returns-unless {b = true} h p = cc
  Returns-unless {b = false} h p = done p

-- A step of which nothing is asked.
pub Ensures-skip {ℓ κ μ} :
    {A : Type ℓ} {B : Type κ} {Q : B → Type μ} (m : Outcome A) {f : A → Outcome B}
    → ((a : A) → Ensures Q (f a))
    → Ensures Q (m >>= f)
unfolding ◌>>=◌
Ensures-skip (ok a) k = k a
Ensures-skip (err e) k = fails
