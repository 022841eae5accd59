-- ===== src/Safety/Borrowing.antt =====
-- When `handle_borrow` lets a borrow through.
use aera_v.Common.{
  ℕ, ◌+◌, ◌*◌, ◌^◌, ◌<◌, ◌≤◌, ◌≡◌, refl, true, false, ◌==◌, leb→le, ltb→lt, ==_iff, arith, Clock,
  ok, Ensures, Ensures->>=, Ensures-map, Ensures-skip, Ensures-ok, Ensures-unless, Ensures-itself,
  AeraError, returns, require-Ensures, checked_add-Ensures, ◌⊎◌, inl, inr, Bool-cases,
}
use aera_v.Constants.{fixed_point_scale}
use aera_v.Math.Rounds.{IsCeil, IsCeil-div, market_value-Ensures}
use aera_v.Global.{Global, require_not_paused, require_borrow_enabled}
use aera_v.Reserve.{Reserve, require_accrued}
use aera_v.Reserve.Debt.{IsDebt, current_borrowed_amount-Ensures}
use aera_v.Obligation.{Obligation, require_refreshed}
use aera_v.Oracle.Health.{OracleHealth, RiskAction, health_from_u8, permits}
use aera_v.Oracle.State.{OracleState, require_fresh, require_permits, effective_rate}
use aera_v.Oracle.Breaker.{is_set}
use aera_v.Risk.{check_borrow_enabled, check_borrow_cap, require_within_borrow_limit}
use aera_v.Tokens.{TokenProgram}
use aera_v.Instructions.RiskAccount.{Program}
use aera_v.Instructions.Borrow.{Borrow, borrow_checks, borrow_effects, handle_borrow}

-- The terms that a borrow of `amount` meets.
pub record IsPermitted (clock : Clock) (c : Borrow) (amount : ℕ) : Type 0 where
  pub positive : 0 < amount
  pub not_paused : c.global.paused ≡ false
  pub borrows_not_paused : c.global.borrow_paused ≡ false
  pub enabled : c.reserve.config.borrow_enabled ≡ true
  pub obligation_fresh : (c.obligation.stale ≡ false) × (c.obligation.last_update_slot ≡ clock.slot)
  pub reserve_fresh : c.reserve.last_update_slot ≡ clock.slot
  pub oracle_fresh : c.oracle.last_refresh_slot ≡ clock.slot
  pub not_stressed : c.obligation.prices_stressed ≡ false
  pub price_set : 0 < c.oracle.reference.effective_rate
  pub oracle_permits :
      (health : OracleHealth) × (health_from_u8 c.oracle.health ≡ ok health)
      × (permits health RiskAction.borrow ≡ true)
  pub value : ℕ
  pub priced :
      IsCeil (amount * c.oracle.reference.effective_rate) (10 ^ c.reserve.liquidity_decimals) value
  pub within_limit : c.obligation.borrowed_value + value ≤ c.obligation.allowed_borrow_value
  pub debt : ℕ
  pub owed : IsDebt c.reserve.borrowed_principal c.reserve.borrow_index debt
  pub within_cap : (c.reserve.config.borrow_cap ≡ 0) ⊎ (debt + amount ≤ c.reserve.config.borrow_cap)
  pub available : amount ≤ c.reserve.available_liquidity

pub require_refreshed-Ensures :
    (o : Obligation) (clock : Clock)
    → Ensures
        (λ _. (o.stale ≡ false) × (o.last_update_slot ≡ clock.slot))
        (require_refreshed o clock)
unfolding require_refreshed
require_refreshed-Ensures o clock =
    Ensures->>= (require-Ensures _ _)
      λ _ a. Ensures-map (require-Ensures _ _) λ _ b. (ground arith, (==_iff _ _).0 b)

require_borrow_enabled-Ensures :
    (g : Global)
    → Ensures (λ _. (g.paused ≡ false) × (g.borrow_paused ≡ false)) (require_borrow_enabled g)
unfolding require_borrow_enabled require_not_paused
require_borrow_enabled-Ensures g =
    Ensures->>= (require-Ensures _ _)
      λ _ a. Ensures-map (require-Ensures _ _) λ _ b. (ground arith, ground arith)

require_permits-Ensures :
    (s : OracleState) (action : RiskAction)
    → Ensures
        (λ _.
          (health : OracleHealth) × (health_from_u8 s.health ≡ ok health)
          × (permits health action ≡ true))
        (require_permits s action)
unfolding require_permits
require_permits-Ensures s action =
    Ensures->>= (Ensures-itself _)
      λ health e. Ensures-map (require-Ensures _ _) λ _ p. (health, e, p)

check_borrow_cap-Ensures :
    (r : Reserve) (adding : ℕ)
    → Ensures
        (λ _.
          (debt : ℕ) × IsDebt r.borrowed_principal r.borrow_index debt
          × ((r.config.borrow_cap ≡ 0) ⊎ (debt + adding ≤ r.config.borrow_cap)))
        (check_borrow_cap r adding)
unfolding check_borrow_cap
check_borrow_cap-Ensures r adding = elim (Bool-cases (r.config.borrow_cap == 0)) [
  | inl e ↦ rw e (
      returns (
        _,
        IsCeil-div (r.borrowed_principal * r.borrow_index) fixed_point_scale (omega arith),
        inl ((==_iff _ _).0 e),
      ))
  | inr e ↦ rw e (
      Ensures->>= (current_borrowed_amount-Ensures r) λ borrowed owed.
        Ensures->>= (checked_add-Ensures _ _ _) λ after (a, _).
          Ensures-map (require-Ensures _ _)
            λ _ le. (borrowed, owed.is_debt, inr (omega (arith, leb→le _ _ le))))
]

within_limit-Ensures :
    (projected allowed : ℕ) (error : AeraError)
    → Ensures (λ _. projected ≤ allowed) (require_within_borrow_limit projected allowed error)
unfolding require_within_borrow_limit
within_limit-Ensures projected allowed error = Ensures-unless _ _ _ λ h. ground arith

effective_rate-Ensures :
    (s : OracleState)
    → Ensures
        (λ p. (0 < s.reference.effective_rate) × (p ≡ s.reference.effective_rate))
        (effective_rate s)
unfolding effective_rate is_set
effective_rate-Ensures s = Ensures->>= (require-Ensures _ _) λ _ p. returns (ltb→lt _ _ p, refl)

borrow_checks-IsPermitted :
    (program : Program) (clock : Clock) (c : Borrow) (amount : ℕ)
    → Ensures (λ _. IsPermitted clock c amount) (borrow_checks program clock c amount)
unfolding borrow_checks require_accrued check_borrow_enabled require_fresh
borrow_checks-IsPermitted program clock c amount = Ensures->>= (require-Ensures _ _) λ _ pos.
    Ensures->>= (require_borrow_enabled-Ensures _) λ _ (running, borrowing).
      Ensures->>= (require_refreshed-Ensures _ _) λ _ refreshed.
        Ensures->>= (require-Ensures _ _) λ _ accrued.
          Ensures->>= (require-Ensures _ _) λ _ enabled. Ensures->>= (require-Ensures _ _) λ _ calm.
            Ensures->>= (require-Ensures _ _) λ _ fresh.
              Ensures->>= (require_permits-Ensures _ _) λ _ permitted.
                Ensures->>= (effective_rate-Ensures _) λ price (set, p).
                  Ensures->>= (market_value-Ensures _ _ _ _) λ value v.
                    Ensures->>= (checked_add-Ensures _ _ _) λ projected (sum, _).
                      Ensures->>= (within_limit-Ensures _ _ _) λ _ limit.
                        Ensures->>= (check_borrow_cap-Ensures _ _) λ _ (debt, owed, cap).
                          Ensures-skip _ λ config. Ensures-skip _ λ already. Ensures-skip _ λ _.
                            Ensures-map (require-Ensures _ _) λ _ enough. record {
                              positive = ltb→lt _ _ pos;
                              not_paused = running;
                              borrows_not_paused = borrowing;
                              enabled = enabled;
                              obligation_fresh = refreshed;
                              reserve_fresh = (==_iff _ _).0 accrued;
                              oracle_fresh = (==_iff _ _).0 fresh;
                              not_stressed = ground arith;
                              price_set = set;
                              oracle_permits = permitted;
                              value = value;
                              priced = rw p at v;
                              within_limit = omega arith;
                              debt = debt;
                              owed = owed;
                              within_cap = cap;
                              available = leb→le _ _ enough;
                            }

permitted :
    {L : Type 0} (tokens : TokenProgram L) (program : Program) (clock : Clock) (c : Borrow)
    (amount : ℕ) (l : L)
    → Ensures (λ _. IsPermitted clock c amount) (handle_borrow tokens program clock c amount l)
unfolding handle_borrow borrow_effects
permitted tokens program clock c amount l =
    Ensures-skip _ λ _. Ensures->>= checked λ _ p. Ensures-skip _ λ _. returns p
  where
    checked : Ensures (λ _. IsPermitted clock c amount) (borrow_effects program clock c amount)
    checked =
        Ensures->>= (borrow_checks-IsPermitted program clock c amount)
          λ _ p. Ensures-skip _ λ _. Ensures-skip _ λ _. returns p

-- A borrow that goes through was permitted: nothing was paused, the obligation, the reserve and the
-- oracle were of this slot, the prices were not stressed and the oracle's health permits borrowing,
-- the debt with the borrow, valued up, is within the allowed borrow value, the reserve's debt with
-- the borrow is within its cap (unless that is 0), and the amount is within the
-- available liquidity.
pub handle_borrow-IsPermitted :
    {L : Type 0} (tokens : TokenProgram L) (program : Program) (clock : Clock) (c c' : Borrow)
    (amount : ℕ) (l l' : L)
    → handle_borrow tokens program clock c amount l ≡ ok (c', l')
    → IsPermitted clock c amount
handle_borrow-IsPermitted tokens program clock c c' amount l l' e =
    Ensures-ok (permitted tokens program clock c amount l) e
