-- ===== src/Pool/Trades.antt =====
-- Supply and withdraw keep the share's worth.
use aera_v.Common.{
  ℕ, ◌+◌, ◌*◌, ◌<◌, ◌≤◌, ◌≡◌, refl, max, arith, Clock, Ensures, Ensures->>=, Ensures-map,
  Ensures-skip, returns, require-Ensures, checked_add-Ensures, checked_sub-Ensures, inl, inr,
  ltb→lt,
}
use aera_v.Math.{down}
use aera_v.Math.Rounds.{IsFloor}
use aera_v.Reserve.{Reserve}
use aera_v.Reserve.Debt.{IsClaim, Buys, liquidity_to_shares-Ensures, shares_to_liquidity-Ensures}
use aera_v.Tokens.{TokenProgram}
use aera_v.Instructions.Supply.{Supply, supply_effects, handle_supply}
use aera_v.Instructions.Withdraw.{Withdraw, withdraw_effects, handle_withdraw}
use aera_v.Pool.Rate.{NotDiluted, IsFair, dilution_buy, dilution_sell, same_debt}

-- What a supply writes.
pub record Supplied (c : Supply) (amount : ℕ) (c' : Supply) (shares : ℕ) : Type 0 where
  pub available : c'.reserve.available_liquidity ≡ c.reserve.available_liquidity + amount
  pub supply : c'.reserve.share_mint_supply ≡ c.reserve.share_mint_supply + shares
  pub principal : c'.reserve.borrowed_principal ≡ c.reserve.borrowed_principal
  pub index : c'.reserve.borrow_index ≡ c.reserve.borrow_index
  pub fees : c'.reserve.accrued_fees ≡ c.reserve.accrued_fees
  pub config : c'.reserve.config ≡ c.reserve.config
  pub positive : 0 < shares
  pub bought : Buys c.reserve amount down shares

pub supply_effects-Supplied :
    (clock : Clock) (c : Supply) (amount : ℕ)
    → Ensures (λ (c', shares). Supplied c amount c' shares) (supply_effects clock c amount)
unfolding supply_effects
supply_effects-Supplied clock c amount = Ensures-skip _ λ _. Ensures-skip _ λ _. Ensures-skip _ λ _.
    Ensures-skip _ λ _. Ensures-skip _ λ _.
      Ensures->>= (liquidity_to_shares-Ensures _ _ _) λ shares bought.
        Ensures->>= (require-Ensures _ _) λ _ pos.
          Ensures->>= (checked_add-Ensures _ _ _) λ available (a, _).
            Ensures->>= (checked_add-Ensures _ _ _) λ supply (s, _). Ensures-skip _ λ supplied.
              returns (record {
                available = a;
                supply = s;
                principal = refl;
                index = refl;
                fees = refl;
                config = refl;
                positive = ltb→lt _ _ pos;
                bought = bought;
              })

pub bought_at_rate :
    (r : Reserve) (t amount shares : ℕ)
    → 0 < r.share_mint_supply
    → IsClaim r t
    → Buys r amount down shares
    → shares * max t 1 ≤ amount * r.share_mint_supply
bought_at_rate r t amount shares out claim (inl (empty, _)) = absurd (omega arith)
bought_at_rate r t amount shares out claim (inr (total, owed, _, f)) =
    let one = same_debt r r t total refl refl claim owed in
    let e : total ≡ t = omega (arith, claim.balance, owed.balance, one) in rw (← e) f.below

-- What a supply pays for a share is no less than what a share is worth.
Supplied-NotDiluted :
    (c c' : Supply) (amount shares : ℕ)
    → Supplied c amount c' shares
    → NotDiluted c.reserve c'.reserve
Supplied-NotDiluted c c' amount shares s t t' out claim claim' =
    let same = same_debt c.reserve c'.reserve t t' s.principal s.index claim claim' in
    let grown : t' ≡ t + amount =
      omega (arith, claim.balance, claim'.balance, same, s.available, s.fees) in
    rw (s.supply, grown)
      (dilution_buy t c.reserve.share_mint_supply amount shares
        (bought_at_rate c.reserve t amount shares out claim s.bought))

pub handle_supply-Supplied :
    {L : Type 0} (tokens : TokenProgram L) (clock : Clock) (c : Supply) (amount : ℕ) (l : L)
    → Ensures
        (λ (c', _). (shares : ℕ) × Supplied c amount c' shares)
        (handle_supply tokens clock c amount l)
unfolding handle_supply
handle_supply-Supplied tokens clock c amount l = Ensures-skip _ λ _.
    Ensures->>= (supply_effects-Supplied clock c amount)
      λ (c', shares) s. Ensures-skip _ λ _. Ensures-skip _ λ _. returns (shares, s)

-- A supply does not lower the worth of a share.
pub handle_supply-IsFair :
    {L : Type 0} (tokens : TokenProgram L) (clock : Clock) (c : Supply) (amount : ℕ) (l : L)
    → Ensures (λ (c', _). IsFair c.reserve c'.reserve) (handle_supply tokens clock c amount l)
handle_supply-IsFair tokens clock c amount l =
    Ensures-map (handle_supply-Supplied tokens clock c amount l) λ (c', _) (shares, s). record {
      config = s.config;
      worth = Supplied-NotDiluted c c' amount shares s;
    }

-- What a withdrawal writes.
pub record Withdrawn (c : Withdraw) (shares : ℕ) (c' : Withdraw) (amount : ℕ) : Type 0 where
  pub available : c.reserve.available_liquidity ≡ c'.reserve.available_liquidity + amount
  pub supply : c.reserve.share_mint_supply ≡ c'.reserve.share_mint_supply + shares
  pub principal : c'.reserve.borrowed_principal ≡ c.reserve.borrowed_principal
  pub index : c'.reserve.borrow_index ≡ c.reserve.borrow_index
  pub fees : c'.reserve.accrued_fees ≡ c.reserve.accrued_fees
  pub config : c'.reserve.config ≡ c.reserve.config
  pub total : ℕ
  pub claim : IsClaim c.reserve total
  pub redeemed : IsFloor (shares * total) (max c.reserve.share_mint_supply 1) amount

pub withdraw_effects-Withdrawn :
    (clock : Clock) (c : Withdraw) (shares : ℕ)
    → Ensures (λ (c', amount). Withdrawn c shares c' amount) (withdraw_effects clock c shares)
unfolding withdraw_effects
withdraw_effects-Withdrawn clock c shares = Ensures-skip _ λ _. Ensures-skip _ λ _.
    Ensures-skip _ λ _. Ensures-skip _ λ _.
      Ensures->>= (shares_to_liquidity-Ensures _ _ _) λ amount (total, claim, redeemed, _).
        Ensures-skip _ λ _. Ensures->>= (checked_sub-Ensures _ _) λ available (a, ha).
          Ensures->>= (checked_sub-Ensures _ _) λ supply (s, hs). returns (record {
            available = omega arith;
            supply = omega arith;
            principal = refl;
            index = refl;
            fees = refl;
            config = refl;
            total = total;
            claim = claim;
            redeemed = redeemed;
          })

Withdrawn-NotDiluted :
    (c c' : Withdraw) (shares amount : ℕ)
    → Withdrawn c shares c' amount
    → NotDiluted c.reserve c'.reserve
Withdrawn-NotDiluted c c' shares amount w t t' out claim claim' =
    let same = same_debt c.reserve c'.reserve t t' w.principal w.index claim claim' in
    let one = same_debt c.reserve c.reserve t w.total refl refl claim w.claim in
    let shrunk : t ≡ t' + amount =
      omega (arith, claim.balance, claim'.balance, same, w.available, w.fees) in
    let whole : w.total ≡ t' + amount =
      omega (arith, claim.balance, w.claim.balance, one, shrunk) in
    let h = w.redeemed.below in
    rw (w.supply, shrunk)
      (dilution_sell t' c'.reserve.share_mint_supply amount shares (rw (w.supply, whole) at h))

pub handle_withdraw-Withdrawn :
    {L : Type 0} (tokens : TokenProgram L) (clock : Clock) (c : Withdraw) (shares : ℕ) (l : L)
    → Ensures
        (λ (c', _). (amount : ℕ) × Withdrawn c shares c' amount)
        (handle_withdraw tokens clock c shares l)
unfolding handle_withdraw
handle_withdraw-Withdrawn tokens clock c shares l = Ensures-skip _ λ _.
    Ensures->>= (withdraw_effects-Withdrawn clock c shares)
      λ (c', amount) w. Ensures-skip _ λ _. Ensures-skip _ λ _. returns (amount, w)

-- A withdrawal does not lower the worth of a share.
pub handle_withdraw-IsFair :
    {L : Type 0} (tokens : TokenProgram L) (clock : Clock) (c : Withdraw) (shares : ℕ) (l : L)
    → Ensures (λ (c', _). IsFair c.reserve c'.reserve) (handle_withdraw tokens clock c shares l)
handle_withdraw-IsFair tokens clock c shares l =
    Ensures-map (handle_withdraw-Withdrawn tokens clock c shares l) λ (c', _) (amount, w). record {
      config = w.config;
      worth = Withdrawn-NotDiluted c c' shares amount w;
    }
