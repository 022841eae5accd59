-- ===== src/Pool/Vault.antt =====
-- The vault of a reserve holds what the reserve's books say, by the laws of the token program.
use aera_v.Common.{
  ℕ, ◌+◌, ◌≡◌, ◌≢◌, arith, Clock, Pubkey, ok, Ensures, Ensures->>=, Ensures-map, Ensures-skip,
  Ensures-ok, Ensures-itself, returns,
}
use aera_v.Tokens.{TokenProgram, TokenLaws, Moves}
use aera_v.Instructions.RiskAccount.{Program}
use aera_v.Instructions.Borrow.{Borrow, borrow_effects, handle_borrow}
use aera_v.Instructions.Repay.{Repay, handle_repay}
use aera_v.Instructions.Supply.{Supply, handle_supply}
use aera_v.Instructions.Withdraw.{Withdraw, handle_withdraw}
use aera_v.Pool.Credit.{draw-Drawn, repay_effects-Repaid}
use aera_v.Instructions.Fees.{CollectFees, handle_collect_fees}
use aera_v.Pool.Interest.{collect_fees_effects-Collected}
use aera_v.Pool.Trades.{supply_effects-Supplied, withdraw_effects-Withdrawn}

paid_out :
    (program : Program) (clock : Clock) (c : Borrow) (amount : ℕ)
    → Ensures
        (λ (c', paid). c.reserve.available_liquidity ≡ c'.reserve.available_liquidity + paid)
        (borrow_effects program clock c amount)
unfolding borrow_effects
paid_out program clock c amount = Ensures-skip _ λ _.
    Ensures->>= (draw-Drawn c.reserve amount)
      λ (r', added, paid) d. Ensures-skip _ λ _. returns (d.available)

module _ {L : Type 0} (tokens : TokenProgram L) (laws : TokenLaws tokens) where
  pub transfer-Ensures :
      (from mint to authority : Pubkey) (amount decimals : ℕ) (l : L)
      → from ≢ to
      → Ensures
          (Moves tokens from to amount l)
          (tokens.transfer_checked from mint to authority amount decimals l)
  transfer-Ensures from mint to authority amount decimals l apart =
      Ensures-map (Ensures-itself _)
        λ l' e. laws.transfer_moves from mint to authority amount decimals l l' apart e

  borrow_vault :
      (program : Program) (clock : Clock) (c : Borrow) (amount : ℕ) (l : L)
      → c.liquidity_vault ≢ c.user_liquidity
      → Ensures
          (λ (c', l').
            tokens.balance l' c.liquidity_vault + c.reserve.available_liquidity
            ≡ tokens.balance l c.liquidity_vault + c'.reserve.available_liquidity)
          (handle_borrow tokens program clock c amount l)
  unfolding handle_borrow
  borrow_vault program clock c amount l apart = Ensures-skip _ λ _.
      Ensures->>= (paid_out program clock c amount) λ (c', paid) a.
        Ensures->>= (transfer-Ensures _ _ _ _ _ _ l apart)
          λ l' m. returns (omega (arith, a, m.debited))

  repay_vault :
      (clock : Clock) (c : Repay) (amount : ℕ) (l : L)
      → c.user_liquidity ≢ c.liquidity_vault
      → Ensures
          (λ (c', l').
            tokens.balance l' c.liquidity_vault + c.reserve.available_liquidity
            ≡ tokens.balance l c.liquidity_vault + c'.reserve.available_liquidity)
          (handle_repay tokens clock c amount l)
  unfolding handle_repay
  repay_vault clock c amount l apart = Ensures-skip _ λ _.
      Ensures->>= (repay_effects-Repaid clock c amount) λ (c', paid) (removed, p).
        Ensures->>= (transfer-Ensures _ _ _ _ _ _ l apart)
          λ l' m. returns (omega (arith, p.available, m.credited))

  supply_vault :
      (clock : Clock) (c : Supply) (amount : ℕ) (l : L)
      → c.user_liquidity ≢ c.liquidity_vault
      → c.liquidity_vault ≢ c.user_share
      → Ensures
          (λ (c', l').
            tokens.balance l' c.liquidity_vault + c.reserve.available_liquidity
            ≡ tokens.balance l c.liquidity_vault + c'.reserve.available_liquidity)
          (handle_supply tokens clock c amount l)
  unfolding handle_supply
  supply_vault clock c amount l apart other = Ensures-skip _ λ _.
      Ensures->>= (supply_effects-Supplied clock c amount) λ (c', shares) s.
        Ensures->>= (transfer-Ensures _ _ _ _ _ _ l apart) λ paid m.
          Ensures->>= (Ensures-itself _) λ l' e.
            let kept = laws.mint_others _ _ _ _ paid l' c.liquidity_vault other e in
            returns (omega (arith, s.available, m.credited, kept))

  withdraw_vault :
      (clock : Clock) (c : Withdraw) (shares : ℕ) (l : L)
      → c.liquidity_vault ≢ c.user_liquidity
      → c.liquidity_vault ≢ c.user_share
      → Ensures
          (λ (c', l').
            tokens.balance l' c.liquidity_vault + c.reserve.available_liquidity
            ≡ tokens.balance l c.liquidity_vault + c'.reserve.available_liquidity)
          (handle_withdraw tokens clock c shares l)
  unfolding handle_withdraw
  withdraw_vault clock c shares l apart other = Ensures-skip _ λ _.
      Ensures->>= (withdraw_effects-Withdrawn clock c shares) λ (c', amount) w.
        Ensures->>= (Ensures-itself _) λ burned e.
          let kept = laws.burn_others _ _ _ _ l burned c.liquidity_vault other e in
          Ensures->>= (transfer-Ensures _ _ _ _ _ _ burned apart)
            λ l' m. returns (omega (arith, w.available, m.debited, kept))

  pub collect_vault :
      (clock : Clock) (c : CollectFees) (l : L)
      → c.liquidity_vault ≢ c.fee_token
      → Ensures
          (λ (c', l').
            tokens.balance l' c.liquidity_vault + c.reserve.available_liquidity
            ≡ tokens.balance l c.liquidity_vault + c'.reserve.available_liquidity)
          (handle_collect_fees tokens clock c l)
  unfolding handle_collect_fees
  collect_vault clock c l apart = Ensures-skip _ λ _.
      Ensures->>= (collect_fees_effects-Collected clock c) λ (c', amount) x.
        Ensures->>= (transfer-Ensures _ _ _ _ _ _ l apart)
          λ l' m. returns (omega (arith, x.available, m.debited))

-- A supply moves the vault and the reserve's available liquidity by the same amount, when the
-- user's two token accounts are not the vault, and the token program
-- moves what it is asked to.
pub handle_supply_vault :
    {L : Type 0} (tokens : TokenProgram L)
    → TokenLaws tokens
    → (clock : Clock) (c c' : Supply) (amount : ℕ) (l l' : L) → c.user_liquidity ≢ c.liquidity_vault
    → c.liquidity_vault ≢ c.user_share
    → handle_supply tokens clock c amount l ≡ ok (c', l')
    → tokens.balance l' c.liquidity_vault + c.reserve.available_liquidity
      ≡ tokens.balance l c.liquidity_vault + c'.reserve.available_liquidity
handle_supply_vault tokens laws clock c c' amount l l' apart other e =
    Ensures-ok (supply_vault tokens laws clock c amount l apart other) e

-- A withdrawal moves the vault and the reserve's available liquidity by the same amount, when the
-- user's two token accounts are not the vault, and the token program
-- moves what it is asked to.
pub handle_withdraw_vault :
    {L : Type 0} (tokens : TokenProgram L)
    → TokenLaws tokens
    → (clock : Clock) (c c' : Withdraw) (shares : ℕ) (l l' : L)
    → c.liquidity_vault ≢ c.user_liquidity
    → c.liquidity_vault ≢ c.user_share
    → handle_withdraw tokens clock c shares l ≡ ok (c', l')
    → tokens.balance l' c.liquidity_vault + c.reserve.available_liquidity
      ≡ tokens.balance l c.liquidity_vault + c'.reserve.available_liquidity
handle_withdraw_vault tokens laws clock c c' shares l l' apart other e =
    Ensures-ok (withdraw_vault tokens laws clock c shares l apart other) e

-- A borrow moves the vault and the reserve's available liquidity by the same amount, when the
-- borrower's token account is not the vault, and the token program
-- moves what it is asked to.
pub handle_borrow_vault :
    {L : Type 0} (tokens : TokenProgram L)
    → TokenLaws tokens
    → (program : Program) (clock : Clock) (c c' : Borrow) (amount : ℕ) (l l' : L)
    → c.liquidity_vault ≢ c.user_liquidity
    → handle_borrow tokens program clock c amount l ≡ ok (c', l')
    → tokens.balance l' c.liquidity_vault + c.reserve.available_liquidity
      ≡ tokens.balance l c.liquidity_vault + c'.reserve.available_liquidity
handle_borrow_vault tokens laws program clock c c' amount l l' apart e =
    Ensures-ok (borrow_vault tokens laws program clock c amount l apart) e

-- A repayment moves the vault and the reserve's available liquidity by the same amount, when the
-- repayer's token account is not the vault, and the token program
-- moves what it is asked to.
pub handle_repay_vault :
    {L : Type 0} (tokens : TokenProgram L)
    → TokenLaws tokens
    → (clock : Clock) (c c' : Repay) (amount : ℕ) (l l' : L) → c.user_liquidity ≢ c.liquidity_vault
    → handle_repay tokens clock c amount l ≡ ok (c', l')
    → tokens.balance l' c.liquidity_vault + c.reserve.available_liquidity
      ≡ tokens.balance l c.liquidity_vault + c'.reserve.available_liquidity
handle_repay_vault tokens laws clock c c' amount l l' apart e =
    Ensures-ok (repay_vault tokens laws clock c amount l apart) e
