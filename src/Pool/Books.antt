-- ===== src/Pool/Books.antt =====
-- The vault and the books of a reserve over sequences of instructions.
use aera_v.Common.{Ensures-ok, ℕ, ◌+◌, ◌≡◌, ◌≢◌, refl, arith, Clock, Pubkey, ok}
use aera_v.Reserve.{Reserve}
use aera_v.Tokens.{TokenProgram, TokenLaws}
use aera_v.Instructions.RiskAccount.{Program}
use aera_v.Instructions.Borrow.{Borrow, handle_borrow}
use aera_v.Instructions.Repay.{Repay, handle_repay}
use aera_v.Instructions.Supply.{Supply, handle_supply}
use aera_v.Instructions.Withdraw.{Withdraw, handle_withdraw}
use aera_v.Instructions.Liquidate.{Liquidate, Seizure, handle_liquidate}
use aera_v.Instructions.Fees.{CollectFees, handle_collect_fees}
use aera_v.Safety.Seizure.{AreSeparate, IsSettled, handle_liquidate-IsSettled}
use aera_v.Safety.Books.{handle_liquidate-InStep}
use aera_v.Pool.OffLedger.{OffLedger, OffLedger-available}
use aera_v.Pool.Vault.{
  handle_supply_vault, handle_withdraw_vault, handle_borrow_vault, handle_repay_vault,
  collect_vault,
}

-- The instructions on a reserve with a vault, each by users whose own accounts are not the vault, in
-- any slots; the handlers that change the reserve and call no token program; and what goes on
-- elsewhere, which leaves the vault and the reserve as they are.
pub data Ledgers {L : Type 0} (tokens : TokenProgram L) (vault : Pubkey)
    : Reserve → L → Reserve → L → Type 0 where
  start : {r : Reserve} {l : L} → Ledgers tokens vault r l r l
  supply :
      {r : Reserve} {l l' : L} {r₀ : Reserve} {l₀ : L} (clock : Clock) (c c' : Supply) (amount : ℕ)
      → c.reserve ≡ r
      → c.liquidity_vault ≡ vault
      → c.user_liquidity ≢ c.liquidity_vault
      → c.liquidity_vault ≢ c.user_share
      → handle_supply tokens clock c amount l ≡ ok (c', l')
      → Ledgers tokens vault r₀ l₀ r l
      → Ledgers tokens vault r₀ l₀ c'.reserve l'
  withdraw :
      {r : Reserve} {l l' : L} {r₀ : Reserve} {l₀ : L} (clock : Clock) (c c' : Withdraw)
      (shares : ℕ)
      → c.reserve ≡ r
      → c.liquidity_vault ≡ vault
      → c.liquidity_vault ≢ c.user_liquidity
      → c.liquidity_vault ≢ c.user_share
      → handle_withdraw tokens clock c shares l ≡ ok (c', l')
      → Ledgers tokens vault r₀ l₀ r l
      → Ledgers tokens vault r₀ l₀ c'.reserve l'
  borrow :
      {r : Reserve} {l l' : L} {r₀ : Reserve} {l₀ : L} (program : Program) (clock : Clock)
      (c c' : Borrow) (amount : ℕ)
      → c.reserve ≡ r
      → c.liquidity_vault ≡ vault
      → c.liquidity_vault ≢ c.user_liquidity
      → handle_borrow tokens program clock c amount l ≡ ok (c', l')
      → Ledgers tokens vault r₀ l₀ r l
      → Ledgers tokens vault r₀ l₀ c'.reserve l'
  repay :
      {r : Reserve} {l l' : L} {r₀ : Reserve} {l₀ : L} (clock : Clock) (c c' : Repay) (amount : ℕ)
      → c.reserve ≡ r
      → c.liquidity_vault ≡ vault
      → c.user_liquidity ≢ c.liquidity_vault
      → handle_repay tokens clock c amount l ≡ ok (c', l')
      → Ledgers tokens vault r₀ l₀ r l
      → Ledgers tokens vault r₀ l₀ c'.reserve l'
  liquidate :
      {r : Reserve} {l l' : L} {r₀ : Reserve} {l₀ : L} (program : Program) (clock : Clock)
      (c c' : Liquidate) (amount : ℕ) (s : Seizure)
      → c.repay_reserve ≡ r
      → c.repay_liquidity_vault ≡ vault
      → AreSeparate c
      → handle_liquidate tokens program clock c amount l ≡ ok (c', s, l')
      → Ledgers tokens vault r₀ l₀ r l
      → Ledgers tokens vault r₀ l₀ c'.repay_reserve l'
  collect :
      {r : Reserve} {l l' : L} {r₀ : Reserve} {l₀ : L} (clock : Clock) (c c' : CollectFees)
      → c.reserve ≡ r
      → c.liquidity_vault ≡ vault
      → c.liquidity_vault ≢ c.fee_token
      → handle_collect_fees tokens clock c l ≡ ok (c', l')
      → Ledgers tokens vault r₀ l₀ r l
      → Ledgers tokens vault r₀ l₀ c'.reserve l'
  off_ledger :
      {r r' : Reserve} {l : L} {r₀ : Reserve} {l₀ : L}
      → OffLedger r r'
      → Ledgers tokens vault r₀ l₀ r l
      → Ledgers tokens vault r₀ l₀ r' l
  elsewhere :
      {r : Reserve} {l l' : L} {r₀ : Reserve} {l₀ : L}
      → tokens.balance l' vault ≡ tokens.balance l vault
      → Ledgers tokens vault r₀ l₀ r l
      → Ledgers tokens vault r₀ l₀ r l'

liquidated_vault :
    {L : Type 0} (tokens : TokenProgram L) (c c' : Liquidate) (s : Seizure) (l l' : L)
    → IsSettled tokens c s c' l l'
    → c'.repay_reserve.available_liquidity ≡ c.repay_reserve.available_liquidity + s.repaid
    → tokens.balance l' c.repay_liquidity_vault + c.repay_reserve.available_liquidity
      ≡ tokens.balance l c.repay_liquidity_vault + c'.repay_reserve.available_liquidity
liquidated_vault tokens c c' s l l' settled h = omega (arith, settled.received, h)

-- Over any sequence of supplies, withdrawals, borrows, repayments, liquidations and fee payouts on
-- one reserve, of accruals, parameter changes and write-offs of it, in any slots, and of transactions
-- that leave the vault and the reserve alone, the vault and the reserve's available liquidity change
-- by the same amount, when the vault is none of the other token accounts that these move tokens
-- between, the five token accounts of a liquidation are different ones, and the token program moves
-- what it is asked to.
pub Ledgers-books :
    {L : Type 0} (tokens : TokenProgram L)
    → TokenLaws tokens
    → (vault : Pubkey) (r r' : Reserve) (l l' : L) → Ledgers tokens vault r l r' l'
    → tokens.balance l' vault + r.available_liquidity
      ≡ tokens.balance l vault + r'.available_liquidity
Ledgers-books tokens laws vault r r' l l' start = refl
Ledgers-books tokens laws vault r r' l l' (supply {r = r₁} {l = l₁} clock c c' amount e v a b h s) =
    let before = Ledgers-books tokens laws vault r r₁ l l₁ s in
    let step = handle_supply_vault tokens laws clock c c' amount l₁ l' a b h in
    omega (arith, before, (rw (v, e) at step))
Ledgers-books tokens laws vault r r' l l'
      (withdraw {r = r₁} {l = l₁} clock c c' amount e v a b h s) =
    let before = Ledgers-books tokens laws vault r r₁ l l₁ s in
    let step = handle_withdraw_vault tokens laws clock c c' amount l₁ l' a b h in
    omega (arith, before, (rw (v, e) at step))
Ledgers-books tokens laws vault r r' l l'
      (borrow {r = r₁} {l = l₁} program clock c c' amount e v a h s) =
    let before = Ledgers-books tokens laws vault r r₁ l l₁ s in
    let step = handle_borrow_vault tokens laws program clock c c' amount l₁ l' a h in
    omega (arith, before, (rw (v, e) at step))
Ledgers-books tokens laws vault r r' l l' (repay {r = r₁} {l = l₁} clock c c' amount e v a h s) =
    let before = Ledgers-books tokens laws vault r r₁ l l₁ s in
    let step = handle_repay_vault tokens laws clock c c' amount l₁ l' a h in
    omega (arith, before, (rw (v, e) at step))
Ledgers-books tokens laws vault r r' l l'
      (liquidate {r = r₁} {l = l₁} program clock c c' amount s e v a h before_it) =
    let before = Ledgers-books tokens laws vault r r₁ l l₁ before_it in
    let settled =
      Ensures-ok (handle_liquidate-IsSettled tokens laws program clock c amount l₁ a) h in
    let (_, paid) = handle_liquidate-InStep tokens program clock c c' amount s l₁ l' h in
    let step = liquidated_vault tokens c c' s l₁ l' settled (paid.received) in
    omega (arith, before, (rw (v, e) at step))
Ledgers-books tokens laws vault r r' l l' (collect {r = r₁} {l = l₁} clock c c' e v a h s) =
    let before = Ledgers-books tokens laws vault r r₁ l l₁ s in
    let step = Ensures-ok (collect_vault tokens laws clock c l₁ a) h in
    omega (arith, before, (rw (v, e) at step))
Ledgers-books tokens laws vault r r' l l' (off_ledger {r = r₁} same s) =
    let before = Ledgers-books tokens laws vault r r₁ l l' s in
    omega (arith, before, OffLedger-available same)
Ledgers-books tokens laws vault r r' l l' (elsewhere {l = l₁} same s) =
    let before = Ledgers-books tokens laws vault r r' l l₁ s in omega arith
