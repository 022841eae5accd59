-- ===== src/Tokens.antt =====
-- The token programs, SPL Token and Token-2022, which are not part of the repository: a parameter
-- of the handlers, with what their documentation promises of a mint that takes no transfer fee.
use aera_v.Common.{ℕ, ◌+◌, ◌≡◌, ◌≢◌, Outcome, ok, Pubkey}

-- A state of the token accounts, and the calls that the program makes.
pub record TokenProgram (L : Type 0) : Type 0 where
  pub balance : L → Pubkey → ℕ
  -- from, mint, to, authority, amount, decimals
  pub transfer_checked : Pubkey → Pubkey → Pubkey → Pubkey → ℕ → ℕ → L → Outcome L
  -- mint, to, authority, amount
  pub mint_to : Pubkey → Pubkey → Pubkey → ℕ → L → Outcome L
  -- mint, from, authority, amount
  pub burn : Pubkey → Pubkey → Pubkey → ℕ → L → Outcome L

-- `amount` has moved from one account to another.
pub record Moves {L : Type 0} (t : TokenProgram L) (from to : Pubkey) (amount : ℕ) (l l' : L)
    : Type 0 where
  pub debited : t.balance l from ≡ t.balance l' from + amount
  pub credited : t.balance l' to ≡ t.balance l to + amount
  pub others : (k : Pubkey) → k ≢ from → k ≢ to → t.balance l' k ≡ t.balance l k

pub record TokenLaws {L : Type 0} (t : TokenProgram L) : Type 0 where
  pub transfer_moves :
      (from mint to authority : Pubkey) (amount decimals : ℕ) (l l' : L)
      → from ≢ to
      → t.transfer_checked from mint to authority amount decimals l ≡ ok l'
      → Moves t from to amount l l'
  pub mint_credits :
      (mint to authority : Pubkey) (amount : ℕ) (l l' : L)
      → t.mint_to mint to authority amount l ≡ ok l'
      → t.balance l' to ≡ t.balance l to + amount
  pub mint_others :
      (mint to authority : Pubkey) (amount : ℕ) (l l' : L) (k : Pubkey)
      → k ≢ to
      → t.mint_to mint to authority amount l ≡ ok l'
      → t.balance l' k ≡ t.balance l k
  pub burn_others :
      (mint from authority : Pubkey) (amount : ℕ) (l l' : L) (k : Pubkey)
      → k ≢ from
      → t.burn mint from authority amount l ≡ ok l'
      → t.balance l' k ≡ t.balance l k
