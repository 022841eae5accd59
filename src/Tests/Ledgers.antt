-- ===== src/Tests/Ledgers.antt =====
-- The plain balances of the tests obey the laws of the token program.
use aera_v.Common.{
  ℕ, ◌+◌, ◌≡◌, ◌≢◌, refl, ◌==◌, ==_iff, leb→le, true, false, Bool-cases, inl, inr, arith, Pubkey,
  Ensures, Ensures->>=, Ensures-ok, returns, require-Ensures,
}
use aera_v.Tokens.{TokenLaws, Moves}
use aera_v.Tests.{Ledger, plain_tokens}

distinct : (a b : ℕ) → a ≢ b → (a == b) ≡ false
distinct a b apart = elim (Bool-cases (a == b)) [
  | inl e ↦ absurd (apart ((==_iff a b).0 e))
  | inr e ↦ e
]

same : (a : ℕ) → (a == a) ≡ true
same a = (==_iff a a).1 refl

plain_transfer :
    (from mint to authority : Pubkey) (amount decimals : ℕ) (l : Ledger)
    → from ≢ to
    → Ensures
        (Moves plain_tokens from to amount l)
        (plain_tokens.transfer_checked from mint to authority amount decimals l)
plain_transfer from mint to authority amount decimals l apart =
    Ensures->>= (require-Ensures _ _) λ _ enough.
      let held = leb→le _ _ enough in
      returns (record {
        debited = rw (distinct from to apart, same from) (omega (arith, held));
        credited = rw (same to) refl;
        others = λ k a b. rw (distinct k to b, distinct k from a) refl;
      })

plain_burn :
    (mint from authority : Pubkey) (amount : ℕ) (l : Ledger) (k : Pubkey)
    → k ≢ from
    → Ensures (λ (l' : Ledger). l' k ≡ l k) (plain_tokens.burn mint from authority amount l)
plain_burn mint from authority amount l k apart =
    Ensures->>= (require-Ensures _ _) λ _ _. returns (rw (distinct k from apart) refl)

plain_mint :
    (mint to authority : Pubkey) (amount : ℕ) (l : Ledger) (k : Pubkey)
    → k ≢ to
    → Ensures (λ (l' : Ledger). l' k ≡ l k) (plain_tokens.mint_to mint to authority amount l)
plain_mint mint to authority amount l k apart = returns (rw (distinct k to apart) refl)

plain_mint_credits :
    (mint to authority : Pubkey) (amount : ℕ) (l : Ledger)
    → Ensures
        (λ (l' : Ledger). l' to ≡ l to + amount)
        (plain_tokens.mint_to mint to authority amount l)
plain_mint_credits mint to authority amount l = returns (rw (same to) refl)

pub plain_tokens-TokenLaws : TokenLaws plain_tokens
plain_tokens-TokenLaws = record {
  transfer_moves = λ from mint to authority amount decimals l l' apart e.
      Ensures-ok (plain_transfer from mint to authority amount decimals l apart) e;
  mint_credits = λ mint to authority amount l l' e.
      Ensures-ok (plain_mint_credits mint to authority amount l) e;
  mint_others = λ mint to authority amount l l' k apart e.
      Ensures-ok (plain_mint mint to authority amount l k apart) e;
  burn_others = λ mint from authority amount l l' k apart e.
      Ensures-ok (plain_burn mint from authority amount l k apart) e;
}
