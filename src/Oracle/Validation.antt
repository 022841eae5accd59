-- ===== src/Oracle/Validation.antt =====
-- programs/aera/src/oracle/validation.rs: the checks on an account that an oracle reads.
use aera_v.Common.{
  not, List, [], ◌∷◌, any, Outcome, ok, AeraError, ◌>>◌, require, ltb, ◌==◌, Pubkey, RawAccount,
}

unfoldable pub require_configured_account :
    RawAccount → (expected_key expected_owner : Pubkey) → Outcome (Unit {0})
require_configured_account account expected_key expected_owner = do
  require (account.key == expected_key) AeraError.oracle_account_mismatch
  require (account.owner == expected_owner) AeraError.oracle_owner_mismatch

unfoldable pub require_read_only : RawAccount → Outcome (Unit {0})
require_read_only account = require (not account.is_writable) AeraError.oracle_account_malformed

unfoldable pub require_distinct : List Pubkey → Outcome (Unit {0})
require_distinct [] = ok tt
require_distinct (key ∷ keys) = do
  require (not (any (λ k. k == key) keys)) AeraError.oracle_account_mismatch
  require_distinct keys

unfoldable pub require_alive : RawAccount → Outcome (Unit {0})
require_alive account = require (ltb 0 account.lamports) AeraError.oracle_account_malformed
