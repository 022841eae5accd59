-- ===== src/Oracle/Deployment.antt =====
-- programs/aera/src/oracle/deployment.rs: which deployment of a program stands behind its key. The
-- loader's key and the derivation of addresses are not part of the repository.
use aera_v.Common.{
  ℕ, Bool, not, Outcome, ok, err, AeraError, ◌>>=◌, ◌>>◌, require, leb, ◌==◌, if◌then◌else◌, Pubkey,
  default_pubkey, length, Bytes, RawAccount, range_at, from_le_bytes,
}

-- The upgradeable loader, and `find_program_address(&[seed], program).0`.
pub record Loader : Type 0 where
  pub bpf_loader_upgradeable : Pubkey
  pub find_program_address : (seed program : Pubkey) → Pubkey

-- `PROGRAM_DATA_VARIANT`
abbrev pub program_data_variant : ℕ
program_data_variant = 3

-- `HEADER_LEN`
abbrev pub header_len : ℕ
header_len = 45

-- `NO_UPGRADE_AUTHORITY`
abbrev pub no_upgrade_authority : Pubkey
no_upgrade_authority = default_pubkey

pub record Deployment : Type 0 where
  pub deploy_slot : ℕ
  pub upgrade_authority : Pubkey

unfoldable pub is_immutable : Deployment → Bool
is_immutable d = d.upgrade_authority == no_upgrade_authority

unfoldable pub program_data_address : Loader → Pubkey → Pubkey
program_data_address loader program_id =
    loader.find_program_address program_id loader.bpf_loader_upgradeable

-- `match data[12]` of `read_deployment`
unfoldable pub read_authority : Bytes → Outcome Pubkey
read_authority bytes =
    let tag = from_le_bytes (range_at bytes 12 1) in
    let key = from_le_bytes (range_at bytes 13 32) in
    if tag == 0
    then ok no_upgrade_authority
    else if tag == 1
    then (do
      require (not (key == no_upgrade_authority)) AeraError.oracle_program_data_mismatch
      ok key)
    else err AeraError.oracle_program_data_mismatch

unfoldable pub read_deployment : Loader → RawAccount → (program_id : Pubkey) → Outcome Deployment
unfolding read_authority
read_deployment loader account program_id = do
  require (account.key == program_data_address loader program_id)
      AeraError.oracle_program_data_mismatch
  require (account.owner == loader.bpf_loader_upgradeable) AeraError.oracle_program_data_mismatch
  require (leb header_len (length account.bytes)) AeraError.oracle_program_data_mismatch
  require (from_le_bytes (range_at account.bytes 0 4) == program_data_variant)
      AeraError.oracle_program_data_mismatch
  let deploy_slot = from_le_bytes (range_at account.bytes 4 8)
  upgrade_authority ← read_authority account.bytes
  ok (record { deploy_slot = deploy_slot; upgrade_authority = upgrade_authority })

unfoldable pub verify_matches_pin :
    Deployment → (pinned_slot : ℕ) (pinned_authority : Pubkey) → Outcome (Unit {0})
unfolding is_immutable
verify_matches_pin observed pinned_slot pinned_authority = do
  require (observed.deploy_slot == pinned_slot) AeraError.oracle_program_upgraded
  if observed.upgrade_authority == pinned_authority
      then ok tt
      else if is_immutable observed
      then ok tt
      else err AeraError.oracle_authority_changed
