-- ===== src/Instructions/Pause.antt =====
-- programs/aera/src/instructions/admin/pause.rs
use aera_v.Common.{
  true, false, not, Outcome, ok, AeraError, ◌>>◌, require, ◌==◌, Pubkey, default_pubkey,
}
use aera_v.Global.{Global, require_admin}

-- `handle_pause_borrow`
unfoldable pub handle_pause_borrow : Global → Pubkey → Outcome Global
handle_pause_borrow g admin = do require_admin g admin; ok (record g { borrow_paused = true })

-- `handle_pause_all`
unfoldable pub handle_pause_all : Global → Pubkey → Outcome Global
handle_pause_all g admin = do
  require_admin g admin
  ok (record g { paused = true; borrow_paused = true })

-- `handle_unpause`
unfoldable pub handle_unpause : Global → Pubkey → Outcome Global
handle_unpause g admin = do
  require_admin g admin
  ok (record g { paused = false; borrow_paused = false })

-- `handle_set_admin`
unfoldable pub handle_set_admin : Global → Pubkey → Pubkey → Outcome Global
handle_set_admin g admin new_admin = do
  require_admin g admin
  require (not (new_admin == default_pubkey)) AeraError.invalid_config
  ok (record g { admin = new_admin })

-- `handle_set_fee_destination`
unfoldable pub handle_set_fee_destination : Global → Pubkey → Pubkey → Outcome Global
handle_set_fee_destination g admin fee_destination = do
  require_admin g admin
  require (not (fee_destination == default_pubkey)) AeraError.invalid_config
  ok (record g { fee_destination = fee_destination })
