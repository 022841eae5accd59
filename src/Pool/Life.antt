-- ===== src/Pool/Life.antt =====
-- Every reserve that the handlers lead to, from its creation on.
use aera_v.Common.{
  ◌≡◌, Clock, Outcome, ok, ℕ, Pubkey, Ensures, Ensures->>=, Ensures-skip, Ensures-ok, returns, refl,
}
use aera_v.Reserve.{Reserve, ReserveConfig}
use aera_v.Reserve.Limits.{IsSound, validate-IsSound}
use aera_v.Oracle.Deployment.{Loader}
use aera_v.Tokens.{TokenProgram}
use aera_v.Instructions.RiskAccount.{Program}
use aera_v.Instructions.Create.{InitReserve, ShareMetadata, handle_init_reserve}
use aera_v.Instructions.AbsorbBadDebt.{AbsorbBadDebt, WriteOff, handle_absorb_bad_debt}
use aera_v.Instructions.SetOracle.{OracleConfig}
use aera_v.Instructions.Migrate.{
  Runtime, MigrateReserveToV2, Migrated, handle_migrate_reserve_to_v2,
}
use aera_v.Pool.Run.{Step}
use aera_v.Pool.Interest.{handle_absorb_bad_debt-WrittenOff}
use aera_v.Pool.Worth.{Step-IsParams}

-- The call that creates a share mint, of the system program and Token-2022.
abbrev pub MintCreation : Type 0 → Type 0
MintCreation L =
    (share_mint : Pubkey) (decimals : ℕ) (authority : Pubkey) → ShareMetadata → L → Outcome L

-- The reserves that `init_reserve` and then any number of the handlers that write to a reserve leave,
-- whatever shares are out.
pub data Life {L : Type 0} (tokens : TokenProgram L) (program : Program) : Reserve → Type 0 where
  created :
      (create : MintCreation L) (clock : Clock) (a : InitReserve) (config : ReserveConfig)
      (metadata : ShareMetadata) (l l' : L) (r : Reserve)
      → handle_init_reserve create clock a config metadata l ≡ ok (r, l')
      → Life tokens program r
  stepped :
      {r r' : Reserve} → Life tokens program r → Step tokens program r r' → Life tokens program r'
  absorbed :
      (clock : Clock) (c c' : AbsorbBadDebt) (event : WriteOff)
      → Life tokens program c.reserve
      → handle_absorb_bad_debt clock c ≡ ok (c', event)
      → Life tokens program c'.reserve
  migrated :
      {r : Reserve} (t : Runtime) (loader : Loader) (clock : Clock) (a : MigrateReserveToV2)
      (config : OracleConfig) (x : Migrated)
      → Life tokens program r
      → handle_migrate_reserve_to_v2 t loader clock a config r ≡ ok x
      → Life tokens program x.reserve

created-IsSound :
    {L : Type 0} (create : MintCreation L) (clock : Clock) (a : InitReserve)
    (config : ReserveConfig) (metadata : ShareMetadata) (l : L)
    → Ensures (λ (r, _). IsSound r.config) (handle_init_reserve create clock a config metadata l)
unfolding handle_init_reserve
created-IsSound create clock a config metadata l = Ensures-skip _ λ _. Ensures-skip _ λ _.
    Ensures->>= (validate-IsSound config)
      λ _ sound. Ensures-skip _ λ _. Ensures-skip _ λ l'. returns sound

migrated-config :
    (t : Runtime) (loader : Loader) (clock : Clock) (a : MigrateReserveToV2) (c : OracleConfig)
    (r : Reserve)
    → Ensures (λ x. x.reserve.config ≡ r.config) (handle_migrate_reserve_to_v2 t loader clock a c r)
unfolding handle_migrate_reserve_to_v2
migrated-config t loader clock a c r = Ensures-skip _ λ _. Ensures-skip _ λ _. Ensures-skip _ λ _.
    Ensures-skip _ λ _. Ensures-skip _ λ _.
      Ensures-skip _ λ _. Ensures-skip _ λ _. Ensures-skip _ λ _. Ensures-skip _ λ _. returns refl

-- Every reserve that the handlers lead to from its creation has a configuration within the hard
-- limits: whether it is new, empty or in use, after any sequence of supplies, withdrawals, borrows,
-- repayments, liquidations, accruals, fee payouts, parameter changes, write-offs and migrations of
-- it.
pub Life-IsSound :
    {L : Type 0} {tokens : TokenProgram L} {program : Program} {r : Reserve}
    → Life tokens program r
    → IsSound r.config
Life-IsSound (Life.created create clock a config metadata l l' r e) =
    Ensures-ok (created-IsSound create clock a config metadata l) e
Life-IsSound (Life.stepped before step) =
    (Step-IsParams (Life-IsSound before) step).config (Life-IsSound before)
Life-IsSound (Life.absorbed clock c c' event before e) =
    let w = Ensures-ok (handle_absorb_bad_debt-WrittenOff clock c) e in
    rw (w.config) (Life-IsSound before)
Life-IsSound (Life.migrated t loader clock a config x before e) =
    let same = Ensures-ok (migrated-config t loader clock a config _) e in
    rw same (Life-IsSound before)
