-- ===== src/Safety/Migration.antt =====
-- What the migration of instructions/admin/migrate.rs leaves of a reserve and of the `Global`.
use aera_v.Common.{
  ℕ, zero, suc, ◌+◌, ◌≤◌, ◌≡◌, ◌⊎◌, inl, inr, refl, true, List, [], ◌∷◌, ◌++◌, ok, err, AeraError,
  ==_iff, ◌==◌, le→leb, ◌>>=◌, require, RawAccount, Bytes, Clock, Pubkey, Ensures, Ensures->>=,
  Ensures-ok, Ensures-itself, Ensures-skip, Ensures-map, returns, require-Ensures,
  checked_add-Ensures, arith, length, set, take, drop, get_range,
}
use aera_v.Reserve.{Reserve}
use aera_v.Oracle.Health.{emergency, bootstrapping, native_exchange_rate, kind_from_u8}
use aera_v.Oracle.Breaker.{PriceObservation, needs_bootstrap, Verdict}
use aera_v.Oracle.State.{OracleState, record_observation}
use aera_v.Oracle.Deployment.{Loader}
use aera_v.Oracle.Sources.{observe-Ensures}
use aera_v.Instructions.SetOracle.{OracleConfig}
use aera_v.Instructions.Migrate.{
  Runtime, MigrateReserveToV2, Migrated, require_migratable, bootstrap_observation,
  migration_verdict, close_feed, handle_migrate_reserve_to_v2, handle_migrate_global_to_v2,
  require_discriminator, require_stored_admin,
}
use aera_v.Safety.Bootstrap.{IsClosed, bootstrap_verdict-Ensures, frozen_or_bootstrapping}

-- What is left of a reserve of the first version.
pub record IsCarriedOver (t : Runtime) (a : MigrateReserveToV2) (r : Reserve) (x : Migrated)
    : Type 0 where
  was_legacy : r.oracle ≡ t.price_feed_address a.market a.liquidity_mint
  repointed : x.reserve ≡ record r { oracle = a.oracle_key }
  drained : x.legacy_price_feed.lamports ≡ 0
  reclaimed : x.admin_lamports ≡ a.admin_lamports + a.legacy_price_feed.lamports
  closed : IsClosed x.oracle

require_migratable-Ensures :
    (t : Runtime) (a : MigrateReserveToV2) (r : Reserve)
    → Ensures
        (λ (_ : Unit {0}). r.oracle ≡ t.price_feed_address a.market a.liquidity_mint)
        (require_migratable t a r)
unfolding require_migratable
require_migratable-Ensures t a r = Ensures-skip _ λ _. Ensures-skip _ λ _. Ensures-skip _ λ _.
    Ensures-skip _ λ _. Ensures->>= (require-Ensures _ _) λ _ legacy.
      Ensures-skip _
        λ _. Ensures-skip _ λ _. Ensures-map (Ensures-itself _) λ _ _. (==_iff _ _).0 legacy

bootstrap_observation-Ensures :
    (loader : Loader) (clock : Clock) (c : OracleConfig) (mint : Pubkey)
    (remaining : List RawAccount)
    → Ensures
        (λ o. needs_bootstrap o.source ≡ true)
        (bootstrap_observation native_exchange_rate loader clock c mint remaining)
unfolding bootstrap_observation needs_bootstrap
bootstrap_observation-Ensures loader clock c mint remaining =
    Ensures-skip _ λ (source, program_data). Ensures-skip _ λ _. Ensures-skip _ λ _.
      Ensures-skip _ λ _.
        Ensures-map (observe-Ensures loader source program_data _ _ _)
          λ o v. let n = v.native in rw n refl

migration_verdict-Ensures :
    (o : PriceObservation) (c : OracleConfig)
    → needs_bootstrap o.source ≡ true
    → Ensures (λ v. (v.health ≡ emergency) ⊎ (v.health ≡ bootstrapping)) (migration_verdict o c)
unfolding migration_verdict
migration_verdict-Ensures o c h = rw h (bootstrap_verdict-Ensures o o.previous_epoch_rate c.breaker)

record_observation-IsClosed :
    (s : OracleState) (o : PriceObservation) (v : Verdict) (slot : ℕ)
    → (v.health ≡ emergency) ⊎ (v.health ≡ bootstrapping)
    → IsClosed (record_observation s o v slot)
unfolding record_observation
record_observation-IsClosed s o v slot (inl e) = frozen_or_bootstrapping _ (inl (rw e refl))
record_observation-IsClosed s o v slot (inr e) = frozen_or_bootstrapping _ (inr (rw e refl))

handle_migrate_reserve_to_v2-Ensures :
    (t : Runtime) (loader : Loader) (clock : Clock) (a : MigrateReserveToV2) (c : OracleConfig)
    (r : Reserve)
    → kind_from_u8 c.source_kind ≡ ok native_exchange_rate
    → Ensures (IsCarriedOver t a r) (handle_migrate_reserve_to_v2 t loader clock a c r)
unfolding handle_migrate_reserve_to_v2 close_feed
handle_migrate_reserve_to_v2-Ensures t loader clock a c r k = Ensures-skip _ λ _.
    Ensures->>= (require_migratable-Ensures t a r) λ _ legacy. Ensures-skip _ λ _.
      Ensures->>= {P = λ kind. kind ≡ native_exchange_rate} (rw k (returns refl)) λ kind native.
        Ensures->>= {P = λ o. needs_bootstrap o.source ≡ true}
          (rw native (bootstrap_observation-Ensures loader clock c a.liquidity_mint a.remaining))
          λ o first. Ensures->>= (migration_verdict-Ensures o c first) λ v health.
            Ensures-skip _ λ _. Ensures->>= (checked_add-Ensures _ _ _) λ lamports (sum, _).
              Ensures-skip _ λ _. returns (record {
                was_legacy = legacy;
                repointed = refl;
                drained = refl;
                reclaimed = sum;
                closed = record_observation-IsClosed _ o v clock.slot health;
              })

-- A migration that goes through, to an oracle that reads a stake pool, found a reserve that pointed
-- at its price feed and changes nothing of it but the oracle it points at; the feed's lamports are
-- the admin's, and the new oracle refuses borrows and withdrawals of collateral.
pub handle_migrate_reserve_to_v2-IsCarriedOver :
    (t : Runtime) (loader : Loader) (clock : Clock) (a : MigrateReserveToV2) (c : OracleConfig)
    (r : Reserve) (x : Migrated)
    → kind_from_u8 c.source_kind ≡ ok native_exchange_rate
    → handle_migrate_reserve_to_v2 t loader clock a c r ≡ ok x
    → IsCarriedOver t a r x
handle_migrate_reserve_to_v2-IsCarriedOver t loader clock a c r x k =
    Ensures-ok (handle_migrate_reserve_to_v2-Ensures t loader clock a c r k)

take-append_one : (n : ℕ) (bs : Bytes) (b : ℕ) → n ≤ length bs → take n (bs ++ (b ∷ [])) ≡ take n bs
unfolding take
take-append_one zero bs b h = refl
take-append_one (suc n) [] b h = absurd (omega arith)
take-append_one (suc n) (x ∷ xs) b h = rw (take-append_one n xs b (omega arith)) refl

drop-append_one :
    (n : ℕ) (bs : Bytes) (b : ℕ) → n ≤ length bs → drop n (bs ++ (b ∷ [])) ≡ drop n bs ++ (b ∷ [])
unfolding drop
drop-append_one zero bs b h = refl
drop-append_one (suc n) [] b h = absurd (omega arith)
drop-append_one (suc n) (x ∷ xs) b h = drop-append_one n xs b (omega arith)

length-drop : (n : ℕ) (bs : Bytes) → n ≤ length bs → length (drop n bs) + n ≡ length bs
unfolding drop
length-drop zero bs h = omega arith
length-drop (suc n) [] h = absurd (omega arith)
length-drop (suc n) (x ∷ xs) h = omega (arith, length-drop n xs (omega arith))

length-append_one : (bs : Bytes) (b : ℕ) → length (bs ++ (b ∷ [])) ≡ suc (length bs)
length-append_one [] b = refl
length-append_one (x ∷ xs) b = rw (length-append_one xs b) refl

get_range-append_one :
    (bs : Bytes) (b at count : ℕ)
    → at + count ≤ length bs
    → get_range (bs ++ (b ∷ [])) at count ≡ get_range bs at count
unfolding get_range
get_range-append_one bs b at count h =
    let n = length-append_one bs b in
    let d = length-drop at bs (omega arith) in
    rw
      (
        le→leb _ _ h,
        le→leb (at + count) (length (bs ++ (b ∷ []))) (omega arith),
        drop-append_one at bs b (omega arith),
        take-append_one count (drop at bs) b (omega arith),
      )
      refl

set-append_one :
    (bs : Bytes) (i a b : ℕ) → length bs ≡ i → set (bs ++ (a ∷ [])) i b ≡ bs ++ (b ∷ [])
set-append_one [] zero a b h = refl
set-append_one [] (suc i) a b h = absurd (omega arith)
set-append_one (x ∷ xs) zero a b h = absurd (omega arith)
set-append_one (x ∷ xs) (suc i) a b h = rw (set-append_one xs i a b (omega arith)) refl

-- What the stamped account still says of itself.
discriminator_kept :
    (bs d : Bytes) (b : ℕ)
    → length bs ≡ 83
    → require_discriminator (bs ++ (b ∷ [])) d ≡ require_discriminator bs d
unfolding require_discriminator
discriminator_kept bs d b h = rw (get_range-append_one bs b 0 8 (omega arith)) refl

admin_kept :
    (bs : Bytes) (admin : Pubkey) (b : ℕ)
    → length bs ≡ 83
    → require_stored_admin (bs ++ (b ∷ [])) admin ≡ require_stored_admin bs admin
unfolding require_stored_admin
admin_kept bs admin b h = rw (get_range-append_one bs b 8 32 (omega arith)) refl

-- The account after its migration, and that it is not migrated again.
pub record IsStamped (t : Runtime) (admin : Pubkey) (again : ℕ) (g g' : RawAccount) : Type 0 where
  stamped : g'.bytes ≡ g.bytes ++ (2 ∷ [])
  once : handle_migrate_global_to_v2 t admin again g' ≡ err AeraError.already_migrated

stamped_once :
    (t : Runtime) (admin : Pubkey) (lamports : ℕ) (g g' : RawAccount)
    → require_discriminator g.bytes t.global_discriminator ≡ ok tt
    → require_stored_admin g.bytes admin ≡ ok tt
    → length g.bytes ≡ 83
    → g'.bytes ≡ g.bytes ++ (2 ∷ [])
    → handle_migrate_global_to_v2 t admin lamports g' ≡ err AeraError.already_migrated
unfolding handle_migrate_global_to_v2 ◌>>=◌ require
stamped_once t admin lamports g g' d a n e =
    let long : (length (g.bytes ++ (2 ∷ [])) == 84) ≡ true =
      (==_iff _ _).1 (omega (arith, length-append_one g.bytes 2)) in
    rw
      (
        e,
        discriminator_kept g.bytes t.global_discriminator 2 n,
        d,
        admin_kept g.bytes admin 2 n,
        a,
        long,
      )
      refl

handle_migrate_global_to_v2-Ensures :
    (t : Runtime) (admin : Pubkey) (lamports again : ℕ) (g : RawAccount)
    → Ensures
        (λ (g', _). IsStamped t admin again g g')
        (handle_migrate_global_to_v2 t admin lamports g)
unfolding handle_migrate_global_to_v2
handle_migrate_global_to_v2-Ensures t admin lamports again g = Ensures->>= (Ensures-itself _) λ _ d.
    Ensures->>= (Ensures-itself _) λ _ a. Ensures-skip _ λ _.
      Ensures->>= (require-Ensures _ _) λ _ long. Ensures-skip _ λ (left, held).
        Ensures-skip _ λ slot. Ensures-skip _ λ _.
          let n = (==_iff _ _).0 long in
          let bytes = set-append_one g.bytes 83 0 2 n in
          returns (record { stamped = bytes; once = stamped_once t admin again g _ d a n bytes })

-- A migration of the `Global` that goes through appends the version 2 to its bytes and changes none
-- of them, and another migration by the same admin, with any balance, is refused as already done.
pub handle_migrate_global_to_v2-IsStamped :
    (t : Runtime) (admin : Pubkey) (lamports left again : ℕ) (g g' : RawAccount)
    → handle_migrate_global_to_v2 t admin lamports g ≡ ok (g', left)
    → IsStamped t admin again g g'
handle_migrate_global_to_v2-IsStamped t admin lamports left again g g' =
    Ensures-ok (handle_migrate_global_to_v2-Ensures t admin lamports again g)
