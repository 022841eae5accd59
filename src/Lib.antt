-- ===== src/Lib.antt =====
-- A verification library of the Aera lending program (programs/aera).
--
-- The program is one Solana program. A reserve holds the liquidity of one token: suppliers get
-- shares of it, borrowers draw from it against collateral shares that an obligation holds, interest
-- raises a borrow index, and a liquidator repays an unhealthy obligation's debt for its collateral.
-- Oracles price the tokens behind a circuit breaker. Every handler checks its accounts, moves
-- numbers in the accounts, and calls the token program.
--
-- The files, and the code that each is about:
--   Common        numbers, errors as values (`Outcome`, errors.rs), checked arithmetic on words of
--                 16, 64 and 128 bits, i64 timestamps, vectors, keys and the clock
--   Constants     programs/aera/src/constants.rs, what the handlers read of it
--   Math          programs/aera/src/math.rs; Math/Rounds says what the roundings return
--   Reserve       programs/aera/src/state/reserve.rs: Types (accounts), Pool (claims and shares),
--                 Interest (`borrow_rate_bps`, `accrue_interest`), Config (`validate`,
--                 `is_tightening_from`); Debt, Limits and Curve are about what
--                 these return
--   Oracle        programs/aera/src/oracle/breaker.rs and oracle/mod.rs (Health, Breaker),
--                 state/oracle.rs (State), state/market_oracle.rs (MarketOracle),
--                 oracle/market_breaker.rs (MarketBreaker), oracle/deployment.rs, oracle/validation.rs,
--                 and oracle/native_bcook.rs (StakePool, the parser, and Native, `observe`); Cursor and
--                 Encoding write that account out; Verdicts, Sources, History, Bootstrap, Twap,
--                 Weights, TwapReturns, RoundTrip and the other modules named Market are about these
--   Global        programs/aera/src/state/global.rs
--   Obligation    programs/aera/src/state/obligation.rs
--   Risk          programs/aera/src/risk.rs and the account of state/risk_config.rs
--   Tokens        the token programs, a parameter of the handlers
--   Instructions  programs/aera/src/instructions/: a module for each handler or group of handlers
--   Launch        programs/aera/src/launch.rs: the configurations of the first reserves
--   Pool          the suppliers' claim on a reserve under each handler and under sequences of them, its
--                 configuration from its creation on (Life), and its vault (Vault, OffLedger, Books)
--   Safety        what lets a borrow and a liquidation through, what a liquidation moves (Seizure), the
--                 books of principal, the wait of
--                 a looser configuration, the bounds of the protocol's share, and what a refresh does
--                 to an oracle's reference (Refresh, Bootstrap) and to a market's (PoolPrice,
--                 MarketRefresh, Ring, MarketRun), and what the migrations leave (Migration)
--   Tests         concrete accounts, and the theorems at them
--
-- How the code is modelled. A struct is a record with the struct's fields; the bumps of the derived
-- addresses, which only sign, are left out. A key is a number that is only compared. A handler is a
-- function from the clock, its accounts, its arguments and the state of the token accounts to an
-- `Outcome`: the accounts and the token accounts that it leaves, or the error. An error leaves
-- nothing behind, as the runtime discards a transaction that fails. `x_constraints` is the list of
-- conditions that the derived account struct states, `x_effects` the handler up to its calls of the
-- token program, and `handle_x` the whole. `checked_add` and its kin carry the bound of the word as
-- an argument, and `narrow` is `u64::try_from`; an `i64` that would overflow aborts, as an error.
-- An account of another program is its list of bytes. No definition runs on fuel: the loops,
-- over the entries of an obligation, the observations of a market and the bytes of an account, recur
-- on the list.
--
-- The token programs and the address derivation are not part of the repository. The first are the
-- record `TokenProgram`, and `TokenLaws` is what their documentation promises of a mint without a
-- transfer fee; the second is a function in `Program`. An account that the code reads unchecked is
-- given with its owner and with what decoding its data yields. The loader of programs, with the
-- derivation of a program's data account, is the record `Loader`, and what the migrations use of the
-- runtime is the record `Runtime`.
--
-- Not modelled: the calls that create the share mint with its metadata (one parameter of
-- `handle_init_reserve`), the handler that rewrites the metadata, the keys of the chain in launch.rs,
-- the entry points, which only call the handlers, `ValidatedPrice` of oracle/mod.rs, the events and the
-- log lines, and the seeds of the derived addresses.
pub mod Common
pub mod Constants
pub mod Math
pub mod Reserve
pub mod Oracle
pub mod Global
pub mod Obligation
pub mod Tokens
pub mod Risk
pub mod Instructions
pub mod Launch
pub mod Pool
pub mod Safety
pub mod Tests
