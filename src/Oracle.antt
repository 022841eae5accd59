-- ===== src/Oracle.antt =====
-- The oracle of programs/aera/src/oracle/, state/oracle.rs and state/market_oracle.rs: health, breakers,
-- the sources of a rate, the history of a market, and what is proved of these.
pub mod Health
pub mod Breaker
pub mod State
pub mod Verdicts
pub mod MarketOracle
pub mod MarketBreaker
pub mod MarketRise
pub mod MarketGate
pub mod MarketTightening
pub mod MarketVerdicts
pub mod MarketCatchup
pub mod Twap
pub mod History
pub mod Bootstrap
pub mod Validation
pub mod Deployment
pub mod StakePool
pub mod Native
pub mod Sources
pub mod Weights
pub mod TwapReturns
pub mod Cursor
pub mod Encoding
pub mod RoundTrip
