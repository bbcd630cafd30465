-- ===== src/Provider.antt =====
-- internal/provider: the sources of prices.
pub mod Http
pub mod Faker
pub mod Publication
pub mod Retry
pub mod Average
pub mod Bcv
pub mod Binance
pub mod Localized
pub mod DolarApi
pub mod EffectiveDate
