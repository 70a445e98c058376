-- ===== src/Tests.antt =====
-- Concrete runs of the client's theorems.
pub mod Fixtures
pub mod Keys
pub mod KeyFiles
pub mod Payments
pub mod Sessions
pub mod Caches
pub mod Texts
pub mod Numbers
pub mod Balances
pub mod Commands
pub mod Proxies
