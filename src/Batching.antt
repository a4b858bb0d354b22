-- ===== src/Batching.antt =====
-- app/services/batching.py: tasks that wait for each other, and the ticker that lets them go.
pub mod Params
pub mod Membership
pub mod Ticker
pub mod Rebuild
