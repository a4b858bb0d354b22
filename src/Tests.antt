-- ===== src/Tests.antt =====
-- Concrete inputs: the theorems at runs of the service.
mod Worlds
mod Slots
mod Parsing
mod Runs
mod Bodies
mod Executions
mod Upstreams
mod Callbacks
mod Tokens
mod Found
mod Configured
mod Lives
mod Windows
mod Logs
mod Searches
