-- ===== src/Core.antt =====
-- wyndpy/core: the types that every component shares.
pub mod Results
pub mod Item
pub mod Escalation
pub mod Protocols
pub mod Coroutine
pub mod Discovery
