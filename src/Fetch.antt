-- ===== src/Fetch.antt =====
-- wyndpy/fetch: the fetchers, and the guard on URLs that they share.
pub mod Network
pub mod Guard
pub mod Httpx
pub mod Firecrawl
mod SmallWorld
mod Tests
