-- ===== src/Router.antt =====
-- wyndpy/core/router.py, by parts: the constructor and its tables, the actions, both tracks.
pub mod Setup
pub mod Action
pub mod Keeps
pub mod History
pub mod TrackA
pub mod TrackB
pub mod Resolve
pub mod Locks
mod Desk
mod Tests
