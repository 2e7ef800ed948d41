-- ===== src/Factory.antt =====
-- wyndpy/factory.py: running objects from a policy.
pub mod Allow
pub mod Construct
pub mod Build
pub mod Classes
pub mod Served
pub mod Review
mod Tests
