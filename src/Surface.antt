-- ===== src/Surface.antt =====
-- wyndpy/surface: adapters as tools of a language model.
pub mod Schema
pub mod Tools
pub mod Direct
mod Tests
