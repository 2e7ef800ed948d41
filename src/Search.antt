-- ===== src/Search.antt =====
-- wyndpy/search: the searcher that ships with the library.
pub mod Exa
