-- ===== src/Parse.antt =====
-- wyndpy/parse: the parser that ships with the library.
pub mod Llamaparse
