-- ===== src/Catalog.antt =====
-- 1/catalog/main.c: two walks over a directory tree that count its files. Walk has both of them,
-- Agree compares them, Census is about what they count, Start is how they begin, and Main what is
-- printed of them.
pub mod Walk
pub mod After
pub mod Agree
pub mod Census
pub mod Start
pub mod Main
