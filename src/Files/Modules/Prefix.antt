-- ===== src/Files/Modules/Prefix.antt =====
-- The prefix that `FilesBelongToSameModule` returns.
