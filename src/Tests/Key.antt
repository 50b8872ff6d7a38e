-- ===== src/Tests/Key.antt =====
-- Keys of objects.
