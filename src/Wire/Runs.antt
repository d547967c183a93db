-- ===== src/Wire/Runs.antt =====
-- The arrays of Wire on concrete values.
