-- ===== src/Precheck/Tests.antt =====
-- A quiet cycle.
