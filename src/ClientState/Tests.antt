-- ===== src/ClientState/Tests.antt =====
-- A range of three blocks.
