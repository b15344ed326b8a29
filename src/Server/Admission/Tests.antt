-- ===== src/Server/Admission/Tests.antt =====
-- Upgrades against a cap of two sockets.
