-- ===== src/ChaosCtrl/Parsing.antt =====
-- What `parseArgs` guarantees to the commands.
