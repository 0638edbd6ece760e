-- ===== src/LogFuncs/Tests.antt =====
-- The theorem on log_funcs.c at a concrete message.
