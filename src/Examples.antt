-- ===== src/Examples.antt =====
-- The programs of cppprojects/examples that have a logic of their own.
pub mod CallOnce
pub mod FlagSync
pub mod StateMachine
