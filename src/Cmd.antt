-- ===== src/Cmd.antt =====
-- cmd/main.go: Flags has the flags and the options of the two servers, Namespaces the namespaces of the
-- cache, StartUp the sequence of calls of `main`, and Tests concrete texts of WATCH_NAMESPACE.
pub mod Flags
pub mod Namespaces
pub mod StartUp
mod Tests
