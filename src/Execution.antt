-- ===== src/Execution.antt =====
-- internal/domain/execution.go, test_run.go and the enumerations of internal/domain/types.go.
pub mod Limits
pub mod TestRun
