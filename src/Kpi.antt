-- ===== src/Kpi.antt =====
-- The public kernel interface, `lib/kpi`.
pub mod Io
pub mod Match
pub mod Ops
pub mod SystemCallErrors
pub mod ProcessOps
pub mod VSpaceOps
pub mod SystemOps
pub mod SystemCalls
pub mod Codes
pub mod Calls
