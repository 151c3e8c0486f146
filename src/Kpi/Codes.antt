-- ===== src/Kpi/Codes.antt =====
-- The numbers and the names of `lib/kpi/src/lib.rs` taken together.
use node_replicated_kernel.Kpi.SystemCallErrors
use node_replicated_kernel.Kpi.ProcessOps
use node_replicated_kernel.Kpi.VSpaceOps
use node_replicated_kernel.Kpi.Ops
use node_replicated_kernel.Kpi.SystemOps
use node_replicated_kernel.Kpi.SystemCalls
