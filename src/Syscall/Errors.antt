-- ===== src/Syscall/Errors.antt =====
-- The conversion of the kernel's errors of `kernel/src/error.rs` to those that a system call reports.
use node_replicated_kernel.Prelude.Outcome.{
  KError, invalid_syscall_argument1, invalid_vspace_operation, invalid_process_operation,
  bad_address,
}
use node_replicated_kernel.Kpi.SystemCallErrors.{SystemCallError}
use node_replicated_kernel.Kpi.SystemCallErrors

-- `SystemCallError::from(KError)`.
unfoldable pub reported_error : KError → SystemCallError
reported_error (invalid_syscall_argument1 a) = SystemCallErrors.not_supported
reported_error (invalid_vspace_operation a) = SystemCallErrors.not_supported
reported_error (invalid_process_operation a) = SystemCallErrors.not_supported
reported_error bad_address = SystemCallErrors.bad_address
reported_error _ = SystemCallErrors.internal_error
