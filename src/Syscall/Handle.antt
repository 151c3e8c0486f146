-- ===== src/Syscall/Handle.antt =====
-- `syscall_handle` of `kernel/src/arch/x86_64/syscall.rs`: the entry of a system call, its dispatch
-- and the registers that it leaves for the process.
use node_replicated_kernel.Prelude.{ℕ}
use node_replicated_kernel.Prelude.Outcome.{
  Outcome, ok, err, panic, stuck, invalid_syscall_argument1, Comp, fail,
}
use node_replicated_kernel.Kpi.SystemCalls.{SystemCall, system, process, vspace, file_io, unknown}
use node_replicated_kernel.Kpi.SystemCalls
use node_replicated_kernel.Kpi.SystemCallErrors
use node_replicated_kernel.Kpi.Calls.{Registers}
use node_replicated_kernel.Syscall.Errors.{reported_error}

-- The handlers of the four kinds of calls.
pub record Handlers (S : Type 0) : Type 0 where
  pub handle_system : ℕ → ℕ → ℕ → Comp S (ℕ × ℕ)
  pub handle_process : ℕ → ℕ → ℕ → Comp S (ℕ × ℕ)
  pub handle_vspace : ℕ → ℕ → ℕ → Comp S (ℕ × ℕ)
  pub handle_fileio : ℕ → ℕ → ℕ → ℕ → ℕ → Comp S (ℕ × ℕ)

-- The save area of the core, of which a call uses three registers, and the rest of the kernel.
abbrev pub Core : Type 0 → Type 0
Core S = Registers × S

module _ {S : Type 0} (k : Handlers S) where
  abbrev pub dispatch : SystemCall → ℕ → ℕ → ℕ → ℕ → ℕ → ℕ → Comp S (ℕ × ℕ)
  dispatch system function arg1 arg2 arg3 arg4 arg5 = k.handle_system arg1 arg2 arg3
  dispatch process function arg1 arg2 arg3 arg4 arg5 = k.handle_process arg1 arg2 arg3
  dispatch vspace function arg1 arg2 arg3 arg4 arg5 = k.handle_vspace arg1 arg2 arg3
  dispatch file_io function arg1 arg2 arg3 arg4 arg5 = k.handle_fileio arg1 arg2 arg3 arg4 arg5
  dispatch unknown function arg1 arg2 arg3 arg4 arg5 = fail (invalid_syscall_argument1 function)

  -- The registers after a call: the two values and `Ok`, or the error.
  abbrev pub save_status : Registers → Outcome (ℕ × ℕ) × S → Outcome Registers × Core S
  save_status sa (ok (a1, a2), s) =
      let saved : Registers = record {
        error_code = SystemCallErrors.code SystemCallErrors.ok;
        ret1 = a1;
        ret2 = a2;
      } in
      (ok saved, (saved, s))
  save_status sa (err status, s) =
      let saved = record sa { error_code = SystemCallErrors.code (reported_error status) } in
      (ok saved, (saved, s))
  save_status sa (panic, s) = (panic, (sa, s))
  save_status sa (stuck, s) = (stuck, (sa, s))

  -- The registers that the process gets are those of the save area, which is resumed.
  unfoldable pub syscall_handle : ℕ → ℕ → ℕ → ℕ → ℕ → ℕ → Comp (Core S) Registers
  syscall_handle function arg1 arg2 arg3 arg4 arg5 (sa, s) =
      save_status sa (dispatch (SystemCalls.from function) function arg1 arg2 arg3 arg4 arg5 s)
