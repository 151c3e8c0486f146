-- ===== src/Kpi/Calls.antt =====
-- The system calls of a process: `lib/kpi/src/syscalls`. The instruction that enters the kernel is a
-- parameter: `syscall` takes six arguments and gives back the registers with the error code and the
-- two values. A register that a call does not set holds `unset`.
use node_replicated_kernel.Prelude.{
  ℕ, ◌-◌, ◌==◌, ◌&&◌, Bool, true, if◌then◌else◌, word, base_page_size,
}
use node_replicated_kernel.Prelude.Outcome.{Outcome, ok, panic, Comp, chain}
use node_replicated_kernel.Kpi.Io.{FileInfo}
use node_replicated_kernel.Kpi.SystemCallErrors.{SystemCallError, bad_file_descriptor, offset_error}
use node_replicated_kernel.Kpi.SystemCallErrors
use node_replicated_kernel.Kpi.SystemCalls
use node_replicated_kernel.Kpi.ProcessOps
use node_replicated_kernel.Kpi.VSpaceOps
use node_replicated_kernel.Kpi.SystemOps
use node_replicated_kernel.Kpi.Ops
use node_replicated_kernel.Kpi.Ops.{FileOperation, read, write, read_at, write_at}

-- A value, or the error that the kernel reports.
pub data Reply (A : Type 0) : Type 0 where
  accepted : A → Reply A
  failed : SystemCallError → Reply A

pub record Registers : Type 0 where
  pub error_code : ℕ
  pub ret1 : ℕ
  pub ret2 : ℕ

-- `-1` as an `i64`.
abbrev pub minus_one : ℕ
minus_one = word - 1

module _ {S : Type 0} (syscall : ℕ → ℕ → ℕ → ℕ → ℕ → ℕ → Comp S Registers) (unset : ℕ) where
  -- The error, unless the code is 0.
  abbrev pub if_zero : {A : Type 0} → (Registers → A) → Registers → Reply A
  if_zero f r =
      if r.error_code == 0 then accepted (f r) else failed (SystemCallErrors.from r.error_code)

  abbrev pub reply : {A : Type 0} → (Registers → A) → Outcome Registers × S → Outcome (Reply A) × S
  reply f x = chain x λ r s. (ok (if_zero f r), s)

  abbrev pub file_io : FileOperation → ℕ → ℕ → ℕ → ℕ → Comp S Registers
  file_io op = syscall (SystemCalls.code SystemCalls.file_io) (Ops.code op)

  unfoldable pub open_file : ℕ → ℕ → ℕ → Comp S (Reply ℕ)
  open_file pathname flags modes s =
      reply (λ r. r.ret1) (file_io Ops.open_file pathname flags modes unset s)

  -- The descriptor of the call is the error code of its success.
  unfoldable pub close : ℕ → Comp S (Reply ℕ)
  close fd s = reply (λ r. r.error_code) (file_io Ops.close fd unset unset unset s)

  -- `Fs::fileio`, of `read` and `write`.
  unfoldable pub fileio : FileOperation → ℕ → ℕ → ℕ → Comp S (Reply ℕ)
  fileio op fd buffer len s =
      if len == 0
      then (ok (failed bad_file_descriptor), s)
      else reply (λ r. r.ret1) (file_io op fd buffer len unset s)

  -- The offset -1 of `fileio_at`.
  abbrev pub without_offset : FileOperation → ℕ → ℕ → ℕ → Comp S (Reply ℕ)
  without_offset read_at fd buffer len s = (ok (failed offset_error), s)
  without_offset write_at fd buffer len s = fileio write fd buffer len s
  without_offset _ fd buffer len s = (panic, s)

  unfoldable pub fileio_at : FileOperation → ℕ → ℕ → ℕ → ℕ → Comp S (Reply ℕ)
  fileio_at op fd buffer len offset s =
      if len == 0
      then (ok (failed bad_file_descriptor), s)
      else (if offset == minus_one
          then without_offset op fd buffer len s
          else reply (λ r. r.ret1) (file_io op fd buffer len offset s))

  -- The information is what `load_info` finds in the process's memory.
  unfoldable pub getinfo : (S → FileInfo) → ℕ → ℕ → Comp S (Reply FileInfo)
  getinfo load_info name fileinfo s =
      let (x, t) = file_io Ops.get_info name fileinfo unset unset s in
      reply (λ r. load_info t) (x, t)

  unfoldable pub delete : ℕ → Comp S (Reply Bool)
  delete name s = chain (file_io Ops.delete name unset unset unset s) λ r s.
      let done = (r.error_code == 0) && (r.ret1 == 0) in
      (ok (if done then accepted true else failed (SystemCallErrors.from r.error_code)), s)

  unfoldable pub write_direct : ℕ → ℕ → ℕ → Comp S (Reply ℕ)
  write_direct buffer len offset s =
      if len == 0
      then (ok (failed bad_file_descriptor), s)
      else (let is_offset = if offset == minus_one then 0 else 1 in
          reply (λ r. r.ret1) (file_io Ops.write_direct buffer len offset is_offset s))

  unfoldable pub rename : ℕ → ℕ → Comp S (Reply ℕ)
  rename old_name new_name s =
      reply (λ r. 0) (file_io Ops.file_rename old_name new_name unset unset s)

  unfoldable pub mkdir_simple : ℕ → ℕ → Comp S (Reply ℕ)
  mkdir_simple pathname modes s = reply (λ r. 0) (file_io Ops.mk_dir pathname modes unset unset s)

  abbrev pub vspace_call : VSpaceOps.VSpaceOperation → ℕ → ℕ → Comp S Registers
  vspace_call op base bound =
      syscall (SystemCalls.code SystemCalls.vspace) (VSpaceOps.code op) base bound unset unset

  -- The addresses of `VSpace::vspace`: the one that is asked for, and the first value.
  unfoldable pub vspace : VSpaceOps.VSpaceOperation → ℕ → ℕ → Comp S (Reply (ℕ × ℕ))
  vspace op base bound s = reply (λ r. (base, r.ret1)) (vspace_call op base bound s)

  abbrev pub map_frame : ℕ → ℕ → Comp S (Reply (ℕ × ℕ))
  map_frame fid base s =
      reply (λ r. (base, r.ret1)) (vspace_call VSpaceOps.map_mem_frame base fid s)

  abbrev pub identify : ℕ → Comp S (Reply (ℕ × ℕ))
  identify base = vspace VSpaceOps.identify base 0

  abbrev pub process_call : ProcessOps.ProcessOperation → ℕ → ℕ → Comp S Registers
  process_call op arg2 arg3 =
      syscall (SystemCalls.code SystemCalls.process) (ProcessOps.code op) arg2 arg3 unset unset

  unfoldable pub allocate_base_page : Comp S (Reply (ℕ × ℕ))
  allocate_base_page s =
      reply (λ r. (r.ret1, r.ret2))
        (process_call ProcessOps.allocate_physical base_page_size unset s)

  unfoldable pub request_core : ℕ → ℕ → Comp S (Reply ℕ)
  request_core core_id entry_point s =
      reply (λ r. r.ret1) (process_call ProcessOps.request_core core_id entry_point s)

  -- The vector and the core that come back are asserted to be those that went in.
  unfoldable pub irqalloc : ℕ → ℕ → Comp S (Reply (Unit {0}))
  irqalloc vec core s = chain (process_call ProcessOps.allocate_vector vec core s) λ r s.
      if (r.ret1 == vec) && (r.ret2 == core) then (ok (if_zero (λ _. tt) r), s) else (panic, s)

  unfoldable pub print : ℕ → ℕ → Comp S (Reply (Unit {0}))
  print buffer len s = reply (λ r. tt) (process_call ProcessOps.log buffer len s)

  abbrev pub system_call : SystemOps.SystemOperation → Comp S Registers
  system_call op =
      syscall (SystemCalls.code SystemCalls.system) (SystemOps.code op) unset unset unset unset

  unfoldable pub stats : Comp S (Reply (Unit {0}))
  stats s = reply (λ r. tt) (system_call SystemOps.stats s)

  unfoldable pub core_id : Comp S (Reply ℕ)
  core_id s = reply (λ r. r.ret1) (system_call SystemOps.get_core_id s)
