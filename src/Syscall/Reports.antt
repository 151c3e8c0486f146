-- ===== src/Syscall/Reports.antt =====
-- What a process learns of the kernel's answer: `syscall_handle` of
-- `kernel/src/arch/x86_64/syscall.rs` under the calls of `lib/kpi/src/syscalls`.
use node_replicated_kernel.Prelude.{ℕ, ◌≡◌, ◌≢◌, refl, false, base_page_size, ◌==◌, arith, nat_eq}
use node_replicated_kernel.Prelude.Outcome.{
  Outcome, ok, err, panic, stuck, KError, invalid_syscall_argument1, invalid_vspace_operation,
  invalid_process_operation, bad_address, Comp,
}
use node_replicated_kernel.Kpi.SystemCalls
use node_replicated_kernel.Kpi.SystemCallErrors
use node_replicated_kernel.Kpi.Ops
use node_replicated_kernel.Kpi.ProcessOps
use node_replicated_kernel.Kpi.VSpaceOps
use node_replicated_kernel.Kpi.SystemOps
use node_replicated_kernel.Kpi.Calls
use node_replicated_kernel.Kpi.Calls.{
  Registers, Reply, accepted, failed, minus_one, process_call, vspace_call, system_call, reply,
  file_io,
}
use node_replicated_kernel.Syscall.Errors.{reported_error}
use node_replicated_kernel.Syscall.Handle.{Handlers, Core, save_status, syscall_handle}

reported_error-ne_ok : (e : KError) → reported_error e ≢ SystemCallErrors.ok
unfolding reported_error
reported_error-ne_ok (invalid_syscall_argument1 a) h = cc
reported_error-ne_ok (invalid_vspace_operation a) h = cc
reported_error-ne_ok (invalid_process_operation a) h = cc
reported_error-ne_ok bad_address h = cc
reported_error-ne_ok _ h = cc

code-ne_0 :
    (e : SystemCallErrors.SystemCallError)
    → e ≢ SystemCallErrors.ok
    → (SystemCallErrors.code e == 0) ≡ false
unfolding SystemCallErrors.code
code-ne_0 SystemCallErrors.ok h = absurd (h refl)
code-ne_0 _ h = refl

-- What the process gets: the value, or the kernel's error as it is reported.
abbrev pub answer : {A S : Type 0} → (ℕ × ℕ → A) → Outcome (ℕ × ℕ) × S → Outcome (Reply A)
answer f (ok v, s) = ok (accepted (f v))
answer f (err e, s) = ok (failed (reported_error e))
answer f (panic, s) = panic
answer f (stuck, s) = stuck

-- The call of the process gives what the handler does, and leaves the state of the handler.
abbrev pub Told :
    {A S : Type 0} → (ℕ × ℕ → A) → Outcome (ℕ × ℕ) × S → Outcome (Reply A) × Core S → Type 0
Told f x r = (r.0 ≡ answer f x) × (r.1.1 ≡ x.1)

module _ {S : Type 0} (k : Handlers S) (unset : ℕ) where
  abbrev pub enter : ℕ → ℕ → ℕ → ℕ → ℕ → ℕ → Comp (Core S) Registers
  enter = syscall_handle k

  save_status-Told :
      {A : Type 0} (f : ℕ × ℕ → A) (sa : Registers) (x : Outcome (ℕ × ℕ) × S)
      → Told f x (reply enter unset (λ r. f (r.ret1, r.ret2)) (save_status k sa x))
  unfolding SystemCallErrors.code
  save_status-Told f sa (ok v, s) = (refl, refl)
  save_status-Told f sa (err e, s) =
      let report = reported_error-ne_ok e in
      rw (code-ne_0 (reported_error e) report, SystemCallErrors.from-code (reported_error e) report)
        (refl, refl)
  save_status-Told f sa (panic, s) = (refl, refl)
  save_status-Told f sa (stuck, s) = (refl, refl)

  file-Told :
      {A : Type 0} (f : ℕ × ℕ → A) (op : Ops.FileOperation) (a b c d : ℕ) (sa : Registers) (s : S)
      → Told f
          (k.handle_fileio (Ops.code op) a b c d s)
          (reply enter unset (λ r. f (r.ret1, r.ret2)) (file_io enter unset op a b c d (sa, s)))
  unfolding syscall_handle
  file-Told f op a b c d sa s =
      rw (SystemCalls.from-Codec.back SystemCalls.file_io)
        (save_status-Told f sa (k.handle_fileio (Ops.code op) a b c d s))

  process-Told :
      {A : Type 0} (f : ℕ × ℕ → A) (op : ProcessOps.ProcessOperation) (a b : ℕ) (sa : Registers)
      (s : S)
      → Told f
          (k.handle_process (ProcessOps.code op) a b s)
          (reply enter unset (λ r. f (r.ret1, r.ret2)) (process_call enter unset op a b (sa, s)))
  unfolding syscall_handle
  process-Told f op a b sa s =
      rw (SystemCalls.from-Codec.back SystemCalls.process)
        (save_status-Told f sa (k.handle_process (ProcessOps.code op) a b s))

  vspace-Told :
      {A : Type 0} (f : ℕ × ℕ → A) (op : VSpaceOps.VSpaceOperation) (a b : ℕ) (sa : Registers)
      (s : S)
      → Told f
          (k.handle_vspace (VSpaceOps.code op) a b s)
          (reply enter unset (λ r. f (r.ret1, r.ret2)) (vspace_call enter unset op a b (sa, s)))
  unfolding syscall_handle
  vspace-Told f op a b sa s =
      rw (SystemCalls.from-Codec.back SystemCalls.vspace)
        (save_status-Told f sa (k.handle_vspace (VSpaceOps.code op) a b s))

  system-Told :
      {A : Type 0} (f : ℕ × ℕ → A) (op : SystemOps.SystemOperation) (sa : Registers) (s : S)
      → Told f
          (k.handle_system (SystemOps.code op) unset unset s)
          (reply enter unset (λ r. f (r.ret1, r.ret2)) (system_call enter unset op (sa, s)))
  unfolding syscall_handle
  system-Told f op sa s =
      rw (SystemCalls.from-Codec.back SystemCalls.system)
        (save_status-Told f sa (k.handle_system (SystemOps.code op) unset unset s))

  -- The file calls of a process give what the kernel's handler does of the same operation, a value as
  -- it is and an error as the one that it is reported as, and leave the state of the handler: opening,
  -- renaming, making a directory, and reading or writing a byte or more, at an offset other than -1
  -- or without one.
  pub file_calls-Told :
      (op : Ops.FileOperation) (sa : Registers) (s : S) (pathname other flags modes : ℕ)
      (fd buffer len offset : ℕ)
      → len ≢ 0
      → offset ≢ minus_one
      → Told
          (λ v. v.0)
          (k.handle_fileio (Ops.code Ops.open_file) pathname flags modes unset s)
          (Calls.open_file enter unset pathname flags modes (sa, s))
        × Told
            (λ v. v.0)
            (k.handle_fileio (Ops.code op) fd buffer len unset s)
            (Calls.fileio enter unset op fd buffer len (sa, s))
        × Told
            (λ v. v.0)
            (k.handle_fileio (Ops.code op) fd buffer len offset s)
            (Calls.fileio_at enter unset op fd buffer len offset (sa, s))
        × Told
            (λ v. 0)
            (k.handle_fileio (Ops.code Ops.file_rename) pathname other unset unset s)
            (Calls.rename enter unset pathname other (sa, s))
        × Told
            (λ v. 0)
            (k.handle_fileio (Ops.code Ops.mk_dir) pathname modes unset unset s)
            (Calls.mkdir_simple enter unset pathname modes (sa, s))
  unfolding Calls.open_file Calls.fileio Calls.fileio_at Calls.rename Calls.mkdir_simple
  file_calls-Told op sa s pathname other flags modes fd buffer len offset h g =
      let some_bytes : (len == 0) ≡ false = ground (arith, h) in
      let an_offset : (offset == minus_one) ≡ false = ground (arith, g) in
      (
        file-Told (λ v. v.0) Ops.open_file pathname flags modes unset sa s,
        rw some_bytes (file-Told (λ v. v.0) op fd buffer len unset sa s),
        rw (some_bytes, an_offset) (file-Told (λ v. v.0) op fd buffer len offset sa s),
        file-Told (λ v. 0) Ops.file_rename pathname other unset unset sa s,
        file-Told (λ v. 0) Ops.mk_dir pathname modes unset unset sa s,
      )

  -- Likewise the calls on address spaces, processes and the system: mapping and the others of
  -- `VSpace::vspace`, which give the address that they were asked about, allocating a page,
  -- requesting a core, printing, and the number of the core.
  pub other_calls-Told :
      (op : VSpaceOps.VSpaceOperation) (sa : Registers) (s : S)
      (base bound core entry buffer len : ℕ)
      → Told
          (λ v. (base, v.0))
          (k.handle_vspace (VSpaceOps.code op) base bound s)
          (Calls.vspace enter unset op base bound (sa, s))
        × Told
            (λ v. v)
            (k.handle_process (ProcessOps.code ProcessOps.allocate_physical) base_page_size unset s)
            (Calls.allocate_base_page enter unset (sa, s))
        × Told
            (λ v. v.0)
            (k.handle_process (ProcessOps.code ProcessOps.request_core) core entry s)
            (Calls.request_core enter unset core entry (sa, s))
        × Told
            (λ v. tt)
            (k.handle_process (ProcessOps.code ProcessOps.log) buffer len s)
            (Calls.print enter unset buffer len (sa, s))
        × Told
            (λ v. v.0)
            (k.handle_system (SystemOps.code SystemOps.get_core_id) unset unset s)
            (Calls.core_id enter unset (sa, s))
  unfolding Calls.vspace Calls.allocate_base_page Calls.request_core Calls.print Calls.core_id
  other_calls-Told op sa s base bound core entry buffer len = (
    vspace-Told (λ v. (base, v.0)) op base bound sa s,
    process-Told (λ v. v) ProcessOps.allocate_physical base_page_size unset sa s,
    process-Told (λ v. v.0) ProcessOps.request_core core entry sa s,
    process-Told (λ v. tt) ProcessOps.log buffer len sa s,
    system-Told (λ v. v.0) SystemOps.get_core_id sa s,
  )
