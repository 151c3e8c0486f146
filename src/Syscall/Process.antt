-- ===== src/Syscall/Process.antt =====
-- `handle_process` and `handle_system` of `kernel/src/arch/x86_64/syscall.rs`. The machine, user memory
-- and the encoding of the serde_cbor crate are those of the record `Control`.
use node_replicated_kernel.Prelude.{
  ℕ, Option, none, some, List, [], ◌∷◌, length, map, Bool, ◌==◌, ◌&&◌, not, leb, if◌then◌else◌,
  base_page_size, large_page_size,
}
use node_replicated_kernel.Prelude.Outcome.{
  Outcome, ok, err, invalid_process_operation, invalid_system_operation, invalid_syscall_argument1,
  invalid_global_thread_id, Comp, chain, or_fail,
}
use node_replicated_kernel.Kpi.ProcessOps.{
  ProcessOperation, exit, log, get_vcpu_area, allocate_vector, subscribe_event, get_process_info,
  request_core, allocate_physical, unknown,
}
use node_replicated_kernel.Kpi.ProcessOps
use node_replicated_kernel.Kpi.SystemOps
use node_replicated_kernel.NrProcess.Calls.{pinfo, call_allocate_frame}
use node_replicated_kernel.Syscall.Print.{Printer, process_print}
use node_replicated_kernel.Syscall.Vspace.{Spaces}
use node_replicated_kernel.Memory.Refill.{mem}

-- A thread of the machine, as the atopology crate and as the kernel's interface describe it.
pub record HwThread : Type 0 where
  pub id : ℕ
  pub node_id : Option ℕ
  pub package_id : ℕ
  pub core_id : ℕ
  pub thread_id : ℕ

pub record CpuThread : Type 0 where
  pub id : ℕ
  pub node_id : ℕ
  pub package_id : ℕ
  pub core_id : ℕ
  pub thread_id : ℕ

abbrev pub or_zero : Option ℕ → ℕ
or_zero none = 0
or_zero (some n) = n

abbrev pub cpu_thread : HwThread → CpuThread
cpu_thread t = record {
  id = t.id;
  node_id = or_zero t.node_id;
  package_id = t.package_id;
  core_id = t.core_id;
  thread_id = t.thread_id;
}

-- The node of the thread: that of the last one in the list.
pub affinity_of : List HwThread → ℕ → Option ℕ → Option ℕ
affinity_of [] gtid affinity = affinity
affinity_of (t ∷ threads) gtid affinity =
    affinity_of threads gtid (if t.id == gtid then some (or_zero t.node_id) else affinity)

pub record Control (S I : Type 0) : Type 0 where
  pub threads : List HwThread
  pub core : S → ℕ
  pub user_slice : ℕ → ℕ → S → List ℕ
  pub store_user : ℕ → List ℕ → S → S
  pub printer : S → Printer
  pub set_printer : Printer → S → S
  pub vcpu_addr : S → Outcome ℕ
  pub establish_route : ℕ → ℕ → Comp S (Unit {0})
  -- it does not return; the exit is a success or not
  pub shutdown : Bool → Comp S (ℕ × ℕ)
  pub with_cmdline : S → I → I
  pub encode_info : I → List ℕ
  pub encode_threads : List CpuThread → List ℕ
  pub allocate_core_to_process : (pid entry_point affinity gtid : ℕ) → Comp S ℕ

-- What is encoded goes to the user's buffer if it fits, and its length is reported anyway.
abbrev pub store_if_fits : {S I : Type 0} → Control S I → ℕ → ℕ → List ℕ → Comp S (ℕ × ℕ)
store_if_fits c vaddr_buf vaddr_buf_len serialized s = (
  ok (length serialized, 0),
  (if leb (length serialized) vaddr_buf_len then c.store_user vaddr_buf serialized s else s),
)

module _ {S E M I : Type 0} (k : Spaces S E M I) (c : Control S I) where
  unfoldable pub allocate_page : ℕ → Comp S (ℕ × ℕ)
  allocate_page page_size s =
      let is_base = page_size == base_page_size in
      if not is_base && not (page_size == large_page_size)
      then (err (invalid_syscall_argument1 page_size), s)
      else (chain (if is_base then k.try_refill_tcache 1 0 mem s else k.try_refill_tcache 0 1 mem s)
          λ _ s.
            chain (if is_base then k.allocate_base_page mem s else k.allocate_large_page mem s)
              λ frame s.
                chain (k.current_pid s, s)
                  λ pid s.
                    chain (call_allocate_frame k.execute_mut k.execute pid frame s)
                      λ fid s. (ok (fid, frame.base), s))

  unfoldable pub call_core : ℕ → ℕ → Comp S (ℕ × ℕ)
  call_core gtid entry_point s =
      chain (or_fail (affinity_of c.threads gtid none) invalid_global_thread_id s) λ affinity s.
        chain (k.current_pid s, s)
          λ pid s.
            chain (c.allocate_core_to_process pid entry_point affinity gtid s)
              λ _ s. (ok (gtid, 0), s)

  -- The match of `handle_process`.
  unfoldable pub process_call : ProcessOperation → ℕ → ℕ → ℕ → Comp S (ℕ × ℕ)
  process_call log arg1 buffer len s =
      let printer = process_print (c.user_slice buffer len s) (c.printer s) in
      (ok (0, 0), c.set_printer printer s)
  process_call get_vcpu_area arg1 arg2 arg3 s =
      chain (c.vcpu_addr s, s) λ vcpu_vaddr s. (ok (vcpu_vaddr, 0), s)
  process_call allocate_vector arg1 vector core s =
      chain (c.establish_route vector core s) λ _ s. (ok (vector, core), s)
  process_call exit arg1 code arg3 s = c.shutdown (code == 0) s
  process_call get_process_info arg1 vaddr_buf vaddr_buf_len s =
      chain (k.current_pid s, s)
        λ pid s. chain (pinfo k.execute_mut k.execute pid s) λ info s.
          store_if_fits c vaddr_buf vaddr_buf_len (c.encode_info (c.with_cmdline s info)) s
  process_call request_core arg1 gtid entry_point s = call_core gtid entry_point s
  process_call allocate_physical arg1 page_size arg3 s = allocate_page page_size s
  process_call subscribe_event arg1 arg2 arg3 s = (err (invalid_process_operation arg1), s)
  process_call unknown arg1 arg2 arg3 s = (err (invalid_process_operation arg1), s)

  unfoldable pub handle_process : ℕ → ℕ → ℕ → Comp S (ℕ × ℕ)
  handle_process arg1 arg2 arg3 s = process_call (ProcessOps.from arg1) arg1 arg2 arg3 s

  unfoldable pub system_call : SystemOps.SystemOperation → ℕ → ℕ → ℕ → Comp S (ℕ × ℕ)
  system_call SystemOps.get_hardware_threads arg1 vaddr_buf vaddr_buf_len s =
      chain (k.try_with_capacity (length c.threads) s)
        λ _. store_if_fits c vaddr_buf vaddr_buf_len (c.encode_threads (map cpu_thread c.threads))
  system_call SystemOps.stats arg1 arg2 arg3 s = (ok (0, 0), s)
  system_call SystemOps.get_core_id arg1 arg2 arg3 s = (ok (c.core s, 0), s)
  system_call SystemOps.unknown arg1 arg2 arg3 s = (err (invalid_system_operation arg1), s)

  unfoldable pub handle_system : ℕ → ℕ → ℕ → Comp S (ℕ × ℕ)
  handle_system arg1 arg2 arg3 s = system_call (SystemOps.from arg1) arg1 arg2 arg3 s
