-- ===== src/Cnrfs/Tests.antt =====
-- The theorems on `kernel/src/cnrfs.rs` at small nodes.
use node_replicated_kernel.Prelude.{◌≡◌, ℕ, refl, [], ◌∷◌, true, false, none, some, ◌⊎◌, arith}
use node_replicated_kernel.Prelude.Dict.{lookup}
use node_replicated_kernel.Prelude.Outcome.{ok, panic}
use node_replicated_kernel.Kpi.Io.{flags_from, file}
use node_replicated_kernel.Fs.Mlnr
use node_replicated_kernel.Fs.Mlnr.Inv.{Inv, default-Inv, with_node-Inv}
use node_replicated_kernel.Cnrfs.{
  write_file, write_offset, MlnrKernelNode, Modify, file_open, file_write, file_delete, process_add,
  dispatch_mut, open_file, default, add_process, logs_of_modify,
}
use node_replicated_kernel.Cnrfs.Inv.{dispatch_mut-Inv}
use node_replicated_kernel.Cnrfs.Open.{Opened, open_file-Opened}
use node_replicated_kernel.Cnrfs.Logs.{Share, Apart, logs_of_modify-Share}
use node_replicated_kernel.Fs.Mnode.{MemNode}
use node_replicated_kernel.Fs.Mlnr.Create.{with_node}
use node_replicated_kernel.Cnrfs.Write.{Wrote, write_file-Wrote}
use node_replicated_kernel.Cnrfs.Read.{Accessed, read_file-Accessed}
use node_replicated_kernel.Cnrfs.{read_file, no_offset}
use node_replicated_kernel.Cnrfs.Answers.{submit-panic}
use node_replicated_kernel.Cnrfs.{file_close, close_file}
use node_replicated_kernel.Cnrfs.Reach.{Reached, start, step, Reached-Inv}

-- A process with two free descriptors.
abbrev one_process : MlnrKernelNode
one_process = record { process_map = (1, none ∷ none ∷ []) ∷ []; fs = Mlnr.default }

dispatch_mut-Inv_example :
    Inv (dispatch_mut (file_open 1 "a" 0x0201 7) (one_process, true ∷ true ∷ false ∷ [])).1.0.fs
unfolding Mlnr.default
dispatch_mut-Inv_example =
    dispatch_mut-Inv (file_open 1 "a" 0x0201 7) one_process (true ∷ true ∷ false ∷ []) default-Inv
      (omega arith) tt

open_file-Opened_example :
    Opened one_process 1 (flags_from 0x0201) "a" (open_file 1 "a" 0x0201 7 (one_process, []))
open_file-Opened_example = open_file-Opened 1 "a" 0x0201 7 one_process [] default-Inv

abbrev write_of : ℕ → Modify
write_of mnode = file_write 1 0 mnode (5 ∷ []) 1 0

logs_of_modify-Share_example :
    Share 4 (logs_of_modify 4 (write_of 7)) (logs_of_modify 4 (file_delete 1 "a"))
    ⊎ Apart (write_of 7) (file_delete 1 "a")
logs_of_modify-Share_example = logs_of_modify-Share 4 (omega arith) (write_of 7) (file_delete 1 "a")

two_steps :
    Reached
      (dispatch_mut
        (file_open 1 "a" 0x0201 7)
        ((dispatch_mut (process_add 1) (default, [])).1.0, [])).1.0
unfolding default dispatch_mut add_process Mlnr.default lookup
two_steps =
    step (step start (process_add 1) [] (omega arith) tt) (file_open 1 "a" 0x0201 7) []
      (omega arith) tt

Reached-Inv_example :
    Inv
      (dispatch_mut
        (file_open 1 "a" 0x0201 7)
        ((dispatch_mut (process_add 1) (default, [])).1.0, [])).1.0.fs
Reached-Inv_example = Reached-Inv _ two_steps

-- A process with an open descriptor of an empty file.
abbrev empty_node : MemNode
empty_node = record {
  mnode_num = 2;
  name = "a";
  node_type = file;
  contents = some (record { mcache = []; modes = 7 });
}

abbrev one_file : MlnrKernelNode
one_file = record {
  process_map = (1, some (record { mnode = 2; flags = 0x2003; offset = 0 }) ∷ none ∷ []) ∷ [];
  fs = with_node Mlnr.default "a" empty_node;
}

one_file-Inv : Inv one_file.fs
unfolding Mlnr.default
one_file-Inv =
    with_node-Inv Mlnr.default "a" empty_node default-Inv (omega arith)
      (record { shaped = tt; small = omega arith }) refl

write_file-Wrote_example :
    Wrote one_file [] 1 0 (5 ∷ 6 ∷ []) 3 (write_file 1 0 (5 ∷ 6 ∷ []) 3 (one_file, []))
unfolding write_offset
write_file-Wrote_example =
    write_file-Wrote one_file [] 1 0 3 (5 ∷ 6 ∷ []) one_file-Inv (λ info c e q. ground arith)

read_file-Accessed_example :
    Accessed one_file 1 0 (9 ∷ 9 ∷ []) no_offset (read_file 1 0 no_offset (one_file, 9 ∷ 9 ∷ []))
read_file-Accessed_example = read_file-Accessed one_file 1 0 no_offset (9 ∷ 9 ∷ []) one_file-Inv

-- Closing a descriptor of a process that is not there.
submit-panic_example : (dispatch_mut (file_close 9 0) (one_process, [])).0 ≡ panic
unfolding dispatch_mut close_file lookup
submit-panic_example =
    submit-panic true (λ a s. (panic, s)) (λ p. ok "a") (λ p n. []) (λ p i s. s) (file_close 9 0)
      (one_process, []) (λ pid e. cc) refl
