-- ===== src/Fs/File/Tests.antt =====
-- The theorems on `kernel/src/fs/file.rs` at a small file.
use node_replicated_kernel.Prelude.{◌≡◌, refl, [], ◌∷◌, false, overwrite, replicate, arith}
use node_replicated_kernel.Prelude.Outcome.{ok}
use node_replicated_kernel.Fs.File.{
  File, read_file, write_file, increase_file_size, make_room, size_of, grow_last, resize_last,
  write_loop, set_last, resize,
}
use node_replicated_kernel.Fs.File.Chunks.{IsValid}
use node_replicated_kernel.Fs.File.Read.{read_file-eq}
use node_replicated_kernel.Fs.File.Write.{Written, write_file-Written}
use node_replicated_kernel.Fs.File.RoundTrip.{read-write}

abbrev small : File
small = record { mcache = (1 ∷ 2 ∷ 3 ∷ []) ∷ []; modes = 7 }

small-IsValid : IsValid small
small-IsValid = (omega arith, omega arith)

read_file-eq_example : read_file small (9 ∷ 9 ∷ []) 1 3 ≡ ok (2, 2 ∷ 3 ∷ [])
unfolding overwrite
read_file-eq_example =
    read_file-eq small (9 ∷ 9 ∷ []) 1 3 small-IsValid (omega arith) (omega arith) (omega arith)
      (omega arith)

write_file-Written_example :
    Written small (false ∷ []) (7 ∷ 8 ∷ []) 2 (write_file (7 ∷ 8 ∷ []) 2 2 (small, false ∷ []))
write_file-Written_example =
    write_file-Written small (false ∷ []) (7 ∷ 8 ∷ []) 2 small-IsValid (omega arith) (omega arith)

abbrev longer : File
longer = record { mcache = (1 ∷ 2 ∷ 7 ∷ 8 ∷ []) ∷ []; modes = 7 }

write_ends : write_file (7 ∷ 8 ∷ []) 2 2 (small, []) ≡ (ok 2, (longer, []))
unfolding write_file make_room size_of increase_file_size grow_last resize_last write_loop set_last
    resize replicate overwrite
write_ends = refl

read-write_example : read_file longer (0 ∷ 0 ∷ []) 2 4 ≡ ok (2, 7 ∷ 8 ∷ [])
unfolding overwrite
read-write_example =
    read-write small longer [] [] (7 ∷ 8 ∷ []) (0 ∷ 0 ∷ []) 2 2 small-IsValid (omega arith)
      (omega arith) (omega arith) write_ends
