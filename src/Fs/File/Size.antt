-- ===== src/Fs/File/Size.antt =====
-- `File::get_size` counts the bytes of a well-formed file of `kernel/src/fs/file.rs`.
use node_replicated_kernel.Prelude.{◌≡◌, refl, List, [], ◌∷◌, length, length-append, arith}
use node_replicated_kernel.Fs.File.{Buffer, File, size_of, get_size}
use node_replicated_kernel.Fs.File.Chunks.{bytes, Chunks, IsValid, length-bytes, last_len_bounds}

pub size_of-bytes : (m : List Buffer) → Chunks m → size_of m ≡ length (bytes m)
unfolding size_of
size_of-bytes [] v = refl
size_of-bytes (b ∷ []) v = omega (arith, length-append b [])
size_of-bytes (b ∷ c ∷ m) v = ground (arith, length-bytes b (c ∷ m) v, last_len_bounds b (c ∷ m) v)

-- On a well-formed file, `get_size` is the number of bytes in its buffers.
pub get_size-bytes : (f : File) → IsValid f → get_size f ≡ length (bytes f.mcache)
unfolding get_size
get_size-bytes f v = size_of-bytes f.mcache v
