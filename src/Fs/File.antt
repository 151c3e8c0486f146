-- ===== src/Fs/File.antt =====
-- `kernel/src/fs/file.rs`: a file is a list of page-sized buffers. Laws are in the modules below.
-- Every fallible call of the allocation library is a `request` to the allocator. Byte counts of
-- buffers that exist do not overflow; sums and differences of a caller's numbers wrap.
pub mod Chunks
pub mod Size
pub mod Grow
mod Access
mod Fill
pub mod Read
pub mod Write
pub mod RoundTrip
mod Tests
use node_replicated_kernel.Prelude.{
  ℕ, zero, suc, ◌+◌, ◌-◌, ◌*◌, ◌/◌, ◌%◌, Bool, true, false, ◌&&◌, ltb, leb, ◌==◌, if◌then◌else◌,
  Option, none, some, List, [], ◌∷◌, ◌++◌, length, get_elem?, set, take, replicate, slice,
  copy_range, sub64, add64, base_page_size,
}
use node_replicated_kernel.Prelude.Outcome.{
  Outcome, ok, err, panic, stuck, out_of_memory, Comp, chain, ◌>>=◌, ◌>>◌, give, crash, Heap,
  request, and_then, unwrap,
}
use node_replicated_kernel.Kpi.Io.{modes_from}

-- The vector that a `Buffer` wraps.
abbrev pub Buffer : Type 0
Buffer = List ℕ

pub record File : Type 0 where
  pub mcache : List Buffer
  pub modes : ℕ

-- A file and the allocator.
abbrev pub Store : Type 0
Store = File × Heap

pub try_alloc_buffer : Comp Heap Buffer
try_alloc_buffer = request >> give []

-- `Vec::try_resize(n, 0)`, where it succeeds.
pub resize : Buffer → ℕ → Buffer
resize b n = take n b ++ replicate (n - length b) 0

-- `File::new`: the mode bits that are declared, and no buffer yet.
unfoldable pub new : ℕ → Comp Heap File
new modes = request >> give (record { mcache = []; modes = modes_from modes })

abbrev pub last_len : List Buffer → ℕ
last_len [] = 0
last_len (b ∷ []) = length b
last_len (b ∷ c ∷ m) = last_len (c ∷ m)

-- `for buf in &self.mcache`: the bytes before the first empty buffer.
pub scan_len : List Buffer → ℕ
scan_len [] = 0
scan_len (b ∷ m) = let rest = length b + scan_len m in if length b == 0 then 0 else rest

pub size_of : List Buffer → ℕ
size_of [] = 0
size_of (b ∷ []) = length b
size_of (b ∷ c ∷ m) =
    if last_len (c ∷ m) == 0
    then scan_len (b ∷ c ∷ m)
    else length (c ∷ m) * base_page_size + last_len (c ∷ m)

pub get_size : File → ℕ
get_size f = size_of f.mcache

-- `ceil` of the source.
pub ceil : ℕ → ℕ → ℕ
ceil bytes buffer_size =
    let val = bytes / buffer_size in if ltb (val * buffer_size) bytes then val + 1 else val

abbrev pub offset_to_buffernum : ℕ → ℕ → ℕ
offset_to_buffernum offset buffer_size = offset / buffer_size

-- The last buffer resized, in place.
pub set_last : ℕ → List Buffer → List Buffer
set_last n [] = []
set_last n (b ∷ []) = resize b n ∷ []
set_last n (b ∷ c ∷ m) = b ∷ set_last n (c ∷ m)

-- `last_mut().unwrap().data.try_resize(n, 0)`.
pub resize_last : ℕ → List Buffer → Comp Heap (List Buffer)
resize_last n [] = crash
resize_last n (b ∷ m) = request >> give (set_last n (b ∷ m))

-- The new buffers, each filled with zeros.
pub fill : ℕ → List Buffer → Comp Heap (List Buffer)
fill zero vec = give vec
fill (suc n) vec = do
  buffer ← try_alloc_buffer
  request
  fill n (vec ++ resize buffer base_page_size ∷ [])

-- `if new_len % BASE_PAGE_SIZE != 0`: the last new buffer is cut to the bytes that it holds.
pub trim : ℕ → ℕ → ℕ → List Buffer → Comp Heap (List Buffer)
trim new_len new_buffers size vec =
    if new_len % base_page_size == 0
    then give vec
    else resize_last (sub64 new_len (size + (new_buffers - 1) * base_page_size)) vec

-- An action on the allocator, the file unchanged; the buffers read; the buffers written.
abbrev pub alloc : {A : Type 0} → Comp Heap A → Comp Store A
alloc m (f, h) = let (r, h') = m h in (r, (f, h'))

abbrev pub get_mcache : Comp Store (List Buffer)
get_mcache (f, h) = (ok f.mcache, (f, h))

abbrev pub put_mcache : List Buffer → Comp Store (Unit {0})
put_mcache m (f, h) = (ok tt, (record f { mcache = m }, h))

-- `self.mcache.last_mut().unwrap().data.try_resize(n, 0)`.
pub grow_last : ℕ → Comp Store (Unit {0})
grow_last n = do m ← get_mcache; m' ← alloc (resize_last n m); put_mcache m'

-- The list of new buffers.
pub new_buffers_for : ℕ → ℕ → ℕ → Comp Heap (List Buffer)
new_buffers_for new_len new_buffers size = do
  request
  vec ← fill new_buffers []
  vec' ← trim new_len new_buffers size vec
  request
  give vec'

-- New buffers behind those of the file.
pub append_buffers : ℕ → ℕ → Comp Store (Unit {0})
append_buffers new_len remaining = do
  m ← get_mcache
  vec ← alloc (new_buffers_for new_len (ceil remaining base_page_size) (size_of m))
  put_mcache (m ++ vec)

-- The last buffer is filled up, if there is one, and new buffers come behind it.
pub add_buffers : ℕ → ℕ → Comp Store (Unit {0})
add_buffers new_len remaining = do
  m ← get_mcache
  if length m == 0 then give tt else grow_last base_page_size
  append_buffers new_len remaining

abbrev pub free_in_last : List Buffer → ℕ
free_in_last [] = 0
free_in_last (b ∷ m) = base_page_size - last_len (b ∷ m)

-- `File::increase_file_size`.
pub increase_file_size : ℕ → ℕ → Comp Store (Unit {0})
increase_file_size curr_file_len new_len = do
  m ← get_mcache
  let add_new = sub64 new_len curr_file_len
  let free = free_in_last m
  if new_len == 0
      then give tt
      else (if leb add_new free
          then grow_last (last_len m + add_new)
          else add_buffers new_len (add_new - free))

-- `copied` of the bytes of a buffer that are of use, or as many as remain.
abbrev pub chunk_len : ℕ → ℕ → ℕ
chunk_len useful remaining = if leb useful remaining then useful else remaining

-- The loop of `read_file`: `num` is the buffer, `start` the offset in it, `dst_start` the place in
-- the user's slice.
pub read_loop : List Buffer → ℕ → ℕ → ℕ → ℕ → ℕ → ℕ → List ℕ → Outcome (ℕ × List ℕ)
read_loop m len zero num start copied dst_start dst =
    if ltb copied len then stuck else ok (copied, dst)
read_loop m len (suc fuel) num start copied dst_start dst =
    let again = and_then (unwrap (get_elem? m num)) λ buf.
      let n = chunk_len (sub64 (length buf) start) (len - copied) in
      and_then (unwrap (slice buf start (start + n))) λ src.
        and_then (unwrap (copy_range dst dst_start (dst_start + n) src))
          λ dst'. read_loop m len fuel (num + 1) 0 (copied + n) (dst_start + n) dst' in
    if ltb copied len then again else ok (copied, dst)

-- Each round but the first reads a whole buffer or ends the loop.
pub read_file : File → List ℕ → ℕ → ℕ → Outcome (ℕ × List ℕ)
read_file f user_slice start_offset end_offset =
    let num = offset_to_buffernum start_offset base_page_size in
    let len = sub64 end_offset start_offset in
    read_loop f.mcache len len num (start_offset - num * base_page_size) 0 0 user_slice

-- The loop of `write_file`: as for reading, with the buffer for its target.
pub write_loop : List ℕ → ℕ → ℕ → ℕ → ℕ → ℕ → ℕ → List Buffer → Outcome (List Buffer)
write_loop user_slice len zero num start copied dst_start m = if ltb copied len then stuck else ok m
write_loop user_slice len (suc fuel) num start copied dst_start m =
    let n = chunk_len (sub64 base_page_size start) (len - copied) in
    let again = and_then (unwrap (get_elem? m num)) λ buf.
      and_then (unwrap (slice user_slice dst_start (dst_start + n))) λ src.
        and_then (unwrap (copy_range buf start (start + n) src)) λ buf'.
          write_loop user_slice len fuel (num + 1) 0 (copied + n) (dst_start + n)
            (set m num buf') in
    if ltb copied len then again else ok m

-- Any error of `increase_file_size` is answered by `OutOfMemory`.
abbrev pub as_out_of_memory : {A : Type 0} → Outcome A × Store → Outcome A × Store
as_out_of_memory (ok a, s) = (ok a, s)
as_out_of_memory (err e, s) = (err out_of_memory, s)
as_out_of_memory (panic, s) = (panic, s)
as_out_of_memory (stuck, s) = (stuck, s)

-- The buffers after the loop, and the count that is reported.
abbrev pub finish : ℕ → Outcome (List Buffer) → Comp Store ℕ
finish len (ok m) (f, h) = (ok len, (record f { mcache = m }, h))
finish len (err e) s = (err e, s)
finish len panic s = (panic, s)
finish len stuck s = (stuck, s)

-- The part of `write_file` that makes room.
pub make_room : ℕ → Comp Store (Unit {0})
make_room new_len (f, h) =
    if ltb 0 new_len && ltb (size_of f.mcache) new_len
    then as_out_of_memory (increase_file_size (size_of f.mcache) new_len (f, h))
    else (ok tt, (f, h))

pub write_file : List ℕ → ℕ → ℕ → Comp Store ℕ
write_file user_slice len start_offset = do
  make_room (add64 start_offset len)
  m ← get_mcache
  let num = offset_to_buffernum start_offset base_page_size
  let start = start_offset - num * base_page_size
  finish len (write_loop user_slice len len num start 0 0 m)

unfoldable pub file_truncate : File → File
file_truncate f = record f { mcache = [] }
