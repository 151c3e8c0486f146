-- ===== src/Fs/Mnode/Access.antt =====
-- Reads and writes of a well-formed node of `kernel/src/fs/mnode.rs`: what the mode bits and the
-- node's type allow, and what is copied.
use node_replicated_kernel.Prelude.{
  String, ℕ, ◌+◌, ◌-◌, ◌<◌, min, ◌≡◌, refl, ap, Bool, true, false, ◌||◌, ltb, leb, ◌==◌,
  if◌then◌else◌, Bool-cases, ◌⊎◌, inl, inr, Option, none, some, List, length, take, drop, overwrite,
  overwrite-nil, word, arith,
}
use node_replicated_kernel.Prelude.Outcome.{
  Outcome, ok, err, permission_error, Heap, Gives, Gives-bind, request-Gives, give-Gives, give,
}
use node_replicated_kernel.Kpi.Io.{FileType, directory, file, is_readable, is_writable}
use node_replicated_kernel.Fs.File
use node_replicated_kernel.Fs.File.{
  File, get_size, read_file, write_file, file_truncate as truncate_file, new as new_file,
}
use node_replicated_kernel.Fs.File.Chunks.{Chunks}
use node_replicated_kernel.Fs.File.Read.{content, read_file-eq}
use node_replicated_kernel.Fs.File.Size.{get_size-bytes}
use node_replicated_kernel.Fs.File.RoundTrip.{length_written, length_padded}
use node_replicated_kernel.Fs.File.Write.{Written, written, no_memory, write_file-Written}
use node_replicated_kernel.Fs.Mnode.{
  MemNode, new, write, read, read_from, get_file_size, file_truncate, on_file,
}

-- The file of a well-formed node, if it is one of type `File`.
pub record FileValid (f : File) : Type 0 where
  pub shaped : Chunks f.mcache
  pub small : length (content f) < word

-- A directory has no file, and a file is well-formed.
abbrev pub Shape : FileType → Option File → Type 0
Shape directory none = Unit
Shape directory (some f) = ⊥
Shape file none = ⊥
Shape file (some f) = FileValid f

abbrev pub NodeValid : MemNode → Type 0
NodeValid n = Shape n.node_type n.contents

either_way : {A : Type 0} (b : Bool) (x : A) → (if b then x else x) ≡ x
either_way true x = refl
either_way false x = refl

read_from-eq :
    (f : File) (dst : List ℕ) (offset : ℕ)
    → FileValid f
    → read_from f dst offset (get_size f) ≡ (
        let n = min (length (content f) - offset) (length dst) in
        ok (n, overwrite dst 0 (take n (drop offset (content f)))))
unfolding read_from
read_from-eq f dst offset v =
    let c = content f in
    let n : ℕ = min (length c - offset) (length dst) in
    rw (get_size-bytes f v.shaped) (elim (Bool-cases (n == 0)) [
      | inl nothing ↦
          let e : n ≡ 0 = ground arith in
          rw (nothing, e)
            (rw (overwrite-nil dst 0) (either_way (ltb (length c) offset) (ok (0, dst))))
      | inr more ↦
          let inside : ltb (length c) offset ≡ false = ground arith in
          let order : (leb (offset + n) offset || ltb (length c) (offset + n)) ≡ false =
            ground arith in
          let len : offset + n - offset ≡ n = omega arith in
          rw (more, inside, order)
            (rw len at (
              read_file-eq f dst offset (offset + n) v.shaped (omega arith) (ground arith) v.small
                (omega arith)))
    ])

-- A read of a node that is a well-formed file never panics and has no `InvalidOffset`: with the read
-- bit it copies the bytes from `offset` on, as many as the file has and the slice holds, and without
-- it is refused.
pub read-eq :
    (node : MemNode) (f : File) (dst : List ℕ) (offset : ℕ)
    → node.node_type ≡ file
    → node.contents ≡ some f
    → FileValid f
    → read node dst offset ≡ (
        let n = min (length (content f) - offset) (length dst) in
        if is_readable f.modes
        then ok (n, overwrite dst 0 (take n (drop offset (content f))))
        else err permission_error)
unfolding read get_file_size
read-eq node f dst offset t c v = rw (t, c) (rw (read_from-eq f dst offset v))

-- A write to a node that is a well-formed file: with the write bit its file is `Written` and nothing
-- else of the node changes, and without it the node and the allocator stay as they are.
pub write-Written :
    (node : MemNode) (f : File) (h : Heap) (bytes_in : List ℕ) (offset : ℕ)
    → node.node_type ≡ file
    → node.contents ≡ some f
    → FileValid f
    → offset + length bytes_in < word
    → (is_writable f.modes ≡ true
        → (r : Outcome ℕ × File.Store) × (write bytes_in offset (node, h) ≡ on_file node r)
          × Written f h bytes_in offset r)
      × (is_writable f.modes ≡ false
          → write bytes_in offset (node, h) ≡ (err permission_error, (node, h)))
unfolding write
write-Written node f h bytes_in offset t c v fits = (
  λ allowed. (
    write_file bytes_in (length bytes_in) offset (f, h),
    rw (t, c, allowed),
    write_file-Written f h bytes_in offset v.shaped v.small fits,
  ),
  λ denied. rw (t, c, denied),
)

Written-FileValid :
    (f : File) (h : Heap) (bytes_in : List ℕ) (offset : ℕ) (r : Outcome ℕ × File.Store)
    → FileValid f
    → offset + length bytes_in < word
    → Written f h bytes_in offset r
    → FileValid r.1.0
Written-FileValid f h bytes_in offset r v fits (written m g p c q) = rw p (record {
  shaped = c;
  small = omega (arith, ap length q, v.small, length_written (content f) bytes_in offset);
})
Written-FileValid f h bytes_in offset r v fits (no_memory m g k p s c l q) = rw p (record {
  shaped = c;
  small = omega (arith, ap length q, v.small, length_padded (content f) k);
})

write-Shape :
    (node : MemNode) (t : FileType) (o : Option File) (h : Heap) (bytes_in : List ℕ) (offset : ℕ)
    → node.node_type ≡ t
    → node.contents ≡ o
    → Shape t o
    → offset + length bytes_in < word
    → NodeValid (write bytes_in offset (node, h)).1.0
unfolding write
write-Shape node directory none h bytes_in offset t c v fits = rw (t, c) tt
write-Shape node file (some f) h bytes_in offset t c v fits =
    elim (Bool-cases (is_writable f.modes)) [
      | inl allowed ↦
          rw (t, c, allowed)
            (Written-FileValid f h bytes_in offset _ v fits
              (write_file-Written f h bytes_in offset v.shaped v.small fits))
      | inr denied ↦ rw (t, c, denied) v
    ]
write-Shape node directory (some f) h bytes_in offset t c v fits = elim v [ ]
write-Shape node file none h bytes_in offset t c v fits = elim v [ ]

-- A write keeps a node well-formed, whether it succeeds, is refused or runs out of memory.
pub write-NodeValid :
    (node : MemNode) (h : Heap) (bytes_in : List ℕ) (offset : ℕ)
    → NodeValid node
    → offset + length bytes_in < word
    → NodeValid (write bytes_in offset (node, h)).1.0
write-NodeValid node h bytes_in offset v fits =
    write-Shape node node.node_type node.contents h bytes_in offset refl refl v fits

truncate-Shape :
    (node : MemNode) (t : FileType) (o : Option File)
    → node.node_type ≡ t
    → node.contents ≡ o
    → Shape t o
    → NodeValid (file_truncate node).1
unfolding file_truncate truncate_file
truncate-Shape node directory none t c v = rw (t, c) tt
truncate-Shape node file (some f) t c v = elim (Bool-cases (is_writable f.modes)) [
  | inl allowed ↦ rw (t, c, allowed) (record { shaped = tt; small = omega arith })
  | inr denied ↦ rw (t, c, denied) v
]
truncate-Shape node directory (some f) t c v = elim v [ ]
truncate-Shape node file none t c v = elim v [ ]

pub file_truncate-NodeValid : (node : MemNode) → NodeValid node → NodeValid (file_truncate node).1
file_truncate-NodeValid node v = truncate-Shape node node.node_type node.contents refl refl v

-- A new node: the allocator grants all, or refuses a request.
pub new-Gives :
    (num modes : ℕ) (name : String) (t : FileType) (h : Heap)
    → (node : MemNode) × Gives h node (new num name modes t h)
      × NodeValid node
      × (node.mnode_num ≡ num)
      × (node.node_type ≡ t)
unfolding new new_file
new-Gives num modes name directory h =
    (_, request-Gives (give _) h (λ g. give-Gives _ g), tt, refl, refl)
new-Gives num modes name file h = (
  _,
  Gives-bind (new_file modes) _ h (request-Gives (give _) h (λ g. give-Gives _ g))
      (λ g. request-Gives (give _) g (λ g'. give-Gives _ g')),
  record { shaped = tt; small = omega arith },
  refl,
  refl,
)

-- The node's number is its own for good.
pub write-mnode_num :
    (node : MemNode) (h : Heap) (bytes_in : List ℕ) (offset : ℕ)
    → (write bytes_in offset (node, h)).1.0.mnode_num ≡ node.mnode_num
unfolding write
write-mnode_num node h bytes_in offset = ground arith

pub truncate-mnode_num : (node : MemNode) → (file_truncate node).1.mnode_num ≡ node.mnode_num
unfolding file_truncate
truncate-mnode_num node = ground arith

-- Cutting a well-formed node succeeds, or its modes refuse it.
pub file_truncate-outcome :
    (node : MemNode) (t : FileType) (c : Option File)
    → node.node_type ≡ t
    → node.contents ≡ c
    → Shape t c
    → ((file_truncate node).0 ≡ ok tt) ⊎ ((file_truncate node).0 ≡ err permission_error)
unfolding file_truncate
file_truncate-outcome node directory c et ec v = rw et (inr refl)
file_truncate-outcome node file none et ec v = elim v [ ]
file_truncate-outcome node file (some f) et ec v = elim (Bool-cases (is_writable f.modes)) [
  | inl w ↦ rw (et, ec, w) (inl refl)
  | inr w ↦ rw (et, ec, w) (inr refl)
]

-- A directory takes no writes.
pub write-directory :
    (node : MemNode) (h : Heap) (bytes_in : List ℕ) (offset : ℕ)
    → node.node_type ≡ directory
    → write bytes_in offset (node, h) ≡ (err permission_error, (node, h))
unfolding write
write-directory node h bytes_in offset t = rw t refl

pub get_file_size-content :
    (node : MemNode) (f : File)
    → node.contents ≡ some f
    → FileValid f
    → get_file_size node ≡ ok (length (content f))
unfolding get_file_size
get_file_size-content node f c v = rw (c, get_size-bytes f v.shaped) refl

-- A directory gives no bytes.
pub read-directory :
    (node : MemNode) (dst : List ℕ) (offset : ℕ)
    → node.node_type ≡ directory
    → read node dst offset ≡ err permission_error
unfolding read
read-directory node dst offset t = rw t refl
