-- ===== src/Fs/File/Read.antt =====
-- `File::read_file` copies a range of the file's bytes.
use node_replicated_kernel.Prelude.{
  ℕ, zero, suc, ◌+◌, ◌-◌, ◌*◌, ◌/◌, ◌≤◌, ◌<◌, ◌≡◌, sym, ap, ◌∙◌, List, some, true, false, length,
  get_elem?, take, drop, base_page_size, overwrite, overwrite-nil, length-overwrite, min,
  length-span, slice-span, copy_range-span, span-start, overwrite-parts, ltb, sub64, word, arith,
}
use node_replicated_kernel.Prelude.Outcome.{ok}
use node_replicated_kernel.Fs.File.{Buffer, File, chunk_len, read_loop, read_file}
use node_replicated_kernel.Fs.File.Chunks.{bytes, Chunks, IsValid, get_elem?-Chunks}
use node_replicated_kernel.Fs.File.Access.{take-bytes, round}

module _ (m : List Buffer) (v : Chunks m) (fits : length (bytes m) < word) where
  -- One round: what is copied, and where the next one starts.
  read_loop-round :
      (fuel num start copied dst_start len n : ℕ) (dst : List ℕ) (b : Buffer)
      → get_elem? m num ≡ some b
      → ltb copied len ≡ true
      → chunk_len (sub64 (length b) start) (len - copied) ≡ n
      → start + n ≤ length b
      → dst_start + n ≤ length dst
      → read_loop m len (suc fuel) num start copied dst_start dst
        ≡ read_loop m len fuel
            (num + 1)
            0
            (copied + n)
            (dst_start + n)
            (overwrite dst dst_start (take n (drop start b)))
  unfolding read_loop
  read_loop-round fuel num start copied dst_start len n dst b e more c h k = rw (
    more,
    e,
    c,
    slice-span b start n h,
    copy_range-span dst dst_start n (take n (drop start b)) (length-span n start b h) k,
  )

  read_loop-eq :
      (fuel num start copied dst_start r len : ℕ) (dst : List ℕ)
      → copied + r ≡ len
      → r ≤ fuel
      → start < base_page_size
      → (0 < r → num * base_page_size + start + r ≤ length (bytes m))
      → dst_start + r ≤ length dst
      → read_loop m len fuel num start copied dst_start dst
        ≡ ok (len, overwrite dst dst_start (take r (drop (num * base_page_size + start) (bytes m))))
  unfolding read_loop
  read_loop-eq zero num start copied dst_start zero len dst c f s h d =
      let done : ltb copied len ≡ false = ground arith in
      let e : copied ≡ len = omega arith in rw (done, overwrite-nil dst dst_start, e)
  read_loop-eq (suc fuel) num start copied dst_start zero len dst c f s h d =
      let done : ltb copied len ≡ false = ground arith in
      let e : copied ≡ len = omega arith in rw (done, overwrite-nil dst dst_start, e)
  read_loop-eq zero num start copied dst_start (suc r) len dst c f s h d = absurd (omega arith)
  read_loop-eq (suc fuel) num start copied dst_start (suc r) len dst c f s h d =
      let more : ltb copied len ≡ true = ground arith in
      let (b, e, full) = get_elem?-Chunks m num start v s (omega (arith, h)) in
      let here : ℕ = num * base_page_size + start in
      let left : len - copied ≡ suc r = omega arith in
      let (size, now) =
        round (length b) num start (suc r) (length (bytes m)) full s (omega arith) (h (omega arith))
          fits in
      let n : ℕ = min (length b - start) (suc r) in
      let src : List ℕ = take n (drop start b) in
      let rest : ℕ = suc r - n in
      let whole : n + rest ≡ suc r = omega (arith, now.at_most) in
      read_loop-round fuel num start copied dst_start len n dst b e more (rw left size) now.within
        (omega (arith, now.at_most))
      ∙ read_loop-eq fuel (num + 1) 0 (copied + n) (dst_start + n) rest len
          (overwrite dst dst_start src) (omega (arith, now.at_most)) (omega (arith, now.some_bytes))
          (omega arith) (λ more. omega (arith, now.next more, h (omega arith)))
          (omega (arith, now.at_most, length-overwrite dst dst_start src))
      ∙ ap (λ (x : List ℕ). ok (len, x))
          (rw (span-start rest _ _ (bytes m) now.next) (
            overwrite-parts dst dst_start here n rest (bytes m) src
              (sym (take-bytes m num start n b e v now.within)) (length-span n start b now.within)
            ∙ ap (λ k. overwrite dst dst_start (take k (drop here (bytes m)))) whole))

-- The bytes of a file.
abbrev pub content : File → List ℕ
content f = bytes f.mcache

-- On a well-formed file, a read of a range within the file into a slice with room for it (no shorter
-- than the range) ends without a panic, reports its length, and copies that range of the file to the
-- front of the slice.
pub read_file-eq :
    (f : File) (dst : List ℕ) (start finish : ℕ)
    → IsValid f
    → start ≤ finish
    → finish ≤ length (content f)
    → length (content f) < word
    → finish - start ≤ length dst
    → read_file f dst start finish
      ≡ ok (finish - start, overwrite dst 0 (take (finish - start) (drop start (content f))))
unfolding read_file
read_file-eq f dst start finish v order inside fits room =
    let num : ℕ = start / base_page_size in
    let off : ℕ = start - num * base_page_size in
    let len : sub64 finish start ≡ finish - start = omega arith in
    let place : num * base_page_size + off ≡ start = omega arith in
    rw len (
      rw place at (
        read_loop-eq f.mcache v fits (finish - start) num off 0 0 (finish - start) (finish - start)
          dst (omega arith) (omega arith) (omega arith) (λ _. omega arith) (omega arith)))
