-- ===== src/Fs/File/Write.antt =====
-- `File::write_file` writes over a range of the file's bytes, after zeros up to its end.
use node_replicated_kernel.Prelude.{
  ℕ, zero, suc, ◌+◌, ◌-◌, ◌*◌, ◌/◌, ◌≤◌, ◌<◌, ◌≡◌, refl, sym, ap, ◌∙◌, inl, inr, List, ◌++◌, some,
  true, false, Bool-cases, ◌&&◌, length, min, replicate, get_elem?, set, take, drop, base_page_size,
  overwrite, overwrite-nil, length-overwrite, overwrite-parts, take-all, length-append,
  length-replicate, length-span, slice-span, copy_range-span, overwrite-start, ltb, sub64, add64,
  word, arith,
}
use node_replicated_kernel.Prelude.Outcome.{Outcome, ok, err, out_of_memory, Heap, Refusal}
use node_replicated_kernel.Fs.File.{
  Buffer, File, Store, chunk_len, write_loop, write_file, make_room, as_out_of_memory,
}
use node_replicated_kernel.Fs.File.Chunks.{bytes, Chunks, IsValid, get_elem?-Chunks, Chunks-set}
use node_replicated_kernel.Fs.File.Access.{bytes-set, round}
use node_replicated_kernel.Fs.File.Read.{content}
use node_replicated_kernel.Fs.File.Size.{size_of-bytes}
use node_replicated_kernel.Fs.File.Grow.{Grown, grown, refused, increase-Grown, append-zeros}

module _ (user : List ℕ) where
  -- One round: a range of the user's slice goes to a buffer.
  write_loop-round :
      (m : List Buffer) (fuel num start copied dst_start len n : ℕ) (b : Buffer)
      → get_elem? m num ≡ some b
      → ltb copied len ≡ true
      → chunk_len (sub64 base_page_size start) (len - copied) ≡ n
      → start + n ≤ length b
      → dst_start + n ≤ length user
      → write_loop user len (suc fuel) num start copied dst_start m
        ≡ write_loop user len fuel
            (num + 1)
            0
            (copied + n)
            (dst_start + n)
            (set m num (overwrite b start (take n (drop dst_start user))))
  unfolding write_loop
  write_loop-round m fuel num start copied dst_start len n b e more c h k = rw (
    more,
    e,
    c,
    slice-span user dst_start n k,
    copy_range-span b start n (take n (drop dst_start user)) (length-span n dst_start user k) h,
  )

  -- The loop ends with these buffers.
  record Writes (m : List Buffer) (at r dst_start : ℕ) (result : Outcome (List Buffer))
      : Type 0 where
    pub out : List Buffer
    pub returns : result ≡ ok out
    pub shaped : Chunks out
    pub written : bytes out ≡ overwrite (bytes m) at (take r (drop dst_start user))

  write_loop-Writes :
      (m : List Buffer) (fuel num start copied dst_start r len : ℕ)
      → Chunks m
      → length (bytes m) < word
      → copied + r ≡ len
      → r ≤ fuel
      → start < base_page_size
      → (0 < r → num * base_page_size + start + r ≤ length (bytes m))
      → dst_start + r ≤ length user
      → Writes m
          (num * base_page_size + start)
          r
          dst_start
          (write_loop user len fuel num start copied dst_start m)
  unfolding write_loop
  write_loop-Writes m zero num start copied dst_start zero len v fits c f s h d =
      let done : ltb copied len ≡ false = ground arith in
      record { out = m; returns = rw done; shaped = v; written = sym (overwrite-nil (bytes m) _) }
  write_loop-Writes m (suc fuel) num start copied dst_start zero len v fits c f s h d =
      let done : ltb copied len ≡ false = ground arith in
      record { out = m; returns = rw done; shaped = v; written = sym (overwrite-nil (bytes m) _) }
  write_loop-Writes m zero num start copied dst_start (suc r) len v fits c f s h d =
      absurd (omega arith)
  write_loop-Writes m (suc fuel) num start copied dst_start (suc r) len v fits c f s h d =
      let more : ltb copied len ≡ true = ground arith in
      let (b, e, full) = get_elem?-Chunks m num start v s (omega (arith, h)) in
      let here : ℕ = num * base_page_size + start in
      let left : len - copied ≡ suc r = omega arith in
      let (size, now) =
        round base_page_size num start (suc r) (length (bytes m)) (inl refl) s (omega arith)
          (h (omega arith)) fits in
      let n : ℕ = min (base_page_size - start) (suc r) in
      let src : List ℕ = take n (drop dst_start user) in
      let count : length src ≡ n = length-span n dst_start user (omega (arith, now.at_most)) in
      let within : start + n ≤ length b =
        ground (arith, now.within, now.at_most, h (omega arith)) in
      let m' : List Buffer = set m num (overwrite b start src) in
      let stored : bytes m' ≡ overwrite (bytes m) here src =
        bytes-set m num start b src e v (omega (arith, count)) in
      let kept : length (bytes m') ≡ length (bytes m) =
        ap length stored ∙ length-overwrite (bytes m) here src in
      let rest : ℕ = suc r - n in
      let whole : n + rest ≡ suc r = omega (arith, now.at_most) in
      let next : Writes m' ((num + 1) * base_page_size + 0) rest (dst_start + n) _ =
        write_loop-Writes m' fuel (num + 1) 0 (copied + n) (dst_start + n) rest len
          (Chunks-set m num b (overwrite b start src) e (length-overwrite b start src) v)
          (omega (arith, kept)) (omega (arith, now.at_most)) (omega (arith, now.some_bytes))
          (omega arith) (λ more. omega (arith, kept, now.next more, h (omega arith)))
          (omega (arith, now.at_most)) in
      record {
        out = next.out;
        returns =
            write_loop-round m fuel num start copied dst_start len n b e more (rw left size) within
              (omega (arith, now.at_most))
            ∙ next.returns;
        shaped = next.shaped;
        written =
            next.written
            ∙ rw (overwrite-start rest _ _ (bytes m') (drop (dst_start + n) user) now.next, stored)
                (overwrite-parts (bytes m) here dst_start n rest user src refl count
                  ∙ ap (λ k. overwrite (bytes m) here (take k (drop dst_start user))) whole);
      }

-- What a write of `bytes_in` at `at` does to a file: it reports the count, and the file is as long
-- as it was or as the write needs, holds `bytes_in` from `at` on, zeros between its old end and
-- `at`, and its old bytes elsewhere; or the allocator refused a request, and at most the zeros came.
pub data Written (f : File) (h : Heap) (bytes_in : List ℕ) (at : ℕ) (r : Outcome ℕ × Store)
    : Type 0 where
  written :
      (m : List Buffer) (g : Heap)
      → r ≡ (ok (length bytes_in), (record f { mcache = m }, g))
      → Chunks m
      → bytes m
        ≡ overwrite
            (content f ++ replicate (at + length bytes_in - length (content f)) 0)
            at
            bytes_in
      → Written f h bytes_in at r
  no_memory :
      (m : List Buffer) (g : Heap) (k : ℕ)
      → r ≡ (err out_of_memory, (record f { mcache = m }, g))
      → Refusal h
      → Chunks m
      → k ≤ at + length bytes_in - length (content f)
      → bytes m ≡ content f ++ replicate k 0
      → Written f h bytes_in at r

as_out_of_memory-Grown :
    (f : File) (h : Heap) (n : ℕ) (r : Outcome (Unit {0}) × Store)
    → Grown f h n r
    → Grown f h n (as_out_of_memory r)
as_out_of_memory-Grown f h n r (grown m g p c q) = rw p (grown m g refl c q)
as_out_of_memory-Grown f h n r (refused m g k p s c l q) = rw p (refused m g k refl s c l q)

make_room-Grown :
    (f : File) (h : Heap) (total : ℕ)
    → IsValid f
    → total < word
    → Grown f h (total - length (content f)) (make_room total (f, h))
unfolding make_room
make_room-Grown f h total v fits =
    rw (size_of-bytes f.mcache v)
      (elim (Bool-cases (ltb 0 total && ltb (length (bytes f.mcache)) total)) [
        | inl longer ↦ rw longer (
            let more : length (bytes f.mcache) < total = ground arith in
            let e : length (bytes f.mcache) + (total - length (bytes f.mcache)) ≡ total =
              omega arith in
            as_out_of_memory-Grown _ _ _ _ (
              rw e at (
                increase-Grown f.mcache f.modes h (total - length (bytes f.mcache)) v (omega arith)
                  (omega arith))))
        | inr enough ↦ rw enough (
            let none_new : total - length (bytes f.mcache) ≡ 0 = ground arith in
            rw none_new (grown f.mcache h refl v (sym (append-zeros (bytes f.mcache)))))
      ])

-- On a well-formed file, a write whose end does not overflow never panics: it is `Written`.
pub write_file-Written :
    (f : File) (h : Heap) (bytes_in : List ℕ) (at : ℕ)
    → IsValid f
    → length (content f) < word
    → at + length bytes_in < word
    → Written f h bytes_in at (write_file bytes_in (length bytes_in) at (f, h))
unfolding write_file
write_file-Written f h bytes_in at v small fits =
    let len : ℕ = length bytes_in in
    let num : ℕ = at / base_page_size in
    let off : ℕ = at - num * base_page_size in
    let sum : add64 at len ≡ at + len = omega arith in
    let place : num * base_page_size + off ≡ at = omega arith in
    rw sum (elim (make_room-Grown f h (at + len) v fits) [
      | grown m g p c q ↦
          let size : length (bytes m) ≡ length (content f) + (at + len - length (content f)) =
            ap length q
            ∙ length-append (content f) (replicate (at + len - length (content f)) 0)
            ∙ ap (λ k. length (content f) + k)
                (length-replicate {A = ℕ} (at + len - length (content f)) 0) in
          let w =
            write_loop-Writes bytes_in m len num off 0 0 len len c (omega (arith, size))
              (omega arith) (omega arith) (omega arith) (λ _. omega (arith, size)) (omega arith) in
          rw (p, w.returns)
            (written w.out g refl w.shaped (
              w.written
              ∙ rw (place, q) (ap (overwrite _ at) (take-all len bytes_in (omega arith)))))
      | refused m g k p s c l q ↦ rw p (no_memory m g k refl s c l q)
    ])
