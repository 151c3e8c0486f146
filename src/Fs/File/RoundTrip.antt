-- ===== src/Fs/File/RoundTrip.antt =====
-- A write to a file of `kernel/src/fs/file.rs`, and a read of the range that it wrote.
use node_replicated_kernel.Prelude.{
  ℕ, ◌+◌, ◌-◌, ◌≤◌, ◌<◌, ◌≡◌, sym, ap, ◌∙◌, ◌++◌, List, length, replicate, take, drop, overwrite,
  length-overwrite, take-overwrite, length-append, length-replicate, word, arith,
}
use node_replicated_kernel.Prelude.Outcome.{ok, Heap}
use node_replicated_kernel.Fs.File.{File, write_file, read_file}
use node_replicated_kernel.Fs.File.Chunks.{bytes, IsValid}
use node_replicated_kernel.Fs.File.Read.{content, read_file-eq}
use node_replicated_kernel.Fs.File.Write.{written, no_memory, write_file-Written}

pub length_padded : (c : List ℕ) (n : ℕ) → length (c ++ replicate n 0) ≡ length c + n
length_padded c n = omega (arith, length-append c (replicate n 0), length-replicate {A = ℕ} n 0)

pub length_written :
    (c data_in : List ℕ) (at : ℕ)
    → length (overwrite (c ++ replicate (at + length data_in - length c) 0) at data_in)
      ≡ length c + (at + length data_in - length c)
length_written c data_in at =
    let n : ℕ = at + length data_in - length c in
    omega (arith, length-overwrite (c ++ replicate n 0) at data_in, length_padded c n)

-- On a well-formed file shorter than a word, if a write of `data_in` at `at` that ends within a word
-- reports `n` bytes, then a read of `n` bytes at `at` from the file that it leaves, into a slice no
-- shorter than `data_in`, gives `data_in` at the front of the slice.
pub read-write :
    (f f' : File) (h h' : Heap) (data_in dst : List ℕ) (at n : ℕ)
    → IsValid f
    → length (content f) < word
    → at + length data_in < word
    → length data_in ≤ length dst
    → write_file data_in (length data_in) at (f, h) ≡ (ok n, (f', h'))
    → read_file f' dst at (at + n) ≡ ok (n, overwrite dst 0 data_in)
read-write f f' h h' data_in dst at n v small fits fit e =
    elim (write_file-Written f h data_in at v small fits) [
      | written m g p c q ↦
          let same : length data_in ≡ n = ground arith in
          let file : f' ≡ record f { mcache = m } = ground arith in
          let long = length_written (content f) data_in at in
          let size = ap length q in
          let back : take (length data_in) (drop at (bytes m)) ≡ data_in = rw q (
            take-overwrite _ at data_in (
              omega
                (arith, length_padded (content f) (at + length data_in - length (content f))))) in
          let len : at + length data_in - at ≡ length data_in = omega arith in
          rw (← same, file)
            (read_file-eq (record f { mcache = m }) dst at (at + length data_in) c (omega arith)
                (omega (arith, size, long)) (omega (arith, size, long)) (omega arith)
              ∙ rw (len, back))
      | no_memory m g k p s c l q ↦ cc (sym e ∙ p)
    ]
