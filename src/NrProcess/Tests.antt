-- ===== src/NrProcess/Tests.antt =====
-- The theorem on `kernel/src/nrproc.rs` at a process that does nothing but hand out its cores.
use node_replicated_kernel.Prelude.{
  ℕ, zero, suc, ◌+◌, ◌*◌, ◌/◌, ◌%◌, ◌^◌, ◌<◌, ◌≤◌, ◌≡◌, refl, Bool, true, false, ◌||◌, ◌==◌,
  if◌then◌else◌, ltb, List, [], ◌∷◌, arith,
}
use node_replicated_kernel.Prelude.Outcome.{Outcome, ok, panic}
use node_replicated_kernel.Memory.Frame.{Frame}
use node_replicated_kernel.Memory.Action.{no_access}
use node_replicated_kernel.Memory.Cores.{
  BitField, TlbFlushHandle, no_cores, bit_of, flush_handle, has_core,
}
use node_replicated_kernel.NrProcess.{
  Process, Op, assign_executor, mem_unmap, new, dispatch_mut, run, unmapped,
}
use node_replicated_kernel.NrProcess.Calls.{map_frames}
use node_replicated_kernel.NrProcess.Answers.{
  Value, Fits, AllMapped, local, local_read, dispatch_mut-Fits, map_frames-AllMapped,
}
use node_replicated_kernel.NrProcess.Shootdown.{unmap-cores, got_by}

-- The bit `i` of `x` is set to `v`.
abbrev put : ℕ → Bool → ℕ → ℕ
put zero v x = x / 2 * 2 + (if v then 1 else 0)
put (suc i) v x = put i v (x / 2) * 2 + x % 2

bit_of-put :
    (i : ℕ) (v : Bool) (x j : ℕ) → bit_of (put i v x) j ≡ (if j == i then v else bit_of x j)
bit_of-put zero true x zero = ground arith
bit_of-put zero false x zero = ground arith
bit_of-put zero true x (suc j) =
    let half : put zero true x / 2 ≡ x / 2 = omega arith in
    let other : (suc j == 0) ≡ false = ground arith in rw (half, other) refl
bit_of-put zero false x (suc j) =
    let half : put zero false x / 2 ≡ x / 2 = omega arith in
    let other : (suc j == 0) ≡ false = ground arith in rw (half, other) refl
bit_of-put (suc i) v x zero = ground arith
bit_of-put (suc i) v x (suc j) =
    let half : put (suc i) v x / 2 ≡ put i v (x / 2) = omega arith in
    let same : (suc j == suc i) ≡ (j == i) = ground arith in
    rw (half, same) (bit_of-put i v (x / 2) j)

put-bound : (n i : ℕ) (v : Bool) (x : ℕ) → x < 2 ^ n → i < n → put i v x < 2 ^ n
put-bound zero i v x h k = absurd (omega arith)
put-bound (suc n) zero true x h k = omega arith
put-bound (suc n) zero false x h k = omega arith
put-bound (suc n) (suc i) v x h k =
    let less = put-bound n i v (x / 2) (omega arith) (omega arith) in omega arith

abbrev put_below : ℕ → ℕ → Bool → Outcome ℕ
put_below x i v = if ltb i 128 then ok (put i v x) else panic

put_below-below : (x i : ℕ) (v : Bool) → i < 128 → put_below x i v ≡ ok (put i v x)
put_below-below x i v h = ground arith

put_below-beyond : (x i : ℕ) (v : Bool) → 128 ≤ i → put_below x i v ≡ panic
put_below-beyond x i v h = ground arith

abbrev bits : BitField
bits = record {
  set_bit = put_below;
  set_bit-ok =
      λ x i v h k. (put i v x, put_below-below x i v k, put-bound 128 i v x h k, bit_of-put i v x);
  set_bit-panic = put_below-beyond;
}

-- Its executors are the regions that they are for.
abbrev idle : Process (Unit {0}) (Unit {0}) ℕ (Unit {0}) (Unit {0})
idle = record {
  load = λ pid m fs q. (ok tt, q);
  allocate_executors = λ f q. (ok 1, q);
  get_executor = λ region q. (ok region, q);
  id = λ e. e;
  vspace = λ q. q;
  set_vspace = λ a q. a;
  pinfo = λ q. q;
  add_frame = λ f q. (ok 0, q);
  get_frame = λ fid q. (ok (record { base = 0; size = 4096; affinity = 0 }), q);
  space = record {
    map_frame = λ base f a q. (ok tt, q);
    unmap = λ v q. (ok (flush_handle v (record { base = 0; size = 4096; affinity = 0 })), q);
    resolve = λ v q. ok (0, no_access);
  };
}

abbrev refilled : ℕ → ℕ → Outcome (Unit {0})
refilled bp lp = ok tt

abbrev two_cores : List (Op (Unit {0}))
two_cores = assign_executor 2 0 ∷ assign_executor 200 1 ∷ []

unmap-cores_example :
    (k : TlbFlushHandle) × ((dispatch_mut bits idle refilled
        (mem_unmap 8192)
        (run bits idle refilled two_cores (new tt []))).0
      ≡ ok (unmapped k))
    × (k.vaddr ≡ 8192)
    × (k.frame ≡ record { base = 0; size = 4096; affinity = 0 })
    × ((c : ℕ)
        → c < 256
        → has_core k.core_map c
          ≡ ((false || got_by bits idle refilled two_cores (new tt []) c) || has_core no_cores c))
unmap-cores_example =
    unmap-cores bits idle refilled two_cores (new tt []) 8192 (omega arith, omega arith) tt
      (flush_handle 8192 (record { base = 0; size = 4096; affinity = 0 })) refl
      (omega arith, omega arith)

dispatch_mut-Fits_example :
    Value
      (Fits {E = ℕ} {I = Unit {0}} {M = Unit {0}} (mem_unmap 8192))
      (dispatch_mut bits idle refilled
        (mem_unmap 8192)
        (run bits idle refilled two_cores (new tt []))).0
dispatch_mut-Fits_example =
    dispatch_mut-Fits bits idle refilled (mem_unmap 8192)
      (run bits idle refilled two_cores (new tt []))

abbrev two_frames : List Frame
two_frames =
    record { base = 16384; size = 4096; affinity = 0 }
    ∷ record { base = 65536; size = 8192; affinity = 0 }
    ∷ []

map_frames-AllMapped_example :
    AllMapped bits idle refilled 1048576 1048576 12288 two_frames no_access (new tt []) (
      map_frames
        (local bits idle refilled)
        (local_read bits idle refilled)
        3
        1048576
        two_frames
        no_access
        (new tt []))
map_frames-AllMapped_example =
    map_frames-AllMapped bits idle refilled 3 1048576 two_frames no_access (new tt []) (omega arith)
