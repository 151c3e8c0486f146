-- ===== src/Fs/RwLock/Tests.antt =====
-- The theorems on `kernel/src/fs/rwlock.rs` with two threads, the first of which writes.
use node_replicated_kernel.Prelude.{update, ℕ, ◌<◌, ◌≡◌, ◌≢◌, refl, true, arith}
use node_replicated_kernel.Fs.RwLock.{
  scanning, writing, reading, RwLock, new, at_pc, write_acquire, scan_free, write_enter, Reached,
  start, step,
}
use node_replicated_kernel.Fs.RwLock.Exclusion.{Reached-exclusive}

abbrev acquired : RwLock
acquired = record new { wlock = true; pc = update new.pc 0 (scanning 0) }

abbrev one_seen : RwLock
one_seen = at_pc acquired 0 (scanning 1)

abbrev two_seen : RwLock
two_seen = at_pc one_seen 0 (scanning 2)

abbrev entered : RwLock
entered = at_pc two_seen 0 writing

entered-Reached : Reached 2 entered
entered-Reached =
    step
      (step
        (step (step start (write_acquire 0 (omega arith) refl refl))
          (scan_free 0 0 (omega arith) (omega arith) refl refl))
        (scan_free 0 1 (omega arith) (omega arith) refl refl))
      (write_enter 0 (omega arith) refl)

Reached-exclusive_example :
    ((u : ℕ) → entered.pc u ≡ writing → u ≡ 0) × ((u : ℕ) → u < 2 → entered.pc u ≢ reading)
Reached-exclusive_example = Reached-exclusive 2 entered 0 entered-Reached refl
