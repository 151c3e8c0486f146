-- ===== src/Fs/RwLock.antt =====
-- `kernel/src/fs/rwlock.rs`: the lock word of the writers, a counter for each reader thread, and the
-- steps of the threads, one for each atomic instruction. Memory is sequentially consistent, and a
-- thread has one guard at a time.
pub mod Exclusion
mod Tests
use node_replicated_kernel.Prelude.{
  update, ℕ, suc, ◌+◌, ◌-◌, ◌<◌, ◌≡◌, ◌≢◌, Bool, true, false, ◌==◌, if◌then◌else◌,
}

-- Where a thread stands: outside; in `write` with the lock word taken, about to look at the counter
-- `i`; with a write guard; in `read`, about to announce itself, to look at the lock word, or to
-- withdraw; with a read guard.
pub data Pc : Type 0 where
  idle : Pc
  scanning : ℕ → Pc
  writing : Pc
  announcing : Pc
  checking : Pc
  withdrawing : Pc
  reading : Pc

pub record RwLock : Type 0 where
  pub wlock : Bool
  pub rlock : ℕ → ℕ
  pub pc : ℕ → Pc

-- `RwLock::new`, and no thread in it.
abbrev pub new : RwLock
new = record { wlock = false; rlock = λ _. 0; pc = λ _. idle }

abbrev pub at_pc : RwLock → ℕ → Pc → RwLock
at_pc l t p = record l { pc = update l.pc t p }

-- The steps of `n` threads. A failed exchange and a spin leave the state as it is.
pub data Step (n : ℕ) (l : RwLock) : RwLock → Type 0 where
  write_acquire :
      (t : ℕ)
      → t < n
      → l.pc t ≡ idle
      → l.wlock ≡ false
      → Step n l (record l { wlock = true; pc = update l.pc t (scanning 0) })
  scan_free :
      (t i : ℕ)
      → t < n
      → i < n
      → l.pc t ≡ scanning i
      → l.rlock i ≡ 0
      → Step n l (at_pc l t (scanning (suc i)))
  scan_again :
      (t i : ℕ)
      → t < n
      → i < n
      → l.pc t ≡ scanning i
      → l.rlock i ≢ 0
      → Step n l (at_pc l t (scanning 0))
  write_enter : (t : ℕ) → t < n → l.pc t ≡ scanning n → Step n l (at_pc l t writing)
  write_unlock :
      (t : ℕ)
      → t < n
      → l.pc t ≡ writing
      → Step n l (record l { wlock = false; pc = update l.pc t idle })
  read_wait : (t : ℕ) → t < n → l.pc t ≡ idle → l.wlock ≡ false → Step n l (at_pc l t announcing)
  read_announce :
      (t : ℕ)
      → t < n
      → l.pc t ≡ announcing
      → Step n l
          (record l { rlock = update l.rlock t (l.rlock t + 1); pc = update l.pc t checking })
  read_enter : (t : ℕ) → t < n → l.pc t ≡ checking → l.wlock ≡ false → Step n l (at_pc l t reading)
  read_refused :
      (t : ℕ) → t < n → l.pc t ≡ checking → l.wlock ≡ true → Step n l (at_pc l t withdrawing)
  read_withdraw :
      (t : ℕ)
      → t < n
      → l.pc t ≡ withdrawing
      → Step n l (record l { rlock = update l.rlock t (l.rlock t - 1); pc = update l.pc t idle })
  read_unlock :
      (t : ℕ)
      → t < n
      → l.pc t ≡ reading
      → Step n l (record l { rlock = update l.rlock t (l.rlock t - 1); pc = update l.pc t idle })

pub data Reached (n : ℕ) : RwLock → Type 0 where
  start : Reached n new
  step : {l k : RwLock} → Reached n l → Step n l k → Reached n k
