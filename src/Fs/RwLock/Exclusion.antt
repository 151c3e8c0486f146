-- ===== src/Fs/RwLock/Exclusion.antt =====
-- Mutual exclusion of `kernel/src/fs/rwlock.rs`.
use node_replicated_kernel.Prelude.{
  update, update_self, update_ne, ℕ, suc, ◌+◌, ◌-◌, ◌<◌, ◌≡◌, ◌≢◌, inl, inr, Bool-cases, refl, sym,
  ap, ◌∙◌, Bool, true, false, ℕ_discrete, arith,
}
use mathlib.Core.Bool.{false≢true}
use node_replicated_kernel.Fs.RwLock.{
  Pc, idle, scanning, writing, announcing, checking, withdrawing, reading, RwLock, Step,
  write_acquire, scan_free, scan_again, write_enter, write_unlock, read_wait, read_announce,
  read_enter, read_refused, read_withdraw, read_unlock, Reached, start, step,
}

-- The count of a thread's reader lock.
abbrev pub readers : Pc → ℕ
readers idle = 0
readers (scanning i) = 0
readers writing = 0
readers announcing = 0
readers checking = 1
readers withdrawing = 1
readers reading = 1

-- The thread has the lock word.
abbrev pub is_owner : Pc → Bool
is_owner (scanning i) = true
is_owner writing = true
is_owner _ = false

abbrev pub is_reading : Pc → Bool
is_reading reading = true
is_reading _ = false

-- How many counters the thread has found free.
abbrev pub seen : ℕ → Pc → ℕ
seen n (scanning i) = i
seen n writing = n
seen n _ = 0

-- Each counter counts its thread, the lock word is set if a thread owns it, one thread at most does,
-- and no thread whose counter the owner has found free has a read guard.
pub record Inv (n : ℕ) (l : RwLock) : Type 0 where
  pub counted : (u : ℕ) → l.rlock u ≡ readers (l.pc u)
  pub owned : (u : ℕ) → is_owner (l.pc u) ≡ true → l.wlock ≡ true
  pub single : (u v : ℕ) → is_owner (l.pc u) ≡ true → is_owner (l.pc v) ≡ true → u ≡ v
  pub passed : (u v : ℕ) → v < seen n (l.pc u) → is_reading (l.pc v) ≡ false

seen-reading : (n : ℕ) (p : Pc) (v : ℕ) → v < seen n p → is_reading p ≡ false
seen-reading n (scanning i) v lt = refl
seen-reading n writing v lt = refl
seen-reading n idle v lt = refl
seen-reading n announcing v lt = refl
seen-reading n checking v lt = refl
seen-reading n withdrawing v lt = refl
seen-reading n reading v lt = absurd (omega arith)

-- What is left of the invariant for the other threads when a thread moves to `p`.
record Fits (n : ℕ) (l : RwLock) (t : ℕ) (p : Pc) (w : Bool) : Type 0 where
  pub owned_here : is_owner p ≡ true → w ≡ true
  pub owned_else : (u : ℕ) → u ≢ t → is_owner (l.pc u) ≡ true → w ≡ true
  pub single : is_owner p ≡ true → (u : ℕ) → u ≢ t → is_owner (l.pc u) ≡ false
  pub before : (v : ℕ) → v ≢ t → v < seen n p → is_reading (l.pc v) ≡ false
  pub behind : is_reading p ≡ true → (u : ℕ) → u ≢ t → t < seen n (l.pc u) → ⊥

module _ (n : ℕ) (l : RwLock) (i : Inv n l) (t : ℕ) where
  move-Inv :
      (p : Pc) (w : Bool) (r : ℕ → ℕ)
      → Fits n l t p w
      → r t ≡ readers p
      → ((u : ℕ) → u ≢ t → r u ≡ l.rlock u)
      → Inv n (record { wlock = w; rlock = r; pc = update l.pc t p })
  move-Inv p w r f here else_same = record {
    counted = λ u. elim (ℕ_discrete u t) [
      | yes e ↦ rw (e, update_self l.pc t p) here
      | no ne ↦ rw (update_ne l.pc t u p ne) (else_same u ne ∙ i.counted u)
    ];
    owned = λ u o. elim (ℕ_discrete u t) [
      | yes e ↦ f.owned_here (rw (e, update_self l.pc t p) at o)
      | no ne ↦ f.owned_else u ne (rw (update_ne l.pc t u p ne) at o)
    ];
    single = λ u v o q. elim (ℕ_discrete u t) [
      | yes e ↦ elim (ℕ_discrete v t) [
        | yes d ↦ e ∙ sym d
        | no nd ↦ absurd (
            false≢true (
              sym (f.single (rw (e, update_self l.pc t p) at o) v nd)
              ∙ (rw (update_ne l.pc t v p nd) at q)))
      ]
      | no ne ↦ elim (ℕ_discrete v t) [
        | yes d ↦ absurd (
            false≢true (
              sym (f.single (rw (d, update_self l.pc t p) at q) u ne)
              ∙ (rw (update_ne l.pc t u p ne) at o)))
        | no nd ↦
            i.single u v (rw (update_ne l.pc t u p ne) at o) (rw (update_ne l.pc t v p nd) at q)
      ]
    ];
    passed = λ u v lt. elim (ℕ_discrete u t) [
      | yes e ↦ elim (ℕ_discrete v t) [
        | yes d ↦
            rw (d, update_self l.pc t p) (seen-reading n p v (rw (e, update_self l.pc t p) at lt))
        | no nd ↦ rw (update_ne l.pc t v p nd) (f.before v nd (rw (e, update_self l.pc t p) at lt))
      ]
      | no ne ↦
          let lt' : v < seen n (l.pc u) = rw (update_ne l.pc t u p ne) at lt in
          elim (ℕ_discrete v t) [
            | no nd ↦ rw (update_ne l.pc t v p nd) (i.passed u v lt')
            | yes d ↦
                rw (d, update_self l.pc t p)
                  (elim (Bool-cases (is_reading p)) [
                    | inr no_read ↦ no_read
                    | inl read ↦ absurd (f.behind read u ne (rw d at lt'))
                  ])
          ]
    ];
  }

  seen-owner : (p : Pc) (v : ℕ) → v < seen n p → is_owner p ≡ true
  seen-owner (scanning i) v lt = refl
  seen-owner writing v lt = refl
  seen-owner idle v lt = absurd (omega arith)
  seen-owner announcing v lt = absurd (omega arith)
  seen-owner checking v lt = absurd (omega arith)
  seen-owner withdrawing v lt = absurd (omega arith)
  seen-owner reading v lt = absurd (omega arith)

  -- A thread that neither has nor gets the lock word or a guard.
  outside-Fits :
      (p : Pc) → is_owner p ≡ false → is_reading p ≡ false → seen n p ≡ 0 → Fits n l t p l.wlock
  outside-Fits p o r z = record {
    owned_here = λ q. absurd (false≢true (sym o ∙ q));
    owned_else = λ u ne q. i.owned u q;
    single = λ q u ne. absurd (false≢true (sym o ∙ q));
    before = λ v ne lt. absurd (omega arith);
    behind = λ q u ne lt. false≢true (sym r ∙ q);
  }

  -- The owner looks at a counter, or has its guard.
  owner-Fits :
      (p : Pc)
      → is_owner (l.pc t) ≡ true
      → is_owner p ≡ true
      → is_reading p ≡ false
      → ((v : ℕ) → v ≢ t → v < seen n p → is_reading (l.pc v) ≡ false)
      → Fits n l t p l.wlock
  owner-Fits p was o r b = record {
    owned_here = λ q. i.owned t was;
    owned_else = λ u ne q. i.owned u q;
    single = λ q u ne. elim (Bool-cases (is_owner (l.pc u))) [
      | inr no_owner ↦ no_owner
      | inl own ↦ absurd (ne (i.single u t own was))
    ];
    before = b;
    behind = λ q u ne lt. false≢true (sym r ∙ q);
  }

  -- No thread owns the lock word while it is clear.
  free-owner : l.wlock ≡ false → (u : ℕ) → is_owner (l.pc u) ≡ false
  free-owner w u = elim (Bool-cases (is_owner (l.pc u))) [
    | inr no_owner ↦ no_owner
    | inl own ↦ absurd (false≢true (sym w ∙ i.owned u own))
  ]

  -- A thread whose counter is zero has no guard.
  readers-reading : (p : Pc) → readers p ≡ 0 → is_reading p ≡ false
  readers-reading idle z = refl
  readers-reading (scanning k) z = refl
  readers-reading writing z = refl
  readers-reading announcing z = refl
  readers-reading checking z = refl
  readers-reading withdrawing z = refl
  readers-reading reading z = absurd (omega arith)

  -- The count of the thread, where it stands.
  count_at : (p : Pc) → l.pc t ≡ p → l.rlock t ≡ readers p
  count_at p e = i.counted t ∙ ap readers e

  owner_at : (p : Pc) → l.pc t ≡ p → is_owner p ≡ true → is_owner (l.pc t) ≡ true
  owner_at p e o = ap is_owner e ∙ o

  -- A step that leaves the counters.
  still-Inv :
      (p : Pc) (w : Bool)
      → Fits n l t p w
      → l.rlock t ≡ readers p
      → Inv n (record l { wlock = w; pc = update l.pc t p })
  still-Inv p w f c = move-Inv p w l.rlock f c (λ u ne. refl)

  -- A step that sets the thread's counter.
  counter-Inv :
      (p : Pc) (k : ℕ)
      → Fits n l t p l.wlock
      → k ≡ readers p
      → Inv n (record l { rlock = update l.rlock t k; pc = update l.pc t p })
  counter-Inv p k f c =
      move-Inv p l.wlock (update l.rlock t k) f (update_self l.rlock t k ∙ c)
        (λ u ne. update_ne l.rlock t u k ne)

step-Inv : (n : ℕ) (l k : RwLock) → Inv n l → Step n l k → Inv n k
step-Inv n l _ i (write_acquire t lt e w) =
    still-Inv n l i t (scanning 0) true
      (record {
        owned_here = λ q. refl;
        owned_else = λ u ne q. refl;
        single = λ q u ne. free-owner n l i t w u;
        before = λ v ne less. absurd (omega arith);
        behind = λ q u ne less. false≢true q;
      })
      (count_at n l i t idle e)
step-Inv n l _ i (scan_free t k lt less e z) =
    still-Inv n l i t (scanning (suc k)) l.wlock
      (owner-Fits n l i t (scanning (suc k)) (owner_at n l i t (scanning k) e refl) refl refl
        (λ v ne below. elim (ℕ_discrete v k) [
          | yes same ↦ readers-reading n l i t (l.pc v) (sym (i.counted v) ∙ ap l.rlock same ∙ z)
          | no other ↦ i.passed t v (rw e (omega arith))
        ]))
      (count_at n l i t (scanning k) e)
step-Inv n l _ i (scan_again t k lt less e z) =
    still-Inv n l i t (scanning 0) l.wlock
      (owner-Fits n l i t (scanning 0) (owner_at n l i t (scanning k) e refl) refl refl
        (λ v ne below. absurd (omega arith)))
      (count_at n l i t (scanning k) e)
step-Inv n l _ i (write_enter t lt e) =
    still-Inv n l i t writing l.wlock
      (owner-Fits n l i t writing (owner_at n l i t (scanning n) e refl) refl refl
        (λ v ne below. i.passed t v (rw e below)))
      (count_at n l i t (scanning n) e)
step-Inv n l _ i (write_unlock t lt e) =
    still-Inv n l i t idle false
      (record {
        owned_here = λ q. q;
        owned_else = λ u ne q. absurd (ne (i.single u t q (owner_at n l i t writing e refl)));
        single = λ q u ne. absurd (false≢true q);
        before = λ v ne less. absurd (omega arith);
        behind = λ q u ne less. false≢true q;
      })
      (count_at n l i t writing e)
step-Inv n l _ i (read_wait t lt e w) =
    still-Inv n l i t announcing l.wlock (outside-Fits n l i t announcing refl refl refl)
      (count_at n l i t idle e)
step-Inv n l _ i (read_announce t lt e) =
    counter-Inv n l i t checking (l.rlock t + 1) (outside-Fits n l i t checking refl refl refl)
      (omega (arith, count_at n l i t announcing e))
step-Inv n l _ i (read_enter t lt e w) =
    still-Inv n l i t reading l.wlock
      (record {
        owned_here = λ q. absurd (false≢true q);
        owned_else = λ u ne q. i.owned u q;
        single = λ q u ne. absurd (false≢true q);
        before = λ v ne less. absurd (omega arith);
        behind = λ q u ne less.
            false≢true (sym (free-owner n l i t w u) ∙ seen-owner n l i t (l.pc u) t less);
      })
      (count_at n l i t checking e)
step-Inv n l _ i (read_refused t lt e w) =
    still-Inv n l i t withdrawing l.wlock (outside-Fits n l i t withdrawing refl refl refl)
      (count_at n l i t checking e)
step-Inv n l _ i (read_withdraw t lt e) =
    counter-Inv n l i t idle (l.rlock t - 1) (outside-Fits n l i t idle refl refl refl)
      (omega (arith, count_at n l i t withdrawing e))
step-Inv n l _ i (read_unlock t lt e) =
    counter-Inv n l i t idle (l.rlock t - 1) (outside-Fits n l i t idle refl refl refl)
      (omega (arith, count_at n l i t reading e))

Inv-Reached : (n : ℕ) (l : RwLock) → Reached n l → Inv n l
Inv-Reached n _ start = record {
  counted = λ u. refl;
  owned = λ u o. absurd (false≢true o);
  single = λ u v o q. absurd (false≢true o);
  passed = λ u v lt. refl;
}
Inv-Reached n k (step {l} r s) = step-Inv n l k (Inv-Reached n l r) s

-- Whatever the order of the threads' steps, while a thread has a write guard no other thread has one,
-- and no thread has a read guard.
pub Reached-exclusive :
    (n : ℕ) (l : RwLock) (t : ℕ)
    → Reached n l
    → l.pc t ≡ writing
    → ((u : ℕ) → l.pc u ≡ writing → u ≡ t) × ((u : ℕ) → u < n → l.pc u ≢ reading)
Reached-exclusive n l t r e =
    let i = Inv-Reached n l r in
    (
      λ u w. i.single u t (ap is_owner w) (ap is_owner e),
      λ u lt d. false≢true (sym (i.passed t u (rw e lt)) ∙ ap is_reading d),
    )

-- Whatever the order of the threads' steps, a thread that gives its read guard back finds its counter
-- at one, and a thread that gives its write guard back finds the lock word set: neither unlock panics
-- for a lock that is not held.
pub Reached-held :
    (n : ℕ) (l : RwLock) (t : ℕ)
    → Reached n l
    → (l.pc t ≡ reading → l.rlock t ≡ 1) × (l.pc t ≡ writing → l.wlock ≡ true)
Reached-held n l t r =
    let i = Inv-Reached n l r in (λ e. i.counted t ∙ ap readers e, λ e. i.owned t (ap is_owner e))
