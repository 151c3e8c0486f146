-- ===== src/Mpmc/Fifo.antt =====
-- The queue of `kernel/src/mpmc.rs` is a bounded queue, first in, first out: what the steps do to it
-- and what a pop returns.
use node_replicated_kernel.Prelude.{
  update, update_self, subst, ℕ, zero, suc, ◌+◌, ◌^◌, ◌≤◌, ◌<◌, ◌≡◌, refl, sym, ap, ◌∙◌, Option,
  none, some, List, [], ◌∷◌, ◌++◌, length, drop, length-drop, get_elem?, get_elem?-some, word,
  add64, arith,
}
use node_replicated_kernel.Mpmc.{
  Pc, push_seen, push_won, pop_seen, pop_won, pop_taken, System, Step, push, push_load,
  push_exchange, push_lose, push_full, push_reload, push_store, push_publish, pop, pop_load,
  pop_exchange, pop_lose, pop_empty, pop_reload, pop_take, pop_release, Reached, diff, zero_diff,
  with_mem,
}
use node_replicated_kernel.Mpmc.Inv.{Active, claim}
use node_replicated_kernel.Mpmc.Steps.{Good, Reached-Good, push_ready, pop_ready, pow2-big}
use node_replicated_kernel.Mpmc.Slots.{push-room, pop-filled}

module _ {T : Type 0} where
  -- The values that are pushed and not popped, in their order.
  abbrev pub contents : System T → List T
  contents s = drop s.mem.dequeue_pos s.log

  -- The values that the threads that have claimed a position for a pop will return.
  abbrev pub promised : System T → Pc T → Option T
  promised s (pop_won p) = get_elem? s.log p
  promised s (pop_taken p v) = get_elem? s.log p
  promised s _ = none

  -- What a step does to a queue of `capacity` places: nothing; or a thread with the value `v` adds it
  -- at the end, where there is a place; or it takes the first, to return it.
  pub data Effect (capacity : ℕ) (s u : System T) : Type 0 where
    same : contents u ≡ contents s → Effect capacity s u
    added :
        (t : ℕ) (v : T) (pos seq : ℕ)
        → s.pc t ≡ push_seen v pos seq
        → length (contents s) < capacity
        → contents u ≡ contents s ++ (v ∷ [])
        → Effect capacity s u
    taken :
        (t : ℕ) (v : T)
        → contents s ≡ v ∷ contents u
        → promised u (u.pc t) ≡ some v
        → Effect capacity s u

drop-append :
    {T : Type 0} (n : ℕ) (xs ys : List T) → n ≤ length xs → drop n (xs ++ ys) ≡ drop n xs ++ ys
drop-append zero xs ys h = refl
drop-append (suc n) [] ys h = absurd (omega arith)
drop-append (suc n) (x ∷ xs) ys h = drop-append n xs ys (omega arith)

drop-head :
    {T : Type 0} (n : ℕ) (xs : List T) (v : T)
    → get_elem? xs n ≡ some v
    → drop n xs ≡ v ∷ drop (n + 1) xs
drop-head n [] v e = cc
drop-head zero (x ∷ xs) v e = let same : x ≡ v = cc in rw same
drop-head (suc n) (x ∷ xs) v e =
    let e' : suc n + 1 ≡ suc (n + 1) = omega arith in
    drop-head n xs v e ∙ ap (λ i. v ∷ drop i (x ∷ xs)) (sym e')

module _ {T : Type 0} (k limit : ℕ) (big : 0 < k) (fits : limit + 2 ^ k + 2 ^ k < word) where
  push-Effect :
      (s : System T) (t : ℕ) (v : T) (pos n : ℕ)
      → Good k limit s
      → s.pc t ≡ push_seen v pos n
      → diff n pos ≡ zero_diff
      → s.mem.enqueue_pos ≡ pos
      → Effect (2 ^ k) s (record {
        mem = record s.mem { enqueue_pos = add64 pos 1 };
        pc = update s.pc t (push_won v pos);
        log = s.log ++ (v ∷ []);
      })
  push-Effect s t v pos n g e d eq =
      let so = g.inv.sound in
      let (f, up) = push_ready k limit big fits s g t v pos n e d eq in
      added t v pos n e
        (omega (
          arith,
          push-room (2 ^ k) limit (pow2-big k big) s.mem s.log so f,
          length-drop s.mem.dequeue_pos s.log,
          so.logged,
        ))
        (drop-append s.mem.dequeue_pos s.log (v ∷ []) (omega (arith, so.order, so.logged)))

  pop-Effect :
      (s : System T) (t pos n : ℕ)
      → Good k limit s
      → s.pc t ≡ pop_seen pos n
      → diff n (add64 pos 1) ≡ zero_diff
      → s.mem.dequeue_pos ≡ pos
      → Effect (2 ^ k) s (with_mem s (record s.mem { dequeue_pos = add64 pos 1 }) t (pop_won pos))
  pop-Effect s t pos n g e d eq =
      let so = g.inv.sound in
      let (f, up) = pop_ready k limit big fits s g t pos n e d eq in
      let (less, was) = pop-filled (2 ^ k) limit (pow2-big k big) s.mem s.log so f in
      let (w, at) = get_elem?-some s.log s.mem.dequeue_pos (omega (arith, so.logged)) in
      taken t w (drop-head s.mem.dequeue_pos s.log w at ∙ ap (λ i. w ∷ drop i s.log) (sym up))
        (rw (update_self s.pc t (pop_won pos)) (ap (get_elem? s.log) (sym eq) ∙ at))

  -- In every order of the threads' steps, each step has an effect of a bounded queue.
  pub Step-Effect :
      (s u : System T)
      → Reached (2 ^ k) limit s
      → Step s u
      → u.mem.enqueue_pos < limit
      → Effect (2 ^ k) s u
  Step-Effect s _ r (push_exchange t v pos n e d eq) b =
      push-Effect s t v pos n (Reached-Good k limit big fits s r) e d eq
  Step-Effect s _ r (pop_exchange t pos n e d eq) b =
      pop-Effect s t pos n (Reached-Good k limit big fits s r) e d eq
  Step-Effect s _ r (push t _ v e) b = same refl
  Step-Effect s _ r (push_load t v pos e) b = same refl
  Step-Effect s _ r (push_lose t v pos n e d) b = same refl
  Step-Effect s _ r (push_full t v pos n e d) b = same refl
  Step-Effect s _ r (push_reload t v pos n e d) b = same refl
  Step-Effect s _ r (push_store t v pos e) b = same refl
  Step-Effect s _ r (push_publish t pos e) b = same refl
  Step-Effect s _ r (pop t _ e) b = same refl
  Step-Effect s _ r (pop_load t pos e) b = same refl
  Step-Effect s _ r (pop_lose t pos n e d) b = same refl
  Step-Effect s _ r (pop_empty t pos n e d) b = same refl
  Step-Effect s _ r (pop_reload t pos n e d) b = same refl
  Step-Effect s _ r (pop_take t pos e) b = same refl
  Step-Effect s _ r (pop_release t pos v e) b = same refl

  -- A thread that has a position for a pop returns the value of the push at the position, and no
  -- other thread has the position.
  pub Reached-popped :
      (s : System T) (t p : ℕ) (v : Option T)
      → Reached (2 ^ k) limit s
      → s.pc t ≡ pop_taken p v
      → (w : T) × (v ≡ some w)
        × (promised s (s.pc t) ≡ some w)
        × ((u : ℕ) → claim (2 ^ k) limit (s.pc u) ≡ some p → u ≡ t)
  Reached-popped s t p v r e =
      let i = (Reached-Good k limit big fits s r).inv in
      let (reader, l) : Active (2 ^ k) limit s.mem s.log (pop_taken p v) =
        subst (Active (2 ^ k) limit s.mem s.log) e (i.active t) in
      let (w, at) =
        get_elem?-some s.log p (omega (arith, i.sound.logged, i.sound.order, reader.claimed)) in
      (w, l ∙ at, rw e at, λ u c. i.single u t p c (ap (claim (2 ^ k) limit) e))
