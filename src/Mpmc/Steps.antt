-- ===== src/Mpmc/Steps.antt =====
-- Every step of a thread of `kernel/src/mpmc.rs` keeps the invariant of the queue.
use Prim.Native.Nat.{bit_and}
use native.Mathlib.Nat.{mod-lt, mod-eq_of_lt}
use node_replicated_kernel.Prelude.{
  ℕ, zero, suc, ◌+◌, ◌-◌, ◌%◌, ◌^◌, ◌≤◌, ◌<◌, ◌≡◌, ◌≢◌, inl, inr, refl, sym, ap, ◌∙◌, Option, none,
  some, subst, List, [], ◌∷◌, ◌++◌, get_elem?, ℕ_discrete, word, add64, update, update_self,
  update_ne, update-cases, arith,
}
use mathlib.Core.Option.{some-injective}
use node_replicated_kernel.Prelude.Dict.{none≢some}
use node_replicated_kernel.Mpmc.{
  State, Pc, returned, push_at, push_seen, push_won, push_stored, pop_at, pop_seen, pop_won,
  pop_taken, System, Step, push, push_load, push_exchange, push_lose, push_full, push_reload,
  push_store, push_publish, pop, pop_load, pop_exchange, pop_lose, pop_empty, pop_reload, pop_take,
  pop_release, Reached, start, step, push_failed, pop_failed, pushed, popped, index, diff,
  zero_diff, at_pc, with_mem, start_of,
}
use node_replicated_kernel.Mpmc.Mask.{bit_and-mask, pow2-pos, pow2-suc}
use node_replicated_kernel.Mpmc.Inv.{
  seq, val, Writer, Held, Active, claim, Sound, Inv, Changed, Active-Changed,
}
use node_replicated_kernel.Mpmc.Slots.{
  Sound-Changed, pop-filled, Sound-push, Active-push, Sound-pop, Active-pop, Writer-filled,
  Writer-free, Reader-filled, Reader-free, get_elem?-last,
}

diff-zero : (a b : ℕ) → a < word → b < word → diff a b ≡ zero_diff → a ≡ b
unfolding diff
diff-zero a b ha hb e = ground arith

pub pow2-big : (k : ℕ) → 0 < k → 1 < 2 ^ k
pow2-big zero h = absurd (omega arith)
pow2-big (suc k) h = omega (arith, pow2-suc k, pow2-pos k)

-- The capacity is `2 ^ k`.
module _ {T : Type 0} (k limit : ℕ) where
  pub record Good (s : System T) : Type 0 where
    pub inv : Inv (2 ^ k) limit s
    pub masked : s.mem.mask ≡ 2 ^ k - 1

module _ {T : Type 0} (k limit : ℕ) (big : 0 < k) (fits : limit + 2 ^ k + 2 ^ k < word) where
  module _ (s : System T) (g : Good k limit s) (t : ℕ) where
    open (g.inv) use {sound, active, single}

    index-mod : (p : ℕ) → index s.mem p ≡ p % 2 ^ k
    index-mod p = ap (λ m. bit_and p m) g.masked ∙ bit_and-mask k p

    -- Thread `t` moves to `q`, and memory to `m` and `log`.
    move-Good :
        (m : State T) (log : List T) (q : Pc T)
        → m.mask ≡ s.mem.mask
        → Sound (2 ^ k) limit m log
        → Active (2 ^ k) limit m log q
        → ((u : ℕ) → u ≢ t → Active (2 ^ k) limit m log (s.pc u))
        → ((u p : ℕ)
            → u ≢ t
            → claim (2 ^ k) limit q ≡ some p
            → claim (2 ^ k) limit (s.pc u) ≢ some p)
        → Good k limit (record { mem = m; pc = update s.pc t q; log = log })
    move-Good m log q e so here else_where alone = record {
      inv = record {
        sound = so;
        active = λ u. update-cases (Active (2 ^ k) limit m log) s.pc t u q here (else_where u);
        single = λ u v p c d. elim (ℕ_discrete u t) [
          | yes a ↦ elim (ℕ_discrete v t) [
            | yes b ↦ a ∙ sym b
            | no nb ↦ absurd (
                alone v p nb (rw (a, update_self s.pc t q) at c)
                  (rw (update_ne s.pc t v q nb) at d))
          ]
          | no na ↦ elim (ℕ_discrete v t) [
            | yes b ↦ absurd (
                alone u p na (rw (b, update_self s.pc t q) at d)
                  (rw (update_ne s.pc t u q na) at c))
            | no nb ↦
                single u v p (rw (update_ne s.pc t u q na) at c) (rw (update_ne s.pc t v q nb) at d)
          ]
        ];
      };
      masked = e ∙ g.masked;
    }

    Active-at : (q : Pc T) → s.pc t ≡ q → Active (2 ^ k) limit s.mem s.log q
    Active-at q e = subst (Active (2 ^ k) limit s.mem s.log) e (active t)

    -- A step of the thread alone.
    local-Good :
        (q : Pc T)
        → claim (2 ^ k) limit q ≡ none
        → Active (2 ^ k) limit s.mem s.log q
        → Good k limit (at_pc s t q)
    local-Good q none_claimed here =
        move-Good s.mem s.log q refl sound here (λ u ne. active u)
          (λ u p ne c. absurd (none≢some (sym none_claimed ∙ c)))

    -- A step that changes the slot of the position that the thread has claimed.
    slot-Good :
        (q : Pc T) (x : ℕ) (m : State T)
        → claim (2 ^ k) limit (s.pc t) ≡ some x
        → m.mask ≡ s.mem.mask
        → Held (2 ^ k) limit s.mem x
        → Changed (2 ^ k) limit x s.mem m
        → Sound (2 ^ k) limit m s.log
        → Active (2 ^ k) limit m s.log q
        → ((p : ℕ) → claim (2 ^ k) limit q ≡ some p → p ≡ x)
        → Good k limit (with_mem s m t q)
    slot-Good q x m own e h c so here same =
        move-Good m s.log q e so here
          (λ u ne.
            Active-Changed (2 ^ k) limit (pow2-big k big) s.mem m s.log x h c (s.pc u) (active u)
              (λ p cl eq. ne (single u t x (rw eq at cl) own)))
          (λ u p ne cq cu. ne (single u t p cu (own ∙ ap some (sym (same p cq)))))

  -- The slot of the position `x`, and a new sequence number in it.
  sequence-Changed :
      (s : System T) (x n : ℕ)
      → Changed
          (2 ^ k)
          limit
          x
          s.mem
          (record s.mem { sequence = update s.mem.sequence (x % 2 ^ k) n })
  sequence-Changed s x n = record {
    enqueue = refl;
    dequeue = refl;
    sequences = λ p ne. update_ne s.mem.sequence (x % 2 ^ k) (p % 2 ^ k) n ne;
    values = λ p ne. refl;
  }

  value-Changed :
      (s : System T) (x : ℕ) (v : Option T)
      → Changed (2 ^ k) limit x s.mem (record s.mem { value = update s.mem.value (x % 2 ^ k) v })
  value-Changed s x v = record {
    enqueue = refl;
    dequeue = refl;
    sequences = λ p ne. refl;
    values = λ p ne. update_ne s.mem.value (x % 2 ^ k) (p % 2 ^ k) v ne;
  }

  claimed-lt :
      (m : State T) (log : List T) (q : Pc T) (p : ℕ)
      → m.dequeue_pos ≤ m.enqueue_pos
      → Active (2 ^ k) limit m log q
      → claim (2 ^ k) limit q ≡ some p
      → p < m.enqueue_pos
  claimed-lt m log (returned r) p o a c = absurd (none≢some c)
  claimed-lt m log (push_at v x) p o a c = absurd (none≢some c)
  claimed-lt m log (push_seen v x n) p o a c = absurd (none≢some c)
  claimed-lt m log (push_won v x) p o a c = omega (arith, a.0.claimed, some-injective x p c)
  claimed-lt m log (push_stored x) p o a c = omega (arith, a.0.claimed, some-injective x p c)
  claimed-lt m log (pop_at x) p o a c = absurd (none≢some c)
  claimed-lt m log (pop_seen x n) p o a c = absurd (none≢some c)
  claimed-lt m log (pop_won x) p o a c = omega (arith, a.0.claimed, some-injective x p c)
  claimed-lt m log (pop_taken x v) p o a c = omega (arith, a.0.claimed, some-injective x p c)

  Writer-ne :
      (m : State T) (x : ℕ)
      → seq (2 ^ k) limit m m.dequeue_pos ≡ m.dequeue_pos + 1
      → Writer (2 ^ k) limit m x
      → x ≢ m.dequeue_pos
  Writer-ne m x f w e =
      let same : seq (2 ^ k) limit m x ≡ seq (2 ^ k) limit m m.dequeue_pos =
        ap (seq (2 ^ k) limit m) e in
      omega (arith, w.ready)

  claimed-ne :
      (m : State T) (log : List T) (q : Pc T)
      → seq (2 ^ k) limit m m.dequeue_pos ≡ m.dequeue_pos + 1
      → Active (2 ^ k) limit m log q
      → claim (2 ^ k) limit q ≢ some m.dequeue_pos
  claimed-ne m log (returned r) f a c = none≢some c
  claimed-ne m log (push_at v x) f a c = none≢some c
  claimed-ne m log (push_seen v x n) f a c = none≢some c
  claimed-ne m log (push_won v x) f a c = Writer-ne m x f a.0 (some-injective x _ c)
  claimed-ne m log (push_stored x) f a c = Writer-ne m x f a.0 (some-injective x _ c)
  claimed-ne m log (pop_at x) f a c = none≢some c
  claimed-ne m log (pop_seen x n) f a c = none≢some c
  claimed-ne m log (pop_won x) f a c = omega (arith, a.0.claimed, some-injective x _ c)
  claimed-ne m log (pop_taken x v) f a c = omega (arith, a.0.claimed, some-injective x _ c)

  module _ (s : System T) (g : Good k limit s) (t : ℕ) where
    open (g.inv) use {sound, active}

    -- What a thread that wins an exchange knows of the position.
    pub push_ready :
        (v : T) (pos n : ℕ)
        → s.pc t ≡ push_seen v pos n
        → diff n pos ≡ zero_diff
        → s.mem.enqueue_pos ≡ pos
        → (seq (2 ^ k) limit s.mem s.mem.enqueue_pos ≡ s.mem.enqueue_pos)
          × (add64 pos 1 ≡ s.mem.enqueue_pos + 1)
    push_ready v pos n e d same =
        let (small, bound, seen) = Active-at s g t (push_seen v pos n) e in
        let eq : n ≡ pos = diff-zero n pos (omega arith) (omega arith) d in
        (rw same (seen eq (omega arith)), omega (arith, pow2-pos k))

    pub pop_ready :
        (pos n : ℕ)
        → s.pc t ≡ pop_seen pos n
        → diff n (add64 pos 1) ≡ zero_diff
        → s.mem.dequeue_pos ≡ pos
        → (seq (2 ^ k) limit s.mem s.mem.dequeue_pos ≡ s.mem.dequeue_pos + 1)
          × (add64 pos 1 ≡ s.mem.dequeue_pos + 1)
    pop_ready pos n e d same =
        let (small, bound, seen) = Active-at s g t (pop_seen pos n) e in
        let up : add64 pos 1 ≡ pos + 1 = omega (arith, pow2-pos k) in
        let eq : n ≡ pos + 1 = diff-zero n (pos + 1) (omega arith) (omega arith) (rw up at d) in
        (rw same (seen eq (omega arith)), omega arith)

    exchange_push :
        (v : T) (pos n : ℕ)
        → s.pc t ≡ push_seen v pos n
        → diff n pos ≡ zero_diff
        → s.mem.enqueue_pos ≡ pos
        → add64 pos 1 ≤ limit
        → Good k limit (record {
          mem = record s.mem { enqueue_pos = add64 pos 1 };
          pc = update s.pc t (push_won v pos);
          log = s.log ++ (v ∷ []);
        })
    exchange_push v pos n e d same b =
        let (f, up) = push_ready v pos n e d same in
        rw (up, ← same)
          (move-Good s g t (record s.mem { enqueue_pos = s.mem.enqueue_pos + 1 })
            (s.log ++ (v ∷ [])) (push_won v s.mem.enqueue_pos) refl
            (Sound-push (2 ^ k) limit (pow2-big k big) s.mem s.log sound v f (omega arith))
            (
              record { above = sound.order; claimed = omega arith; ready = f },
              ap (get_elem? (s.log ++ (v ∷ []))) (sym sound.logged) ∙ get_elem?-last s.log v,
            )
            (λ u ne.
              Active-push (2 ^ k) limit (pow2-big k big) s.mem s.log sound v (s.pc u) f (active u))
            (λ u p ne c cu. absurd (
              omega (
                arith,
                claimed-lt s.mem s.log (s.pc u) p sound.order (active u) cu,
                some-injective s.mem.enqueue_pos p c,
              ))))

    exchange_pop :
        (pos n : ℕ)
        → s.pc t ≡ pop_seen pos n
        → diff n (add64 pos 1) ≡ zero_diff
        → s.mem.dequeue_pos ≡ pos
        → Good k limit (with_mem s (record s.mem { dequeue_pos = add64 pos 1 }) t (pop_won pos))
    exchange_pop pos n e d same =
        let (f, up) = pop_ready pos n e d same in
        rw (up, ← same)
          (move-Good s g t (record s.mem { dequeue_pos = s.mem.dequeue_pos + 1 }) s.log
            (pop_won s.mem.dequeue_pos) refl
            (Sound-pop (2 ^ k) limit (pow2-big k big) s.mem s.log sound f)
            (
              record { claimed = omega arith; room = sound.room; ready = f },
              (pop-filled (2 ^ k) limit (pow2-big k big) s.mem s.log sound f).1,
            )
            (λ u ne.
              Active-pop (2 ^ k) limit (pow2-big k big) s.mem s.log sound (s.pc u) f (active u))
            (λ u p ne c cu. claimed-ne s.mem s.log (s.pc u) f (active u) (cu ∙ sym c)))

    store-Good :
        (v : T) (pos : ℕ)
        → s.pc t ≡ push_won v pos
        → Good k limit (
            with_mem s
              (record s.mem { value = update s.mem.value (pos % 2 ^ k) (some v) })
              t
              (push_stored pos))
    store-Good v pos e =
        let (w, l) = Active-at s g t (push_won v pos) e in
        let m : State T = record s.mem { value = update s.mem.value (pos % 2 ^ k) (some v) } in
        let c = value-Changed s pos (some v) in
        slot-Good s g t (push_stored pos) pos m (ap (claim (2 ^ k) limit) e) refl (inl w) c
          (Sound-Changed (2 ^ k) limit (pow2-big k big) s.mem s.log sound pos m c sound.bounded
            (λ p eq lo hi.
              let here =
                Writer-filled (2 ^ k) limit (pow2-big k big) s.mem s.log sound pos p w eq lo hi in
              inl (rw here w.ready))
            (λ p eq lo hi.
              absurd
                (Writer-free (2 ^ k) limit (pow2-big k big) s.mem s.log sound pos p w eq lo hi)))
          (
            record { above = w.above; claimed = w.claimed; ready = w.ready },
            update_self s.mem.value (pos % 2 ^ k) (some v) ∙ sym l,
          )
          (λ p q. sym (some-injective pos p q))

    publish-Good :
        (pos : ℕ)
        → s.pc t ≡ push_stored pos
        → Good k limit (
            with_mem s
              (record s.mem { sequence = update s.mem.sequence (pos % 2 ^ k) (pos + 1) })
              t
              (returned pushed))
    publish-Good pos e =
        let (w, l) = Active-at s g t (push_stored pos) e in
        let m : State T = record s.mem {
          sequence = update s.mem.sequence (pos % 2 ^ k) (pos + 1);
        } in
        let c = sequence-Changed s pos (pos + 1) in
        let there : seq (2 ^ k) limit m pos ≡ pos + 1 =
          update_self s.mem.sequence (pos % 2 ^ k) (pos + 1) in
        slot-Good s g t (returned pushed) pos m (ap (claim (2 ^ k) limit) e) refl (inl w) c
          (Sound-Changed (2 ^ k) limit (pow2-big k big) s.mem s.log sound pos m c
            (λ i lt.
              update-cases (λ z. z ≤ limit + 2 ^ k) s.mem.sequence (pos % 2 ^ k) i (pos + 1)
                (omega (arith, w.claimed, sound.small, pow2-pos k)) (λ ne. sound.bounded i lt))
            (λ p eq lo hi.
              let here =
                Writer-filled (2 ^ k) limit (pow2-big k big) s.mem s.log sound pos p w eq lo hi in
              rw here (inr (there, l)))
            (λ p eq lo hi.
              absurd
                (Writer-free (2 ^ k) limit (pow2-big k big) s.mem s.log sound pos p w eq lo hi)))
          tt (λ p q. absurd (none≢some q))

    take-Good :
        (pos : ℕ)
        → s.pc t ≡ pop_won pos
        → Good k limit (
            with_mem s
              (record s.mem { value = update s.mem.value (pos % 2 ^ k) none })
              t
              (pop_taken pos (val (2 ^ k) limit s.mem pos)))
    take-Good pos e =
        let (r, l) = Active-at s g t (pop_won pos) e in
        let m : State T = record s.mem { value = update s.mem.value (pos % 2 ^ k) none } in
        let c = value-Changed s pos none in
        slot-Good s g t (pop_taken pos (val (2 ^ k) limit s.mem pos)) pos m
          (ap (claim (2 ^ k) limit) e) refl (inr r) c
          (Sound-Changed (2 ^ k) limit (pow2-big k big) s.mem s.log sound pos m c sound.bounded
            (λ p eq lo hi.
              absurd
                (Reader-filled (2 ^ k) limit (pow2-big k big) s.mem s.log sound pos p r eq lo hi))
            (λ p eq lo hi. sound.free p lo hi))
          (record { claimed = r.claimed; room = r.room; ready = r.ready }, l)
          (λ p q. sym (some-injective pos p q))

    release-Good :
        (pos : ℕ) (v : Option T)
        → s.pc t ≡ pop_taken pos v
        → Good k limit (
            with_mem s
              (record s.mem { sequence = update s.mem.sequence (pos % 2 ^ k) (pos + 2 ^ k) })
              t
              (returned (popped v)))
    release-Good pos v e =
        let (r, l) = Active-at s g t (pop_taken pos v) e in
        let m : State T = record s.mem {
          sequence = update s.mem.sequence (pos % 2 ^ k) (pos + 2 ^ k);
        } in
        let c = sequence-Changed s pos (pos + 2 ^ k) in
        slot-Good s g t (returned (popped v)) pos m (ap (claim (2 ^ k) limit) e) refl (inr r) c
          (Sound-Changed (2 ^ k) limit (pow2-big k big) s.mem s.log sound pos m c
            (λ i lt.
              update-cases (λ z. z ≤ limit + 2 ^ k) s.mem.sequence (pos % 2 ^ k) i (pos + 2 ^ k)
                (omega (arith, r.claimed, sound.order, sound.small)) (λ ne. sound.bounded i lt))
            (λ p eq lo hi.
              absurd
                (Reader-filled (2 ^ k) limit (pow2-big k big) s.mem s.log sound pos p r eq lo hi))
            (λ p eq lo hi.
              let here =
                Reader-free (2 ^ k) limit (pow2-big k big) s.mem s.log sound pos p r eq lo hi in
              inl (
                ap m.sequence eq
                ∙ update_self s.mem.sequence (pos % 2 ^ k) (pos + 2 ^ k)
                ∙ sym here)))
          tt (λ p q. absurd (none≢some q))

  dequeue_small : (s : System T) → Good k limit s → s.mem.dequeue_pos ≤ limit
  dequeue_small s g = omega (arith, g.inv.sound.order, g.inv.sound.small)

  pub Step-Good :
      (s u : System T) → Good k limit s → Step s u → u.mem.enqueue_pos ≤ limit → Good k limit u
  Step-Good s _ g (push t r v e) b =
      local-Good s g t (push_at v s.mem.enqueue_pos) refl g.inv.sound.small
  Step-Good s _ g (push_load t v pos e) b =
      let here : pos ≤ limit = Active-at s g t (push_at v pos) e in
      rw (index-mod s g t pos) (
        local-Good s g t (push_seen v pos (seq (2 ^ k) limit s.mem pos)) refl
          (here, g.inv.sound.bounded (pos % 2 ^ k) (mod-lt pos (pow2-pos k)), λ eq le. eq))
  Step-Good s _ g (push_exchange t v pos n e d same) b = exchange_push s g t v pos n e d same b
  Step-Good s _ g (push_lose t v pos n e d) b =
      local-Good s g t (push_at v s.mem.enqueue_pos) refl g.inv.sound.small
  Step-Good s _ g (push_full t v pos n e d) b = local-Good s g t (returned (push_failed v)) refl tt
  Step-Good s _ g (push_reload t v pos n e d) b =
      local-Good s g t (push_at v s.mem.enqueue_pos) refl g.inv.sound.small
  Step-Good s _ g (push_store t v pos e) b = rw (index-mod s g t pos) (store-Good s g t v pos e)
  Step-Good s _ g (push_publish t pos e) b =
      let (w, l) = Active-at s g t (push_stored pos) e in
      let up : add64 pos 1 ≡ pos + 1 = omega (arith, w.claimed, g.inv.sound.small, pow2-pos k) in
      rw (index-mod s g t pos, up) (publish-Good s g t pos e)
  Step-Good s _ g (pop t r e) b =
      local-Good s g t (pop_at s.mem.dequeue_pos) refl (dequeue_small s g)
  Step-Good s _ g (pop_load t pos e) b =
      let here : pos ≤ limit = Active-at s g t (pop_at pos) e in
      rw (index-mod s g t pos) (
        local-Good s g t (pop_seen pos (seq (2 ^ k) limit s.mem pos)) refl
          (here, g.inv.sound.bounded (pos % 2 ^ k) (mod-lt pos (pow2-pos k)), λ eq le. eq))
  Step-Good s _ g (pop_exchange t pos n e d same) b = exchange_pop s g t pos n e d same
  Step-Good s _ g (pop_lose t pos n e d) b =
      local-Good s g t (pop_at s.mem.dequeue_pos) refl (dequeue_small s g)
  Step-Good s _ g (pop_empty t pos n e d) b = local-Good s g t (returned pop_failed) refl tt
  Step-Good s _ g (pop_reload t pos n e d) b =
      local-Good s g t (pop_at s.mem.dequeue_pos) refl (dequeue_small s g)
  Step-Good s _ g (pop_take t pos e) b = rw (index-mod s g t pos) (take-Good s g t pos e)
  Step-Good s _ g (pop_release t pos v e) b =
      let (r, l) = Active-at s g t (pop_taken pos v) e in
      let up : add64 (add64 pos s.mem.mask) 1 ≡ pos + 2 ^ k =
        omega (arith, r.claimed, dequeue_small s g, g.masked, pow2-pos k) in
      rw (index-mod s g t pos, up) (release-Good s g t pos v e)

  start-Good : Good k limit (start_of {T = T} (2 ^ k))
  start-Good = record {
    inv = record {
      sound = record {
        order = omega arith;
        room = omega arith;
        small = omega arith;
        logged = refl;
        bounded = λ i lt. omega arith;
        filled = λ p lo hi. absurd (omega arith);
        free = λ p lo hi. inl (mod-eq_of_lt (omega arith));
      };
      active = λ t. tt;
      single = λ t u p c d. absurd (none≢some c);
    };
    masked = refl;
  }

  pub Reached-Good : (s : System T) → Reached (2 ^ k) limit s → Good k limit s
  Reached-Good _ start = start-Good
  Reached-Good u (step {s} r st small) = Step-Good s u (Reached-Good s r) st (omega arith)
