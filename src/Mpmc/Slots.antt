-- ===== src/Mpmc/Slots.antt =====
-- The changes of a slot and the claims of a position keep the queue of `kernel/src/mpmc.rs` sound.
use native.Mathlib.Nat.{add-mod_right}
use native.Mathlib.Decide.{dec_lt}
use node_replicated_kernel.Prelude.{
  ℕ, zero, suc, ◌+◌, ◌%◌, ◌≤◌, ◌<◌, ◌≡◌, inl, inr, refl, sym, ap, ◌∙◌, some, List, [], ◌∷◌, ◌++◌,
  length, length-append, get_elem?, ℕ_discrete, arith,
}
use node_replicated_kernel.Mpmc.{
  State, Pc, returned, push_at, push_seen, push_won, push_stored, pop_at, pop_seen, pop_won,
  pop_taken,
}
use node_replicated_kernel.Mpmc.Inv.{
  near, next_round, seq, val, Writer, Reader, Active, Filled, Free, Sound, Changed,
}

get_elem?-append :
    {T : Type 0} (xs ys : List T) (i : ℕ) → i < length xs → get_elem? (xs ++ ys) i ≡ get_elem? xs i
get_elem?-append [] ys i h = absurd (omega arith)
get_elem?-append (x ∷ xs) ys zero h = refl
get_elem?-append (x ∷ xs) ys (suc i) h = get_elem?-append xs ys i (omega arith)

pub get_elem?-last :
    {T : Type 0} (xs : List T) (v : T) → get_elem? (xs ++ (v ∷ [])) (length xs) ≡ some v
get_elem?-last [] v = refl
get_elem?-last (x ∷ xs) v = get_elem?-last xs v

module _ {T : Type 0} (cap limit : ℕ) (big : 1 < cap) (m : State T) (log : List T)
    (s : Sound cap limit m log) where
  -- The slot of a claimed position is that of no other position in the queue.
  pub Writer-filled :
      (x p : ℕ)
      → Writer cap limit m x
      → p % cap ≡ x % cap
      → m.dequeue_pos ≤ p
      → p < m.enqueue_pos
      → p ≡ x
  Writer-filled x p w e lo hi = elim (dec_lt p x) [
    | yes less ↦ near cap p x e (omega arith) (omega (arith, w.claimed, s.room))
    | no more ↦ sym (near cap x p (sym e) (omega arith) (omega (arith, w.above, s.room)))
  ]

  pub Writer-free :
      (x p : ℕ)
      → Writer cap limit m x
      → p % cap ≡ x % cap
      → m.enqueue_pos ≤ p
      → p < m.dequeue_pos + cap
      → ⊥
  Writer-free x p w e lo hi =
      let q : x ≡ p = near cap x p (sym e) (omega (arith, w.claimed)) (omega (arith, w.above)) in
      omega (arith, w.claimed)

  pub Reader-filled :
      (x p : ℕ)
      → Reader cap limit m x
      → p % cap ≡ x % cap
      → m.dequeue_pos ≤ p
      → p < m.enqueue_pos
      → ⊥
  Reader-filled x p r e lo hi =
      let q : x ≡ p = near cap x p (sym e) (omega (arith, r.claimed)) (omega (arith, r.room)) in
      omega (arith, r.claimed)

  pub Reader-free :
      (x p : ℕ)
      → Reader cap limit m x
      → p % cap ≡ x % cap
      → m.enqueue_pos ≤ p
      → p < m.dequeue_pos + cap
      → p ≡ x + cap
  Reader-free x p r e lo hi =
      next_round cap x p (sym e) (omega (arith, r.claimed, s.order))
        (omega (arith, r.room, s.order))

  pub Sound-Changed :
      (x : ℕ) (n : State T)
      → Changed cap limit x m n
      → ((i : ℕ) → i < cap → n.sequence i ≤ limit + cap)
      → ((p : ℕ)
          → p % cap ≡ x % cap
          → m.dequeue_pos ≤ p
          → p < m.enqueue_pos
          → Filled cap limit n log p)
      → ((p : ℕ)
          → p % cap ≡ x % cap
          → m.enqueue_pos ≤ p
          → p < m.dequeue_pos + cap
          → Free cap limit n p)
      → Sound cap limit n log
  Sound-Changed x n c b f g = record {
    order = omega (arith, s.order, c.enqueue, c.dequeue);
    room = omega (arith, s.room, c.enqueue, c.dequeue);
    small = omega (arith, s.small, c.enqueue);
    logged = s.logged ∙ sym c.enqueue;
    bounded = b;
    filled = λ p lo hi. elim (ℕ_discrete (p % cap) (x % cap)) [
      | yes e ↦ f p e (omega (arith, c.dequeue)) (omega (arith, c.enqueue))
      | no ne ↦
          rw (c.sequences p ne, c.values p ne)
            (s.filled p (omega (arith, c.dequeue)) (omega (arith, c.enqueue)))
    ];
    free = λ p lo hi. elim (ℕ_discrete (p % cap) (x % cap)) [
      | yes e ↦ g p e (omega (arith, c.enqueue)) (omega (arith, c.dequeue))
      | no ne ↦
          rw (c.sequences p ne) (s.free p (omega (arith, c.enqueue)) (omega (arith, c.dequeue)))
    ];
  }

  -- A push claims the position after the last.
  pub push-room :
      seq cap limit m m.enqueue_pos ≡ m.enqueue_pos → m.enqueue_pos < m.dequeue_pos + cap
  push-room f = elim (ℕ_discrete m.enqueue_pos (m.dequeue_pos + cap)) [
    | no ne ↦ omega (arith, s.room)
    | yes e ↦
        let slot : (m.dequeue_pos + cap) % cap ≡ m.dequeue_pos % cap =
          add-mod_right m.dequeue_pos cap in
        let same : seq cap limit m m.enqueue_pos ≡ seq cap limit m m.dequeue_pos =
          ap m.sequence (ap (λ k. k % cap) e ∙ slot) in
        elim (s.filled m.dequeue_pos (omega arith) (omega arith)) [
          | inl g ↦ omega arith
          | inr g ↦ omega (arith, g.0)
        ]
  ]

  -- A pop finds what was pushed at its position.
  pub pop-filled :
      seq cap limit m m.dequeue_pos ≡ m.dequeue_pos + 1
      → (m.dequeue_pos < m.enqueue_pos)
        × (val cap limit m m.dequeue_pos ≡ get_elem? log m.dequeue_pos)
  pop-filled f = elim (ℕ_discrete m.dequeue_pos m.enqueue_pos) [
    | yes e ↦ absurd (elim (s.free m.dequeue_pos (omega arith) (omega arith)) [
      | inl g ↦ omega arith
      | inr g ↦ omega arith
    ])
    | no ne ↦ (
      omega (arith, s.order),
      elim (s.filled m.dequeue_pos (omega arith) (omega (arith, s.order))) [
        | inl g ↦ absurd (omega arith)
        | inr g ↦ g.1
      ],
    )
  ]

  abbrev pushed_at : State T
  pushed_at = record m { enqueue_pos = m.enqueue_pos + 1 }

  abbrev popped_at : State T
  popped_at = record m { dequeue_pos = m.dequeue_pos + 1 }

  logged-append :
      (p : ℕ) (v : T) → p < m.enqueue_pos → get_elem? (log ++ (v ∷ [])) p ≡ get_elem? log p
  logged-append p v h = get_elem?-append log (v ∷ []) p (omega (arith, s.logged))

  Filled-append :
      (p : ℕ) (v : T)
      → p < m.enqueue_pos
      → Filled cap limit m log p
      → Filled cap limit m (log ++ (v ∷ [])) p
  Filled-append p v h (inl f) = inl f
  Filled-append p v h (inr f) = inr (f.0, f.1 ∙ sym (logged-append p v h))

  pub Sound-push :
      (v : T)
      → seq cap limit m m.enqueue_pos ≡ m.enqueue_pos
      → m.enqueue_pos < limit
      → Sound cap limit pushed_at (log ++ (v ∷ []))
  Sound-push v f small = record {
    order = omega (arith, s.order);
    room = omega (arith, push-room f);
    small = omega arith;
    logged = length-append log (v ∷ []) ∙ ap (λ k. k + 1) s.logged;
    bounded = s.bounded;
    filled = λ p lo hi. elim (ℕ_discrete p m.enqueue_pos) [
      | yes e ↦ inl (rw e f)
      | no ne ↦ Filled-append p v (omega arith) (s.filled p lo (omega arith))
    ];
    free = λ p lo hi. s.free p (omega arith) hi;
  }

  longer : (p : ℕ) → Writer cap limit m p → Writer cap limit pushed_at p
  longer p w = record { above = w.above; claimed = omega (arith, w.claimed); ready = w.ready }

  still :
      (p : ℕ)
      → Reader cap limit m p
      → seq cap limit m m.enqueue_pos ≡ m.enqueue_pos
      → Reader cap limit pushed_at p
  still p r f = record {
    claimed = r.claimed;
    room = elim (ℕ_discrete m.enqueue_pos (p + cap)) [
      | no ne ↦ omega (arith, r.room)
      | yes e ↦
          let same : seq cap limit m m.enqueue_pos ≡ seq cap limit m p =
            ap m.sequence (ap (λ k. k % cap) e ∙ add-mod_right p cap) in
          absurd (omega (arith, r.ready))
    ];
    ready = r.ready;
  }

  behind : (p : ℕ) → Reader cap limit m p → Reader cap limit popped_at p
  behind p r = record { claimed = omega (arith, r.claimed); room = r.room; ready = r.ready }

  above :
      (p : ℕ)
      → Writer cap limit m p
      → seq cap limit m m.dequeue_pos ≡ m.dequeue_pos + 1
      → Writer cap limit popped_at p
  above p w f = record {
    above = elim (ℕ_discrete m.dequeue_pos p) [
      | no ne ↦ omega (arith, w.above)
      | yes e ↦
          let same : seq cap limit m m.dequeue_pos ≡ seq cap limit m p =
            ap (λ k. seq cap limit m k) e in
          absurd (omega (arith, w.ready))
    ];
    claimed = w.claimed;
    ready = w.ready;
  }

  pub Active-push :
      (v : T) (q : Pc T)
      → seq cap limit m m.enqueue_pos ≡ m.enqueue_pos
      → Active cap limit m log q
      → Active cap limit pushed_at (log ++ (v ∷ [])) q
  Active-push v (returned r) f a = tt
  Active-push v (push_at w p) f a = a
  Active-push v (push_seen w p k) f a = (a.0, a.1, λ e le. a.2 e (omega arith))
  Active-push v (push_won w p) f a = (longer p a.0, logged-append p v a.0.claimed ∙ a.1)
  Active-push v (push_stored p) f a = (longer p a.0, a.1 ∙ sym (logged-append p v a.0.claimed))
  Active-push v (pop_at p) f a = a
  Active-push v (pop_seen p k) f a = a
  Active-push v (pop_won p) f a =
      (still p a.0 f, a.1 ∙ sym (logged-append p v (omega (arith, a.0.claimed, s.order))))
  Active-push v (pop_taken p w) f a =
      (still p a.0 f, a.1 ∙ sym (logged-append p v (omega (arith, a.0.claimed, s.order))))

  pub Sound-pop : seq cap limit m m.dequeue_pos ≡ m.dequeue_pos + 1 → Sound cap limit popped_at log
  Sound-pop f = record {
    order = omega (arith, (pop-filled f).0);
    room = omega (arith, s.room);
    small = s.small;
    logged = s.logged;
    bounded = s.bounded;
    filled = λ p lo hi. s.filled p (omega arith) hi;
    free = λ p lo hi. elim (ℕ_discrete p (m.dequeue_pos + cap)) [
      | yes e ↦ inr (
          let same : seq cap limit m p ≡ seq cap limit m m.dequeue_pos =
            ap m.sequence (ap (λ k. k % cap) e ∙ add-mod_right m.dequeue_pos cap) in
          omega arith)
      | no ne ↦ s.free p lo (omega arith)
    ];
  }

  pub Active-pop :
      (q : Pc T)
      → seq cap limit m m.dequeue_pos ≡ m.dequeue_pos + 1
      → Active cap limit m log q
      → Active cap limit popped_at log q
  Active-pop (returned r) f a = tt
  Active-pop (push_at w p) f a = a
  Active-pop (push_seen w p k) f a = a
  Active-pop (push_won w p) f a = (above p a.0 f, a.1)
  Active-pop (push_stored p) f a = (above p a.0 f, a.1)
  Active-pop (pop_at p) f a = a
  Active-pop (pop_seen p k) f a = (a.0, a.1, λ e le. a.2 e (omega arith))
  Active-pop (pop_won p) f a = (behind p a.0, a.1)
  Active-pop (pop_taken p w) f a = (behind p a.0, a.1)
