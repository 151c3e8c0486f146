-- ===== src/Mpmc/Inv.antt =====
-- What holds between the positions, the sequences and the threads of the queue of
-- `kernel/src/mpmc.rs`, and which changes of a slot keep it.
use native.Mathlib.Nat.{mod-add-div}
use node_replicated_kernel.Prelude.{
  ℕ, ◌+◌, ◌*◌, ◌/◌, ◌%◌, ◌≤◌, ◌<◌, ◌≡◌, ◌≢◌, ◌⊎◌, inl, inr, refl, sym, ap, ◌∙◌, Option, none, some,
  List, length, get_elem?, arith,
}
use node_replicated_kernel.Mpmc.{
  State, Pc, returned, push_at, push_seen, push_won, push_stored, pop_at, pop_seen, pop_won,
  pop_taken, System,
}

-- Positions of the same slot are a capacity apart.
pub near : (cap p q : ℕ) → p % cap ≡ q % cap → p ≤ q → q < p + cap → p ≡ q
near cap p q e le lt =
    let low : p % cap + cap * (p / cap) ≡ p = mod-add-div p cap in
    let high : q % cap + cap * (q / cap) ≡ q = mod-add-div q cap in grind arith

pub next_round : (cap p q : ℕ) → p % cap ≡ q % cap → p < q → q < p + cap + cap → q ≡ p + cap
next_round cap p q e less lt =
    let low : p % cap + cap * (p / cap) ≡ p = mod-add-div p cap in
    let high : q % cap + cap * (q / cap) ≡ q = mod-add-div q cap in grind arith

module _ {T : Type 0} (cap limit : ℕ) where
  abbrev pub seq : State T → ℕ → ℕ
  seq m p = m.sequence (p % cap)

  abbrev pub val : State T → ℕ → Option T
  val m p = m.value (p % cap)

  -- A push has claimed the position `p`, and its slot waits for the value.
  pub record Writer (m : State T) (p : ℕ) : Type 0 where
    pub above : m.dequeue_pos ≤ p
    pub claimed : p < m.enqueue_pos
    pub ready : seq m p ≡ p

  -- A pop has claimed the position `p`, and its slot waits for it to take the value.
  pub record Reader (m : State T) (p : ℕ) : Type 0 where
    pub claimed : p < m.dequeue_pos
    pub room : m.enqueue_pos ≤ p + cap
    pub ready : seq m p ≡ p + 1

  -- What a thread knows where it stands.
  abbrev pub Active : State T → List T → Pc T → Type 0
  Active m log (returned r) = Unit
  Active m log (push_at v p) = p ≤ limit
  Active m log (push_seen v p n) =
      (p ≤ limit) × (n ≤ limit + cap) × (n ≡ p → m.enqueue_pos ≤ p → seq m p ≡ p)
  Active m log (push_won v p) = Writer m p × (get_elem? log p ≡ some v)
  Active m log (push_stored p) = Writer m p × (val m p ≡ get_elem? log p)
  Active m log (pop_at p) = p ≤ limit
  Active m log (pop_seen p n) =
      (p ≤ limit) × (n ≤ limit + cap) × (n ≡ p + 1 → m.dequeue_pos ≤ p → seq m p ≡ p + 1)
  Active m log (pop_won p) = Reader m p × (val m p ≡ get_elem? log p)
  Active m log (pop_taken p v) = Reader m p × (v ≡ get_elem? log p)

  -- The position that a thread has claimed and not given back.
  abbrev pub claim : Pc T → Option ℕ
  claim (push_won v p) = some p
  claim (push_stored p) = some p
  claim (pop_won p) = some p
  claim (pop_taken p v) = some p
  claim _ = none

  abbrev pub Filled : State T → List T → ℕ → Type 0
  Filled m log p = (seq m p ≡ p) ⊎ ((seq m p ≡ p + 1) × (val m p ≡ get_elem? log p))

  abbrev pub Free : State T → ℕ → Type 0
  Free m p = (seq m p ≡ p) ⊎ (seq m p + cap ≡ p + 1)

  -- Of the queue: the slots from the first position to pop to the last pushed hold what was pushed,
  -- or wait for it; those after it are free, or wait for a pop.
  pub record Sound (m : State T) (log : List T) : Type 0 where
    pub order : m.dequeue_pos ≤ m.enqueue_pos
    pub room : m.enqueue_pos ≤ m.dequeue_pos + cap
    pub small : m.enqueue_pos ≤ limit
    pub logged : length log ≡ m.enqueue_pos
    pub bounded : (i : ℕ) → i < cap → m.sequence i ≤ limit + cap
    pub filled : (p : ℕ) → m.dequeue_pos ≤ p → p < m.enqueue_pos → Filled m log p
    pub free : (p : ℕ) → m.enqueue_pos ≤ p → p < m.dequeue_pos + cap → Free m p

  pub record Inv (s : System T) : Type 0 where
    pub sound : Sound s.mem s.log
    pub active : (t : ℕ) → Active s.mem s.log (s.pc t)
    pub single : (t u p : ℕ) → claim (s.pc t) ≡ some p → claim (s.pc u) ≡ some p → t ≡ u

  abbrev pub Held : State T → ℕ → Type 0
  Held m x = Writer m x ⊎ Reader m x

  -- Two threads that have claimed positions have different slots.
  abbrev pub Apart : ℕ → Pc T → Type 0
  Apart x q = (p : ℕ) → claim q ≡ some p → p ≢ x

  -- A change of the slot of a claimed position: the other slots and the positions stay.
  pub record Changed (x : ℕ) (m n : State T) : Type 0 where
    pub enqueue : n.enqueue_pos ≡ m.enqueue_pos
    pub dequeue : n.dequeue_pos ≡ m.dequeue_pos
    pub sequences : (p : ℕ) → p % cap ≢ x % cap → seq n p ≡ seq m p
    pub values : (p : ℕ) → p % cap ≢ x % cap → val n p ≡ val m p

  module _ (big : 1 < cap) (m n : State T) (log : List T) (x : ℕ) (h : Held m x)
      (c : Changed x m n) where
    held-seq : (seq m x ≡ x) ⊎ (seq m x ≡ x + 1)
    held-seq = elim h [ inl w ↦ inl w.ready | inr r ↦ inr r.ready ]

    Writer-apart : (p : ℕ) → Writer m p → p ≢ x → p % cap ≢ x % cap
    Writer-apart p w ne e =
        let same : seq m p ≡ seq m x = ap m.sequence e in
        elim held-seq [
          | inl f ↦ ne (omega (arith, w.ready))
          | inr f ↦
              ne (sym (near cap x p (sym e) (omega (arith, w.ready)) (omega (arith, w.ready))))
        ]

    Reader-apart : (p : ℕ) → Reader m p → p ≢ x → p % cap ≢ x % cap
    Reader-apart p r ne e =
        let same : seq m p ≡ seq m x = ap m.sequence e in
        elim held-seq [
          | inl f ↦ ne (near cap p x e (omega (arith, r.ready)) (omega (arith, r.ready)))
          | inr f ↦ ne (omega (arith, r.ready))
        ]

    Writer-Changed : (p : ℕ) → Writer m p → p ≢ x → Writer n p
    Writer-Changed p w ne = record {
      above = omega (arith, w.above, c.dequeue);
      claimed = omega (arith, w.claimed, c.enqueue);
      ready = c.sequences p (Writer-apart p w ne) ∙ w.ready;
    }

    Reader-Changed : (p : ℕ) → Reader m p → p ≢ x → Reader n p
    Reader-Changed p r ne = record {
      claimed = omega (arith, r.claimed, c.dequeue);
      room = omega (arith, r.room, c.enqueue);
      ready = c.sequences p (Reader-apart p r ne) ∙ r.ready;
    }

    -- The slot of a position that a thread may claim next is another one.
    push-apart : (p : ℕ) → seq m p ≡ p → m.enqueue_pos ≤ p → p % cap ≢ x % cap
    push-apart p f le e =
        let same : seq m p ≡ seq m x = ap m.sequence e in
        elim h [
          | inl w ↦ omega (arith, w.ready, w.claimed)
          | inr r ↦
              let eq : x ≡ p =
                near cap x p (sym e) (omega (arith, r.ready)) (omega (arith, r.ready)) in
              omega (arith, r.ready)
        ]

    pop-apart : (p : ℕ) → seq m p ≡ p + 1 → m.dequeue_pos ≤ p → p % cap ≢ x % cap
    pop-apart p f le e =
        let same : seq m p ≡ seq m x = ap m.sequence e in
        elim h [
          | inl w ↦
              let eq : p ≡ x = near cap p x e (omega (arith, w.ready)) (omega (arith, w.ready)) in
              omega (arith, w.ready)
          | inr r ↦ omega (arith, r.ready, r.claimed)
        ]

    -- A thread elsewhere knows what it knew.
    pub Active-Changed : (q : Pc T) → Active m log q → Apart x q → Active n log q
    Active-Changed (returned r) a d = tt
    Active-Changed (push_at v p) a d = a
    Active-Changed (push_seen v p k) a d = (
      a.0,
      a.1,
      λ e le.
          let old : seq m p ≡ p = a.2 e (omega (arith, c.enqueue)) in
          c.sequences p (push-apart p old (omega (arith, c.enqueue))) ∙ old,
    )
    Active-Changed (push_won v p) a d = (Writer-Changed p a.0 (d p refl), a.1)
    Active-Changed (push_stored p) a d =
        (Writer-Changed p a.0 (d p refl), c.values p (Writer-apart p a.0 (d p refl)) ∙ a.1)
    Active-Changed (pop_at p) a d = a
    Active-Changed (pop_seen p k) a d = (
      a.0,
      a.1,
      λ e le.
          let old : seq m p ≡ p + 1 = a.2 e (omega (arith, c.dequeue)) in
          c.sequences p (pop-apart p old (omega (arith, c.dequeue))) ∙ old,
    )
    Active-Changed (pop_won p) a d =
        (Reader-Changed p a.0 (d p refl), c.values p (Reader-apart p a.0 (d p refl)) ∙ a.1)
    Active-Changed (pop_taken p v) a d = (Reader-Changed p a.0 (d p refl), a.1)
