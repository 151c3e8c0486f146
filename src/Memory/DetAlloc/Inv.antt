-- ===== src/Memory/DetAlloc/Inv.antt =====
-- Determinism of `kernel/src/memory/detmem.rs` while no allocation fails.
use node_replicated_kernel.Prelude.{
  ℕ, suc, ◌+◌, ◌-◌, ◌<◌, ◌≤◌, ◌≡◌, ◌≢◌, refl, sym, subst, ap, ◌∙◌, List, [], ◌∷◌, ◌++◌, length,
  length-append, true, All, update, update_self, update_ne, update-cases, ℕ_discrete, arith,
}
use node_replicated_kernel.Prelude.Outcome.{Outcome, ok, and_then}
use node_replicated_kernel.Memory.DetAlloc.{
  Layout, same_layout, DeterministicAlloc, empty, all_given, fill, alloc_from, alloc,
}
use node_replicated_kernel.Memory.DetAlloc.Pushed.{push_others-Pushed, all_given-true}

-- The results from the `k`-th request on, for the layouts `L`, all of them pointers.
abbrev pub Queue : (ℕ → Layout) → ℕ → List (Layout × ℕ) → Type 0
Queue L k [] = Unit
Queue L k ((l, p) ∷ q) = (l ≡ L k) × (p ≢ 0) × Queue L (suc k) q

Queue-append :
    (L : ℕ → Layout) (k p : ℕ) (q : List (Layout × ℕ))
    → Queue L k q
    → p ≢ 0
    → Queue L k (q ++ (L (k + length q), p) ∷ [])
Queue-append L k p [] h n = (ap L (omega arith), n, tt)
Queue-append L k p ((l, r) ∷ q) (e, some_pointer, h) n =
    let at : suc k + length q ≡ k + length ((l, r) ∷ q) = omega arith in
    (
      e,
      some_pointer,
      subst (λ i. Queue L (suc k) (q ++ (L i, p) ∷ [])) at (Queue-append L (suc k) p q h n),
    )

same_layout_self : (l : Layout) → same_layout l l ≡ true
same_layout_self l = ground arith

both :
    {A B : Type 0} (P : A → B → Type 0) (f : ℕ → A) (g : ℕ → B) (t u : ℕ) (a : A) (b : B)
    → P a b
    → (u ≢ t → P (f u) (g u))
    → P (update f t a u) (update g t b u)
both P f g t u a b here there = elim (ℕ_discrete u t) [
  | yes e ↦ rw (e, update_self f t a, update_self g t b) here
  | no ne ↦ rw (update_ne f t u a ne, update_ne g t u b ne) (there ne)
]

module _ (nodes cap : ℕ) (answer : ℕ → ℕ) where
  -- Each node made `c` of its requests and `m` were answered; the rest of the answers are in its
  -- queue.
  pub record Inv (L : ℕ → Layout) (c : ℕ → ℕ) (m : ℕ) (d : DeterministicAlloc) : Type 0 where
    pub behind : (j : ℕ) → j < nodes → c j ≤ m
    pub left : (j : ℕ) → j < nodes → length (d.qs j) ≡ m - c j
    pub queued : (j : ℕ) → j < nodes → Queue L (c j) (d.qs j)

  pub empty-Inv : (L : ℕ → Layout) → Inv L (λ j. 0) 0 empty
  empty-Inv L = record { behind = λ j h. omega arith; left = λ j h. refl; queued = λ j h. tt }

  -- The request of `nid` gives a pointer, and then it made one more; at most one more was answered.
  pub Next : (ℕ → Layout) → (ℕ → ℕ) → ℕ → ℕ → Outcome ℕ × DeterministicAlloc → Type 0
  Next L c n nid r =
      (p : ℕ) × (d : DeterministicAlloc) × (m : ℕ) × (r ≡ (ok p, d))
      × (p ≢ 0)
      × (m ≤ suc n)
      × Inv L (update c nid (suc (c nid))) m d

  pop-Next :
      (L : ℕ → Layout) (c : ℕ → ℕ) (m nid : ℕ) (d : DeterministicAlloc) (l : Layout) (p : ℕ)
      (rest : List (Layout × ℕ))
      → nid < nodes
      → d.qs nid ≡ (l, p) ∷ rest
      → Inv L c m d
      → Next L c m nid (alloc nodes cap answer nid (L (c nid)) d)
  unfolding Next alloc
  pop-Next L c m nid d l p rest h e v =
      let (same, some_pointer, others) = subst (Queue L (c nid)) e (v.queued nid h) in
      let t : same_layout l (L (c nid)) ≡ true =
        subst (λ z. same_layout l z ≡ true) same (same_layout_self l) in
      let len : suc (length rest) ≡ m - c nid = sym (ap length e) ∙ v.left nid h in
      (
        p,
        record d { qs = update d.qs nid rest },
        m,
        ap (alloc_from nodes cap answer nid (L (c nid)) d) e ∙ rw t refl,
        some_pointer,
        omega arith,
        record {
          behind = λ j k.
              both (λ n q. n ≤ m) c d.qs nid j (suc (c nid)) rest (omega arith)
                (λ ne. v.behind j k);
          left = λ j k.
              both (λ n q. length q ≡ m - n) c d.qs nid j (suc (c nid)) rest (omega arith)
                (λ ne. v.left j k);
          queued =
              λ j k. both (Queue L) c d.qs nid j (suc (c nid)) rest others (λ ne. v.queued j k);
        },
      )

  fill-Next :
      (L : ℕ → Layout) (c : ℕ → ℕ) (m nid : ℕ) (d : DeterministicAlloc)
      → nid < nodes
      → ((i : ℕ) → answer i ≢ 0)
      → d.qs nid ≡ []
      → ((j : ℕ) → j < nodes → j ≢ nid → length (d.qs j) < cap)
      → Inv L c m d
      → Next L c m nid (alloc nodes cap answer nid (L (c nid)) d)
  unfolding Next alloc fill
  fill-Next L c m nid d h given e room v =
      let allocs : ℕ → ℕ = λ i. answer (d.requests + i) in
      let all : all_given nodes cap answer nodes allocs ≡ true =
        all_given-true nodes cap answer nodes allocs (λ i. given (d.requests + i)) in
      let (qs', q, pushed) =
        push_others-Pushed nodes cap answer nid (L (c nid)) allocs nodes 0 d.qs
          (λ j a k ne. room j (omega arith) ne) in
      let last : c nid ≡ m =
        let none : length (d.qs nid) ≡ 0 = ap length e in
        omega (arith, v.left nid h, v.behind nid h, none) in
      let at : (j : ℕ) → j < nodes → m ≡ c j + length (d.qs j) =
        λ j k. omega (arith, v.left j k, v.behind j k) in
      let more : (j : ℕ) → j < nodes → j ≢ nid → qs' j ≡ d.qs j ++ (L (c nid), allocs j) ∷ [] =
        λ j k ne. pushed.others j (omega arith) (omega arith) ne in
      (
        allocs nid,
        record d { requests = d.requests + nodes; qs = qs' },
        suc m,
        ap (alloc_from nodes cap answer nid (L (c nid)) d) e ∙ rw (all, q) refl,
        given (d.requests + nid),
        omega arith,
        record {
          behind = λ j k.
              update-cases (λ n. n ≤ suc m) c nid j (suc (c nid)) (omega arith)
                (λ ne. let low = v.behind j k in omega arith);
          left = λ j k. elim (ℕ_discrete j nid) [
            | yes same ↦ rw (same, update_self c nid (suc (c nid)), pushed.asker, e) (omega arith)
            | no ne ↦
                rw
                  (
                    update_ne c nid j (suc (c nid)) ne,
                    more j k ne,
                    length-append (d.qs j) ((L (c nid), allocs j) ∷ []),
                    v.left j k,
                  )
                  (let low = v.behind j k in omega arith)
          ];
          queued = λ j k. elim (ℕ_discrete j nid) [
            | yes same ↦ rw (same, pushed.asker, e) tt
            | no ne ↦
                rw (update_ne c nid j (suc (c nid)) ne, more j k ne, last, at j k)
                  (Queue-append L (c j) (allocs j) (d.qs j) (v.queued j k) (given (d.requests + j)))
          ];
        },
      )

  alloc-Next :
      (L : ℕ → Layout) (c : ℕ → ℕ) (m nid : ℕ) (d : DeterministicAlloc) (xs : List (Layout × ℕ))
      → nid < nodes
      → ((i : ℕ) → answer i ≢ 0)
      → d.qs nid ≡ xs
      → m < cap
      → Inv L c m d
      → Next L c m nid (alloc nodes cap answer nid (L (c nid)) d)
  alloc-Next L c m nid d [] h given e room v =
      fill-Next L c m nid d h given e (λ j k ne. let len = v.left j k in omega arith) v
  alloc-Next L c m nid d ((l, p) ∷ rest) h given e room v = pop-Next L c m nid d l p rest h e v

  -- The replicas make their requests, which are the same ones in the same order, in any order among
  -- themselves: a list of the nodes, each with its next request.
  pub run : (ℕ → Layout) → (ℕ → ℕ) → List ℕ → DeterministicAlloc → Outcome (List ℕ)
  run L c [] d = ok []
  run L c (nid ∷ nids) d =
      let (r, e) = alloc nodes cap answer nid (L (c nid)) d in
      and_then r λ p. and_then (run L (update c nid (suc (c nid))) nids e) λ ps. ok (p ∷ ps)

  run-given_from :
      (L : ℕ → Layout) (c : ℕ → ℕ) (m : ℕ) (nids : List ℕ) (d : DeterministicAlloc)
      → ((i : ℕ) → answer i ≢ 0)
      → All (λ nid. nid < nodes) nids
      → m + length nids ≤ cap
      → Inv L c m d
      → (ps : List ℕ) × (run L c nids d ≡ ok ps) × All (λ p. p ≢ 0) ps
  unfolding run Next
  run-given_from L c m [] d given h room v = ([], refl, tt)
  run-given_from L c m (nid ∷ nids) d given (h, hs) room v =
      let (p, e, m', q, some_pointer, few, w) =
        alloc-Next L c m nid d (d.qs nid) h given refl (omega arith) v in
      let (ps, r, all) =
        run-given_from L (update c nid (suc (c nid))) m' nids e given hs (omega arith) w in
      (p ∷ ps, rw (q, r) refl, (some_pointer, all))

  -- If no allocation of the allocator fails, then whatever the order in which the replicas make their
  -- requests, the same ones in the same order on each, and as long as there are no more requests than
  -- places in a queue, each of them is answered with a pointer; none panics.
  pub run-given :
      (L : ℕ → Layout) (nids : List ℕ)
      → ((i : ℕ) → answer i ≢ 0)
      → All (λ nid. nid < nodes) nids
      → length nids ≤ cap
      → (ps : List ℕ) × (run L (λ j. 0) nids empty ≡ ok ps) × All (λ p. p ≢ 0) ps
  run-given L nids given h room =
      run-given_from L (λ j. 0) 0 nids empty given h (omega arith) (empty-Inv L)
