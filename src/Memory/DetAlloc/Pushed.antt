-- ===== src/Memory/DetAlloc/Pushed.antt =====
-- The results that `kernel/src/memory/detmem.rs` hands to the other nodes.
use node_replicated_kernel.Prelude.{
  ℕ, zero, suc, ◌+◌, ◌<◌, ◌≤◌, ◌≡◌, ◌≢◌, refl, sym, subst, ap, ◌∙◌, List, [], ◌∷◌, ◌++◌, length,
  true, false, ◌==◌, ltb, update, update_self, update_ne, ℕ_discrete, arith,
}
use node_replicated_kernel.Prelude.Outcome.{ok}
use node_replicated_kernel.Memory.DetAlloc.{Layout, push, push_others, all_given}

module _ (nodes cap : ℕ) (answer : ℕ → ℕ) where
  -- The nodes from `i` to `end` but `nid` have one more result.
  pub record Pushed (nid : ℕ) (l : Layout) (allocs : ℕ → ℕ) (i end : ℕ)
      (qs qs' : ℕ → List (Layout × ℕ)) : Type 0 where
    pub others : (j : ℕ) → i ≤ j → j < end → j ≢ nid → qs' j ≡ qs j ++ (l, allocs j) ∷ []
    pub below : (j : ℕ) → j < i → qs' j ≡ qs j
    pub asker : qs' nid ≡ qs nid

  push-room :
      (i : ℕ) (e : Layout × ℕ) (qs : ℕ → List (Layout × ℕ))
      → length (qs i) < cap
      → push nodes cap answer i e qs ≡ ok (update qs i (qs i ++ e ∷ []))
  unfolding push
  push-room i e qs h = let t : ltb (length (qs i)) cap ≡ true = ground arith in rw t refl

  pub push_others-Pushed :
      (nid : ℕ) (l : Layout) (allocs : ℕ → ℕ) (n i : ℕ) (qs : ℕ → List (Layout × ℕ))
      → ((j : ℕ) → i ≤ j → j < i + n → j ≢ nid → length (qs j) < cap)
      → (qs' : ℕ → List (Layout × ℕ)) × (push_others nodes cap answer nid l allocs n i qs ≡ ok qs')
        × Pushed nid l allocs i (i + n) qs qs'
  unfolding push_others
  push_others-Pushed nid l allocs zero i qs room = (
    qs,
    refl,
    record { others = λ j a b. absurd (omega arith); below = λ j h. refl; asker = refl },
  )
  push_others-Pushed nid l allocs (suc n) i qs room = elim (ℕ_discrete i nid) [
    | yes e ↦
        let t : (i == nid) ≡ true = ground (arith, e) in
        let (qs', q, p) =
          push_others-Pushed nid l allocs n (i + 1) qs
            (λ j a b ne. room j (omega arith) (omega arith) ne) in
        (
          qs',
          rw t q,
          record {
            others = λ j a b ne. p.others j (omega arith) (omega arith) ne;
            below = λ j h. p.below j (omega arith);
            asker = p.asker;
          },
        )
    | no other ↦
        let f : (i == nid) ≡ false = ground (arith, other) in
        let next = update qs i (qs i ++ (l, allocs i) ∷ []) in
        let (qs', q, p) = push_others-Pushed nid l allocs n (i + 1) next λ j a b ne.
          rw (update_ne qs i j (qs i ++ (l, allocs i) ∷ []) (λ z. absurd (omega arith)))
            (room j (omega arith) (omega arith) ne) in
        (
          qs',
          rw (f, push-room i (l, allocs i) qs (room i (omega arith) (omega arith) other)) q,
          record {
            others = λ j a b ne. elim (ℕ_discrete j i) [
              | yes same ↦
                  let here =
                    p.below i (omega arith) ∙ update_self qs i (qs i ++ (l, allocs i) ∷ []) in
                  subst (λ z. qs' z ≡ qs z ++ (l, allocs z) ∷ []) (sym same) here
              | no ne' ↦
                  p.others j (omega arith) (omega arith) ne
                  ∙ ap (λ x. x ++ (l, allocs j) ∷ [])
                      (update_ne qs i j (qs i ++ (l, allocs i) ∷ []) ne')
            ];
            below = λ j h.
                p.below j (omega arith)
                ∙ update_ne qs i j (qs i ++ (l, allocs i) ∷ []) (λ z. absurd (omega arith));
            asker = p.asker ∙ update_ne qs i nid (qs i ++ (l, allocs i) ∷ []) (λ z. other (sym z));
          },
        )
  ]

  pub all_given-true :
      (n : ℕ) (allocs : ℕ → ℕ)
      → ((i : ℕ) → allocs i ≢ 0)
      → all_given nodes cap answer n allocs ≡ true
  unfolding all_given
  all_given-true zero allocs h = refl
  all_given-true (suc n) allocs h =
      let t : (allocs n == 0) ≡ false = ground (arith, h n) in rw t (all_given-true n allocs h)
