-- ===== src/Fs/Mlnr/Maps.antt =====
-- Single changes of the maps of `kernel/src/fs/mod.rs` that keep the invariant.
use node_replicated_kernel.Prelude.{
  ℕ, ◌<◌, String, ◌≡◌, ◌≢◌, refl, sym, ap, subst, ◌∙◌, ◌⊎◌, inl, inr, some, nat_eq, string_eq,
  ℕ_discrete,
}
use node_replicated_kernel.Prelude.Dict.{
  lookup, insert, remove, lookup-insert_self, lookup-insert_ne, lookup-remove_ne, insert-cases,
  remove-cases,
}
use node_replicated_kernel.Fs.Mnode.{MemNode}
use node_replicated_kernel.Fs.Mnode.Access.{NodeValid}
use node_replicated_kernel.Fs.Mlnr.{MlnrFs, ArcMnode}
use node_replicated_kernel.Fs.Mlnr.Inv.{Inv}

module _ (fs : MlnrFs) (i : Inv fs) where
  open fs use {files, mnodes, nextmemnode}

  -- A node is replaced by a well-formed one of the same number.
  pub replace-Inv :
      (k : ℕ) (n n' : MemNode)
      → lookup k mnodes ≡ some n
      → NodeValid n'
      → n'.mnode_num ≡ n.mnode_num
      → Inv (record fs { mnodes = insert k n' mnodes })
  replace-Inv k n n' e v num = record {
    named = λ p a q. elim (ℕ_discrete k a.value) [
      | yes same ↦ (n', rw (← same) (lookup-insert_self k n' mnodes))
      | no other ↦ let (m, r) = i.named p a q in (m, lookup-insert_ne k a.value n' mnodes other ∙ r)
    ];
    apart = i.apart;
    numbered = λ j m q. elim (insert-cases k j n' m mnodes q) [
      | inl (x, s) ↦
          let (y, l) = i.numbered k n e in
          (
            ap (λ (z : MemNode). z.mnode_num) (sym s) ∙ num ∙ y ∙ x,
            subst (λ z. z < nextmemnode) x l,
          )
      | inr (_, old) ↦ i.numbered j m old
    ];
    valid = λ j m q. elim (insert-cases k j n' m mnodes q) [
      | inl (_, s) ↦ subst NodeValid s v
      | inr (_, old) ↦ i.valid j m old
    ];
  }

  -- A name and its node are removed.
  pub remove-Inv :
      (name : String) (a : ArcMnode)
      → lookup name files ≡ some a
      → Inv (record fs { mnodes = remove a.value mnodes; files = remove name files })
  remove-Inv name a e = record {
    named = λ p b q.
        let (ne, old) = remove-cases name p b files q in
        let (n, r) = i.named p b old in
        (n, lookup-remove_ne a.value b.value mnodes (λ s. ne (i.apart name p a b e old s)) ∙ r);
    apart = λ p q b c r s.
        i.apart p q b c (remove-cases name p b files r).1 (remove-cases name q c files s).1;
    numbered = λ k n q. i.numbered k n (remove-cases a.value k n mnodes q).1;
    valid = λ k n q. i.valid k n (remove-cases a.value k n mnodes q).1;
  }

  -- An entry is replaced by one of the same number.
  pub recount-Inv :
      (name : String) (a b : ArcMnode)
      → lookup name files ≡ some a
      → b.value ≡ a.value
      → Inv (record fs { files = insert name b files })
  recount-Inv name a b e same = record {
    named = λ p c q. let (d, r, s) = back p c q in let (n, t) = i.named p d r in (n, rw s t);
    apart = λ p q c d r s t.
        let (c', r', x) = back p c r in
        let (d', s', y) = back q d s in i.apart p q c' d' r' s' (sym x ∙ t ∙ y);
    numbered = i.numbered;
    valid = i.valid;
  }
    where
      back :
          (p : String) (c : ArcMnode)
          → lookup p (insert name b files) ≡ some c
          → (d : ArcMnode) × (lookup p files ≡ some d) × (c.value ≡ d.value)
      back p c q = elim (insert-cases name p b c files q) [
        | inl (x, s) ↦ (
          a,
          subst (λ z. lookup z files ≡ some a) x e,
          ap (λ (z : ArcMnode). z.value) (sym s) ∙ same,
        )
        | inr (_, old) ↦ (c, old, refl)
      ]

  -- An entry moves to a name that has none.
  pub move-Inv :
      (old_name new_name : String) (a : ArcMnode)
      → lookup old_name files ≡ some a
      → Inv (record fs { files = insert new_name a (remove old_name files) })
  move-Inv old_name new_name a e = record {
    named = λ p c q. elim (from p c q) [
      | inl (_, s) ↦
          let (n, t) = i.named old_name a e in
          (n, subst (λ (z : ArcMnode). lookup z.value mnodes ≡ some n) s t)
      | inr (_, r) ↦ i.named p c r
    ];
    apart = λ p q c d r s t. elim (from p c r) [
      | inl (x, u) ↦ elim (from q d s) [
        | inl (y, _) ↦ sym x ∙ y
        | inr (ne, v) ↦ absurd (ne (i.apart old_name q a d e v (ap number u ∙ t)))
      ]
      | inr (ne, u) ↦ elim (from q d s) [
        | inl (_, v) ↦ absurd (ne (i.apart old_name p a c e u (ap number v ∙ sym t)))
        | inr (_, v) ↦ i.apart p q c d u v t
      ]
    ];
    numbered = i.numbered;
    valid = i.valid;
  }
    where
      number : ArcMnode → ℕ
      number z = z.value

      from :
          (p : String) (c : ArcMnode)
          → lookup p (insert new_name a (remove old_name files)) ≡ some c
          → ((new_name ≡ p) × (a ≡ c)) ⊎ ((old_name ≢ p) × (lookup p files ≡ some c))
      from p c q = elim (insert-cases new_name p a c (remove old_name files) q) [
        | inl same ↦ inl same
        | inr (_, rest) ↦ inr (remove-cases old_name p c files rest)
      ]
