-- ===== src/Fs/Mlnr/Inv.antt =====
-- The invariant of `MlnrFS` of `kernel/src/fs/mod.rs`, kept by every operation on every branch.
use node_replicated_kernel.Prelude.{
  ℕ, ◌+◌, ◌<◌, String, ◌≡◌, ◌≢◌, refl, sym, ap, subst, ◌∙◌, inl, inr, [], ◌∷◌, some, word, nat_eq,
  string_eq, arith,
}
use node_replicated_kernel.Prelude.Dict.{
  lookup, lookup-insert_self, lookup-insert_ne, insert-cases, lookup-single,
}
use node_replicated_kernel.Fs.Mnode.{MemNode}
use node_replicated_kernel.Fs.Mnode.Access.{NodeValid}
use node_replicated_kernel.Fs.Mlnr.{MlnrFs, ArcMnode, root_node, rootdir, default}
use node_replicated_kernel.Fs.Mlnr.Create.{with_node}

-- Every name has a node, two names have two, and every node is well-formed, knows its number, and
-- has one that is below the next.
pub record Inv (fs : MlnrFs) : Type 0 where
  pub named :
      (p : String) (a : ArcMnode)
      → lookup p fs.files ≡ some a
      → (n : MemNode) × (lookup a.value fs.mnodes ≡ some n)
  pub apart :
      (p q : String) (a b : ArcMnode)
      → lookup p fs.files ≡ some a
      → lookup q fs.files ≡ some b
      → a.value ≡ b.value
      → p ≡ q
  pub numbered :
      (k : ℕ) (n : MemNode) → lookup k fs.mnodes ≡ some n → (n.mnode_num ≡ k) × (k < fs.nextmemnode)
  pub valid : (k : ℕ) (n : MemNode) → lookup k fs.mnodes ≡ some n → NodeValid n

pub named-lt :
    {fs : MlnrFs}
    → Inv fs
    → (p : String) (a : ArcMnode) → lookup p fs.files ≡ some a
    → a.value < fs.nextmemnode
named-lt i p a e = let (n, q) = i.named p a e in (i.numbered a.value n q).1

pub with_node-Inv :
    (fs : MlnrFs) (name : String) (node : MemNode)
    → Inv fs
    → fs.nextmemnode + 1 < word
    → NodeValid node
    → node.mnode_num ≡ fs.nextmemnode
    → Inv (with_node fs name node)
with_node-Inv fs name node i fits v num = record {
  named = λ p a e. elim (insert-cases name p _ a files e) [
    | inl (_, same) ↦ (node, rw (← same) (lookup-insert_self next node mnodes))
    | inr (_, old) ↦
        let (n, q) = i.named p a old in
        (
          n,
          lookup-insert_ne next a.value node mnodes (λ x. old_ne a.value (named-lt i p a old) x)
              ∙ q,
        )
  ];
  apart = λ p q a b e f same. elim (insert-cases name p _ a files e) [
    | inl (x, s) ↦ elim (insert-cases name q _ b files f) [
      | inl (y, _) ↦ sym x ∙ y
      | inr (_, old) ↦
          absurd (old_ne b.value (named-lt i q b old) (ap (λ (z : ArcMnode). z.value) s ∙ same))
    ]
    | inr (_, old) ↦ elim (insert-cases name q _ b files f) [
      | inl (_, s) ↦
          absurd (old_ne a.value (named-lt i p a old) (ap (λ (z : ArcMnode). z.value) s ∙ sym same))
      | inr (_, old') ↦ i.apart p q a b old old' same
    ]
  ];
  numbered = λ k n e. elim (insert-cases next k node n mnodes e) [
    | inl (x, s) ↦ (ap (λ (z : MemNode). z.mnode_num) (sym s) ∙ num ∙ x, omega (arith, x))
    | inr (_, old) ↦ let (x, l) = i.numbered k n old in (x, omega (arith, l))
  ];
  valid = λ k n e. elim (insert-cases next k node n mnodes e) [
    | inl (_, s) ↦ subst NodeValid s v
    | inr (_, old) ↦ i.valid k n old
  ];
}
  where
    open fs use {files, mnodes, nextmemnode as next}

    old_ne : (k : ℕ) → k < next → next ≢ k
    old_ne k l x = omega arith

abbrev root_entry : ArcMnode
root_entry = record { value = 1; strong = 1 }

root_found : lookup {K = ℕ} {V = MemNode} 1 ((1, root_node) ∷ []) ≡ some root_node
unfolding lookup
root_found = refl

-- The root directory alone.
pub default-Inv : Inv default
unfolding default
default-Inv = record {
  named = λ p a e.
      let (_, s) = lookup-single rootdir p root_entry a e in
      (root_node, ap (λ (z : ArcMnode). lookup z.value default.mnodes) (sym s) ∙ root_found);
  apart = λ p q a b e f same.
      sym (lookup-single rootdir p root_entry a e).0 ∙ (lookup-single rootdir q root_entry b f).0;
  numbered = λ k n e.
      let (x, s) = lookup-single 1 k root_node n e in
      (ap (λ (z : MemNode). z.mnode_num) (sym s) ∙ x, omega (arith, x));
  valid = λ k n e. subst NodeValid (lookup-single 1 k root_node n e).1 tt;
}
