-- ===== src/Fs/Mlnr/Create.antt =====
-- `create` and `mkdir` of `kernel/src/fs/mod.rs`, on every branch.
use node_replicated_kernel.Prelude.{
  ℕ, String, ◌≡◌, refl, ◌⊎◌, inl, inr, none, some, Option-cases, add64, nat_eq, string_eq,
}
use node_replicated_kernel.Prelude.Dict.{lookup, insert}
use node_replicated_kernel.Prelude.Outcome.{
  Outcome, ok, err, already_present, out_of_memory, Heap, Refusal, request_cases,
}
use node_replicated_kernel.Kpi.Io.{FileType}
use node_replicated_kernel.Fs.Mnode.{MemNode}
use node_replicated_kernel.Fs.Mnode.Access.{NodeValid, new-Gives}
use node_replicated_kernel.Fs.Mlnr.{MlnrFs, ArcMnode, Store, create_node, get_next_mno}

-- The file system with a node of the next number under `name`.
abbrev pub with_node : MlnrFs → String → MemNode → MlnrFs
with_node fs name node = record fs {
  mnodes = insert fs.nextmemnode node fs.mnodes;
  files = insert name (record { value = fs.nextmemnode; strong = 1 }) fs.files;
  nextmemnode = add64 fs.nextmemnode 1;
}

-- A name that is taken is refused, and nothing changes; a request that is refused leaves at most the
-- counter moved on; and otherwise the name gets a well-formed node of the type `t`, whose number is
-- reported.
pub data Created (fs : MlnrFs) (h : Heap) (name : String) (t : FileType) (r : Outcome ℕ × Store)
    : Type 0 where
  present :
      (a : ArcMnode)
      → lookup name fs.files ≡ some a
      → r ≡ (err already_present, (fs, h))
      → Created fs h name t r
  no_memory :
      (n : ℕ) (g : Heap)
      → lookup name fs.files ≡ none
      → (n ≡ fs.nextmemnode) ⊎ (n ≡ add64 fs.nextmemnode 1)
      → Refusal h
      → r ≡ (err out_of_memory, (record fs { nextmemnode = n }, g))
      → Created fs h name t r
  created :
      (node : MemNode) (g : Heap)
      → lookup name fs.files ≡ none
      → NodeValid node
      → node.mnode_num ≡ fs.nextmemnode
      → node.node_type ≡ t
      → r ≡ (ok fs.nextmemnode, (with_node fs name node, g))
      → Created fs h name t r

pub create_node-Created :
    (name : String) (modes : ℕ) (t : FileType) (fs : MlnrFs) (h : Heap)
    → Created fs h name t (create_node name modes t (fs, h))
unfolding create_node get_next_mno
create_node-Created name modes t fs h = elim (Option-cases (lookup name fs.files)) [
  | inr (a, e) ↦ rw e (present a e refl)
  | inl e ↦ rw e (elim (request_cases h) [
    | inr (g, p, s) ↦ rw p (no_memory fs.nextmemnode g e (inl refl) s refl)
    | inl (g, p, s) ↦ rw p (elim (request_cases g) [
      | inr (k, p', s') ↦ rw p' (no_memory _ k e (inr refl) (s s') refl)
      | inl (k, p', s') ↦ rw p' (elim (request_cases k) [
        | inr (l, q, u) ↦ rw q (no_memory _ l e (inr refl) (s (s' u)) refl)
        | inl (l, q, u) ↦ rw q (
            let (node, gives, v, num, ty) = new-Gives fs.nextmemnode modes name t l in
            elim gives [
              | inr (m, q', w) ↦ rw q' (no_memory _ m e (inr refl) (s (s' (u w))) refl)
              | inl (m, q', w) ↦ rw q' (created node m e v num ty refl)
            ])
      ])
    ])
  ])
]
