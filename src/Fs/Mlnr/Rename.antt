-- ===== src/Fs/Mlnr/Rename.antt =====
-- `delete` and `rename` of `kernel/src/fs/mod.rs` on every branch.
use node_replicated_kernel.Prelude.{
  ℕ, String, ◌≡◌, ◌≢◌, refl, sym, ap, subst, ◌∙◌, List, Option-cases, Bool-cases, inl, inr, Option,
  none, some, ◌==◌, nat_eq, string_eq,
}
use mathlib.Core.Bool.{false≢true}
use mathlib.Core.Option.{some-injective}
use node_replicated_kernel.Fs.Mnode.{MemNode}
use node_replicated_kernel.Prelude.Dict.{
  lookup, remove, lookup-insert_self, lookup-insert_ne, lookup-remove_self, lookup-remove_ne,
  none≢some,
}
use node_replicated_kernel.Prelude.Outcome.{
  Outcome, chain, ok, err, panic, invalid_file, permission_error, out_of_memory, Heap, Refusal,
  request_cases,
}
use node_replicated_kernel.Fs.Mlnr.{
  MlnrFs, ArcMnode, Store, delete, make_way, unwrap_delete, move_entry, rename, on_fs,
}

-- The names of `fs'` are those of `fs` without `p`.
abbrev pub Without : String → MlnrFs → MlnrFs → Type 0
Without p fs fs' =
    (lookup p fs'.files ≡ none) × ((x : String) → p ≢ x → lookup x fs'.files ≡ lookup x fs.files)

-- A name that is not there, or that more than one owner shares, is refused and nothing changes; and
-- otherwise the name and its node go, and no other.
pub data Deleted (p : String) (fs : MlnrFs) (r : Outcome (Unit {0}) × MlnrFs) : Type 0 where
  missing : lookup p fs.files ≡ none → r ≡ (err invalid_file, fs) → Deleted p fs r
  shared :
      (a : ArcMnode)
      → lookup p fs.files ≡ some a
      → a.strong ≢ 1
      → r ≡ (err permission_error, fs)
      → Deleted p fs r
  deleted :
      (a : ArcMnode)
      → lookup p fs.files ≡ some a
      → a.strong ≡ 1
      → r.0 ≡ ok tt
      → Without p fs r.1
      → lookup a.value r.1.mnodes ≡ none
      → ((k : ℕ) → a.value ≢ k → lookup k r.1.mnodes ≡ lookup k fs.mnodes)
      → Deleted p fs r

-- `delete` is `Deleted`: it frees the node of a name with one owner, and otherwise changes nothing.
pub delete-Deleted : (p : String) (fs : MlnrFs) → Deleted p fs (delete p fs)
unfolding delete
delete-Deleted p fs = elim (Option-cases (lookup p fs.files)) [
  | inl e ↦ rw (e, delete) (missing e refl)
  | inr (a, e) ↦ elim (Bool-cases (a.strong == 1)) [
    | inl one ↦
        rw (e, delete, one)
          (deleted a e ((nat_eq.beq_iff a.strong 1).0 one) refl
            (lookup-remove_self p fs.files, λ x ne. lookup-remove_ne p x fs.files ne)
            (lookup-remove_self a.value fs.mnodes)
            (λ k ne. lookup-remove_ne a.value k fs.mnodes ne))
    | inr more ↦
        rw (e, delete, more)
          (shared a e (λ one. false≢true (sym more ∙ (nat_eq.beq_iff a.strong 1).1 one)) refl)
  ]
]

unwrap_delete-ok : (r : Outcome (Unit {0}) × MlnrFs) → r.0 ≡ ok tt → unwrap_delete r ≡ (ok tt, r.1)
unwrap_delete-ok (x, fs) e = rw e refl

-- `q` has the entry that `p` had, and no other name changed.
pub record Moves (p q : String) (a : ArcMnode) (fs fs' : MlnrFs) : Type 0 where
  pub at_new : lookup q fs'.files ≡ some a
  pub at_old : lookup p fs'.files ≡ none
  pub at_other : (x : String) → p ≢ x → q ≢ x → lookup x fs'.files ≡ lookup x fs.files

move_entry-Moves :
    (p q : String) (a : ArcMnode) (fs fs' : MlnrFs)
    → p ≢ q
    → lookup p fs.files ≡ some a
    → Without q fs fs'
    → ((move_entry p q fs').0 ≡ ok tt)
      × ((move_entry p q fs').1.mnodes ≡ fs'.mnodes)
      × Moves p q a fs (move_entry p q fs').1
unfolding move_entry
move_entry-Moves p q a fs fs' ne e (gone, same) =
    let here : lookup p fs'.files ≡ some a = same p (λ x. ne (sym x)) ∙ e in
    let free : lookup q (remove p fs'.files) ≡ none = lookup-remove_ne p q fs'.files ne ∙ gone in
    rw (here, move_entry, free)
      (
        refl,
        refl,
        record {
          at_new = lookup-insert_self q a (remove p fs'.files);
          at_old =
              lookup-insert_ne q p a (remove p fs'.files) (λ x. ne (sym x))
              ∙ lookup-remove_self p fs'.files;
          at_other = λ x np nq.
              lookup-insert_ne q x a (remove p fs'.files) nq
              ∙ lookup-remove_ne p x fs'.files np
              ∙ same x nq;
        },
      )

-- The node of the entry that was at the new name is gone, and no other is.
abbrev pub Freed : Option ArcMnode → List (ℕ × MemNode) → List (ℕ × MemNode) → Type 0
Freed none m m' = m' ≡ m
Freed (some b) m m' =
    (lookup b.value m' ≡ none) × ((k : ℕ) → b.value ≢ k → lookup k m' ≡ lookup k m)

-- The old name is missing; the allocator refuses; the new name is in use by another owner, and the
-- `unwrap` panics; the names are one, and its file is deleted with an error reported; or the entry
-- moves, the node of the one that it replaces is freed, and no other name or node changes.
pub data Renamed (p q : String) (fs : MlnrFs) (h : Heap) (r : Outcome (Unit {0}) × Store)
    : Type 0 where
  missing : lookup p fs.files ≡ none → r ≡ (err invalid_file, (fs, h)) → Renamed p q fs h r
  no_memory : (g : Heap) → Refusal h → r ≡ (err out_of_memory, (fs, g)) → Renamed p q fs h r
  in_use :
      (b : ArcMnode) (g : Heap)
      → lookup q fs.files ≡ some b
      → b.strong ≢ 1
      → r ≡ (panic, (fs, g))
      → Renamed p q fs h r
  lost :
      (a : ArcMnode)
      → p ≡ q
      → lookup p fs.files ≡ some a
      → a.strong ≡ 1
      → r.0 ≡ err invalid_file
      → Without p fs r.1.0
      → lookup a.value r.1.0.mnodes ≡ none
      → Renamed p q fs h r
  moved :
      (a : ArcMnode)
      → p ≢ q
      → lookup p fs.files ≡ some a
      → r.0 ≡ ok tt
      → Moves p q a fs r.1.0
      → Freed (lookup q fs.files) fs.mnodes r.1.0.mnodes
      → Renamed p q fs h r

module _ (p q : String) (a : ArcMnode) (fs : MlnrFs) (h g : Heap)
    (e : lookup p fs.files ≡ some a) where
  -- What is left to do once there is memory.
  abbrev rest : Outcome (Unit {0}) × MlnrFs → Outcome (Unit {0}) × Store
  rest r = chain (on_fs (λ _. r) (fs, g)) (λ _. on_fs (move_entry p q))

  rest-moved :
      (fs' : MlnrFs)
      → p ≢ q
      → Without q fs fs'
      → Freed (lookup q fs.files) fs.mnodes fs'.mnodes
      → Renamed p q fs h (rest (ok tt, fs'))
  rest-moved fs' ne w f =
      let (r, nodes, moves) = move_entry-Moves p q a fs fs' ne e w in
      moved a ne e r moves
        (subst (λ (m : List (ℕ × MemNode)). Freed (lookup q fs.files) fs.mnodes m) (sym nodes) f)

  -- The new name is the old one: its file is gone when the entry is looked for.
  rest-lost :
      (fs' : MlnrFs)
      → p ≡ q
      → a.strong ≡ 1
      → Without p fs fs'
      → lookup a.value fs'.mnodes ≡ none
      → Renamed p q fs h (rest (ok tt, fs'))
  unfolding move_entry
  rest-lost fs' same one w f = rw (w.0, move_entry) (lost a same e one refl w f)

  rest-Renamed : Renamed p q fs h (rest (make_way q fs))
  unfolding make_way
  rest-Renamed = elim (delete-Deleted q fs) [
    | missing n r ↦
        rw (n, make_way)
          (rest-moved fs
            (λ s. none≢some (sym n ∙ ap (λ (x : String). lookup x fs.files) (sym s) ∙ e))
            (n, λ x ne. refl) (rw n refl))
    | shared b n more r ↦ rw (n, make_way, r) (in_use b g n more refl)
    | deleted b n one r w gone others ↦
        rw (n, make_way, unwrap_delete-ok (delete q fs) r)
          (elim (Bool-cases (string_eq.beq p q)) [
            | inl t ↦
                let same = (string_eq.beq_iff p q).0 t in
                let here : a ≡ b =
                  some-injective a b (sym e ∙ ap (λ (x : String). lookup x fs.files) same ∙ n) in
                rest-lost _ same (ap (λ (x : ArcMnode). x.strong) here ∙ one)
                  (subst (λ (x : String). Without x fs (delete q fs).1) (sym same) w)
                  (ap (λ (x : ArcMnode). lookup x.value (delete q fs).1.mnodes) here ∙ gone)
            | inr f ↦
                rest-moved _ (λ s. false≢true (sym f ∙ (string_eq.beq_iff p q).1 s)) w
                  (rw n (gone, others))
          ])
  ]

-- `rename` is `Renamed`: it moves the entry and frees the node that it replaces, and on every other
-- branch but one changes nothing; a name that is renamed to itself loses its file.
pub rename-Renamed : (p q : String) (fs : MlnrFs) (h : Heap) → Renamed p q fs h (rename p q (fs, h))
unfolding rename
rename-Renamed p q fs h = elim (Option-cases (lookup p fs.files)) [
  | inl e ↦ rw (e, rename) (missing e refl)
  | inr (a, e) ↦ elim (request_cases h) [
    | inr (g, r, s) ↦ rw (e, rename, r) (no_memory g s refl)
    | inl (g, r, s) ↦ rw (e, rename, r) (rest-Renamed p q a fs h g e)
  ]
]
