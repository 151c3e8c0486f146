-- ===== src/Fs/Mlnr/Names.antt =====
-- Which number a name of `MlnrFS` has, and that the operations of `FileOpen` keep it.
use node_replicated_kernel.Prelude.{
  ℕ, ◌+◌, ◌-◌, sym, ◌∙◌, String, ◌≡◌, refl, ap, ◌⊎◌, inl, inr, Option, none, some, Option-cases,
  nat_eq, string_eq,
}
use node_replicated_kernel.Prelude.Dict.{lookup, lookup-insert_self, none≢some}
use node_replicated_kernel.Prelude.Outcome.{
  Outcome, ok, err, KError, already_present, out_of_memory, permission_error, Heap,
}
use node_replicated_kernel.Kpi.Io.{file}
use node_replicated_kernel.Fs.Mnode.Access.{file_truncate-outcome}
use node_replicated_kernel.Fs.Mlnr.{
  MlnrFs, ArcMnode, Store, lookup_name, drop_name, share, truncate, truncate_node, create,
}
use node_replicated_kernel.Fs.Mlnr.Create.{present, no_memory, created, create_node-Created}
use node_replicated_kernel.Fs.Mlnr.Inv.{Inv}

-- The number of an entry, and of a name.
abbrev value_of : Option ArcMnode → Option ℕ
value_of found = elim found [ some a ↦ some a.value | none ↦ none ]

abbrev pub number_of : MlnrFs → String → Option ℕ
number_of fs name = value_of (lookup name fs.files)

pub lookup_name-number_of :
    (fs : MlnrFs) (name : String) → (lookup_name name fs).0 ≡ number_of fs name
unfolding lookup_name
lookup_name-number_of fs name = refl

-- The owners are counted anew.
share-keeps :
    (change : ℕ → ℕ) (fs : MlnrFs) (name : String) (found : Option ArcMnode)
    → lookup name fs.files ≡ found
    → number_of (share change found name fs) name ≡ number_of fs name
unfolding share
share-keeps change fs name none e = refl
share-keeps change fs name (some a) e =
    ap value_of (lookup-insert_self name (record a { strong = change a.strong }) fs.files)
    ∙ sym (ap value_of e)

pub lookup_name-keeps :
    (fs : MlnrFs) (name : String) → number_of (lookup_name name fs).1 name ≡ number_of fs name
unfolding lookup_name
lookup_name-keeps fs name = share-keeps (λ n. n + 1) fs name (lookup name fs.files) refl

pub drop_name-keeps :
    (fs : MlnrFs) (name : String) → number_of (drop_name name fs) name ≡ number_of fs name
unfolding drop_name
drop_name-keeps fs name = share-keeps (λ n. n - 1) fs name (lookup name fs.files) refl

-- An operation fails with an error, or gives `r` and a file system where `name` has the number `k`.
abbrev pub Numbers : {A : Type 0} → String → A → ℕ → Outcome A × MlnrFs → Type 0
Numbers name a k r = ((e : KError) × (r.0 ≡ err e)) ⊎ ((r.0 ≡ ok a) × (number_of r.1 name ≡ some k))

pub truncate-Numbers :
    (fs : MlnrFs) (name : String) (k : ℕ)
    → Inv fs
    → number_of fs name ≡ some k
    → Numbers name tt k (truncate name fs)
unfolding truncate truncate_node
truncate-Numbers fs name k i num = elim (Option-cases (lookup name fs.files)) [
  | inl e ↦ absurd (none≢some (rw (number_of, e) at num))
  | inr (a, e) ↦
      let (n, q) = i.named name a e in
      elim (file_truncate-outcome n n.node_type n.contents refl refl (i.valid a.value n q)) [
        | inr w ↦ inl (permission_error, rw (e, truncate, q) w)
        | inl w ↦ inr (rw (e, truncate, q) w, rw (e, truncate, q, number_of) num)
      ]
]

pub create-Numbers :
    (fs : MlnrFs) (h : Heap) (name : String) (modes : ℕ)
    → Numbers name fs.nextmemnode fs.nextmemnode
        (let (r, (fs', h')) = create name modes (fs, h) in (r, fs'))
unfolding create
create-Numbers fs h name modes = elim (create_node-Created name modes file fs h) [
  | present a e q ↦ inl (already_present, ap (λ (x : Outcome ℕ × Store). x.0) q)
  | no_memory n g e m s q ↦ inl (out_of_memory, ap (λ (x : Outcome ℕ × Store). x.0) q)
  | created node g e v m t q ↦ inr (
    ap (λ (x : Outcome ℕ × Store). x.0) q,
    ap (λ (x : Outcome ℕ × Store). number_of x.1.0 name) q
        ∙ ap value_of
            (lookup-insert_self name (record { value = fs.nextmemnode; strong = 1 }) fs.files),
  )
]
