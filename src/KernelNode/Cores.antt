-- ===== src/KernelNode/Cores.antt =====
-- The cores that `kernel/src/nr.rs` gives to processes.
use node_replicated_kernel.Prelude.{
  ℕ, ◌≡◌, refl, sym, ◌∙◌, inl, inr, Bool-cases, Option, none, some, List, [], ◌∷◌, is_some, ltb,
  nat_eq, ℕ_discrete, ap, ◌+◌, zero, suc,
}
use node_replicated_kernel.Prelude.Dict.{
  lookup, insert, lookup-insert_ne, lookup-insert_self, none≢some,
}
use node_replicated_kernel.Prelude.Outcome.{
  Outcome, ok, err, panic, Heap, request_cases, KError, out_of_memory, core_already_allocated,
}
use node_replicated_kernel.KernelNode.Pids.{is_some-none}
use node_replicated_kernel.KernelNode.{
  KernelNode, Store, NodeResult, Op, allocate_pid, free_pid, sched_allocate_core, CoreInfo,
  core_info, current_process, dispatch, info_or_none, dispatch_mut, run, allocate_core, first_pid,
  core_allocated, max_processes, max_cores,
}

-- The core has a process and starts it so.
abbrev pub Runs : ℕ → CoreInfo → KernelNode → Type 0
Runs gtid info node = lookup gtid node.scheduler_map ≡ some info

first_pid-Runs : (n i : ℕ) (s : Store) → (first_pid n i s).1.0.scheduler_map ≡ s.0.scheduler_map
unfolding first_pid
first_pid-Runs zero i s = refl
first_pid-Runs (suc n) i (node, h) = elim (Bool-cases (is_some (lookup i node.process_map))) [
  | inl t ↦ rw t (first_pid-Runs n (i + 1) (node, h))
  | inr f ↦ elim (request_cases h) [
    | inl (g, e, _) ↦ rw (f, e) (rw f refl)
    | inr (g, e, _) ↦ rw (f, e) refl
  ]
]

-- A core without a process is given one, or none.
data Given (pid gtid entry_point : ℕ) (node : KernelNode)
    : Outcome NodeResult × Store → Type 0 where
  given :
      (g : Heap)
      → lookup gtid node.scheduler_map ≡ none
      → Given pid gtid entry_point node (
        ok (core_allocated gtid),
        (
          record node {
            scheduler_map =
                insert gtid (record { pid = pid; entry_point = entry_point }) node.scheduler_map;
          },
          g,
        ),
      )
  kept : (e : KError) (g : Heap) → Given pid gtid entry_point node (err e, (node, g))

allocate_core-Given :
    (pid gtid entry_point : ℕ) (node : KernelNode) (h : Heap)
    → Given pid gtid entry_point node (allocate_core pid gtid entry_point (node, h))
allocate_core-Given pid gtid entry_point node h =
    elim (Bool-cases (is_some (lookup gtid node.scheduler_map))) [
      | inl t ↦ rw t (kept core_already_allocated h)
      | inr f ↦ elim (request_cases h) [
        | inl (g, e, _) ↦ rw (f, e) (rw f (given g (is_some-none _ f)))
        | inr (g, e, _) ↦ rw (f, e) (kept out_of_memory g)
      ]
    ]

Given-Runs :
    (pid gtid entry_point c : ℕ) (info : CoreInfo) (node : KernelNode)
    (r : Outcome NodeResult × Store)
    → Runs c info node
    → Given pid gtid entry_point node r
    → Runs c info r.1.0
Given-Runs pid gtid entry_point c info node _ h (given g free) = elim (ℕ_discrete gtid c) [
  | yes e ↦ absurd (none≢some {a = info} (sym free ∙ (ap (λ k. lookup k node.scheduler_map) e ∙ h)))
  | no ne ↦
      lookup-insert_ne gtid c (record { pid = pid; entry_point = entry_point }) node.scheduler_map
        ne
      ∙ h
]
Given-Runs pid gtid entry_point c info node _ h (kept e g) = h

dispatch_mut-Runs :
    (op : Op) (c : ℕ) (info : CoreInfo) (node : KernelNode) (h : Heap)
    → Runs c info node
    → Runs c info (dispatch_mut op (node, h)).1.0
unfolding dispatch_mut
dispatch_mut-Runs allocate_pid c info node h r =
    ap (lookup c) (first_pid-Runs max_processes 0 (node, h)) ∙ r
dispatch_mut-Runs (free_pid pid) c info node h r =
    elim (Bool-cases (is_some (lookup pid node.process_map))) [ inl t ↦ rw t r | inr f ↦ rw f r ]
dispatch_mut-Runs (sched_allocate_core pid affinity (some gtid) entry_point) c info node h r =
    elim (Bool-cases (ltb gtid max_cores)) [
      | inl t ↦ rw t (
          Given-Runs pid gtid entry_point c info node _ r
            (allocate_core-Given pid gtid entry_point node h))
      | inr f ↦ rw f r
    ]
dispatch_mut-Runs (sched_allocate_core pid affinity none entry_point) c info node h r = r

run-Runs :
    (ops : List Op) (c : ℕ) (info : CoreInfo) (s : Store)
    → Runs c info s.0
    → Runs c info (run ops s).0
unfolding run
run-Runs [] c info s r = r
run-Runs (op ∷ ops) c info (node, h) r =
    run-Runs ops c info (dispatch_mut op (node, h)).1 (dispatch_mut-Runs op c info node h r)

Given-ok :
    (pid gtid entry_point : ℕ) (node : KernelNode) (r : Outcome NodeResult × Store) (x : NodeResult)
    → r.0 ≡ ok x
    → Given pid gtid entry_point node r
    → Runs gtid (record { pid = pid; entry_point = entry_point }) r.1.0
Given-ok pid gtid entry_point node _ x h (given g free) =
    lookup-insert_self gtid (record { pid = pid; entry_point = entry_point }) node.scheduler_map
Given-ok pid gtid entry_point node _ x h (kept e g) = absurd (err≢ok h)
  where
    err≢ok : err e ≡ ok x → ⊥
    err≢ok q = cc

sched-Runs :
    (pid gtid entry_point : ℕ) (affinity : Option ℕ) (node : KernelNode) (h : Heap) (x : NodeResult)
    → (let r = dispatch_mut (sched_allocate_core pid affinity (some gtid) entry_point) (node, h) in
        r.0 ≡ ok x → Runs gtid (record { pid = pid; entry_point = entry_point }) r.1.0)
unfolding dispatch_mut
sched-Runs pid gtid entry_point affinity node h x e = elim (Bool-cases (ltb gtid max_cores)) [
  | inl t ↦
      let q : (allocate_core pid gtid entry_point (node, h)).0 ≡ ok x = rw t at e in
      rw t
        (Given-ok pid gtid entry_point node _ x q (allocate_core-Given pid gtid entry_point node h))
  | inr f ↦ let q : panic ≡ ok x = rw f at e in absurd (by_cc q)
]
  where
    by_cc : panic ≡ ok x → ⊥
    by_cc q = cc

dispatch-Runs :
    (gtid : ℕ) (info : CoreInfo) (node : KernelNode)
    → Runs gtid info node
    → dispatch (current_process gtid) node ≡ ok (core_info info)
unfolding dispatch
dispatch-Runs gtid info node h = ap info_or_none h

-- A core that was allocated to a process answers with this process and this entry point after any
-- operations, whatever the allocator answers: no operation takes it back or gives it away, not even
-- the return of the process's number.
pub run-current_process :
    (pid gtid entry_point : ℕ) (affinity : Option ℕ) (ops : List Op) (node : KernelNode) (h : Heap)
    (x : NodeResult)
    → (let r = dispatch_mut (sched_allocate_core pid affinity (some gtid) entry_point) (node, h) in
        r.0 ≡ ok x
        → dispatch (current_process gtid) (run ops r.1).0
          ≡ ok (core_info (record { pid = pid; entry_point = entry_point })))
run-current_process pid gtid entry_point affinity ops node h x e =
    let r = dispatch_mut (sched_allocate_core pid affinity (some gtid) entry_point) (node, h) in
    let info : CoreInfo = record { pid = pid; entry_point = entry_point } in
    dispatch-Runs gtid info (run ops r.1).0
      (run-Runs ops gtid info r.1 (sched-Runs pid gtid entry_point affinity node h x e))
