-- ===== src/Prelude/Outcome.antt =====
-- What a call gives back: a value, an error of `kernel/src/error.rs`, or a panic. `stuck` is a
-- loop of the model that ran out of fuel. A computation passes its state on in every case.
use Prim.Native.Nat.{ℕ}
use mathlib.Core.Bool.{Bool, true, false}
use mathlib.Core.Path.{◌≡◌, refl}
use mathlib.Core.Logic.{◌⊎◌, inl, inr}
use mathlib.Core.List.{List, [], ◌∷◌}
use mathlib.Core.Option.{Option, none, some}

-- The kernel's errors; an argument is the number that the error carries. That a binary is not found
-- carries its name, which no modelled code raises.
pub data KError : Type 0 where
  bad_address global_memory_not_set core_already_allocated out_of_memory : KError
  replica_not_set process_not_set not_supported out_of_pids no_executor_for_core : KError
  invalid_syscall_argument1 invalid_vspace_operation : ℕ → KError
  invalid_process_operation invalid_system_operation : ℕ → KError
  invalid_layout cache_exhausted cache_full : KError
  cant_grow_further : ℕ → KError
  kcb_unavailable manager_already_borrowed invalid_affinity_id capacity_overflow : KError
  process_loading_failed process_create no_process_found_for_pid unable_to_load : KError
  unable_to_parse_elf no_executor_allocated executor_cache_exhausted : KError
  invalid_global_thread_id executor_no_longer_valid executor_already_borrowed : KError
  not_enough_memory invalid_frame_id too_many_processes too_many_registered_frames : KError
  invalid_file_descriptor binary_not_found : KError
  invalid_frame : KError
  already_mapped base_overflow : ℕ → KError
  not_mapped invalid_length invalid_base : KError
  invalid_file invalid_flags invalid_offset permission_error already_present : KError
  directory_error open_file_limit file_desc_for_pid_already_added no_file_desc_for_pid : KError
  debugger_already_attached debugger_stm_failure debugger_unable_to_read_register : KError
  debugger_unable_to_write_register : KError

pub data Outcome {ℓ} (A : Type ℓ) : Type ℓ where
  ok : A → Outcome A
  err : KError → Outcome A
  panic : Outcome A
  stuck : Outcome A

-- A value first, and what is done with it.
abbrev pub and_then {ℓ κ} : {A : Type ℓ} {B : Type κ} → Outcome A → (A → Outcome B) → Outcome B
and_then (ok a) f = f a
and_then (err e) f = err e
and_then panic f = panic
and_then stuck f = stuck

-- `unwrap()`, and an index in range.
abbrev pub unwrap {ℓ} : {A : Type ℓ} → Option A → Outcome A
unwrap (some a) = ok a
unwrap none = panic

-- A computation over the state `S`.
abbrev pub Comp : Type 0 → Type 0 → Type 0
Comp S A = S → Outcome A × S

abbrev pub chain : {S A B : Type 0} → Outcome A × S → (A → Comp S B) → Outcome B × S
chain (ok a, s) f = f a s
chain (err e, s) f = (err e, s)
chain (panic, s) f = (panic, s)
chain (stuck, s) f = (stuck, s)

infixl 5 ◌>>=◌ ◌>>◌
abbrev pub ◌>>=◌ : {S A B : Type 0} → Comp S A → (A → Comp S B) → Comp S B
◌>>=◌ m f s = chain (m s) f

abbrev pub ◌>>◌ : {S B : Type 0} → Comp S (Unit {0}) → Comp S B → Comp S B
◌>>◌ m k s = chain (m s) (λ _. k)

abbrev pub give : {S A : Type 0} → A → Comp S A
give a s = (ok a, s)

abbrev pub fail : {S A : Type 0} → KError → Comp S A
fail e s = (err e, s)

abbrev pub crash : {S A : Type 0} → Comp S A
crash s = (panic, s)

-- `ok_or(e)?` and `unwrap()`.
abbrev pub or_fail : {S A : Type 0} → Option A → KError → Comp S A
or_fail (some a) e = give a
or_fail none e = fail e

abbrev pub or_crash : {S A : Type 0} → Option A → Comp S A
or_crash (some a) = give a
or_crash none = crash

-- The answers of the allocator to the requests of fallible allocation, in their order; once they
-- are used up, memory never runs out.
abbrev pub Heap : Type 0
Heap = List Bool

abbrev pub request : Comp Heap (Unit {0})
request [] = (ok tt, [])
request (true ∷ h) = (ok tt, h)
request (false ∷ h) = (err out_of_memory, h)

-- The allocator refuses one of the requests to come.
abbrev pub Refusal : Heap → Type 0
Refusal [] = ⊥
Refusal (true ∷ h) = Refusal h
Refusal (false ∷ h) = Unit

-- From the allocator `h` a computation gives `a`, or runs out of memory because of a refusal.
abbrev pub Gives : {A : Type 0} → Heap → A → Outcome A × Heap → Type 0
Gives h a r =
    ((g : Heap) × (r ≡ (ok a, g)) × (Refusal g → Refusal h))
    ⊎ ((g : Heap) × (r ≡ (err out_of_memory, g)) × Refusal h)

pub request_cases : (h : Heap) → Gives h tt (request h)
request_cases [] = inl ([], refl, λ x. x)
request_cases (true ∷ h) = inl (h, refl, λ x. x)
request_cases (false ∷ h) = inr (h, refl, tt)

pub give-Gives : {A : Type 0} (a : A) (h : Heap) → Gives h a (give a h)
give-Gives a h = inl (h, refl, λ x. x)

pub Gives-bind :
    {A B : Type 0} {a : A} {b : B} (m : Comp Heap A) (f : A → Comp Heap B) (h : Heap)
    → Gives h a (m h)
    → ((g : Heap) → Gives g b (f a g))
    → Gives h b (chain (m h) f)
Gives-bind m f h (inl (g, e, s)) k = rw e (elim (k g) [
  | inl (g', e', s') ↦ inl (g', e', λ x. s (s' x))
  | inr (g', e', s') ↦ inr (g', e', s s')
])
Gives-bind m f h (inr (g, e, s)) k = rw e (inr (g, refl, s))

pub request-Gives :
    {B : Type 0} {b : B} (k : Comp Heap B) (h : Heap)
    → ((g : Heap) → Gives g b (k g))
    → Gives h b ((request >> k) h)
request-Gives k h next = Gives-bind request (λ _. k) h (request_cases h) next
