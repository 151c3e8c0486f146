-- ===== src/Fs/Fd/Slots.antt =====
-- Which slot `allocate_fd` of `kernel/src/fs/fd.rs` takes, and what `deallocate_fd` gives back.
use node_replicated_kernel.Prelude.{
  ℕ, zero, suc, ◌≡◌, ◌≢◌, ◌⊎◌, inl, inr, refl, ap, Option, none, some, Option-cases, [], ◌∷◌,
  length, get_elem?, set, length-set, get_elem?-set_self, get_elem?-set_ne, get_elem?-lt, set-back,
}
use node_replicated_kernel.Prelude.Outcome.{Outcome, ok, panic}
use node_replicated_kernel.Fs.Fd.{
  Fd, FileDesc, default_fd, position, allocate_fd, deallocate_fd, get_fd,
}

-- The slot is free, and every slot before it is taken.
abbrev pub IsFirstFree : FileDesc → ℕ → Type 0
IsFirstFree [] i = ⊥
IsFirstFree (none ∷ fds) i = i ≡ 0
IsFirstFree (some fd ∷ fds) zero = ⊥
IsFirstFree (some fd ∷ fds) (suc i) = IsFirstFree fds i

abbrev pub IsTaken : FileDesc → Type 0
IsTaken [] = Unit
IsTaken (none ∷ fds) = ⊥
IsTaken (some fd ∷ fds) = IsTaken fds

position-cases :
    (fds : FileDesc)
    → ((i : ℕ) × (position fds ≡ some i) × IsFirstFree fds i)
      ⊎ ((position fds ≡ none) × IsTaken fds)
unfolding position
position-cases [] = inr (refl, tt)
position-cases (none ∷ fds) = inl (0, refl, refl)
position-cases (some fd ∷ fds) = elim (position-cases fds) [
  | inl (i, e, f) ↦ inl (suc i, rw e refl, f)
  | inr (e, t) ↦ inr (rw e refl, t)
]

free-get_elem? : (fds : FileDesc) (i : ℕ) → IsFirstFree fds i → get_elem? fds i ≡ some none
free-get_elem? [] i f = elim f [ ]
free-get_elem? (none ∷ fds) i f = rw f refl
free-get_elem? (some fd ∷ fds) zero f = elim f [ ]
free-get_elem? (some fd ∷ fds) (suc i) f = free-get_elem? fds i f

-- Either every slot is taken and `allocate_fd` fails, or it takes the first free slot: that one holds
-- a fresh descriptor, every other slot is as it was, and to deallocate it gives the old slots back.
pub allocate_fd-cases :
    (fds : FileDesc)
    → (IsTaken fds × (allocate_fd fds ≡ none))
      ⊎ ((i : ℕ) × (fds' : FileDesc) × IsFirstFree fds i
          × (allocate_fd fds ≡ some (i, fds'))
          × (get_fd fds' i ≡ ok (some default_fd))
          × ((j : ℕ) → i ≢ j → get_fd fds' j ≡ get_fd fds j)
          × (length fds' ≡ length fds)
          × (deallocate_fd fds' i ≡ (ok i, fds)))
unfolding allocate_fd deallocate_fd get_fd
allocate_fd-cases fds = elim (position-cases fds) [
  | inr (e, t) ↦ inl (t, rw (e, allocate_fd))
  | inl (i, e, f) ↦
      let free = free-get_elem? fds i f in
      let self = get_elem?-set_self fds i (some default_fd) (get_elem?-lt fds i free) in
      inr (
        i,
        set fds i (some default_fd),
        f,
        rw (e, allocate_fd),
        rw self,
        λ j ne. rw (get_elem?-set_ne fds (some default_fd) ne),
        length-set fds i (some default_fd),
        rw (self, deallocate_fd)
            (ap (λ (x : FileDesc). (ok i, x)) (set-back fds i none (some default_fd) free)),
      )
]

-- A slot that is there is set, and no other changes.
pub get_fd-set_self :
    (fds : FileDesc) (i : ℕ) (x y : Option Fd) → get_fd fds i ≡ ok y → get_fd (set fds i x) i ≡ ok x
unfolding get_fd
get_fd-set_self fds i x y e = elim (Option-cases (get_elem? fds i)) [
  | inl n ↦ absurd (ok≢panic (rw n at e))
  | inr (z, s) ↦ rw (get_elem?-set_self fds i x (get_elem?-lt fds i s)) refl
]
  where
    ok≢panic : ◌≡◌ {A = Outcome (Option Fd)} panic (ok y) → ⊥
    ok≢panic h = cc

pub get_fd-set_ne :
    (fds : FileDesc) (i j : ℕ) (x : Option Fd) → i ≢ j → get_fd (set fds i x) j ≡ get_fd fds j
unfolding get_fd
get_fd-set_ne fds i j x ne = rw (get_elem?-set_ne fds x ne) refl

pub get_fd-cases :
    (fds : FileDesc) (i : ℕ) → (get_fd fds i ≡ panic) ⊎ ((x : Option Fd) × (get_fd fds i ≡ ok x))
unfolding get_fd
get_fd-cases fds i = elim (Option-cases (get_elem? fds i)) [
  | inl e ↦ inl (rw e refl)
  | inr (x, e) ↦ inr (x, rw e refl)
]
