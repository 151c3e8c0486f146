-- ===== src/Fs/Fd.antt =====
-- `kernel/src/fs/fd.rs` and `Fd` of `kernel/src/fs/mod.rs`: the file descriptors of a process.
pub mod Slots
use node_replicated_kernel.Prelude.{
  ℕ, zero, suc, ◌-◌, Option, none, some, List, [], ◌∷◌, get_elem?, set, replicate, word,
}
use node_replicated_kernel.Prelude.Outcome.{
  Outcome, ok, err, invalid_file_descriptor, and_then, unwrap,
}
use node_replicated_kernel.Kpi.Io.{o_none}

pub record Fd : Type 0 where
  pub mnode : ℕ
  pub flags : ℕ
  pub offset : ℕ

-- `Fd::default()`.
abbrev pub default_fd : Fd
default_fd = record { mnode = 0; flags = o_none; offset = 0 }

-- `init_fd`: place-holders.
abbrev pub init_fd : Fd
init_fd = record { mnode = word - 1; flags = o_none; offset = 0 }

abbrev pub update_fd : Fd → ℕ → ℕ → Fd
update_fd fd mnode flags = record fd { mnode = mnode; flags = flags }

abbrev pub update_offset : Fd → ℕ → Fd
update_offset fd new_offset = record fd { offset = new_offset }

abbrev pub max_files_per_process : ℕ
max_files_per_process = 4096

-- The slots of `fds`.
abbrev pub FileDesc : Type 0
FileDesc = List (Option Fd)

unfoldable pub default : FileDesc
default = replicate max_files_per_process none

abbrev next_position : Option ℕ → Option ℕ
next_position none = none
next_position (some i) = some (suc i)

-- `fds.iter().position(|fd| fd.is_none())`.
unfoldable pub position : FileDesc → Option ℕ
position [] = none
position (none ∷ fds) = some 0
position (some fd ∷ fds) = next_position (position fds)

unfoldable pub allocate_fd : FileDesc → Option (ℕ × FileDesc)
unfolding position
allocate_fd fds = elim (position fds) [
  | some fid ↦ some (fid, set fds fid (some default_fd))
  | none ↦ none
]

unfoldable pub deallocate_fd : FileDesc → ℕ → Outcome ℕ × FileDesc
deallocate_fd fds fd = elim (get_elem? fds fd) [
  | some slot ↦ elim slot [
    | some info ↦ (ok fd, set fds fd none)
    | none ↦ (err invalid_file_descriptor, fds)
  ]
  | none ↦ (err invalid_file_descriptor, fds)
]

-- An index out of range is a panic.
unfoldable pub get_fd : FileDesc → ℕ → Outcome (Option Fd)
get_fd fds index = unwrap (get_elem? fds index)
