-- ===== src/Kpi/Io.antt =====
-- `lib/kpi/src/io.rs`: the modes and flags of files, bit sets of one word, and the file types.
use Prim.Native.Nat.{bit_and}
use node_replicated_kernel.Prelude.{ℕ, Bool, ◌==◌}

pub data FileType : Type 0 where
  directory file : FileType

-- `FileType::into::<u64>`.
unfoldable pub file_type_code : FileType → ℕ
file_type_code directory = 1
file_type_code file = 2

-- What `file_getinfo` reports.
pub record FileInfo : Type 0 where
  pub ftype : ℕ
  pub fsize : ℕ

abbrev pub s_irwxu : ℕ
s_irwxu = 0x007

abbrev pub s_irusr : ℕ
s_irusr = 0x004

abbrev pub s_iwusr : ℕ
s_iwusr = 0x002

abbrev pub s_ixusr : ℕ
s_ixusr = 0x001

abbrev pub o_none : ℕ
o_none = 0x0000

abbrev pub o_rdonly : ℕ
o_rdonly = 0x0001

abbrev pub o_wronly : ℕ
o_wronly = 0x0002

abbrev pub o_rdwr : ℕ
o_rdwr = 0x0003

abbrev pub o_creat : ℕ
o_creat = 0x0200

abbrev pub o_trunc : ℕ
o_trunc = 0x0400

abbrev pub o_append : ℕ
o_append = 0x2000

-- `from_bits_truncate` keeps the bits of the declared constants.
unfoldable pub modes_from : ℕ → ℕ
modes_from mode = bit_and mode 0x007

unfoldable pub flags_from : ℕ → ℕ
flags_from flag = bit_and flag 0x2603

-- `(*self & c) == c`.
unfoldable pub has : ℕ → ℕ → Bool
has bits c = bit_and bits c == c

unfoldable pub is_readable : ℕ → Bool
unfolding has
is_readable modes = has modes s_irusr

unfoldable pub is_writable : ℕ → Bool
unfolding has
is_writable modes = has modes s_iwusr

unfoldable pub is_executable : ℕ → Bool
unfolding has
is_executable modes = has modes s_ixusr

unfoldable pub is_read : ℕ → Bool
unfolding has
is_read flags = has flags o_rdonly

unfoldable pub is_write : ℕ → Bool
unfolding has
is_write flags = has flags o_wronly

unfoldable pub is_create : ℕ → Bool
unfolding has
is_create flags = has flags o_creat

unfoldable pub is_truncate : ℕ → Bool
unfolding has
is_truncate flags = has flags o_trunc

unfoldable pub is_append : ℕ → Bool
unfolding has
is_append flags = has flags o_append
