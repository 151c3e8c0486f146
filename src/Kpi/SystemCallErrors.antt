-- ===== src/Kpi/SystemCallErrors.antt =====
-- `SystemCallError` of `lib/kpi/src/lib.rs`: the errors that a system call reports, their numbers.
use node_replicated_kernel.Prelude.{nat_eq, ℕ, ◌≡◌, ◌≢◌, refl, [], ◌∷◌}
use node_replicated_kernel.Kpi.Match.{match}

pub data SystemCallError : Type 0 where
  ok not_logged not_supported vspace_already_mapped out_of_memory internal_error bad_address
        bad_file_descriptor bad_flags permission_error offset_error unknown :
      SystemCallError

-- The discriminants; that of `Unknown` is the next one.
unfoldable pub code : SystemCallError → ℕ
code ok = 0
code not_logged = 1
code not_supported = 2
code vspace_already_mapped = 3
code out_of_memory = 4
code internal_error = 5
code bad_address = 6
code bad_file_descriptor = 7
code bad_flags = 8
code permission_error = 9
code offset_error = 10
code unknown = 11

-- The decoding of a number.
unfoldable pub from : ℕ → SystemCallError
from =
    match
      ((1, not_logged)
        ∷ (2, not_supported)
        ∷ (3, vspace_already_mapped)
        ∷ (4, out_of_memory)
        ∷ (5, internal_error)
        ∷ (6, bad_address)
        ∷ (7, bad_file_descriptor)
        ∷ (8, bad_flags)
        ∷ (9, permission_error)
        ∷ (10, offset_error)
        ∷ [])
      unknown

-- An error is read back from its number; the number of `Ok` stands for no error.
pub from-code : (e : SystemCallError) → e ≢ ok → from (code e) ≡ e
unfolding from code match
from-code ok h = absurd (h refl)
from-code not_logged h = refl
from-code not_supported h = refl
from-code vspace_already_mapped h = refl
from-code out_of_memory h = refl
from-code internal_error h = refl
from-code bad_address h = refl
from-code bad_file_descriptor h = refl
from-code bad_flags h = refl
from-code permission_error h = refl
from-code offset_error h = refl
from-code unknown h = refl
