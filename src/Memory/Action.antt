-- ===== src/Memory/Action.antt =====
-- `MapAction` of `kernel/src/memory/vspace.rs`: the rights of a mapping, and the flags of a page
-- table entry that stand for them. A set of flags is a record of Booleans.
pub mod Flags
use node_replicated_kernel.Prelude.{
  ℕ, get_elem?, List, [], ◌∷◌, some, ◌==◌, ◌≡◌, refl, sym, ap, ◌∙◌, Bool, true, false, not,
}
use mathlib.Core.Option.{some-injective}

pub data MapAction : Type 0 where
  no_access : MapAction
  read_user : MapAction
  read_kernel : MapAction
  read_write_user : MapAction
  read_write_user_no_cache : MapAction
  read_write_kernel : MapAction
  read_execute_user : MapAction
  read_execute_kernel : MapAction
  read_write_execute_user : MapAction
  read_write_execute_kernel : MapAction

-- The discriminant, by which `==` tells two actions apart.
unfoldable pub code : MapAction → ℕ
code no_access = 0
code read_user = 1
code read_kernel = 2
code read_write_user = 3
code read_write_user_no_cache = 4
code read_write_kernel = 5
code read_execute_user = 6
code read_execute_kernel = 7
code read_write_execute_user = 8
code read_write_execute_kernel = 9

unfoldable pub is_readable : MapAction → Bool
unfolding code
is_readable a = not (code a == code no_access)

unfoldable pub is_writable : MapAction → Bool
is_writable read_write_user = true
is_writable read_write_user_no_cache = true
is_writable read_write_kernel = true
is_writable read_write_execute_user = true
is_writable read_write_execute_kernel = true
is_writable _ = false

unfoldable pub is_executable : MapAction → Bool
is_executable read_execute_user = true
is_executable read_execute_kernel = true
is_executable read_write_execute_user = true
is_executable read_write_execute_kernel = true
is_executable _ = false

abbrev actions : List MapAction
actions =
    no_access ∷ read_user ∷ read_kernel ∷ read_write_user ∷ read_write_user_no_cache
    ∷ read_write_kernel ∷ read_execute_user ∷ read_execute_kernel ∷ read_write_execute_user
    ∷ read_write_execute_kernel ∷ []

get_elem?-code : (a : MapAction) → get_elem? actions (code a) ≡ some a
unfolding code
get_elem?-code no_access = refl
get_elem?-code read_user = refl
get_elem?-code read_kernel = refl
get_elem?-code read_write_user = refl
get_elem?-code read_write_user_no_cache = refl
get_elem?-code read_write_kernel = refl
get_elem?-code read_execute_user = refl
get_elem?-code read_execute_kernel = refl
get_elem?-code read_write_execute_user = refl
get_elem?-code read_write_execute_kernel = refl

pub code-injective : (a b : MapAction) → code a ≡ code b → a ≡ b
code-injective a b h =
    some-injective a b (sym (get_elem?-code a) ∙ ap (get_elem? actions) h ∙ get_elem?-code b)
