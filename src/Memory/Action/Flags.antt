-- ===== src/Memory/Action/Flags.antt =====
-- `MapAction` of `kernel/src/memory/vspace.rs` as flags of a page table entry, and back. A set of
-- flags says for each flag that the code names whether it is in the set.
use node_replicated_kernel.Prelude.{Bool, true, false, ◌&&◌, not, if◌then◌else◌, ◌≡◌, refl}
use node_replicated_kernel.Memory.Action.{
  MapAction, no_access, read_user, read_kernel, read_write_user, read_write_user_no_cache,
  read_write_kernel, read_execute_user, read_execute_kernel, read_write_execute_user,
  read_write_execute_kernel,
}

pub record PtFlags : Type 0 where
  pub p : Bool
  pub rw_flag : Bool
  pub us : Bool
  pub pcd : Bool
  pub xd : Bool
  pub pwt : Bool
  pub a : Bool
  pub d : Bool
  pub g : Bool

-- The flags that matter for the rights, and none of the others.
abbrev pub flags : Bool → Bool → Bool → Bool → Bool → PtFlags
flags p rw_flag us pcd xd = record {
  p = p;
  rw_flag = rw_flag;
  us = us;
  pcd = pcd;
  xd = xd;
  pwt = false;
  a = false;
  d = false;
  g = false;
}

-- `to_pt_rights`.
unfoldable pub to_pt_rights : MapAction → PtFlags
to_pt_rights no_access = flags false false false false false
to_pt_rights read_user = flags false false true false true
to_pt_rights read_kernel = flags false false false false true
to_pt_rights read_write_user = flags false true true false true
to_pt_rights read_write_user_no_cache = flags false true true false true
to_pt_rights read_write_kernel = flags false true false false true
to_pt_rights read_execute_user = flags false false true false false
to_pt_rights read_execute_kernel = flags false false false false false
to_pt_rights read_write_execute_user = flags false true true false false
to_pt_rights read_write_execute_kernel = flags false true false false false

-- `cleaned.remove(irrelevant_bits)`.
abbrev pub clean : PtFlags → PtFlags
clean f = record f { pwt = false; a = false; d = false; g = false }

abbrev pub same : Bool → Bool → Bool
same true b = b
same false b = not b

-- `==` on sets that are cleaned.
abbrev pub equals : PtFlags → PtFlags → Bool
equals e f =
    same e.p f.p
    && same e.rw_flag f.rw_flag
    && same e.us f.us
    && same e.pcd f.pcd
    && same e.xd f.xd
    && same e.pwt f.pwt
    && same e.a f.a
    && same e.d f.d
    && same e.g f.g

-- `MapAction::from(PTFlags)`.
unfoldable pub from_flags : PtFlags → MapAction
from_flags f =
    let cleaned = clean f in
    if equals cleaned (flags true false true false true)
    then read_user
    else (if equals cleaned (flags true false false false true)
        then read_kernel
        else (if equals cleaned (flags true true true true true)
            then read_write_user_no_cache
            else (if equals cleaned (flags true true true false true)
                then read_write_user
                else (if equals cleaned (flags true true false false true)
                    then read_write_kernel
                    else (if equals cleaned (flags true false true false false)
                        then read_execute_user
                        else (if equals cleaned (flags true true true false false)
                            then read_write_execute_user
                            else (if equals cleaned (flags true true false false false)
                                then read_write_execute_kernel
                                else (if equals cleaned (flags true false false false false)
                                    then read_execute_kernel
                                    else (no_access)))))))))

-- The rights that are read back: page tables do not tell a region without cache from one with it,
-- nor a present page without rights from one that the kernel may execute.
unfoldable pub told : MapAction → MapAction
told no_access = read_execute_kernel
told read_user = read_user
told read_kernel = read_kernel
told read_write_user = read_write_user
told read_write_user_no_cache = read_write_user
told read_write_kernel = read_write_kernel
told read_execute_user = read_execute_user
told read_execute_kernel = read_execute_kernel
told read_write_execute_user = read_write_execute_user
told read_write_execute_kernel = read_write_execute_kernel

-- The rights of a present page table entry are read back as they were written, whatever bits the
-- hardware set since, except that `ReadWriteUserNoCache` becomes `ReadWriteUser`, and `None` becomes
-- `ReadExecuteKernel`.
pub from_flags-to_pt_rights :
    (r : MapAction) (pwt a d g : Bool)
    → from_flags (record (to_pt_rights r) { p = true; pwt = pwt; a = a; d = d; g = g }) ≡ told r
unfolding from_flags to_pt_rights told
from_flags-to_pt_rights no_access pwt a d g = refl
from_flags-to_pt_rights read_user pwt a d g = refl
from_flags-to_pt_rights read_kernel pwt a d g = refl
from_flags-to_pt_rights read_write_user pwt a d g = refl
from_flags-to_pt_rights read_write_user_no_cache pwt a d g = refl
from_flags-to_pt_rights read_write_kernel pwt a d g = refl
from_flags-to_pt_rights read_execute_user pwt a d g = refl
from_flags-to_pt_rights read_execute_kernel pwt a d g = refl
from_flags-to_pt_rights read_write_execute_user pwt a d g = refl
from_flags-to_pt_rights read_write_execute_kernel pwt a d g = refl
