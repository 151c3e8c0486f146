-- ===== src/Memory/Model.antt =====
-- `kernel/src/memory/vspace_model.rs`: the model address space, a list of mappings in the order in
-- which they were made. The struct has this list alone.
pub mod Inv
pub mod Conflict
pub mod Promote
pub mod Map
pub mod Unmap
pub mod Adjust
use node_replicated_kernel.Prelude.{
  ℕ, zero, suc, ◌+◌, ◌-◌, ◌%◌, min, max, Bool, true, false, not, ◌&&◌, ltb, leb, ◌==◌,
  if◌then◌else◌, Option, none, some, List, [], ◌∷◌, ◌++◌, add64, sub64, word, base_page_size,
}
use node_replicated_kernel.Prelude.Outcome.{
  Outcome, ok, err, panic, stuck, invalid_frame, invalid_base, already_mapped, not_mapped, and_then,
  unwrap,
}
use node_replicated_kernel.Memory.Frame
use node_replicated_kernel.Memory.Frame.{Frame}
use node_replicated_kernel.Memory.Action.{MapAction, code}

pub record Mapping : Type 0 where
  pub vaddr : ℕ
  pub paddr : ℕ
  pub length : ℕ
  pub rights : MapAction

abbrev pub ModelAddressSpace : Type 0
ModelAddressSpace = List Mapping

-- `Range`: the first number, and the one behind the last.
abbrev pub Range : Type 0
Range = ℕ × ℕ

abbrev pub overlaps : Range → Range → Bool
overlaps a b = ltb a.0 b.1 && ltb b.0 a.1

abbrev pub contains : Range → ℕ → Bool
contains r n = leb r.0 n && ltb n r.1

-- The loop of `intersection` over `n` elements.
pub scan : ℕ → ℕ → Range → ℕ → ℕ → ℕ × ℕ
scan zero element b low high = (low, high)
scan (suc n) element b low high =
    let inside = contains b element in
    scan n (element + 1) b (if inside then min element low else low)
      (if inside then max element high else high)

pub intersection : Range → Range → Option Range
intersection a b =
    let (low, high) = scan (a.1 - a.0) a.0 b (word - 1) 0 in
    if overlaps a b then some (low, add64 high 1) else none

abbrev pub cur_range : Mapping → Range
cur_range e = (e.vaddr, add64 e.vaddr e.length)

abbrev pub new_range : ℕ → Frame → Range
new_range base frame = (base, add64 base frame.size)

-- The new mapping only makes the frame of `e` larger.
abbrev pub extends : Mapping → ℕ → Frame → MapAction → Bool
extends e base frame action =
    (e.vaddr == base)
    && leb (cur_range e).1 (new_range base frame).1
    && (e.paddr == frame.base)
    && (code e.rights == code action)

-- Where `e` is in the way.
abbrev pub conflict : Mapping → ℕ → Frame → MapAction → Outcome (List ℕ)
conflict e base frame action =
    if overlaps (cur_range e) (new_range base frame)
    then (if extends e base frame action
        then ok []
        else and_then (unwrap (intersection (cur_range e) (new_range base frame)))
            (λ r. ok (r.0 ∷ [])))
    else ok []

pub conflicts : ModelAddressSpace → ℕ → Frame → MapAction → Outcome (List ℕ)
conflicts [] base frame action = ok []
conflicts (e ∷ m) base frame action =
    and_then (conflict e base frame action)
      λ c. and_then (conflicts m base frame action) λ rest. ok (c ++ rest)

abbrev pub keep : Mapping → Option ModelAddressSpace → Option ModelAddressSpace
keep e (some m) = some (e ∷ m)
keep e none = none

-- The first mapping that is extended, if there is one.
pub promote : ModelAddressSpace → ℕ → Frame → MapAction → Option ModelAddressSpace
promote [] base frame action = none
promote (e ∷ m) base frame action =
    let rest = keep e (promote m base frame action) in
    if overlaps (cur_range e) (new_range base frame) && extends e base frame action
    then some (record e { length = frame.size } ∷ m)
    else rest

-- The first of the addresses, sorted.
abbrev pub least : ℕ → List ℕ → ℕ
least a [] = a
least a (b ∷ l) = least (min a b) l

abbrev pub new_mapping : ℕ → Frame → MapAction → Mapping
new_mapping base frame action = record {
  vaddr = base;
  paddr = frame.base;
  length = frame.size;
  rights = action;
}

abbrev pub add_mapping :
    ModelAddressSpace → ℕ → Frame → MapAction → Option ModelAddressSpace → ModelAddressSpace
add_mapping m base frame action (some m') = m'
add_mapping m base frame action none = m ++ new_mapping base frame action ∷ []

abbrev pub insert_mapping :
    ModelAddressSpace
    → ℕ
    → Frame
    → MapAction
    → Outcome (List ℕ)
    → Outcome (Unit {0}) × ModelAddressSpace
insert_mapping m base frame action (ok []) =
    (ok tt, add_mapping m base frame action (promote m base frame action))
insert_mapping m base frame action (ok (a ∷ l)) = (err (already_mapped (least a l)), m)
insert_mapping m base frame action (err e) = (err e, m)
insert_mapping m base frame action panic = (panic, m)
insert_mapping m base frame action stuck = (stuck, m)

pub map_frame : ModelAddressSpace → ℕ → Frame → MapAction → Outcome (Unit {0}) × ModelAddressSpace
map_frame m base frame action =
    if frame.size == 0
    then (err invalid_frame, m)
    else (if not (frame.base % frame.size == 0)
        then (err invalid_frame, m)
        else (if not (base % frame.size == 0)
            then (err invalid_base, m)
            else insert_mapping m base frame action (conflicts m base frame action)))

-- The last mapping that contains the address.
pub find_last : ModelAddressSpace → ℕ → Option Mapping
find_last [] vaddr = none
find_last (e ∷ m) vaddr = elim (find_last m vaddr) [
  | some f ↦ some f
  | none ↦ if contains (cur_range e) vaddr then some e else none
]

abbrev pub translate : Option Mapping → ℕ → Outcome (ℕ × MapAction)
translate none vaddr = err not_mapped
translate (some e) vaddr = ok (add64 e.paddr (sub64 vaddr e.vaddr), e.rights)

pub resolve : ModelAddressSpace → ℕ → Outcome (ℕ × MapAction)
resolve m vaddr = translate (find_last m vaddr) vaddr

pub adjust_last : ModelAddressSpace → ℕ → MapAction → Option ((ℕ × ℕ) × ModelAddressSpace)
adjust_last [] base rights = none
adjust_last (e ∷ m) base rights = elim (adjust_last m base rights) [
  | some (r, m') ↦ some (r, e ∷ m')
  | none ↦
      if contains (cur_range e) base
      then some ((e.vaddr, e.length), record e { rights = rights } ∷ m)
      else none
]

pub adjust : ModelAddressSpace → ℕ → MapAction → Outcome (ℕ × ℕ) × ModelAddressSpace
adjust m base rights =
    if base % base_page_size == 0
    then elim (adjust_last m base rights) [ some (r, m') ↦ (ok r, m') | none ↦ (err not_mapped, m) ]
    else (err invalid_base, m)

-- `drain_filter`: the mappings that contain the address, and the others.
pub found : ModelAddressSpace → ℕ → List Mapping
found [] base = []
found (e ∷ m) base =
    let rest = found m base in if contains (cur_range e) base then e ∷ rest else rest

pub left : ModelAddressSpace → ℕ → ModelAddressSpace
left [] base = []
left (e ∷ m) base = let rest = left m base in if contains (cur_range e) base then rest else e ∷ rest

abbrev pub unmap_found :
    List Mapping → ModelAddressSpace → ModelAddressSpace → Outcome (ℕ × Frame) × ModelAddressSpace
unmap_found [] m m' = (err not_mapped, m)
unmap_found (e ∷ []) m m' = (and_then (Frame.new e.paddr e.length 0) (λ f. ok (e.vaddr, f)), m')
unmap_found (e ∷ f ∷ l) m m' = (panic, m')

pub unmap : ModelAddressSpace → ℕ → Outcome (ℕ × Frame) × ModelAddressSpace
unmap m base =
    if base % base_page_size == 0
    then unmap_found (found m base) m (left m base)
    else (err invalid_base, m)
