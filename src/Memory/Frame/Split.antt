-- ===== src/Memory/Frame/Split.antt =====
-- The splits of `Frame` of `kernel/src/memory/mod.rs` lose no memory, and its iterator gives the
-- pages in their order.
use node_replicated_kernel.Prelude.{
  ℕ, zero, suc, ◌+◌, ◌-◌, ◌*◌, ◌/◌, ◌%◌, ◌<◌, ◌≡◌, ◌≢◌, ==_iff, refl, sym, ap, ◌∙◌, inl, inr, List,
  [], ◌∷◌, Bool-cases, true, false, min, ltb, leb, ltb→lt, some, none, ◌≤◌, ◌==◌, word,
  base_page_size, large_page_size, sub64, add64, arith,
}
use mathlib.Core.Bool.{false≢true}
use node_replicated_kernel.Prelude.Outcome.{ok}
use node_replicated_kernel.Memory.Frame.{
  Frame, empty, new, split_at, split_at_nearest_large_page_boundary, round_up, next, pages,
  into_iter,
}

-- A block of whole pages below the last word.
pub record IsFrame (f : Frame) : Type 0 where
  pub based : f.base % base_page_size ≡ 0
  pub sized : f.size % base_page_size ≡ 0
  pub ends : f.base + f.size < word

-- `low` and `high` are the two parts of `f`, and `high` starts where `low` ends.
pub record SplitOf (f low high : Frame) : Type 0 where
  pub low_frame : IsFrame low
  pub high_frame : IsFrame high
  pub all : low.size + high.size ≡ f.size
  pub low_base : 0 < low.size → low.base ≡ f.base
  pub high_base : 0 < high.size → high.base ≡ f.base + low.size
  pub low_node : 0 < low.size → low.affinity ≡ f.affinity
  pub high_node : 0 < high.size → high.affinity ≡ f.affinity

empty-IsFrame : IsFrame empty
empty-IsFrame = record { based = refl; sized = refl; ends = omega arith }

pub new-ok :
    (base size node : ℕ)
    → base % base_page_size ≡ 0
    → size % base_page_size ≡ 0
    → new base size node ≡ ok (record { base = base; size = size; affinity = node })
unfolding new
new-ok base size node b s = ground arith

-- A split at a multiple of the page size gives back the two parts of the frame, the low one as long
-- as asked for, or as the frame.
pub split_at-SplitOf :
    (f : Frame) (size : ℕ)
    → IsFrame f
    → size % base_page_size ≡ 0
    → (low : Frame) × (high : Frame) × (split_at f size ≡ ok (low, high))
      × SplitOf f low high
      × (low.size ≡ min size f.size)
unfolding split_at
split_at-SplitOf f size v s =
    let aligned : (size % base_page_size == 0) ≡ true = ground arith in
    elim (Bool-cases (leb f.size size)) [
      | inl t ↦ (
        f,
        empty,
        rw (aligned, t) refl,
        record {
          low_frame = v;
          high_frame = empty-IsFrame;
          all = omega arith;
          low_base = λ p. refl;
          high_base = λ p. absurd (omega arith);
          low_node = λ p. refl;
          high_node = λ p. absurd (omega arith);
        },
        ground arith,
      )
      | inr t ↦
          let less : size < f.size = ground arith in
          let base : add64 f.base size ≡ f.base + size = omega (arith, v.ends) in
          let rest : sub64 f.size size ≡ f.size - size = omega (arith, v.ends) in
          let at : (f.base + size) % base_page_size ≡ 0 = omega (arith, v.based) in
          let long : (f.size - size) % base_page_size ≡ 0 = omega (arith, v.sized) in
          (
            record { base = f.base; size = size; affinity = f.affinity },
            record { base = f.base + size; size = f.size - size; affinity = f.affinity },
            rw
                (
                  aligned,
                  t,
                  new-ok f.base size f.affinity v.based s,
                  base,
                  rest,
                  new-ok (f.base + size) (f.size - size) f.affinity at long,
                )
                refl,
            record {
              low_frame = record { based = v.based; sized = s; ends = omega (arith, v.ends) };
              high_frame = record { based = at; sized = long; ends = omega (arith, v.ends) };
              all = omega arith;
              low_base = λ p. refl;
              high_base = λ p. refl;
              low_node = λ p. refl;
              high_node = λ p. refl;
            },
            omega arith,
          )
    ]

-- The pages from `base` on.
abbrev pub page_list : ℕ → ℕ → ℕ → List Frame
page_list zero base node = []
page_list (suc n) base node =
    record { base = base; size = base_page_size; affinity = node }
    ∷ page_list n (base + base_page_size) node

-- How far the first boundary of a large page from `base` on is.
abbrev pub to_boundary : ℕ → ℕ
to_boundary base = (large_page_size - base % large_page_size) % large_page_size

pub nearest-parts :
    (f : Frame)
    → IsFrame f
    → f.base + large_page_size < word
    → (low : Frame) × (high : Frame) × (split_at_nearest_large_page_boundary f ≡ ok (low, high))
      × SplitOf f low high
      × (low.size ≡ min (to_boundary f.base) f.size)
unfolding split_at_nearest_large_page_boundary
nearest-parts f v room = elim (Bool-cases (f.base % large_page_size == 0)) [
  | inl t ↦ (
    empty,
    f,
    rw t refl,
    record {
      low_frame = empty-IsFrame;
      high_frame = v;
      all = omega arith;
      low_base = λ p. absurd (omega arith);
      high_base = λ p. omega arith;
      low_node = λ p. absurd (omega arith);
      high_node = λ p. refl;
    },
    ground arith,
  )
  | inr t ↦
      let up : ℕ = (f.base + large_page_size - 1) / large_page_size * large_page_size in
      let rounded : sub64 (round_up f.base large_page_size) f.base ≡ up - f.base = omega arith in
      let off : f.base % large_page_size ≢ 0 =
        λ z. false≢true (sym t ∙ (==_iff (f.base % large_page_size) 0).1 z) in
      let whole : (up - f.base) % base_page_size ≡ 0 = omega (arith, v.based) in
      let dist : up - f.base ≡ to_boundary f.base = omega (arith, off) in
      let (low, high, q, s, len) = split_at-SplitOf f (up - f.base) v whole in
      (
        low,
        high,
        rw t (ap (λ (k : ℕ). split_at f k) rounded ∙ q),
        s,
        len ∙ ap (λ (k : ℕ). min k f.size) dist,
      )
]

-- A frame is split at the first boundary of a large page in it: what is above starts at a boundary,
-- what is below is shorter than a large page, and nothing is lost.
pub nearest-SplitOf :
    (f : Frame)
    → IsFrame f
    → f.base + large_page_size < word
    → (low : Frame) × (high : Frame) × (split_at_nearest_large_page_boundary f ≡ ok (low, high))
      × SplitOf f low high
      × (low.size < large_page_size)
      × (0 < high.size → high.base % large_page_size ≡ 0)
nearest-SplitOf f v room =
    let (low, high, q, s, len) = nearest-parts f v room in
    (low, high, q, s, omega (arith, len), λ p. omega (arith, s.high_base p, s.all, len))

split_at-page :
    (f : Frame)
    → IsFrame f
    → base_page_size < f.size
    → split_at f base_page_size
      ≡ ok (
        record f { size = base_page_size },
        record f { base = f.base + base_page_size; size = f.size - base_page_size },
      )
unfolding split_at
split_at-page f v more =
    let short : leb f.size base_page_size ≡ false = ground arith in
    let base : add64 f.base base_page_size ≡ f.base + base_page_size = omega (arith, v.ends) in
    let rest : sub64 f.size base_page_size ≡ f.size - base_page_size = omega (arith, v.ends) in
    rw
      (
        short,
        new-ok f.base base_page_size f.affinity v.based refl,
        base,
        rest,
        new-ok (f.base + base_page_size) (f.size - base_page_size) f.affinity
            (omega (arith, v.based)) (omega (arith, v.sized)),
      )
      refl

-- A call of `next` takes the first page of a frame, and ends on an empty one.
pub next-page :
    (f : Frame)
    → IsFrame f
    → base_page_size ≤ f.size
    → (rest : Frame) × (next f ≡ ok (some (record f { size = base_page_size }), rest))
      × IsFrame rest
      × (rest.size ≡ f.size - base_page_size)
      × (0 < rest.size → (rest.base ≡ f.base + base_page_size) × (rest.affinity ≡ f.affinity))
unfolding next
next-page f v h = elim (Bool-cases (ltb base_page_size f.size)) [
  | inl t ↦ (
    record f { base = f.base + base_page_size; size = f.size - base_page_size },
    rw (t, split_at-page f v (ltb→lt base_page_size f.size t)) refl,
    record {
      based = omega (arith, v.based);
      sized = omega (arith, v.sized);
      ends = omega (arith, v.ends);
    },
    refl,
    λ p. (refl, refl),
  )
  | inr n ↦
      let page : f.size ≡ base_page_size = ground arith in
      let test : (f.size == base_page_size) ≡ true = ground arith in
      (
        empty,
        rw (n, test) (ap (λ (k : ℕ). ok (some (record f { size = k }), empty)) page),
        empty-IsFrame,
        omega arith,
        λ p. absurd (omega arith),
      )
]

pub next-none : (f : Frame) → f.size < base_page_size → next f ≡ ok (none, f)
unfolding next
next-none f h = ground arith

page_list-eq : (n b c i j : ℕ) → (0 < n → (b ≡ c) × (i ≡ j)) → page_list n b i ≡ page_list n c j
page_list-eq zero b c i j h = refl
page_list-eq (suc n) b c i j h = rw ((h (omega arith)).0, (h (omega arith)).1)

pages-page_list :
    (n : ℕ) (f : Frame)
    → IsFrame f
    → f.size ≡ n * base_page_size
    → pages n f ≡ ok (page_list n f.base f.affinity)
unfolding pages
pages-page_list zero f v e = ground arith
pages-page_list (suc n) f v e =
    let (rest, q, w, len, at) = next-page f v (omega arith) in
    rw (q, pages-page_list n rest w (omega (arith, len)))
      (ap (λ l. ok (record f { size = base_page_size } ∷ l))
        (page_list-eq n rest.base (f.base + base_page_size) rest.affinity f.affinity
          (λ p. at (omega (arith, len)))))

-- The iterator over a frame gives its pages, one after the other and as many as it has, and ends.
pub into_iter-page_list :
    (f : Frame)
    → IsFrame f
    → into_iter f ≡ ok (page_list (f.size / base_page_size) f.base f.affinity)
unfolding into_iter
into_iter-page_list f v = pages-page_list (f.size / base_page_size) f v (omega (arith, v.sized))
