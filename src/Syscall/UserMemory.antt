-- ===== src/Syscall/UserMemory.antt =====
-- `user_virt_addr_valid` of `kernel/src/arch/x86_64/syscall.rs`: the check of a range of user memory.
-- How the address space of the process resolves an address is a parameter.
use node_replicated_kernel.Prelude.{
  ℕ, zero, suc, ◌+◌, ◌-◌, ◌*◌, ◌/◌, ◌≤◌, ◌<◌, ◌≡◌, ◌≢◌, ◌⊎◌, ltb→lt, ℕ_discrete, inl, inr, refl,
  Bool-cases, true, false, leb, ltb, if◌then◌else◌, add64, sub64, word, base_page_size, arith,
}
use native.Mathlib.Decide.{dec_lt}
use node_replicated_kernel.Prelude.Outcome.{Outcome, ok, err, panic, stuck, and_then, bad_address}

-- The start of the kernel's addresses.
abbrev pub kernel_base : ℕ
kernel_base = 0x4000_0000_0000

module _ (resolve : ℕ → Outcome (ℕ × ℕ)) where
  -- The loop, one page a round.
  unfoldable pub check_pages : ℕ → ℕ → ℕ → ℕ → Outcome (ℕ × ℕ)
  check_pages zero base upper_addr size = if leb base upper_addr then stuck else ok (base, size)
  check_pages (suc fuel) base upper_addr size =
      let last = and_then (resolve base) λ _. resolve (sub64 upper_addr 1) in
      let more =
        and_then (resolve base) λ _. check_pages fuel (add64 base base_page_size) upper_addr size in
      if leb base upper_addr
      then (if leb (upper_addr - base) base_page_size then last else more)
      else ok (base, size)

  pub user_virt_addr_valid : ℕ → ℕ → Outcome (ℕ × ℕ)
  user_virt_addr_valid base size =
      let upper_addr = add64 base size in
      if ltb upper_addr kernel_base
      then check_pages (size / base_page_size + 1) base upper_addr size
      else err bad_address

  -- Some address of the page of `a` resolves.
  abbrev pub Resolves : ℕ → Type 0
  Resolves a =
      (b : ℕ) × (a / base_page_size ≡ b / base_page_size) × (p : ℕ × ℕ) × (resolve b ≡ ok p)

  abbrev pub IsRefusal : Outcome (ℕ × ℕ) → Type 0
  IsRefusal r = (p : ℕ × ℕ) → r ≢ ok p

  -- What the check found of the addresses from `base` to `upper`: every page resolves, and it gives
  -- what the last address resolves to; or it gives the error of an address that does not.
  pub data Checked (base upper : ℕ) : Outcome (ℕ × ℕ) → Type 0 where
    resolved :
        {r : ℕ × ℕ}
        → resolve (upper - 1) ≡ ok r
        → ((a : ℕ) → base ≤ a → a < upper → Resolves a)
        → Checked base upper (ok r)
    refused :
        (a : ℕ) {r : Outcome (ℕ × ℕ)}
        → base ≤ a
        → a < upper
        → resolve a ≡ r
        → IsRefusal r
        → Checked base upper r

  Outcome-cases : (o : Outcome (ℕ × ℕ)) → ((p : ℕ × ℕ) × (o ≡ ok p)) ⊎ ((p : ℕ × ℕ) → o ≢ ok p)
  Outcome-cases (ok p) = inl (p, refl)
  Outcome-cases (err e) = inr (λ p q. cc)
  Outcome-cases panic = inr (λ p q. cc)
  Outcome-cases stuck = inr (λ p q. cc)

  and_then-refusal :
      (o : Outcome (ℕ × ℕ)) (f : ℕ × ℕ → Outcome (ℕ × ℕ)) → IsRefusal o → and_then o f ≡ o
  and_then-refusal (ok p) f h = absurd (h p refl)
  and_then-refusal (err e) f h = refl
  and_then-refusal panic f h = refl
  and_then-refusal stuck f h = refl

  -- The first page, and the rest.
  more-Checked :
      (base upper : ℕ) (p : ℕ × ℕ) (r : Outcome (ℕ × ℕ))
      → resolve base ≡ ok p
      → base + base_page_size < upper
      → Checked (base + base_page_size) upper r
      → Checked base upper r
  more-Checked base upper p _ q h (refused a lo hi e bad) = refused a (omega arith) hi e bad
  more-Checked base upper p _ q h (resolved e all) = resolved e λ a lo hi.
      elim (dec_lt a (base + base_page_size)) [
        | no n ↦ all a (omega arith) hi
        | yes y ↦ elim (ℕ_discrete (a / base_page_size) (base / base_page_size)) [
          | yes same ↦ (base, same, p, q)
          | no other ↦
              let (b, page, r, found) = all (base + base_page_size) (omega arith) h in
              (b, omega arith, r, found)
        ]
      ]

  -- The last page, or the last two.
  last-Checked :
      (base upper : ℕ) (p : ℕ × ℕ)
      → base < upper
      → upper ≤ base + base_page_size
      → resolve base ≡ ok p
      → Checked base upper (resolve (upper - 1))
  last-Checked base upper p lt short q = elim (Outcome-cases (resolve (upper - 1))) [
    | inr bad ↦ refused (upper - 1) (omega arith) (omega arith) refl bad
    | inl (r, e) ↦ rw e (
        resolved e λ a lo hi. elim (ℕ_discrete (a / base_page_size) (base / base_page_size)) [
          | yes same ↦ (base, same, p, q)
          | no other ↦ (upper - 1, omega arith, r, e)
        ])
  ]

  check_pages-Checked :
      (fuel base upper size : ℕ)
      → base < upper
      → upper < kernel_base
      → upper ≤ base + fuel * base_page_size
      → Checked base upper (check_pages fuel base upper size)
  unfolding check_pages
  check_pages-Checked zero base upper size lt small e = absurd (omega arith)
  check_pages-Checked (suc fuel) base upper size lt small e =
      let inside : leb base upper ≡ true = ground arith in
      elim (Outcome-cases (resolve base)) [
        | inr bad ↦ elim (Bool-cases (leb (upper - base) base_page_size)) [
          | inl t ↦
              rw (inside, t, and_then-refusal (resolve base) _ bad)
                (refused base (omega arith) lt refl bad)
          | inr f ↦
              rw (inside, f, and_then-refusal (resolve base) _ bad)
                (refused base (omega arith) lt refl bad)
        ]
        | inl (p, q) ↦ elim (Bool-cases (leb (upper - base) base_page_size)) [
          | inl t ↦
              let end : sub64 upper 1 ≡ upper - 1 = omega arith in
              rw (inside, t, q, end) (last-Checked base upper p lt (ground arith) q)
          | inr f ↦
              let next : add64 base base_page_size ≡ base + base_page_size = omega arith in
              let far : base + base_page_size < upper = ground arith in
              rw (inside, f, q, next)
                (more-Checked base upper p _ q far (
                  check_pages-Checked fuel (base + base_page_size) upper size far small
                    (omega arith)))
        ]
      ]

  -- A range that ends before it starts.
  check_pages-skip :
      (fuel base upper size : ℕ) → upper < base → check_pages fuel base upper size ≡ ok (base, size)
  unfolding check_pages
  check_pages-skip zero base upper size h =
      let out : leb base upper ≡ false = ground arith in rw out refl
  check_pages-skip (suc fuel) base upper size h =
      let out : leb base upper ≡ false = ground arith in rw out refl

  check_pages-empty :
      (base : ℕ) → check_pages 1 base base 0 ≡ and_then (resolve base) (λ _. resolve (sub64 base 1))
  unfolding check_pages
  check_pages-empty base =
      let inside : leb base base ≡ true = ground arith in
      let short : leb (base - base) base_page_size ≡ true = ground arith in rw (inside, short) refl

  -- What the check gives on every range, by where it ends.
  pub data Valid (base size : ℕ) (r : Outcome (ℕ × ℕ)) : Type 0 where
    beyond :
        base + size < word → kernel_base ≤ base + size → r ≡ err bad_address → Valid base size r
    wrapped :
        word ≤ base + size
        → base + size - word < kernel_base
        → r ≡ ok (base, size)
        → Valid base size r
    wrapped_beyond :
        word ≤ base + size
        → kernel_base ≤ base + size - word
        → r ≡ err bad_address
        → Valid base size r
    empty :
        size ≡ 0
        → base < kernel_base
        → r ≡ and_then (resolve base) (λ _. resolve (sub64 base 1))
        → Valid base size r
    checked :
        0 < size → base + size < kernel_base → Checked base (base + size) r → Valid base size r

  pub user_virt_addr_valid-Valid :
      (base size : ℕ) → base < word → size < word → Valid base size (user_virt_addr_valid base size)
  unfolding user_virt_addr_valid
  user_virt_addr_valid-Valid base size hb hs = elim (dec_lt (base + size) word) [
    | yes fits ↦
        let e : add64 base size ≡ base + size = omega arith in
        elim (Bool-cases (ltb (base + size) kernel_base)) [
          | inr f ↦ beyond fits (ground arith) (rw (e, f) refl)
          | inl t ↦ elim (dec_lt 0 size) [
            | yes some_bytes ↦ checked some_bytes (ltb→lt (base + size) kernel_base t) (
                rw (e, t)
                  (check_pages-Checked (size / base_page_size + 1) base (base + size) size
                    (omega arith) (ltb→lt (base + size) kernel_base t) (omega arith)))
            | no none ↦ empty (omega arith) (ground arith) (
                let z : size ≡ 0 = omega arith in
                let end : base + 0 ≡ base = omega arith in
                let one : 0 / base_page_size + 1 ≡ 1 = omega arith in
                rw (e, t, z, end, one) (check_pages-empty base))
          ]
        ]
    | no over ↦
        let e : add64 base size ≡ base + size - word = omega arith in
        elim (Bool-cases (ltb (base + size - word) kernel_base)) [
          | inr f ↦ wrapped_beyond (omega arith) (ground arith) (rw (e, f) refl)
          | inl t ↦ wrapped (omega arith) (ltb→lt (base + size - word) kernel_base t) (
              rw (e, t)
                (check_pages-skip (size / base_page_size + 1) base (base + size - word) size
                  (omega arith)))
        ]
  ]
