-- ===== src/Syscall/Print/Lines.antt =====
-- What `process_print` of `kernel/src/arch/x86_64/syscall.rs` sends to the serial line, and when.
use node_replicated_kernel.Prelude.{
  ℕ, suc, ◌+◌, ◌≤◌, ◌<◌, ◌≡◌, ◌≢◌, inl, inr, refl, ap, ◌∙◌, Option, none, some, List, [], ◌∷◌, ◌++◌,
  All, length, take, drop, ◌==◌, ltb, Bool-cases, nat_eq, arith,
}
use node_replicated_kernel.Syscall.Print.{
  Printer, newline, find_newline, process_print, print_all, print_found, output, joined,
  print_all-output,
}

-- No byte ends a line.
abbrev pub NoNewline : List ℕ → Type 0
NoNewline bytes = All (λ b. b ≢ newline) bytes

-- What one string does to the printer `p`. Without a line buffer it is sent. A string with a line's
-- end is sent up to the first, behind what waited, and the rest waits. Another one waits, unless more
-- than 2048 bytes would wait: then all of them are sent.
pub data Printed (buffer : List ℕ) (p q : Printer) : Type 0 where
  direct :
      p.print_buffer ≡ none
      → q ≡ record { print_buffer = none; printed = p.printed ++ buffer }
      → Printed buffer p q
  line :
      (kbuf low high : List ℕ)
      → p.print_buffer ≡ some kbuf
      → buffer ≡ low ++ newline ∷ high
      → NoNewline low
      → q ≡ record {
        print_buffer = some high;
        printed = p.printed ++ (kbuf ++ (low ++ newline ∷ []));
      }
      → Printed buffer p q
  long :
      (kbuf : List ℕ)
      → p.print_buffer ≡ some kbuf
      → NoNewline buffer
      → 2048 < length (kbuf ++ buffer)
      → q ≡ record { print_buffer = some []; printed = p.printed ++ (kbuf ++ buffer) }
      → Printed buffer p q
  waits :
      (kbuf : List ℕ)
      → p.print_buffer ≡ some kbuf
      → NoNewline buffer
      → length (kbuf ++ buffer) ≤ 2048
      → q ≡ record { print_buffer = some (kbuf ++ buffer); printed = p.printed }
      → Printed buffer p q

-- Strings that are printed one after another.
abbrev pub AllPrinted : List (List ℕ) → Printer → Printer → Type 0
AllPrinted [] p q = q ≡ p
AllPrinted (buffer ∷ buffers) p q = (m : Printer) × Printed buffer p m × AllPrinted buffers m q

-- What `find` gives: the first line's end.
data Found (i : ℕ) (bytes : List ℕ) : Type 0 where
  nowhere : find_newline i bytes ≡ none → NoNewline bytes → Found i bytes
  first :
      (low high : List ℕ)
      → find_newline i bytes ≡ some (i + length low)
      → bytes ≡ low ++ newline ∷ high
      → NoNewline low
      → Found i bytes

find_newline-Found : (i : ℕ) (bytes : List ℕ) → Found i bytes
unfolding find_newline
find_newline-Found i [] = nowhere refl tt
find_newline-Found i (b ∷ bytes) = elim (Bool-cases (b == newline)) [
  | inl t ↦
      let here : b ≡ newline = (nat_eq.beq_iff b newline).0 t in
      first [] bytes (rw t (ap some (omega arith))) (ap (λ x. x ∷ bytes) here) tt
  | inr f ↦
      let other : b ≢ newline = ground arith in
      elim (find_newline-Found (i + 1) bytes) [
        | nowhere q plain ↦ nowhere (rw (f, q) refl) (other, plain)
        | first low high q e plain ↦
            first (b ∷ low) high (rw (f, q) (ap some (omega arith))) (ap (λ x. b ∷ x) e)
              (other, plain)
      ]
]

take-line :
    (low high : List ℕ) → take (length low + 1) (low ++ newline ∷ high) ≡ low ++ newline ∷ []
take-line [] high = refl
take-line (b ∷ low) high =
    let next : suc (length low) + 1 ≡ suc (length low + 1) = omega arith in
    rw next (ap (λ x. b ∷ x) (take-line low high))

drop-line : (low high : List ℕ) → drop (length low + 1) (low ++ newline ∷ high) ≡ high
drop-line [] high = refl
drop-line (b ∷ low) high =
    let next : suc (length low) + 1 ≡ suc (length low + 1) = omega arith in
    rw next (drop-line low high)

-- One string, with a line buffer.
print_found-Printed :
    (kbuf buffer printed : List ℕ)
    → Printed buffer
        (record { print_buffer = some kbuf; printed = printed })
        (print_found kbuf buffer
          (find_newline 0 buffer)
          (record { print_buffer = some kbuf; printed = printed }))
print_found-Printed kbuf buffer printed = elim (find_newline-Found 0 buffer) [
  | first low high q e plain ↦
      let at : find_newline 0 buffer ≡ some (length low) = q ∙ ap some (omega arith) in
      rw at (line kbuf low high refl e plain (rw (e, take-line low high, drop-line low high) refl))
  | nowhere q plain ↦ elim (Bool-cases (ltb 2048 (length (kbuf ++ buffer)))) [
    | inl t ↦ rw (q, t) (long kbuf refl plain (ground arith) refl)
    | inr f ↦ rw (q, f) (waits kbuf refl plain (ground arith) refl)
  ]
]

process_print-Printed : (buffer : List ℕ) (p : Printer) → Printed buffer p (process_print buffer p)
unfolding process_print
process_print-Printed buffer p = by_buffer p.print_buffer p.printed
  where
    by_buffer :
        (k : Option (List ℕ)) (printed : List ℕ)
        → Printed buffer
            (record { print_buffer = k; printed = printed })
            (process_print buffer (record { print_buffer = k; printed = printed }))
    by_buffer none printed = direct refl refl
    by_buffer (some kbuf) printed = print_found-Printed kbuf buffer printed

each-Printed : (buffers : List (List ℕ)) (p : Printer) → AllPrinted buffers p (print_all buffers p)
unfolding print_all
each-Printed [] p = refl
each-Printed (buffer ∷ buffers) p = (
  process_print buffer p,
  process_print-Printed buffer p,
  each-Printed buffers (process_print buffer p),
)

-- Of strings that are printed one after another, each one is sent at once if the core has no line
-- buffer; otherwise, if it has a line's end, what waited and the string up to the first line's end are
-- sent, and the rest waits; without a line's end it waits behind what waited, unless that makes more
-- than 2048 bytes, which are all sent. So no byte is lost, doubled or moved: what was sent and what
-- waits is what had been, followed by the strings.
pub print_all-AllPrinted :
    (buffers : List (List ℕ)) (p : Printer)
    → AllPrinted buffers p (print_all buffers p)
      × (output (print_all buffers p) ≡ output p ++ joined buffers)
print_all-AllPrinted buffers p = (each-Printed buffers p, print_all-output buffers p)
