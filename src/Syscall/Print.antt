-- ===== src/Syscall/Print.antt =====
-- `process_print` of `kernel/src/arch/x86_64/syscall.rs`: the line buffer between the processes of a
-- core and the serial line. Strings are their bytes.
pub mod Lines
use node_replicated_kernel.Prelude.{
  ℕ, zero, suc, ◌+◌, ◌≤◌, ◌≡◌, refl, sym, ap, ◌∙◌, inl, inr, Option, none, some, List, [], ◌∷◌,
  ◌++◌, append_assoc, append-nil, length, length-drop, take, drop, ◌==◌, ltb, if◌then◌else◌,
  Bool-cases, max, arith,
}

-- `print_buffer` of the core, and what went to the serial line.
pub record Printer : Type 0 where
  pub print_buffer : Option (List ℕ)
  pub printed : List ℕ

abbrev pub newline : ℕ
newline = 10

-- `find("\n")`, of the bytes from the `i`-th on.
pub find_newline : ℕ → List ℕ → Option ℕ
find_newline i [] = none
find_newline i (b ∷ bytes) =
    let rest = find_newline (i + 1) bytes in if b == newline then some i else rest

abbrev pub sprint : List ℕ → Printer → Printer
sprint bytes p = record p { printed = p.printed ++ bytes }

-- A string with a line's end at `idx`, or without one.
abbrev pub print_line : List ℕ → List ℕ → ℕ → Printer → Printer
print_line kbuf buffer idx p = record (sprint (kbuf ++ take (idx + 1) buffer) p) {
  print_buffer = some (drop (idx + 1) buffer);
}

abbrev pub print_part : List ℕ → List ℕ → Printer → Printer
print_part kbuf buffer p =
    let kbuf' = kbuf ++ buffer in
    if ltb 2048 (length kbuf')
    then record (sprint kbuf' p) { print_buffer = some [] }
    else record p { print_buffer = some kbuf' }

abbrev pub print_found : List ℕ → List ℕ → Option ℕ → Printer → Printer
print_found kbuf buffer none p = print_part kbuf buffer p
print_found kbuf buffer (some idx) p = print_line kbuf buffer idx p

abbrev pub print_with : Option (List ℕ) → List ℕ → Printer → Printer
print_with none buffer p = sprint buffer p
print_with (some kbuf) buffer p = print_found kbuf buffer (find_newline 0 buffer) p

unfoldable pub process_print : List ℕ → Printer → Printer
process_print buffer p = print_with p.print_buffer buffer p

unfoldable pub print_all : List (List ℕ) → Printer → Printer
print_all [] p = p
print_all (buffer ∷ buffers) p = print_all buffers (process_print buffer p)

-- What was printed and what waits.
abbrev pub waiting : Option (List ℕ) → List ℕ
waiting none = []
waiting (some kbuf) = kbuf

abbrev pub output : Printer → List ℕ
output p = p.printed ++ waiting p.print_buffer

abbrev pub joined : List (List ℕ) → List ℕ
joined [] = []
joined (x ∷ xs) = x ++ joined xs

take-drop : (n : ℕ) (xs : List ℕ) → take n xs ++ drop n xs ≡ xs
take-drop zero [] = refl
take-drop zero (x ∷ xs) = refl
take-drop (suc n) [] = refl
take-drop (suc n) (x ∷ xs) = ap (λ t. x ∷ t) (take-drop n xs)

print_with-output :
    (k : Option (List ℕ)) (buffer printed : List ℕ)
    → output (print_with k buffer (record { print_buffer = k; printed = printed }))
      ≡ (printed ++ waiting k) ++ buffer
print_with-output none buffer printed =
    append-nil (printed ++ buffer) ∙ sym (ap (λ x. x ++ buffer) (append-nil printed))
print_with-output (some kbuf) buffer printed = by_find (find_newline 0 buffer)
  where
    by_find :
        (o : Option ℕ)
        → output
            (print_found kbuf buffer o (record { print_buffer = some kbuf; printed = printed }))
          ≡ (printed ++ kbuf) ++ buffer
    by_find none = elim (Bool-cases (ltb 2048 (length (kbuf ++ buffer)))) [
      | inl t ↦
          rw t (append-nil (printed ++ (kbuf ++ buffer)) ∙ sym (append_assoc printed kbuf buffer))
      | inr f ↦ rw f (sym (append_assoc printed kbuf buffer))
    ]
    by_find (some idx) =
        append_assoc printed (kbuf ++ take (idx + 1) buffer) (drop (idx + 1) buffer)
        ∙ ap (λ x. printed ++ x)
            (append_assoc kbuf (take (idx + 1) buffer) (drop (idx + 1) buffer)
              ∙ ap (λ x. kbuf ++ x) (take-drop (idx + 1) buffer))
        ∙ sym (append_assoc printed kbuf buffer)

-- A string that waits is at most 2048 bytes, or no longer than what was printed last.
abbrev pub WaitsAtMost : ℕ → Printer → Type 0
WaitsAtMost n p = length (waiting p.print_buffer) ≤ max 2048 n

print_with-waiting :
    (k : Option (List ℕ)) (buffer printed : List ℕ)
    → WaitsAtMost
        (length buffer)
        (print_with k buffer (record { print_buffer = k; printed = printed }))
print_with-waiting none buffer printed = omega arith
print_with-waiting (some kbuf) buffer printed = by_find (find_newline 0 buffer)
  where
    by_find :
        (o : Option ℕ)
        → WaitsAtMost
            (length buffer)
            (print_found kbuf buffer o (record { print_buffer = some kbuf; printed = printed }))
    by_find none = elim (Bool-cases (ltb 2048 (length (kbuf ++ buffer)))) [
      | inl t ↦ rw t (omega arith)
      | inr f ↦ rw f (ground arith)
    ]
    by_find (some idx) = omega (arith, length-drop (idx + 1) buffer)

-- What was sent and what waits is what had been, followed by the strings that were printed.
pub print_all-output :
    (buffers : List (List ℕ)) (p : Printer)
    → output (print_all buffers p) ≡ output p ++ joined buffers
unfolding print_all process_print
print_all-output [] p = sym (append-nil (output p))
print_all-output (buffer ∷ buffers) p =
    print_all-output buffers (process_print buffer p)
    ∙ ap (λ x. x ++ joined buffers) (print_with-output p.print_buffer buffer p.printed)
    ∙ append_assoc (output p) buffer (joined buffers)

pub process_print-waiting :
    (buffer : List ℕ) (p : Printer) → WaitsAtMost (length buffer) (process_print buffer p)
unfolding process_print
process_print-waiting buffer p = print_with-waiting p.print_buffer buffer p.printed
