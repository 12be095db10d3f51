-- ===== src/Wasm2c/Format/Octal.antt =====
-- What `f29` of samples/obf_1/obf_w2c.c prints: octal.
use squanchy.Base.{
  ℕ, zero, suc, ◌+◌, ◌-◌, ◌*◌, ◌/◌, ◌%◌, ◌^◌, ◌≤◌, ◌<◌, true, false, some, List, [], ◌∷◌, ◌≡◌, sym,
  ap, ◌∙◌, subst, arith, inl, inr, length, ltb, u32, bit_and, bit_or, Bool-cases, ◌==◌,
}
use native.Mathlib.Numerals.{unary_clauses}
use squanchy.Wasm2c.{ok, write_at}
use squanchy.Wasm2c.Bits.Masks.{bit_and-7}
use squanchy.Wasm2c.Format.{f29, f29_loop, i32_store8}
use squanchy.Wasm2c.Format.Print.{
  Written, nothing-Written, Written-before, put, length-put, bit_or-48, Prints, Written-Prints,
}

power : (k : ℕ) → 8 ^ suc k ≡ 8 * 8 ^ k
power k = simp unary_clauses (omega arith)

octal_digit : (v : ℕ) → bit_or (bit_and (u32 v) 7) 48 ≡ v % 8 + 48
octal_digit v =
    ap (λ (d : ℕ). bit_or d 48) (bit_and-7 (u32 v) (omega arith) ∙ omega arith)
    ∙ bit_or-48 (v % 8) (omega arith)

module _ (n v p q : ℕ) (mem mem₁ : List ℕ)
    (stored : i32_store8 mem (u32 (p + 4294967295)) (bit_or (bit_and (u32 v) 7) 48) ≡ ok mem₁)
    (place : u32 (p + 4294967295) ≡ q) where
  f29_loop-more : ltb 7 v ≡ true → f29_loop (suc n) mem v p ≡ f29_loop n mem₁ (v / 8) q
  unfolding f29_loop
  f29_loop-more more = rw stored (rw more (ap (f29_loop n mem₁ (v / 8)) place))

  f29_loop-last : ltb 7 v ≡ false → f29_loop (suc n) mem v p ≡ some (ok (q, mem₁))
  unfolding f29_loop
  f29_loop-last last = rw stored (rw last (ap (λ (r : ℕ). some (ok (r, mem₁))) place))

f29_loop-Written :
    (n : ℕ) (mem : List ℕ) (v p : ℕ)
    → 0 < v
    → v < 8 ^ n
    → n ≤ p
    → p ≤ length mem
    → length mem ≤ 2 ^ 32
    → (p' : ℕ) × (mem' : List ℕ) × (f29_loop n mem v p ≡ some (ok (p', mem')))
      × Written 8 (λ d. d + 48) v p mem p' mem'
f29_loop-Written zero mem v p some_digit bound room fits small =
    absurd (omega (arith, some_digit, bound))
f29_loop-Written (suc n) mem v p some_digit bound room fits small =
    let c : ℕ = v % 8 + 48 in
    let mem₁ : List ℕ = write_at mem (p - 1) (c ∷ []) in
    let stored =
      put mem p (bit_or (bit_and (u32 v) 7) 48) c (octal_digit v) (omega arith)
        (omega (arith, room)) fits small in
    let place : u32 (p + 4294967295) ≡ p - 1 = omega (arith, room, fits, small) in
    let len : length mem₁ ≡ length mem = length-put mem p c (omega (arith, room)) fits in
    let before = Written-before 8 (λ d. d + 48) v p mem in
    elim (Bool-cases (ltb 7 v)) [
      | inl more ↦
          let (p', mem', runs, written) =
            f29_loop-Written n mem₁ (v / 8) (p - 1) (ground (arith, more))
              (omega (arith, bound, power n)) (omega (arith, room)) (omega (arith, fits, len))
              (omega (arith, small, len)) in
          (
            p',
            mem',
            f29_loop-more n v p (p - 1) mem mem₁ stored place more ∙ runs,
            before p' mem' some_digit (omega (arith, room)) fits written,
          )
      | inr last ↦
          let none_left : v / 8 ≡ 0 = ground (arith, last) in
          (
            p - 1,
            mem₁,
            f29_loop-last n v p (p - 1) mem mem₁ stored place last,
            before (p - 1) mem₁ some_digit (omega (arith, room)) fits (
                subst (λ (w : ℕ). Written 8 (λ d. d + 48) w (p - 1) mem₁ (p - 1) mem₁)
                  (sym none_left) (nothing-Written 8 (λ d. d + 48) (p - 1) mem₁)),
          )
    ]

f29-none :
    (fuel : ℕ) (mem : List ℕ) (v p : ℕ) → (v == 0) ≡ true → f29 fuel mem v p ≡ some (ok (p, mem))
unfolding f29
f29-none fuel mem v p e = ground (arith, e)

f29-digits :
    (fuel : ℕ) (mem : List ℕ) (v p : ℕ)
    → (v == 0) ≡ false
    → f29 fuel mem v p ≡ f29_loop fuel mem v p
unfolding f29
f29-digits fuel mem v p e = ground (arith, e)

-- A 64-bit number is printed before the pointer: what is written ends there, and the rest of the
-- memory is as it was. It is the number's octal numeral, without a leading zero, and 0 prints
-- nothing. 22 rounds are enough.
pub f29-Prints :
    (mem : List ℕ) (v p : ℕ)
    → v < 2 ^ 64
    → 22 ≤ p
    → p ≤ length mem
    → length mem ≤ 2 ^ 32
    → Prints 8 (f29 22 mem v p) mem v p 22
f29-Prints mem v p bound room fits small = elim (Bool-cases (v == 0)) [
  | inl none_left ↦
      Written-Prints 8 (omega arith) (f29 22 mem v p) mem v p 22 p mem (omega (arith, bound))
        (f29-none 22 mem v p none_left)
        (subst (λ (w : ℕ). Written 8 (λ d. d + 48) w p mem p mem) (ground (arith, none_left))
          (nothing-Written 8 (λ d. d + 48) p mem))
  | inr more ↦
      let (p', mem', runs, written) =
        f29_loop-Written 22 mem v p (ground (arith, more)) (omega (arith, bound)) room fits small in
      Written-Prints 8 (omega arith) (f29 22 mem v p) mem v p 22 p' mem' (omega (arith, bound))
        (f29-digits 22 mem v p more ∙ runs) written
]
