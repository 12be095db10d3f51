-- ===== src/Wasm2c/Format/Decimal.antt =====
-- What `f30` of samples/obf_1/obf_w2c.c prints: decimal, in 64-bit steps down to a 32-bit number and
-- in 32-bit steps from there.
use squanchy.Base.{
  ℕ, zero, suc, ◌+◌, ◌-◌, ◌*◌, ◌/◌, ◌%◌, ◌^◌, ◌≤◌, ◌<◌, true, false, some, List, [], ◌∷◌, ◌≡◌, sym,
  ap, ◌∙◌, subst, arith, inl, inr, length, ltb, leb, ◌==◌, u32, u64, bit_or, Bool-cases,
}
use native.Mathlib.Numerals.{unary_clauses}
use squanchy.Wasm2c.{ok, write_at}
use squanchy.Wasm2c.Format.{f30, f30_wide, f30_narrow, f30_rest, i32_store8, sub32, sub64}
use squanchy.Wasm2c.Format.Print.{
  Written, nothing-Written, Written-before, put, length-put, bit_or-48, Prints, Written-Prints,
}

power : (k : ℕ) → 10 ^ suc k ≡ 10 * 10 ^ k
power k = simp unary_clauses (omega arith)

narrow_digit : (v : ℕ) → v < 2 ^ 32 → bit_or (sub32 v (u32 (v / 10 * 10))) 48 ≡ v % 10 + 48
narrow_digit v h = ap (λ (d : ℕ). bit_or d 48) (omega (arith, h)) ∙ bit_or-48 (v % 10) (omega arith)

wide_digit : (v : ℕ) → v < 2 ^ 64 → bit_or (u32 (sub64 v (u64 (v / 10 * 10)))) 48 ≡ v % 10 + 48
wide_digit v h = ap (λ (d : ℕ). bit_or d 48) (omega (arith, h)) ∙ bit_or-48 (v % 10) (omega arith)

module _ (n v p q : ℕ) (mem mem₁ : List ℕ) (place : u32 (p + 4294967295) ≡ q) where
  module _
      (stored : i32_store8 mem (u32 (p + 4294967295)) (bit_or (sub32 v (u32 (v / 10 * 10))) 48)
        ≡ ok mem₁) where
    f30_narrow-more : ltb 9 v ≡ true → f30_narrow (suc n) mem v p ≡ f30_narrow n mem₁ (v / 10) q
    unfolding f30_narrow
    f30_narrow-more more = rw stored (rw more (ap (f30_narrow n mem₁ (v / 10)) place))

    f30_narrow-last : ltb 9 v ≡ false → f30_narrow (suc n) mem v p ≡ some (ok (q, mem₁))
    unfolding f30_narrow
    f30_narrow-last last = rw stored (rw last (ap (λ (r : ℕ). some (ok (r, mem₁))) place))

  module _
      (stored : i32_store8 mem
          (u32 (p + 4294967295))
          (bit_or (u32 (sub64 v (u64 (v / 10 * 10)))) 48)
        ≡ ok mem₁) where
    f30_wide-more : ltb 42949672959 v ≡ true → f30_wide (suc n) mem v p ≡ f30_wide n mem₁ (v / 10) q
    unfolding f30_wide
    f30_wide-more more = rw stored (rw more (ap (f30_wide n mem₁ (v / 10)) place))

    f30_wide-last :
        ltb 42949672959 v ≡ false → f30_wide (suc n) mem v p ≡ some (ok (v / 10, q, mem₁))
    unfolding f30_wide
    f30_wide-last last = rw stored (rw last (ap (λ (r : ℕ). some (ok (v / 10, r, mem₁))) place))

-- The 32-bit steps.
f30_narrow-Written :
    (n : ℕ) (mem : List ℕ) (v p : ℕ)
    → 0 < v
    → v < 2 ^ 32
    → v < 10 ^ n
    → n ≤ p
    → p ≤ length mem
    → length mem ≤ 2 ^ 32
    → (p' : ℕ) × (mem' : List ℕ) × (f30_narrow n mem v p ≡ some (ok (p', mem')))
      × Written 10 (λ d. d + 48) v p mem p' mem'
f30_narrow-Written zero mem v p some_digit word bound room fits small =
    absurd (omega (arith, some_digit, bound))
f30_narrow-Written (suc n) mem v p some_digit word bound room fits small =
    let c : ℕ = v % 10 + 48 in
    let mem₁ : List ℕ = write_at mem (p - 1) (c ∷ []) in
    let stored =
      put mem p (bit_or (sub32 v (u32 (v / 10 * 10))) 48) c (narrow_digit v word) (omega arith)
        (omega (arith, room)) fits small in
    let place : u32 (p + 4294967295) ≡ p - 1 = omega (arith, room, fits, small) in
    let len : length mem₁ ≡ length mem = length-put mem p c (omega (arith, room)) fits in
    let before = Written-before 10 (λ d. d + 48) v p mem in
    elim (Bool-cases (ltb 9 v)) [
      | inl more ↦
          let (p', mem', runs, written) =
            f30_narrow-Written n mem₁ (v / 10) (p - 1) (ground (arith, more)) (omega (arith, word))
              (omega (arith, bound, power n)) (omega (arith, room)) (omega (arith, fits, len))
              (omega (arith, small, len)) in
          (
            p',
            mem',
            f30_narrow-more n v p (p - 1) mem mem₁ place stored more ∙ runs,
            before p' mem' some_digit (omega (arith, room)) fits written,
          )
      | inr last ↦
          let none_left : v / 10 ≡ 0 = ground (arith, last) in
          (
            p - 1,
            mem₁,
            f30_narrow-last n v p (p - 1) mem mem₁ place stored last,
            before (p - 1) mem₁ some_digit (omega (arith, room)) fits (
                subst (λ (w : ℕ). Written 10 (λ d. d + 48) w (p - 1) mem₁ (p - 1) mem₁)
                  (sym none_left) (nothing-Written 10 (λ d. d + 48) (p - 1) mem₁)),
          )
    ]

-- The 64-bit steps: what is printed after them completes the numeral.
f30_wide-Written :
    (n : ℕ) (mem : List ℕ) (v p : ℕ)
    → 2 ^ 32 ≤ v
    → v < 2 ^ 64
    → v < 2 ^ 32 * 10 ^ n
    → n ≤ p
    → p ≤ length mem
    → length mem ≤ 2 ^ 32
    → (w q : ℕ) × (mem₁ : List ℕ) × (f30_wide n mem v p ≡ some (ok (w, q, mem₁)))
      × (0 < w)
      × (w < 2 ^ 32)
      × (q ≤ p)
      × (p ≤ q + n)
      × (length mem₁ ≡ length mem)
      × ((p' : ℕ) (mem' : List ℕ)
          → Written 10 (λ d. d + 48) w q mem₁ p' mem'
          → Written 10 (λ d. d + 48) v p mem p' mem')
f30_wide-Written zero mem v p large word bound room fits small =
    absurd (omega (arith, large, bound))
f30_wide-Written (suc n) mem v p large word bound room fits small =
    let c : ℕ = v % 10 + 48 in
    let mem₁ : List ℕ = write_at mem (p - 1) (c ∷ []) in
    let stored =
      put mem p (bit_or (u32 (sub64 v (u64 (v / 10 * 10)))) 48) c (wide_digit v word) (omega arith)
        (omega (arith, room)) fits small in
    let place : u32 (p + 4294967295) ≡ p - 1 = omega (arith, room, fits, small) in
    let len : length mem₁ ≡ length mem = length-put mem p c (omega (arith, room)) fits in
    let before = λ (p' : ℕ) (mem' : List ℕ).
      Written-before 10 (λ d. d + 48) v p mem p' mem' (omega (arith, large)) (omega (arith, room))
        fits in
    elim (Bool-cases (ltb 42949672959 v)) [
      | inl more ↦
          let (w, q, mem', runs, some_left, narrow, low, high, same_length, rest) =
            f30_wide-Written n mem₁ (v / 10) (p - 1) (ground (arith, more)) (omega (arith, word))
              (omega (arith, bound, power n)) (omega (arith, room)) (omega (arith, fits, len))
              (omega (arith, small, len)) in
          (
            w,
            q,
            mem',
            f30_wide-more n v p (p - 1) mem mem₁ place stored more ∙ runs,
            some_left,
            narrow,
            omega (arith, low),
            omega (arith, high),
            same_length ∙ len,
            λ p'' mem'' done. before p'' mem'' (rest p'' mem'' done),
          )
      | inr last ↦ (
        v / 10,
        p - 1,
        mem₁,
        f30_wide-last n v p (p - 1) mem mem₁ place stored last,
        omega (arith, large),
        ground (arith, last),
        omega arith,
        omega arith,
        len,
        before,
      )
    ]

f30_rest-none :
    (fuel : ℕ) (mem : List ℕ) (v p : ℕ) → v ≡ 0 → f30_rest fuel mem v p ≡ some (ok (p, mem))
unfolding f30_rest
f30_rest-none fuel mem v p e = ground (arith, e)

f30_rest-digits :
    (fuel : ℕ) (mem : List ℕ) (v p : ℕ)
    → 0 < v
    → v < 2 ^ 32
    → f30_rest fuel mem v p ≡ f30_narrow fuel mem v p
unfolding f30_rest
f30_rest-digits fuel mem v p some_left word =
    let whole : u32 v ≡ v = omega (arith, word) in ground (arith, some_left, whole)

f30-narrow :
    (fuel : ℕ) (mem : List ℕ) (v p : ℕ) → v < 2 ^ 32 → f30 fuel mem v p ≡ f30_rest fuel mem v p
unfolding f30
f30-narrow fuel mem v p word = ground (arith, word)

f30-wide :
    (fuel : ℕ) (mem : List ℕ) (v p w q : ℕ) (mem₁ : List ℕ)
    → 2 ^ 32 ≤ v
    → f30_wide fuel mem v p ≡ some (ok (w, q, mem₁))
    → f30 fuel mem v p ≡ f30_rest fuel mem₁ w q
unfolding f30
f30-wide fuel mem v p w q mem₁ large runs = ground (arith, large, runs)

f30_rest-Written :
    (mem : List ℕ) (v p : ℕ)
    → v < 2 ^ 32
    → 10 ≤ p
    → p ≤ length mem
    → length mem ≤ 2 ^ 32
    → (p' : ℕ) × (mem' : List ℕ) × (f30_rest 10 mem v p ≡ some (ok (p', mem')))
      × Written 10 (λ d. d + 48) v p mem p' mem'
f30_rest-Written mem v p word room fits small = elim (Bool-cases (v == 0)) [
  | inl none_left ↦ (
    p,
    mem,
    f30_rest-none 10 mem v p (ground (arith, none_left)),
    subst (λ (w : ℕ). Written 10 (λ d. d + 48) w p mem p mem) (ground (arith, none_left))
        (nothing-Written 10 (λ d. d + 48) p mem),
  )
  | inr more ↦
      let some_left : 0 < v = ground (arith, more) in
      let (p', mem', runs, written) =
        f30_narrow-Written 10 mem v p some_left word (omega (arith, word)) room fits small in
      (p', mem', f30_rest-digits 10 mem v p some_left word ∙ runs, written)
]

-- A 64-bit number is printed before the pointer: what is written ends there, and the rest of the
-- memory is as it was. It is the number's decimal numeral, without a leading zero, and 0 prints
-- nothing. Room for 20 characters and ten rounds of each loop are enough.
pub f30-Prints :
    (mem : List ℕ) (v p : ℕ)
    → v < 2 ^ 64
    → 20 ≤ p
    → p ≤ length mem
    → length mem ≤ 2 ^ 32
    → Prints 10 (f30 10 mem v p) mem v p 20
f30-Prints mem v p word room fits small = elim (Bool-cases (leb 4294967296 v)) [
  | inr narrow ↦
      let (p', mem', runs, written) =
        f30_rest-Written mem v p (ground (arith, narrow)) (omega (arith, room)) fits small in
      Written-Prints 10 (omega arith) (f30 10 mem v p) mem v p 20 p' mem' (omega (arith, word))
        (f30-narrow 10 mem v p (ground (arith, narrow)) ∙ runs) written
  | inl wide ↦
      let large : 2 ^ 32 ≤ v = ground (arith, wide) in
      let (w, q, mem₁, steps, some_left, narrow, low, high, len, rest) =
        f30_wide-Written 10 mem v p large word (omega (arith, word)) (omega (arith, room)) fits
          small in
      let (p', mem', runs, written) =
        f30_rest-Written mem₁ w q narrow (omega (arith, high, room)) (omega (arith, low, fits, len))
          (omega (arith, len, small)) in
      Written-Prints 10 (omega arith) (f30 10 mem v p) mem v p 20 p' mem' (omega (arith, word))
        (f30-wide 10 mem v p w q mem₁ large steps ∙ runs) (rest p' mem' written)
]
