-- ===== src/Wasm2c/Format/Hex.antt =====
-- What `f28` of samples/obf_1/obf_w2c.c prints: hexadecimal, in the digits that the memory holds at
-- 66080, as small letters where the parameter sets their bit.
use squanchy.Base.{
  ℕ, zero, suc, ◌+◌, ◌-◌, ◌*◌, ◌/◌, ◌%◌, ◌^◌, ◌≤◌, ◌<◌, true, false, some, List, [], ◌∷◌, ◌≡◌, refl,
  sym, ap, ◌∙◌, subst, arith, inl, inr, ◌⊎◌, length, ltb, u32, bit_and, bit_or, Bool-cases, ◌==◌,
  get_elem?, if◌then◌else◌,
}
use native.Mathlib.Numerals.{unary_clauses}
use squanchy.Samples.Bits.{bit_or-lt}
use squanchy.Wasm2c.{ok, in_range, write_at}
use squanchy.Wasm2c.Arrays.{get_elem?-write_at, read_one, in_memory}
use squanchy.Wasm2c.Bits.Masks.{bit_and-15}
use squanchy.Wasm2c.Memory.{load_unsigned, from_bytes}
use squanchy.Wasm2c.Format.{f28, f28_loop, i32_store8, i32_load8_u}
use squanchy.Wasm2c.Format.Print.{Written, nothing-Written, Written-before, put, length-put}

-- The character of a hexadecimal digit, in capitals.
abbrev pub hex : ℕ → ℕ
hex d = if ltb d 10 then d + 48 else d + 55

abbrev pub letter : ℕ → ℕ → ℕ
letter p2 d = bit_or (hex d) p2

-- The memory holds the digits' characters.
abbrev pub HasDigits : List ℕ → Type 0
HasDigits mem = (d : ℕ) → d < 16 → get_elem? mem (66080 + d) ≡ some (hex d)

power : (k : ℕ) → 16 ^ suc k ≡ 16 * 16 ^ k
power k = simp unary_clauses (omega arith)

load_digit :
    (mem : List ℕ) (v : ℕ)
    → HasDigits mem
    → length mem ≤ 2 ^ 32
    → i32_load8_u mem (u32 (bit_and (u32 v) 15 + 66080)) ≡ ok (hex (v % 16))
unfolding load_unsigned in_range from_bytes
load_digit mem v digits small =
    let place : u32 (bit_and (u32 v) 15 + 66080) ≡ 66080 + v % 16 =
      omega (arith, bit_and-15 (u32 v) (omega arith)) in
    let there = digits (v % 16) (omega arith) in
    rw place (
      ground (
        arith,
        small,
        in_memory mem (66080 + v % 16) (hex (v % 16)) there,
        read_one mem (66080 + v % 16) (hex (v % 16)) there,
      ))

module _ (n v p q p2 c : ℕ) (mem mem₁ : List ℕ)
    (loaded : i32_load8_u mem (u32 (bit_and (u32 v) 15 + 66080)) ≡ ok c)
    (stored : i32_store8 mem (u32 (p + 4294967295)) (bit_or c p2) ≡ ok mem₁)
    (place : u32 (p + 4294967295) ≡ q) where
  f28_loop-more : ltb 15 v ≡ true → f28_loop (suc n) mem v p p2 ≡ f28_loop n mem₁ (v / 16) q p2
  unfolding f28_loop
  f28_loop-more more =
      rw (loaded, stored) (rw more (ap (λ (r : ℕ). f28_loop n mem₁ (v / 16) r p2) place))

  f28_loop-last : ltb 15 v ≡ false → f28_loop (suc n) mem v p p2 ≡ some (ok (q, mem₁))
  unfolding f28_loop
  f28_loop-last last = rw (loaded, stored) (rw last (ap (λ (r : ℕ). some (ok (r, mem₁))) place))

-- The room of `n` characters before `p` does not hold the digits.
abbrev pub Clear : (n p : ℕ) → Type 0
Clear n p = (p ≤ 66080) ⊎ (66096 + n ≤ p)

Clear-before : (n p : ℕ) → suc n ≤ p → Clear (suc n) p → Clear n (p - 1)
Clear-before n p room (inl h) = inl (omega (arith, h))
Clear-before n p room (inr h) = inr (omega (arith, h))

HasDigits-write_at :
    (mem : List ℕ) (n p c : ℕ)
    → suc n ≤ p
    → p ≤ length mem
    → Clear (suc n) p
    → HasDigits mem
    → HasDigits (write_at mem (p - 1) (c ∷ []))
HasDigits-write_at mem n p c room fits clear digits d small =
    let away : (66080 + d < p - 1) ⊎ (p - 1 + 1 ≤ 66080 + d) = elim clear [
      | inl h ↦ inr (omega (arith, h, room))
      | inr h ↦ inl (omega (arith, h, small))
    ] in
    get_elem?-write_at mem (c ∷ []) (p - 1) (66080 + d) (omega (arith, room, fits)) away
    ∙ digits d small

letter_lt : (v p2 : ℕ) → p2 < 2 ^ 8 → letter p2 (v % 16) < 256
letter_lt v p2 h =
    let small : v % 16 < 16 = omega arith in bit_or-lt 8 (hex (v % 16)) p2 (ground (arith, small)) h

f28_loop-Written :
    (n : ℕ) (mem : List ℕ) (v p p2 : ℕ)
    → 0 < v
    → v < 16 ^ n
    → p2 < 2 ^ 8
    → n ≤ p
    → p ≤ length mem
    → length mem ≤ 2 ^ 32
    → Clear n p
    → HasDigits mem
    → (p' : ℕ) × (mem' : List ℕ) × (f28_loop n mem v p p2 ≡ some (ok (p', mem')))
      × Written 16 (letter p2) v p mem p' mem'
f28_loop-Written zero mem v p p2 some_digit bound byte room fits small clear digits =
    absurd (omega (arith, some_digit, bound))
f28_loop-Written (suc n) mem v p p2 some_digit bound byte room fits small clear digits =
    let c : ℕ = letter p2 (v % 16) in
    let mem₁ : List ℕ = write_at mem (p - 1) (c ∷ []) in
    let loaded = load_digit mem v digits small in
    let stored = put mem p c c refl (letter_lt v p2 byte) (omega (arith, room)) fits small in
    let place : u32 (p + 4294967295) ≡ p - 1 = omega (arith, room, fits, small) in
    let len : length mem₁ ≡ length mem = length-put mem p c (omega (arith, room)) fits in
    let before = Written-before 16 (letter p2) v p mem in
    elim (Bool-cases (ltb 15 v)) [
      | inl more ↦
          let (p', mem', runs, written) =
            f28_loop-Written n mem₁ (v / 16) (p - 1) p2 (ground (arith, more))
              (omega (arith, bound, power n)) byte (omega (arith, room)) (omega (arith, fits, len))
              (omega (arith, small, len)) (Clear-before n p room clear)
              (HasDigits-write_at mem n p c room fits clear digits) in
          (
            p',
            mem',
            f28_loop-more n v p (p - 1) p2 (hex (v % 16)) mem mem₁ loaded stored place more ∙ runs,
            before p' mem' some_digit (omega (arith, room)) fits written,
          )
      | inr last ↦
          let none_left : v / 16 ≡ 0 = ground (arith, last) in
          (
            p - 1,
            mem₁,
            f28_loop-last n v p (p - 1) p2 (hex (v % 16)) mem mem₁ loaded stored place last,
            before (p - 1) mem₁ some_digit (omega (arith, room)) fits (
                subst (λ (w : ℕ). Written 16 (letter p2) w (p - 1) mem₁ (p - 1) mem₁)
                  (sym none_left) (nothing-Written 16 (letter p2) (p - 1) mem₁)),
          )
    ]

f28-none :
    (fuel : ℕ) (mem : List ℕ) (v p p2 : ℕ)
    → (v == 0) ≡ true
    → f28 fuel mem v p p2 ≡ some (ok (p, mem))
unfolding f28
f28-none fuel mem v p p2 e = ground (arith, e)

f28-digits :
    (fuel : ℕ) (mem : List ℕ) (v p p2 : ℕ)
    → (v == 0) ≡ false
    → f28 fuel mem v p p2 ≡ f28_loop fuel mem v p p2
unfolding f28
f28-digits fuel mem v p p2 e = ground (arith, e)

-- A 64-bit number is printed before the pointer in the characters at 66080, which the room for it
-- does not touch: what is written is the number's hexadecimal numeral, and the rest of the memory
-- is as it was. 16 rounds are enough.
pub f28-prints :
    (mem : List ℕ) (v p p2 : ℕ)
    → v < 2 ^ 64
    → p2 < 2 ^ 8
    → 16 ≤ p
    → p ≤ length mem
    → length mem ≤ 2 ^ 32
    → Clear 16 p
    → HasDigits mem
    → (p' : ℕ) × (mem' : List ℕ) × (f28 16 mem v p p2 ≡ some (ok (p', mem')))
      × Written 16 (letter p2) v p mem p' mem'
f28-prints mem v p p2 word byte room fits small clear digits = elim (Bool-cases (v == 0)) [
  | inl none_left ↦ (
    p,
    mem,
    f28-none 16 mem v p p2 none_left,
    subst (λ (w : ℕ). Written 16 (letter p2) w p mem p mem) (ground (arith, none_left))
        (nothing-Written 16 (letter p2) p mem),
  )
  | inr more ↦
      let (p', mem', runs, written) =
        f28_loop-Written 16 mem v p p2 (ground (arith, more)) (omega (arith, word)) byte room fits
          small clear digits in
      (p', mem', f28-digits 16 mem v p p2 more ∙ runs, written)
]
