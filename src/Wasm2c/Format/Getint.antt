-- ===== src/Wasm2c/Format/Getint.antt =====
-- What `f26` of samples/obf_1/obf_w2c.c reads: a decimal that ends at another character, with
-- 2147483647 as the largest number and all ones for one that is larger.
pub mod RoundTrip
use squanchy.Base.{
  ℕ, zero, suc, ◌+◌, ◌-◌, ◌*◌, ◌/◌, ◌%◌, ◌^◌, ◌≤◌, ◌<◌, Bool, true, false, some, List, [], ◌∷◌,
  ◌++◌, ◌≡◌, refl, sym, ap, ap₂, ◌∙◌, subst, arith, inl, inr, ◌⊎◌, length, get_elem?, all, ltb, leb,
  u32, if◌then◌else◌, bit_xor, take, drop,
}
use squanchy.Wasm2c.{ok, in_range, write_at, read_at}
use squanchy.Wasm2c.Arrays.{
  read_one, in_memory, get_elem?-write_at, length-write_at, outside, read_at-write_at,
  write_at-twice,
}
use squanchy.Wasm2c.Bits.Masks.{bit_xor-int_max}
use squanchy.Wasm2c.Memory.{
  to_bytes, from_bytes, load_signed, sign_extend, store, i32_store, i32_load, i32_load8_s,
}
use squanchy.Wasm2c.Memory.Laws.{to_bytes-length}
use squanchy.Wasm2c.Format.{Returns, f26, f26_loop, accumulate}
use squanchy.Wasm2c.Format.Numeral.{number, is_digit}

-- The number that is returned for a decimal.
abbrev pub clip : ℕ → ℕ
clip v = if leb v 2147483647 then v else 4294967295

accumulate-clip : (acc d : ℕ) → d < 10 → accumulate (clip acc) d ≡ clip (acc * 10 + d)
unfolding accumulate
accumulate-clip acc d small = ground (arith, small, bit_xor-int_max (acc * 10))

-- The bytes at an address and on.
abbrev pub Spells : List ℕ → ℕ → List ℕ → Type 0
Spells mem s [] = Unit {0}
Spells mem s (c ∷ cs) = (get_elem? mem s ≡ some c) × Spells mem (s + 1) cs

-- The difference to '0' as a 32-bit number is below 10 exactly at the digits.
pub digit_test : (c : ℕ) → c < 256 → ltb (u32 (sign_extend 1 4 c + 4294967248)) 10 ≡ is_digit 10 c
unfolding sign_extend
digit_test c byte = ground (arith, byte)

pub digit_value : (c : ℕ) → is_digit 10 c ≡ true → u32 (sign_extend 1 4 c + 4294967248) ≡ c - 48
unfolding sign_extend
digit_value c h = ground (arith, h)

pub load_byte :
    (mem : List ℕ) (s c : ℕ)
    → get_elem? mem s ≡ some c
    → length mem ≤ 2 ^ 32
    → i32_load8_s mem s ≡ ok (sign_extend 1 4 c)
unfolding load_signed in_range from_bytes
load_byte mem s c h small = ground (arith, in_memory mem s c h, small, read_one mem s c h)

-- The cell of four bytes at `p` is not among the `n` bytes at `s`.
abbrev pub Apart : (p s n : ℕ) → Type 0
Apart p s n = (p + 4 ≤ s) ⊎ (s + n ≤ p)

pub Apart-next : (p s n : ℕ) → Apart p s (suc n) → Apart p (s + 1) n
Apart-next p s n (inl h) = inl (omega (arith, h))
Apart-next p s n (inr h) = inr (omega (arith, h))

-- The cell is overwritten, the bytes stay.
pub Spells-write_at :
    (mem : List ℕ) (p v s : ℕ) (cs : List ℕ)
    → p + 4 ≤ length mem
    → Apart p s (length cs)
    → Spells mem s cs
    → Spells (write_at mem p (to_bytes 4 v)) s cs
Spells-write_at mem p v s [] fits apart h = tt
Spells-write_at mem p v s (c ∷ cs) fits apart h =
    let len : length (to_bytes 4 v) ≡ 4 = to_bytes-length 4 v in
    let room : p + length (to_bytes 4 v) ≤ length mem = omega (arith, fits, len) in
    let away : (s < p) ⊎ (p + 4 ≤ s) = elim apart [
      | inl before ↦ inr before
      | inr behind ↦ inl (omega (arith, behind))
    ] in
    (
      get_elem?-write_at mem (to_bytes 4 v) p s room (outside s away len) ∙ h.0,
      Spells-write_at mem p v (s + 1) cs fits (Apart-next p s (length cs) apart) h.1,
    )

pub store_cell :
    (mem : List ℕ) (p v : ℕ)
    → p + 4 ≤ length mem
    → length mem ≤ 2 ^ 32
    → i32_store mem p v ≡ ok (write_at mem p (to_bytes 4 v))
unfolding store in_range
store_cell mem p v fits small = ground (arith, fits, small)

abbrev choice : Bool → Returns → Returns → Returns
choice b x y = elim b [ true ↦ x | false ↦ y ]

choice-true : (b : Bool) (x y : Returns) → b ≡ true → choice b x y ≡ x
choice-true b x y e = rw e refl

choice-false : (b : Bool) (x y : Returns) → b ≡ false → choice b x y ≡ y
choice-false b x y e = rw e refl

module _ (n l1 l2 l3 p end c : ℕ) (mem mem' : List ℕ) (next : u32 (l2 + 1) ≡ end)
    (stored : i32_store mem p end ≡ ok mem')
    (loaded : i32_load8_s mem' (l2 + 1) ≡ ok (sign_extend 1 4 c)) (byte : c < 256) where
  f26_loop-step :
      f26_loop (suc n) mem p l1 l2 l3
      ≡ choice
          (ltb (u32 (sign_extend 1 4 c + 4294967248)) 10)
          (f26_loop n mem' p
            (accumulate l1 l3)
            (u32 (l2 + 1))
            (u32 (sign_extend 1 4 c + 4294967248)))
          (some (ok (accumulate l1 l3, mem')))
  unfolding f26_loop
  f26_loop-step = rw (ap (i32_store mem p) next ∙ stored, loaded) refl

  f26_loop-more :
      is_digit 10 c ≡ true
      → f26_loop (suc n) mem p l1 l2 l3 ≡ f26_loop n mem' p (accumulate l1 l3) end (c - 48)
  f26_loop-more more =
      f26_loop-step
      ∙ (choice-true _ _ _ (digit_test c byte ∙ more)
          ∙ ap₂ (f26_loop n mem' p (accumulate l1 l3)) next (digit_value c more))

  f26_loop-last :
      is_digit 10 c ≡ false → f26_loop (suc n) mem p l1 l2 l3 ≡ some (ok (accumulate l1 l3, mem'))
  f26_loop-last last = f26_loop-step ∙ choice-false _ _ _ (digit_test c byte ∙ last)

twice :
    (mem : List ℕ) (p v w : ℕ)
    → p + 4 ≤ length mem
    → write_at (write_at mem p (to_bytes 4 v)) p (to_bytes 4 w) ≡ write_at mem p (to_bytes 4 w)
twice mem p v w fits =
    write_at-twice mem (to_bytes 4 v) (to_bytes 4 w) p
      (to_bytes-length 4 v ∙ sym (to_bytes-length 4 w)) (omega (arith, fits, to_bytes-length 4 v))

pub length-cell :
    (mem : List ℕ) (p v : ℕ)
    → p + 4 ≤ length mem
    → length (write_at mem p (to_bytes 4 v)) ≡ length mem
length-cell mem p v fits =
    length-write_at mem (to_bytes 4 v) p (omega (arith, fits, to_bytes-length 4 v))

-- The loop with the first digit in hand and the others in the memory behind it.
pub f26_loop-number :
    (n acc s p : ℕ) (d : ℕ) (ds : List ℕ) (c : ℕ) (mem : List ℕ)
    → length ds < n
    → d < 10
    → all (is_digit 10) ds ≡ true
    → is_digit 10 c ≡ false
    → c < 256
    → p + 4 ≤ length mem
    → length mem ≤ 2 ^ 32
    → Apart p (s + 1) (length (ds ++ c ∷ []))
    → Spells mem (s + 1) (ds ++ c ∷ [])
    → f26_loop n mem p (clip acc) s d
      ≡ some
          (ok (clip (number 10 (acc * 10 + d) ds), write_at mem p (to_bytes 4 (s + 1 + length ds))))
unfolding number
f26_loop-number zero acc s p d ds c mem fuel digit digits stop byte fits small apart text =
    absurd (omega (arith, fuel))
f26_loop-number (suc n) acc s p d [] c mem fuel digit digits stop byte fits small apart text =
    let mem' : List ℕ = write_at mem p (to_bytes 4 (s + 1)) in
    let behind : s + 1 ≡ s + 1 + 0 = omega arith in
    let text' = Spells-write_at mem p (s + 1) (s + 1) (c ∷ []) fits apart text in
    let len : length mem' ≡ length mem = length-cell mem p (s + 1) fits in
    f26_loop-last n (clip acc) s d p (s + 1) c mem mem'
      (omega (arith, small, in_memory mem (s + 1) c text.0)) (store_cell mem p (s + 1) fits small)
      (load_byte mem' (s + 1) c text'.0 (omega (arith, small, len))) byte stop
    ∙ ap₂ (λ (v e : ℕ). some (ok (v, write_at mem p (to_bytes 4 e)))) (accumulate-clip acc d digit)
        behind
f26_loop-number (suc n) acc s p d (d' ∷ ds) c mem fuel digit digits stop byte fits small apart
      text =
    let mem' : List ℕ = write_at mem p (to_bytes 4 (s + 1)) in
    let behind : s + 1 + 1 + length ds ≡ s + 1 + suc (length ds) = omega arith in
    let text' = Spells-write_at mem p (s + 1) (s + 1) (d' ∷ (ds ++ c ∷ [])) fits apart text in
    let len : length mem' ≡ length mem = length-cell mem p (s + 1) fits in
    let is_one : is_digit 10 d' ≡ true = ground (arith, digits) in
    f26_loop-more n (clip acc) s d p (s + 1) d' mem mem'
      (omega (arith, small, in_memory mem (s + 1) d' text.0)) (store_cell mem p (s + 1) fits small)
      (load_byte mem' (s + 1) d' text'.0 (omega (arith, small, len))) (ground (arith, is_one))
      is_one
    ∙ (ap (λ (v : ℕ). f26_loop n mem' p v (s + 1) (d' - 48)) (accumulate-clip acc d digit)
        ∙ (f26_loop-number n (acc * 10 + d) (s + 1) p (d' - 48) ds c mem' (omega (arith, fuel))
              (ground (arith, is_one)) (ground (arith, digits)) stop byte (omega (arith, fits, len))
              (omega (arith, small, len)) (Apart-next p (s + 1) (length (ds ++ c ∷ [])) apart)
              text'.1
            ∙ ap (λ (m : List ℕ). some (ok (clip (number 10 (acc * 10 + d) (d' ∷ ds)), m)))
                (twice mem p (s + 1) (s + 1 + 1 + length ds) fits
                  ∙ ap (λ (e : ℕ). write_at mem p (to_bytes 4 e)) behind)))
