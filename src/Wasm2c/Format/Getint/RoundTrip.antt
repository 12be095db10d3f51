-- ===== src/Wasm2c/Format/Getint/RoundTrip.antt =====
-- `f26` of samples/obf_1/obf_w2c.c reads what a decimal spells, and so what `f30` has printed.
use squanchy.Base.{
  length-append, ℕ, suc, ◌+◌, ◌-◌, ◌*◌, ◌^◌, ◌≤◌, ◌<◌, Bool, true, false, some, List, [], ◌∷◌, ◌++◌,
  ◌≡◌, refl, sym, ap, ◌∙◌, subst, arith, inl, inr, length, get_elem?, all, leb, ltb, u32, drop,
}
use squanchy.Wasm2c.{ok, write_at}
use mathlib.Core.List.{append_assoc}
use squanchy.Wasm2c.Arrays.{in_memory, get_elem?-within, drop-at, length-write_at}
use squanchy.Wasm2c.Memory.Laws.{store-load}
use squanchy.Wasm2c.Memory.{to_bytes, sign_extend, i32_store, i32_load, i32_load8_s}
use squanchy.Wasm2c.Format.{f26, f26_loop, f30}
use squanchy.Wasm2c.Format.Decimal.{f30-Prints}
use squanchy.Wasm2c.Format.Numeral.{number, is_digit}
use squanchy.Wasm2c.Format.Getint.{
  clip, Spells, Apart, Apart-next, load_byte, f26_loop-number, digit_test, digit_value, store_cell,
  Spells-write_at, length-cell,
}

at_most : (x : ℕ) → leb x 9 ≡ ltb x 10
at_most x = ground arith

f26-first :
    (fuel : ℕ) (mem : List ℕ) (p s d : ℕ)
    → i32_load mem p ≡ ok s
    → i32_load8_s mem s ≡ ok (sign_extend 1 4 d)
    → leb (u32 (sign_extend 1 4 d + 4294967248)) 9 ≡ true
    → f26 fuel mem p ≡ f26_loop fuel mem p 0 s (u32 (sign_extend 1 4 d + 4294967248))
unfolding f26
f26-first fuel mem p s d pointer loaded test =
    rw (pointer, loaded)
      (subst
        (λ (b : Bool).
          (elim b [
            | true ↦ f26_loop fuel mem p 0 s (u32 (sign_extend 1 4 d + 4294967248))
            | false ↦ some (ok (0, mem))
          ])
          ≡ f26_loop fuel mem p 0 s (u32 (sign_extend 1 4 d + 4294967248)))
        (sym test) refl)

-- Where the pointer in the cell at `p` points to digits that end at another character, the digits'
-- value is returned, or all ones for more than 2147483647, and the pointer then points behind the
-- digits. One round for each digit is enough.
pub f26-reads :
    (n p s d c : ℕ) (ds mem : List ℕ)
    → length ds < n
    → all (is_digit 10) (d ∷ ds) ≡ true
    → is_digit 10 c ≡ false
    → c < 256
    → p + 4 ≤ length mem
    → length mem ≤ 2 ^ 32
    → Apart p s (suc (length (ds ++ c ∷ [])))
    → i32_load mem p ≡ ok s
    → Spells mem s (d ∷ (ds ++ c ∷ []))
    → f26 n mem p
      ≡ some (ok (clip (number 10 0 (d ∷ ds)), write_at mem p (to_bytes 4 (s + suc (length ds)))))
unfolding number
f26-reads n p s d c ds mem fuel digits stop byte fits small apart pointer text =
    let is_one : is_digit 10 d ≡ true = ground (arith, digits) in
    let low : d < 256 = ground (arith, is_one) in
    let behind : s + 1 + length ds ≡ s + suc (length ds) = omega arith in
    f26-first n mem p s d pointer (load_byte mem s d text.0 small)
      (at_most (u32 (sign_extend 1 4 d + 4294967248)) ∙ (digit_test d low ∙ is_one))
    ∙ (ap (f26_loop n mem p 0 s) (digit_value d is_one)
        ∙ (f26_loop-number n 0 s p (d - 48) ds c mem fuel (ground (arith, is_one))
              (ground (arith, digits)) stop byte fits small
              (Apart-next p s (length (ds ++ c ∷ [])) apart) text.1
            ∙ ap
                (λ (e : ℕ).
                  some
                    (ok (clip (number 10 (0 * 10 + (d - 48)) ds), write_at mem p (to_bytes 4 e))))
                behind))

Spells-of :
    (mem : List ℕ) (s : ℕ) (cs rest : List ℕ)
    → ((i : ℕ) → get_elem? mem (s + i) ≡ get_elem? (cs ++ rest) i)
    → Spells mem s cs
Spells-of mem s [] rest h = tt
Spells-of mem s (c ∷ cs) rest h =
    let here : s + 0 ≡ s = omega arith in
    let next = λ (i : ℕ). (let e : s + 1 + i ≡ s + suc i = omega arith in e) in
    (
      ap (get_elem? mem) (sym here) ∙ h 0,
      Spells-of mem (s + 1) cs rest (λ i. ap (get_elem? mem) (next i) ∙ h (suc i)),
    )

-- A text that was written, with the character behind it.
Spells-written :
    (mem : List ℕ) (k p c : ℕ) (ds : List ℕ)
    → k + length ds ≡ p
    → get_elem? mem p ≡ some c
    → p ≤ length mem
    → Spells (write_at mem k ds) k (ds ++ c ∷ [])
Spells-written mem k p c ds place stop fits =
    let behind : drop (k + length ds) mem ≡ c ∷ drop (suc p) mem =
      ap (λ (j : ℕ). drop j mem) place ∙ drop-at mem p c stop in
    Spells-of (write_at mem k ds) k (ds ++ c ∷ []) (drop (suc p) mem) λ i.
      get_elem?-within mem ds k i (omega (arith, place, fits))
      ∙ ap (λ (r : List ℕ). get_elem? r i)
          (ap (λ (r : List ℕ). ds ++ r) behind ∙ sym (append_assoc ds (c ∷ []) (drop (suc p) mem)))

-- A cell that was stored, and loaded again.
cell :
    (mem : List ℕ) (q start : ℕ)
    → q + 4 ≤ length mem
    → length mem ≤ 2 ^ 32
    → start < 2 ^ 32
    → i32_load (write_at mem q (to_bytes 4 start)) q ≡ ok start
cell mem q start fits small word =
    let (mem', stored, loaded, kept, others) =
      store-load 4 q start mem fits (omega (arith, small)) in
    let e : ok mem' ≡ ok (write_at mem q (to_bytes 4 start)) =
      sym stored ∙ store_cell mem q start fits small in
    let same_memory : mem' ≡ write_at mem q (to_bytes 4 start) = cc in
    subst (λ (m : List ℕ). i32_load m q ≡ ok start) same_memory
      (loaded ∙ ap ok (omega (arith, word)))

-- The text was written before `p`, and the cell then got the pointer to it.
f26-text :
    (mem : List ℕ) (p q c : ℕ) (ds : List ℕ)
    → 0 < number 10 0 ds
    → all (is_digit 10) ds ≡ true
    → length ds ≤ 20
    → 20 ≤ p
    → get_elem? mem p ≡ some c
    → is_digit 10 c ≡ false
    → c < 256
    → q + 4 ≤ length mem
    → length mem ≤ 2 ^ 32
    → Apart q (p - 20) 21
    → (mem' : List ℕ) × (f26 20
          (write_at (write_at mem (p - length ds) ds) q (to_bytes 4 (p - length ds)))
          q
        ≡ some (ok (clip (number 10 0 ds), mem')))
unfolding number
f26-text mem p q c [] positive digits short room stop other byte fits small apart =
    absurd (omega (arith, positive))
f26-text mem p q c (d ∷ ds) positive digits short room stop other byte fits small apart =
    let start : ℕ = p - suc (length ds) in
    let inside : p < length mem = in_memory mem p c stop in
    let mem₁ : List ℕ = write_at mem start (d ∷ ds) in
    let len₁ : length mem₁ ≡ length mem =
      length-write_at mem (d ∷ ds) start (omega (arith, short, room, inside)) in
    let fits₁ : q + 4 ≤ length mem₁ = omega (arith, len₁, fits) in
    let mem₂ : List ℕ = write_at mem₁ q (to_bytes 4 start) in
    let len₂ : length mem₂ ≡ length mem = length-cell mem₁ q start fits₁ ∙ len₁ in
    let whole : suc (length (ds ++ c ∷ [])) ≡ length ds + 2 =
      omega (arith, length-append ds (c ∷ [])) in
    let apart' : Apart q start (suc (length (ds ++ c ∷ []))) = elim apart [
      | inl h ↦ inl (omega (arith, h, short))
      | inr h ↦ inr (omega (arith, h, whole, short, room))
    ] in
    let text =
      Spells-written mem start p c (d ∷ ds) (omega (arith, short, room)) stop
        (omega (arith, inside)) in
    (
      write_at mem₂ q (to_bytes 4 (start + suc (length ds))),
      f26-reads 20 q start d c ds mem₂ (omega (arith, short)) digits other byte
          (omega (arith, len₂, fits)) (omega (arith, len₂, small)) apart'
          (cell mem₁ q start fits₁ (omega (arith, len₁, small)) (omega (arith, inside, small)))
          (Spells-write_at mem₁ q start start (d ∷ (ds ++ c ∷ [])) fits₁ apart' text),
    )

-- A positive number up to 2147483647 that `f30` prints before a character other than a digit, and
-- the pointer that it returns, stored in a cell apart from the text, is what `f26` then returns.
pub f26-f30 :
    (mem : List ℕ) (v p q c : ℕ)
    → 0 < v
    → v ≤ 2147483647
    → 20 ≤ p
    → get_elem? mem p ≡ some c
    → is_digit 10 c ≡ false
    → c < 256
    → q + 4 ≤ length mem
    → length mem ≤ 2 ^ 32
    → Apart q (p - 20) 21
    → (start : ℕ) × (mem₁ mem₂ mem₃ : List ℕ) × (f30 10 mem v p ≡ some (ok (start, mem₁)))
      × (i32_store mem₁ q start ≡ ok mem₂)
      × (f26 20 mem₂ q ≡ some (ok (v, mem₃)))
f26-f30 mem v p q c positive bound room stop other byte fits small apart =
    let inside : p < length mem = in_memory mem p c stop in
    let (ds, prints, value, digits, leading, short, before) =
      f30-Prints mem v p (omega (arith, bound)) room (omega (arith, inside)) small in
    let start : ℕ = p - length ds in
    let mem₁ : List ℕ = write_at mem start ds in
    let len : length mem₁ ≡ length mem =
      length-write_at mem ds start (omega (arith, before, inside)) in
    let (mem₃, reads) =
      f26-text mem p q c ds (omega (arith, value, positive)) digits short room stop other byte fits
        small apart in
    let result : clip (number 10 0 ds) ≡ v = ground (arith, value, bound) in
    (
      start,
      mem₁,
      write_at mem₁ q (to_bytes 4 start),
      mem₃,
      prints,
      store_cell mem₁ q start (omega (arith, len, fits)) (omega (arith, len, small)),
      reads ∙ ap (λ (w : ℕ). some (ok (w, mem₃))) result,
    )
