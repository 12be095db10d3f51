-- ===== src/Wasm2c/Instance/Libc/Digits.antt =====
-- The hexadecimal digits in the data of samples/obf_1/obf_w2c.c, with which `f28` prints.
use squanchy.Base.{
  ℕ, ◌+◌, ◌^◌, ◌≤◌, ◌<◌, Bool, true, false, Option, none, some, List, ◌≡◌, refl, sym, ap, ◌∙◌,
  arith, length, get_elem?, ◌==◌, ==_iff,
}
use squanchy.Wasm2c.{ok}
use squanchy.Wasm2c.Arrays.{get_elem?-read_at}
use squanchy.Wasm2c.Format.{f28}
use squanchy.Wasm2c.Format.Hex.{HasDigits, Clear, hex, letter, f28-prints}
use squanchy.Wasm2c.Format.Print.{Written}
use squanchy.Wasm2c.Instance.{W2cSquanchy}
use squanchy.Wasm2c.Instance.Data.{d0}
use squanchy.Wasm2c.Instance.Startup.{Fresh}
use squanchy.Wasm2c.Instance.Libc.Errors.{all_below, all_below-lt}

abbrev holds : Option ℕ → ℕ → Bool
holds none c = false
holds (some b) c = b == c

holds_eq : (o : Option ℕ) (c : ℕ) → holds o c ≡ true → o ≡ some c
holds_eq none c h = absurd (cc)
holds_eq (some b) c h = ap some ((==_iff b c).0 h)

digits_there : all_below (λ d. holds (get_elem? d0 (544 + d)) (hex d)) 16 ≡ true
digits_there = refl

HasDigits-Fresh : (self env wasi : ℕ) (w : W2cSquanchy) → Fresh self env wasi w → HasDigits w.memory
HasDigits-Fresh self env wasi w fresh d small =
    let (imported, hosted, a0, a1, a2, a3, size, first, second, table) = fresh in
    let place : 66080 + d ≡ 65536 + (544 + d) = omega arith in
    ap (get_elem? w.memory) place
    ∙ (sym (get_elem?-read_at w.memory 65536 2788 (544 + d) (omega (arith, small)))
        ∙ (ap (λ (xs : List ℕ). get_elem? xs (544 + d)) first
            ∙ holds_eq (get_elem? d0 (544 + d)) (hex d) (
                all_below-lt (λ j. holds (get_elem? d0 (544 + j)) (hex j)) 16 d digits_there
                  small)))

-- On an instance as it is after the instantiation, `f28` prints a 64-bit number before a pointer
-- whose 16 bytes of room do not overlap the table of the digits: what is written are the digits of
-- the number's hexadecimal numeral, the character of each OR-ed with the byte p2, and the rest of
-- the memory is as it was. 16 rounds are enough.
pub f28-Fresh :
    (self env wasi : ℕ) (w : W2cSquanchy) (v p p2 : ℕ)
    → Fresh self env wasi w
    → v < 2 ^ 64
    → p2 < 2 ^ 8
    → 16 ≤ p
    → p ≤ length w.memory
    → Clear 16 p
    → (p' : ℕ) × (mem' : List ℕ) × (f28 16 w.memory v p p2 ≡ some (ok (p', mem')))
      × Written 16 (letter p2) v p w.memory p' mem'
f28-Fresh self env wasi w v p p2 fresh word byte room fits clear =
    let (imported, hosted, a0, a1, a2, a3, size, first, second, table) = fresh in
    f28-prints w.memory v p p2 word byte room fits (omega (arith, size)) clear
      (HasDigits-Fresh self env wasi w fresh)
