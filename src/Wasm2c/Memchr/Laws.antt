-- ===== src/Wasm2c/Memchr/Laws.antt =====
-- `f17` of samples/obf_1/obf_w2c.c returns the address of the first byte that is looked for, and
-- `f18` the length of a text.
use squanchy.Base.{
  ℕ, zero, suc, ◌+◌, ◌-◌, ◌*◌, ◌≤◌, ◌<◌, ◌^◌, Bool, true, false, not, List, [], ◌∷◌, some, ◌≡◌,
  refl, sym, ap, ap₂, ◌∙◌, Option, inl, inr, arith, ◌⊎◌, u8, length, get_elem?, if◌then◌else◌, ◌==◌,
  ltb, u32, Bool-cases, bit_and,
}
use squanchy.Wasm2c.{Checked, ok, read_at}
use squanchy.Wasm2c.Arrays.{length-read_at}
use squanchy.Wasm2c.Bits.Masks.{bit_and-255}
use squanchy.Wasm2c.Format.{then_run, i32_load8_u}
use squanchy.Wasm2c.Memchr.{f17_scan, f17_tail, f17_words, f17_middle, f17_align, f17, counted, f18}
use squanchy.Wasm2c.Memchr.Scan.{
  found, byte_there, load_byte, found-next, f17_scan-left, f17_tail-found,
}
use squanchy.Wasm2c.Memchr.Words.{IsBytes, f17_words-found}

abbrev hit_or_few : Bool → Bool → Bool
hit_or_few hit few = if hit then true else few

module _ (fuel p p1 n b : ℕ) (mem : List ℕ) (loaded : i32_load8_u mem p ≡ ok b) where
  middle_tail :
      hit_or_few (b == bit_and p1 255) (ltb n 4) ≡ true
      → f17_middle fuel mem p p1 n true ≡ f17_tail fuel mem p p1 n
  unfolding f17_middle
  middle_tail h = rw (loaded, then_run) (ground (arith, h))

  middle_words :
      hit_or_few (b == bit_and p1 255) (ltb n 4) ≡ false
      → f17_middle fuel mem p p1 n true
        ≡ f17_words fuel mem p p1 n (u32 (bit_and p1 255 * 16843009))
  unfolding f17_middle
  middle_words h = rw (loaded, then_run) (ground (arith, h))

  align_hit :
      (b == bit_and p1 255) ≡ true
      → f17_align (suc fuel) mem p p1 n ≡ f17_scan fuel mem p n (bit_and p1 255)
  unfolding f17_align
  align_hit hit = rw (loaded, then_run, hit) refl

  abbrev rest : ℕ
  rest = u32 (n + 4294967295)

  module _ (miss : (b == bit_and p1 255) ≡ false) where
    align_middle :
        hit_or_few (bit_and (u32 (p + 1)) 3 == 0) (rest == 0) ≡ true
        → f17_align (suc fuel) mem p p1 n
          ≡ f17_middle fuel mem (u32 (p + 1)) p1 rest (not (rest == 0))
    unfolding f17_align
    align_middle h = rw (loaded, then_run, miss) (ground (arith, h))

    align_next :
        hit_or_few (bit_and (u32 (p + 1)) 3 == 0) (rest == 0) ≡ false
        → f17_align (suc fuel) mem p p1 n ≡ f17_align fuel mem (u32 (p + 1)) p1 rest
    unfolding f17_align
    align_next h = rw (loaded, then_run, miss) (ground (arith, h))

module _ (mem : List ℕ) (small : length mem ≤ 2 ^ 32) where
  found-left :
      (p n b c : ℕ)
      → 1 ≤ n
      → get_elem? mem p ≡ some b
      → (b == c) ≡ false
      → found (p + 1) c (read_at mem (p + 1) (n - 1)) ≡ found p c (read_at mem p n)
  found-left p zero b c left at miss = absurd (omega arith)
  found-left p (suc n) b c left at miss =
      let same : suc n - 1 ≡ n = omega arith in
      ap (λ (k : ℕ). found (p + 1) c (read_at mem (p + 1) k)) same
      ∙ sym (found-next mem small p n b c at miss)

module _ (mem : List ℕ) (small : length mem ≤ 2 ^ 32) (bytes : IsBytes mem) (p1 c : ℕ)
    (byte : bit_and p1 255 ≡ c) (is_byte : c < 256) where
  abbrev Finds : Option (Checked ℕ) → (p n : ℕ) → Type 0
  Finds result p n = result ≡ some (ok (found p c (read_at mem p n)))

  f17_middle-Finds :
      (fuel p n : ℕ)
      → n < fuel
      → p + n ≤ length mem
      → n < 2 ^ 32
      → Finds (f17_middle fuel mem p p1 n (not (n == 0))) p n
  unfolding f17_middle
  f17_middle-Finds fuel p zero enough fits word = refl
  f17_middle-Finds fuel p (suc n) enough fits word =
      let left : not (suc n == 0) ≡ true = ground arith in
      let (b, at) = byte_there mem p (omega arith) in
      let loaded = load_byte mem small p b (omega arith) at in
      ap (f17_middle fuel mem p p1 (suc n)) left
      ∙ elim (Bool-cases (hit_or_few (b == bit_and p1 255) (ltb (suc n) 4))) [
        | inl tail ↦
            middle_tail fuel p p1 (suc n) b mem loaded tail
            ∙ f17_tail-found mem small fuel p p1 (suc n) c (omega arith) fits word byte
        | inr words ↦
            middle_words fuel p p1 (suc n) b mem loaded words
            ∙ (ap (λ (d : ℕ). f17_words fuel mem p p1 (suc n) (u32 (d * 16843009))) byte
                ∙ f17_words-found mem small bytes p1 c byte is_byte fuel p (suc n)
                    (ground (arith, words)) enough fits word)
      ]

  -- The same with a pointer that may wrap around at the end of the memory.
  middle_next :
      (fuel p n : ℕ)
      → n < fuel
      → p + 1 + n ≤ length mem
      → n < 2 ^ 32
      → Finds (f17_middle fuel mem (u32 (p + 1)) p1 n (not (n == 0))) (p + 1) n
  unfolding f17_middle
  middle_next fuel p zero enough fits word = refl
  middle_next fuel p (suc n) enough fits word =
      let place : u32 (p + 1) ≡ p + 1 = omega arith in
      ap (λ (q : ℕ). f17_middle fuel mem q p1 (suc n) (not (suc n == 0))) place
      ∙ f17_middle-Finds fuel (p + 1) (suc n) enough fits word

  f17_align-Finds :
      (fuel p n : ℕ)
      → 1 ≤ n
      → n < fuel
      → p + n ≤ length mem
      → n < 2 ^ 32
      → Finds (f17_align fuel mem p p1 n) p n
  f17_align-Finds zero p n some_left enough fits word = absurd (omega arith)
  f17_align-Finds (suc fuel) p n some_left enough fits word =
      let (b, at) = byte_there mem p (omega arith) in
      let loaded = load_byte mem small p b (omega arith) at in
      let less : u32 (n + 4294967295) ≡ n - 1 = omega arith in
      let stop = λ (r s : ℕ) (e : r ≡ s). ap (λ (t : ℕ). Option.some (Checked.ok t)) e in
      elim (Bool-cases (b == c)) [
        | inl hit ↦
            let hit' : (b == bit_and p1 255) ≡ true = ap (λ (d : ℕ). b == d) byte ∙ hit in
            align_hit fuel p p1 n b mem loaded hit'
            ∙ (ap (f17_scan fuel mem p n) byte
                ∙ f17_scan-left mem small fuel p n c some_left (omega arith) fits word)
        | inr miss ↦
            let miss' : (b == bit_and p1 255) ≡ false = ap (λ (d : ℕ). b == d) byte ∙ miss in
            let next = found-left mem small p n b c some_left at miss in
            elim (Bool-cases
              (hit_or_few (bit_and (u32 (p + 1)) 3 == 0) (u32 (n + 4294967295) == 0))) [
                | inl middle ↦
                    align_middle fuel p p1 n b mem loaded miss' middle
                    ∙ (ap (λ (m : ℕ). f17_middle fuel mem (u32 (p + 1)) p1 m (not (m == 0))) less
                        ∙ (middle_next fuel p (n - 1) (omega arith) (omega arith) (omega arith)
                            ∙ stop _ _ next))
                | inr again ↦
                    let more : 1 ≤ n - 1 = ground (arith, again, less) in
                    let place : u32 (p + 1) ≡ p + 1 = omega arith in
                    align_next fuel p p1 n b mem loaded miss' again
                    ∙ (ap₂ (λ (q m : ℕ). f17_align fuel mem q p1 m) place less
                        ∙ (f17_align-Finds fuel (p + 1) (n - 1) more (omega arith) (omega arith)
                              (omega arith)
                            ∙ stop _ _ next))
              ]
      ]

-- In a memory of at most 2 ^ 32 bytes, a range within it and more rounds than bytes, `f17` returns
-- the address of the first byte of the range that equals the low byte of `p1`, or 0 where there is
-- none.
pub f17-found :
    (fuel p0 p1 p2 : ℕ) (mem : List ℕ)
    → IsBytes mem
    → p0 + p2 ≤ length mem
    → length mem ≤ 2 ^ 32
    → p1 < 2 ^ 32
    → p2 < 2 ^ 32
    → p2 < fuel
    → f17 fuel mem p0 p1 p2 ≡ some (ok (found p0 (u8 p1) (read_at mem p0 p2)))
unfolding f17
f17-found fuel p0 p1 p2 mem bytes fits small word1 word2 enough =
    let byte : bit_and p1 255 ≡ u8 p1 = bit_and-255 p1 word1 in
    let is_byte : u8 p1 < 256 = omega arith in
    let middle =
      f17_middle-Finds mem small bytes p1 (u8 p1) byte is_byte fuel p0 p2 enough fits word2 in
    elim (Bool-cases (hit_or_few (bit_and p0 3 == 0) (p2 == 0))) [
      | inl at_middle ↦ ground (arith, at_middle, middle)
      | inr bytewise ↦
          let some_left : 1 ≤ p2 = ground (arith, bytewise) in
          let align =
            f17_align-Finds mem small bytes p1 (u8 p1) byte is_byte fuel p0 p2 some_left enough fits
              word2 in
          ground (arith, bytewise, align)
    ]

-- How many elements stand before the first `c`.
abbrev pub before : ℕ → List ℕ → ℕ
before c [] = 0
before c (b ∷ bs) = if b == c then 0 else suc (before c bs)

counted-found :
    (p c : ℕ) (bs : List ℕ)
    → 0 < p
    → ((found p c bs ≡ 0) × (before c bs ≡ length bs))
      ⊎ ((found p c bs ≡ p + before c bs) × (before c bs < length bs))
counted-found p c [] pos = inl (refl, refl)
counted-found p c (b ∷ bs) pos = ground (arith, counted-found (p + 1) c bs (omega arith))

-- In a memory of at most 2 ^ 32 bytes, from an address other than 0, a range within it and more
-- rounds than bytes, `f18` returns how many bytes of the range stand before its first zero.
pub f18-before :
    (fuel p0 p1 : ℕ) (mem : List ℕ)
    → IsBytes mem
    → 0 < p0
    → p0 + p1 ≤ length mem
    → length mem ≤ 2 ^ 32
    → p1 < 2 ^ 32
    → p1 < fuel
    → f18 fuel mem p0 p1 ≡ some (ok (before 0 (read_at mem p0 p1)))
unfolding f18
f18-before fuel p0 p1 mem bytes pos fits small word enough =
    let bs : List ℕ = read_at mem p0 p1 in
    let len : length bs ≡ p1 = length-read_at mem p0 p1 fits in
    let found_at = f17-found fuel p0 0 p1 mem bytes fits small (omega arith) word enough in
    let count : counted p0 p1 (found p0 0 bs) ≡ before 0 bs =
      ground (arith, counted-found p0 0 bs pos, len) in
    rw (f18, found_at) (ap (λ (r : ℕ). some (ok r)) count)
