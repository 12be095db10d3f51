-- ===== src/Wasm2c/Memchr/Words.antt =====
-- The word loop of `f17` of samples/obf_1/obf_w2c.c.
use squanchy.Base.{
  ℕ, zero, suc, ◌+◌, ◌-◌, ◌*◌, ◌/◌, ◌%◌, ◌≤◌, ◌<◌, ◌^◌, true, false, List, [], ◌∷◌, some, ◌≡◌, ◌≢◌,
  refl, sym, ap, ap₂, ◌∙◌, inl, inr, arith, length, get_elem?, ◌==◌, ltb, u32, Bool-cases, bit_and,
}
use squanchy.Wasm2c.{ok, read_at}
use squanchy.Wasm2c.Format.{then_run}
use squanchy.Wasm2c.Memory.{from_bytes, i32_load}
use squanchy.Wasm2c.Memory.Laws.{load_unsigned-ok}
use squanchy.Wasm2c.Memchr.{no_match, f17_scan, f17_tail, f17_words}
use squanchy.Wasm2c.Memchr.Scan.{
  found, byte_there, read_more, found-next, f17_scan-left, f17_tail-behind,
}
use squanchy.Wasm2c.Memchr.Word.{no_match-first, no_match-second, no_match-third, no_match-fourth}

-- Every element of the memory is a byte.
abbrev pub IsBytes : List ℕ → Type 0
IsBytes mem = (i b : ℕ) → get_elem? mem i ≡ some b → b < 256

ne-false : (a b : ℕ) → a ≢ b → (a == b) ≡ false
ne-false a b h = ground (arith, h)

four :
    (b0 b1 b2 b3 : ℕ)
    → from_bytes (b0 ∷ b1 ∷ b2 ∷ b3 ∷ []) ≡ b0 + 256 * (b1 + 256 * (b2 + 256 * b3))
unfolding from_bytes
four b0 b1 b2 b3 = omega arith

module _ (fuel p p1 n l4 w : ℕ) (mem : List ℕ) (loaded : i32_load mem p ≡ ok w) where
  words_stop :
      no_match w l4 ≡ false
      → f17_words (suc fuel) mem p p1 n l4 ≡ f17_scan fuel mem p n (bit_and p1 255)
  unfolding f17_words
  words_stop test = rw (loaded, then_run, test) refl

  words_more :
      (m : ℕ)
      → no_match w l4 ≡ true
      → u32 (n + 4294967292) ≡ m
      → u32 (p + 4) ≡ p + 4
      → ltb 3 m ≡ true
      → f17_words (suc fuel) mem p p1 n l4 ≡ f17_words fuel mem (p + 4) p1 m l4
  unfolding f17_words
  words_more m test less place more = rw (loaded, then_run, test, less, more, less, place) refl

  words_last :
      (m : ℕ)
      → no_match w l4 ≡ true
      → u32 (n + 4294967292) ≡ m
      → ltb 3 m ≡ false
      → f17_words (suc fuel) mem p p1 n l4 ≡ f17_tail fuel mem (u32 (p + 4)) p1 m
  unfolding f17_words
  words_last m test less last = rw (loaded, then_run, test, less, last, less) refl

module _ (mem : List ℕ) (small : length mem ≤ 2 ^ 32) (bytes : IsBytes mem) (p1 c : ℕ)
    (byte : bit_and p1 255 ≡ c) (is_byte : c < 256) where
  -- The four bytes of a word.
  load_word :
      (p : ℕ)
      → p + 4 ≤ length mem
      → (b0 : ℕ) × (b1 : ℕ) × (b2 : ℕ) × (b3 : ℕ) × (get_elem? mem p ≡ some b0)
        × (get_elem? mem (p + 1) ≡ some b1)
        × (get_elem? mem (p + 1 + 1) ≡ some b2)
        × (get_elem? mem (p + 1 + 1 + 1) ≡ some b3)
        × (i32_load mem p ≡ ok (b0 + 256 * (b1 + 256 * (b2 + 256 * b3))))
  load_word p fits =
      let (b0, at0) = byte_there mem p (omega arith) in
      let (b1, at1) = byte_there mem (p + 1) (omega arith) in
      let (b2, at2) = byte_there mem (p + 1 + 1) (omega arith) in
      let (b3, at3) = byte_there mem (p + 1 + 1 + 1) (omega arith) in
      let read : read_at mem p 4 ≡ b0 ∷ b1 ∷ b2 ∷ b3 ∷ [] =
        read_more mem small p 3 b0 at0
        ∙ (ap (λ (bs : List ℕ). b0 ∷ bs) (read_more mem small (p + 1) 2 b1 at1)
            ∙ (ap (λ (bs : List ℕ). b0 ∷ b1 ∷ bs) (read_more mem small (p + 1 + 1) 1 b2 at2)
                ∙ ap (λ (bs : List ℕ). b0 ∷ b1 ∷ b2 ∷ bs)
                    (read_more mem small (p + 1 + 1 + 1) 0 b3 at3))) in
      (
        b0,
        b1,
        b2,
        b3,
        at0,
        at1,
        at2,
        at3,
        load_unsigned-ok 4 mem p fits (omega arith) ∙ ap ok (ap from_bytes read ∙ four b0 b1 b2 b3),
      )

  -- A word that no_match has been searched.
  word_passed :
      (p n w : ℕ)
      → 4 ≤ n
      → p + 4 ≤ length mem
      → i32_load mem p ≡ ok w
      → no_match w (u32 (c * 16843009)) ≡ true
      → found p c (read_at mem p n) ≡ found (p + 4) c (read_at mem (p + 4) (n - 4))
  word_passed p zero w large fits loaded test = absurd (omega arith)
  word_passed p (suc zero) w large fits loaded test = absurd (omega arith)
  word_passed p (suc (suc zero)) w large fits loaded test = absurd (omega arith)
  word_passed p (suc (suc (suc zero))) w large fits loaded test = absurd (omega arith)
  word_passed p (suc (suc (suc (suc n)))) w large fits loaded test =
      let (b0, b1, b2, b3, at0, at1, at2, at3, value) = load_word p fits in
      let word : w ≡ b0 + 256 * (b1 + 256 * (b2 + 256 * b3)) = cc in
      let s0 : b0 < 256 = bytes p b0 at0 in
      let s1 : b1 < 256 = bytes (p + 1) b1 at1 in
      let s2 : b2 < 256 = bytes (p + 1 + 1) b2 at2 in
      let s3 : b3 < 256 = bytes (p + 1 + 1 + 1) b3 at3 in
      let size : w < 2 ^ 32 = omega arith in
      let low : w % 256 ≡ b0 = omega arith in
      let second : w / 256 % 256 ≡ b1 = omega arith in
      let third : w / 65536 % 256 ≡ b2 = omega arith in
      let fourth : w / 16777216 % 256 ≡ b3 = omega arith in
      let place : p + 1 + 1 + 1 + 1 ≡ p + 4 = omega arith in
      found-next mem small p (suc (suc (suc n))) b0 c at0
        (ne-false b0 c (λ e. no_match-first w c size is_byte test (low ∙ e)))
      ∙ (found-next mem small (p + 1) (suc (suc n)) b1 c at1
            (ne-false b1 c (λ e. no_match-second w c size is_byte test (second ∙ e)))
          ∙ (found-next mem small (p + 1 + 1) (suc n) b2 c at2
                (ne-false b2 c (λ e. no_match-third w c size is_byte test (third ∙ e)))
              ∙ (found-next mem small (p + 1 + 1 + 1) n b3 c at3
                    (ne-false b3 c (λ e. no_match-fourth w c size is_byte test (fourth ∙ e)))
                  ∙ ap₂ (λ (t k : ℕ). found t c (read_at mem t k)) place (omega arith))))

  -- With one round more than bytes the loop returns what there is to find.
  pub f17_words-found :
      (fuel p n : ℕ)
      → 4 ≤ n
      → n < fuel
      → p + n ≤ length mem
      → n < 2 ^ 32
      → f17_words fuel mem p p1 n (u32 (c * 16843009)) ≡ some (ok (found p c (read_at mem p n)))
  f17_words-found zero p n large enough fits size = absurd (omega arith)
  f17_words-found (suc fuel) p n large enough fits size =
      let l4 : ℕ = u32 (c * 16843009) in
      let (b0, b1, b2, b3, at0, at1, at2, at3, loaded) = load_word p (omega arith) in
      let w : ℕ = b0 + 256 * (b1 + 256 * (b2 + 256 * b3)) in
      let less : u32 (n + 4294967292) ≡ n - 4 = omega arith in
      elim (Bool-cases (no_match w l4)) [
        | inr stop ↦
            words_stop fuel p p1 n l4 w mem loaded stop
            ∙ (ap (f17_scan fuel mem p n) byte
                ∙ f17_scan-left mem small fuel p n c (omega arith) (omega arith) fits size)
        | inl test ↦
            let passed = word_passed p n w large (omega arith) loaded test in
            elim (Bool-cases (ltb 3 (n - 4))) [
              | inl more ↦
                  let left : 4 ≤ n - 4 = ground (arith, more) in
                  words_more fuel p p1 n l4 w mem loaded (n - 4) test less (omega arith) more
                  ∙ (f17_words-found fuel (p + 4) (n - 4) left (omega arith) (omega arith)
                        (omega arith)
                      ∙ ap (λ (r : ℕ). some (ok r)) (sym passed))
              | inr last ↦
                  words_last fuel p p1 n l4 w mem loaded (n - 4) test less last
                  ∙ (f17_tail-behind mem small 4 fuel p p1 (n - 4) c (omega arith) (omega arith)
                        (omega arith) byte
                      ∙ ap (λ (r : ℕ). some (ok r)) (sym passed))
            ]
      ]
