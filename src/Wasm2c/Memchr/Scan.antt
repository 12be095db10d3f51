-- ===== src/Wasm2c/Memchr/Scan.antt =====
-- The byte loop of `f17` of samples/obf_1/obf_w2c.c and what it finds.
use squanchy.Base.{
  ℕ, zero, suc, ◌+◌, ◌≤◌, ◌<◌, ◌^◌, Bool, true, false, List, [], ◌∷◌, some, ◌≡◌, refl, sym, ap, ◌∙◌,
  inl, inr, arith, length, get_elem?, if◌then◌else◌, ◌==◌, u32, Bool-cases, bit_and,
}
use squanchy.Wasm2c.{ok, read_at}
use squanchy.Wasm2c.Arrays.{drop-at, read_one}
use squanchy.Wasm2c.Format.{then_run, i32_load8_u}
use squanchy.Wasm2c.Memory.{from_bytes}
use squanchy.Wasm2c.Memory.Laws.{load_unsigned-ok}
use squanchy.Wasm2c.Memchr.{f17_scan, f17_tail}

-- The address of the first byte `c` in a list that begins at an address, or 0.
abbrev pub found : (p c : ℕ) → List ℕ → ℕ
found p c [] = 0
found p c (b ∷ bs) = if b == c then p else found (p + 1) c bs

pub byte_there : (mem : List ℕ) (p : ℕ) → p < length mem → (b : ℕ) × (get_elem? mem p ≡ some b)
byte_there [] p h = absurd (omega arith)
byte_there (b ∷ mem) zero h = (b, refl)
byte_there (b ∷ mem) (suc p) h = byte_there mem p (omega arith)

-- A round of the loop.
module _ (fuel p n b c : ℕ) (mem : List ℕ) (loaded : i32_load8_u mem p ≡ ok b) where
  scan_hit : (b == c) ≡ true → f17_scan (suc fuel) mem p n c ≡ some (ok p)
  unfolding f17_scan
  scan_hit hit = rw (loaded, then_run, hit) refl

  scan_last :
      (b == c) ≡ false
      → (u32 (n + 4294967295) == 0) ≡ true
      → f17_scan (suc fuel) mem p n c ≡ some (ok 0)
  unfolding f17_scan
  scan_last miss last = rw (loaded, then_run, miss, last) refl

  scan_next :
      (m r : ℕ)
      → (b == c) ≡ false
      → u32 (n + 4294967295) ≡ suc m
      → u32 (p + 1) ≡ p + 1
      → f17_scan fuel mem (p + 1) (suc m) c ≡ some (ok r)
      → f17_scan (suc fuel) mem p n c ≡ some (ok r)
  unfolding f17_scan
  scan_next m r miss less place rest =
      let left : (suc m == 0) ≡ false = ground arith in
      rw (loaded, then_run, miss, less, left, less, place) rest

module _ (mem : List ℕ) (small : length mem ≤ 2 ^ 32) where
  pub load_byte : (p b : ℕ) → p < length mem → get_elem? mem p ≡ some b → i32_load8_u mem p ≡ ok b
  unfolding from_bytes
  load_byte p b h at =
      let one : from_bytes (b ∷ []) ≡ b = omega arith in
      load_unsigned-ok 1 mem p (omega arith) (omega arith)
      ∙ ap ok (ap from_bytes (read_one mem p b at) ∙ one)

  pub read_more :
      (p n b : ℕ) → get_elem? mem p ≡ some b → read_at mem p (suc n) ≡ b ∷ read_at mem (p + 1) n
  read_more p n b at =
      let next : suc p ≡ p + 1 = omega arith in
      rw (drop-at mem p b at) (ap (λ (t : ℕ). b ∷ read_at mem t n) next)

  pub found-next :
      (p n b c : ℕ)
      → get_elem? mem p ≡ some b
      → (b == c) ≡ false
      → found p c (read_at mem p (suc n)) ≡ found (p + 1) c (read_at mem (p + 1) n)
  found-next p n b c at miss =
      ap (found p c) (read_more p n b at)
      ∙ ap (λ (t : Bool). if t then p else found (p + 1) c (read_at mem (p + 1) n)) miss

  pub found-here :
      (p n b c : ℕ)
      → get_elem? mem p ≡ some b
      → (b == c) ≡ true
      → found p c (read_at mem p (suc n)) ≡ p
  found-here p n b c at hit =
      ap (found p c) (read_more p n b at)
      ∙ ap (λ (t : Bool). if t then p else found (p + 1) c (read_at mem (p + 1) n)) hit

  -- With as many rounds as bytes the loop returns what there is to find.
  pub f17_scan-found :
      (fuel p n c : ℕ)
      → suc n ≤ fuel
      → p + suc n ≤ length mem
      → suc n < 2 ^ 32
      → f17_scan fuel mem p (suc n) c ≡ some (ok (found p c (read_at mem p (suc n))))
  f17_scan-found zero p n c enough fits word = absurd (omega arith)
  f17_scan-found (suc fuel) p zero c enough fits word =
      let (b, at) = byte_there mem p (omega arith) in
      let loaded = load_byte p b (omega arith) at in
      elim (Bool-cases (b == c)) [
        | inl hit ↦
            scan_hit fuel p 1 b c mem loaded hit
            ∙ ap (λ (r : ℕ). some (ok r)) (sym (found-here p zero b c at hit))
        | inr miss ↦
            scan_last fuel p 1 b c mem loaded miss refl
            ∙ ap (λ (r : ℕ). some (ok r)) (sym (found-next p zero b c at miss))
      ]
  f17_scan-found (suc fuel) p (suc n) c enough fits word =
      let (b, at) = byte_there mem p (omega arith) in
      let loaded = load_byte p b (omega arith) at in
      elim (Bool-cases (b == c)) [
        | inl hit ↦
            scan_hit fuel p (suc (suc n)) b c mem loaded hit
            ∙ ap (λ (r : ℕ). some (ok r)) (sym (found-here p (suc n) b c at hit))
        | inr miss ↦
            scan_next fuel p (suc (suc n)) b c mem loaded n
              (found (p + 1) c (read_at mem (p + 1) (suc n))) miss (omega arith) (omega arith)
              (f17_scan-found fuel (p + 1) n c (omega arith) (omega arith) (omega arith))
            ∙ ap (λ (r : ℕ). some (ok r)) (sym (found-next p (suc n) b c at miss))
      ]

  pub f17_tail-found :
      (fuel p p1 n c : ℕ)
      → n ≤ fuel
      → p + n ≤ length mem
      → n < 2 ^ 32
      → bit_and p1 255 ≡ c
      → f17_tail fuel mem p p1 n ≡ some (ok (found p c (read_at mem p n)))
  unfolding f17_tail
  f17_tail-found fuel p p1 zero c enough fits word byte = refl
  f17_tail-found fuel p p1 (suc n) c enough fits word byte =
      let left : (suc n == 0) ≡ false = ground arith in
      rw (f17_tail, left, byte) (f17_scan-found fuel p n c enough fits word)

  pub f17_scan-left :
      (fuel p n c : ℕ)
      → 1 ≤ n
      → n ≤ fuel
      → p + n ≤ length mem
      → n < 2 ^ 32
      → f17_scan fuel mem p n c ≡ some (ok (found p c (read_at mem p n)))
  f17_scan-left fuel p zero c left enough fits word = absurd (omega arith)
  f17_scan-left fuel p (suc n) c left enough fits word = f17_scan-found fuel p n c enough fits word

  -- The tail behind `k` bytes, where the pointer may wrap around at the end of the memory.
  pub f17_tail-behind :
      (k fuel p p1 n c : ℕ)
      → n ≤ fuel
      → p + k + n ≤ length mem
      → n < 2 ^ 32
      → bit_and p1 255 ≡ c
      → f17_tail fuel mem (u32 (p + k)) p1 n ≡ some (ok (found (p + k) c (read_at mem (p + k) n)))
  unfolding f17_tail
  f17_tail-behind k fuel p p1 zero c enough fits word byte = refl
  f17_tail-behind k fuel p p1 (suc n) c enough fits word byte =
      let place : u32 (p + k) ≡ p + k = omega arith in
      ap (λ (q : ℕ). f17_tail fuel mem q p1 (suc n)) place
      ∙ f17_tail-found fuel (p + k) p1 (suc n) c enough fits word byte
