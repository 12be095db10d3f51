-- ===== src/Wasm2c/Wide/Stores.antt =====
-- The shifts `f43` and `f44` of samples/obf_1/obf_w2c.c, with the memory they write.
use squanchy.Base.{
  ℕ, ◌+◌, ◌*◌, ◌/◌, ◌%◌, ◌^◌, ◌≤◌, ◌<◌, List, ◌≡◌, refl, subst, ◌⊎◌, inl, inr, sym, ap, ◌∙◌, arith,
  length, get_elem?,
}
use squanchy.Wasm2c.{ok}
use squanchy.Wasm2c.Arrays.Reads.{read_at-same}
use squanchy.Wasm2c.Memory.{from_bytes, i64_load}
use squanchy.Wasm2c.Memory.Laws.{store-load, load_unsigned-ok}
use squanchy.Wasm2c.Wide.{store_halves, f43_halves, f44_halves, f43, f44}
use squanchy.Wasm2c.Wide.Left.{whole, f43_halves-whole, f43_halves-low}
use squanchy.Wasm2c.Wide.Right.{f44_halves-whole, f44_halves-bounds}

-- A memory in which a number's two halves stand at an address, and which is otherwise another one.
unfoldable pub Holds : (n p0 : ℕ) (mem mem' : List ℕ) → Type 0
Holds n p0 mem mem' =
    (low : ℕ) × (high : ℕ) × (i64_load mem' p0 ≡ ok low)
    × (i64_load mem' (p0 + 8) ≡ ok high)
    × (low + high * 2 ^ 64 ≡ n)
    × (length mem' ≡ length mem)
    × ((i : ℕ) → (i < p0) ⊎ (p0 + 16 ≤ i) → get_elem? mem' i ≡ get_elem? mem i)

past_low : {p0 i : ℕ} → (i < p0) ⊎ (p0 + 16 ≤ i) → (i < p0) ⊎ (p0 + 8 ≤ i)
past_low (inl before) = inl before
past_low (inr behind) = inr (omega (arith, behind))

past_high : {p0 i : ℕ} → (i < p0) ⊎ (p0 + 16 ≤ i) → (i < p0 + 8) ⊎ (p0 + 8 + 8 ≤ i)
past_high (inl before) = inl (omega (arith, before))
past_high (inr behind) = inr (omega (arith, behind))

store_halves-Holds :
    (mem : List ℕ) (p0 low high : ℕ)
    → p0 + 16 ≤ length mem
    → length mem < 2 ^ 64
    → low < 2 ^ 64
    → high < 2 ^ 64
    → (mem' : List ℕ) × (store_halves mem p0 (low, high) ≡ ok mem')
      × Holds (whole (low, high)) p0 mem mem'
unfolding store_halves Holds
store_halves-Holds mem p0 low high fits small word word' =
    let (m1, stored1, loaded1, len1, same1) = store-load 8 p0 low mem (omega (arith, fits)) small in
    let (m2, stored2, loaded2, len2, same2) =
      store-load 8 (p0 + 8) high m1 (omega (arith, fits, len1)) (omega (arith, small, len1)) in
    let kept : i64_load m2 p0 ≡ i64_load m1 p0 =
      load_unsigned-ok 8 m2 p0 (omega (arith, fits, len1, len2)) (omega (arith, small, len1, len2))
      ∙ (ap (λ (bs : List ℕ). ok (from_bytes bs))
            (read_at-same m2 m1 p0 8 (omega (arith, fits, len1, len2)) (omega (arith, fits, len1))
              (λ i within. same2 (p0 + i) (inl (omega (arith, within)))))
          ∙ sym (
              load_unsigned-ok 8 m1 p0 (omega (arith, fits, len1)) (omega (arith, small, len1)))) in
    (
      m2,
      rw (store_halves, stored1) stored2,
      (
        low,
        high,
        kept ∙ (loaded1 ∙ ap ok (omega (arith, word))),
        loaded2 ∙ ap ok (omega (arith, word')),
        refl,
        omega (arith, len1, len2),
        λ i away. same2 i (past_high away) ∙ same1 i (past_low away),
      ),
    )

-- With 16 bytes of room in a memory below 2 ^ 64 bytes, `f43` of two 64-bit halves and an amount
-- below 128 succeeds: it stores, in two halves, the 128-bit number shifted to the left, modulo
-- 2 ^ 128, and leaves the size and all other bytes as they were.
pub f43-Holds :
    (mem : List ℕ) (p0 p1 p2 p3 : ℕ)
    → p0 + 16 ≤ length mem
    → length mem < 2 ^ 64
    → p1 < 2 ^ 64
    → p2 < 2 ^ 64
    → p3 < 128
    → (mem' : List ℕ) × (f43 mem p0 p1 p2 p3 ≡ ok mem')
      × Holds (((p1 + p2 * 2 ^ 64) * 2 ^ p3) % 2 ^ 128) p0 mem mem'
unfolding f43
f43-Holds mem p0 p1 p2 p3 fits small word word' amount =
    let (low, high) = f43_halves p1 p2 p3 in
    let shifted : low + high * 2 ^ 64 ≡ ((p1 + p2 * 2 ^ 64) * 2 ^ p3) % 2 ^ 128 =
      f43_halves-whole p1 p2 p3 word word' amount in
    let (mem', stored, holds) =
      store_halves-Holds mem p0 low high fits small (f43_halves-low p1 p2 p3 word)
        (omega (arith, shifted)) in
    (mem', stored, subst (λ (n : ℕ). Holds n p0 mem mem') shifted holds)

-- With 16 bytes of room in a memory below 2 ^ 64 bytes, `f44` of two 64-bit halves and an amount
-- below 128 succeeds: it stores, in two halves, the 128-bit number shifted to the right, and leaves
-- the size and all other bytes as they were.
pub f44-Holds :
    (mem : List ℕ) (p0 p1 p2 p3 : ℕ)
    → p0 + 16 ≤ length mem
    → length mem < 2 ^ 64
    → p1 < 2 ^ 64
    → p2 < 2 ^ 64
    → p3 < 128
    → (mem' : List ℕ) × (f44 mem p0 p1 p2 p3 ≡ ok mem')
      × Holds ((p1 + p2 * 2 ^ 64) / 2 ^ p3) p0 mem mem'
unfolding f44
f44-Holds mem p0 p1 p2 p3 fits small word word' amount =
    let (low, high) = f44_halves p1 p2 p3 in
    let (below, below') = f44_halves-bounds p1 p2 p3 word word' amount in
    let (mem', stored, holds) = store_halves-Holds mem p0 low high fits small below below' in
    (
      mem',
      stored,
      subst (λ (n : ℕ). Holds n p0 mem mem') (f44_halves-whole p1 p2 p3 word amount) holds,
    )
