-- ===== src/Wasm2c/Stdio/Scan.antt =====
-- The search for the last newline in `f22` of samples/obf_1/obf_w2c.c.
use squanchy.Base.{
  ℕ, zero, suc, ◌+◌, ◌≤◌, ◌<◌, ◌^◌, true, false, List, some, ◌≡◌, ◌≢◌, refl, ap, ◌∙◌, arith, length,
  get_elem?, ◌==◌, u32,
}
use squanchy.Wasm2c.{ok}
use squanchy.Wasm2c.Format.{then_run, i32_load8_u}
use squanchy.Wasm2c.Memchr.Scan.{byte_there, load_byte}
use squanchy.Wasm2c.Stdio.{f22_scan}

-- The first `n` bytes from `p` on hold no newline.
abbrev pub NoNewline : List ℕ → (p n : ℕ) → Type 0
NoNewline mem p n = (j b : ℕ) → j < n → get_elem? mem (p + j) ≡ some b → b ≢ 10

-- A round of the loop at a byte that is no newline.
module _ (fuel p0 l3 c : ℕ) (mem : List ℕ)
    (loaded : i32_load8_u mem (u32 (u32 (p0 + l3) + 4294967295)) ≡ ok c)
    (other : c == 10 ≡ false) where
  scan_last : u32 (l3 + 4294967295) ≡ 0 → f22_scan (suc fuel) mem p0 l3 ≡ some (ok 0)
  unfolding f22_scan
  scan_last last =
      let stop : u32 (l3 + 4294967295) == 0 ≡ true = ground (arith, last) in
      rw (f22_scan, loaded, then_run, other, stop) refl

  scan_next :
      (k r : ℕ)
      → u32 (l3 + 4294967295) ≡ suc k
      → f22_scan fuel mem p0 (suc k) ≡ some (ok r)
      → f22_scan (suc fuel) mem p0 l3 ≡ some (ok r)
  unfolding f22_scan
  scan_next k r less rest =
      let go : (suc k == 0) ≡ false = ground arith in
      rw (f22_scan, loaded, then_run, other, less, go, less) rest

module _ (mem : List ℕ) (p0 : ℕ) (small : length mem < 2 ^ 32) where
  last_byte :
      (n : ℕ)
      → p0 + suc n ≤ length mem
      → NoNewline mem p0 (suc n)
      → (c : ℕ) × (i32_load8_u mem (u32 (u32 (p0 + suc n) + 4294967295)) ≡ ok c) × (c == 10 ≡ false)
  last_byte n fits none =
      let (c, at) = byte_there mem (p0 + n) (omega arith) in
      let place : u32 (u32 (p0 + suc n) + 4294967295) ≡ p0 + n = omega arith in
      let other : c ≢ 10 = none n c (omega arith) at in
      (
        c,
        ap (i32_load8_u mem) place ∙ load_byte mem (omega arith) (p0 + n) c (omega arith) at,
        ground (arith, other),
      )

  -- Without a newline the search comes to its start.
  pub f22_scan-none :
      (n fuel : ℕ)
      → n < fuel
      → p0 + suc n ≤ length mem
      → NoNewline mem p0 (suc n)
      → f22_scan fuel mem p0 (suc n) ≡ some (ok 0)
  f22_scan-none n zero enough fits none = absurd (omega arith)
  f22_scan-none zero (suc fuel) enough fits none =
      let (c, loaded, other) = last_byte zero fits none in
      scan_last fuel p0 1 c mem loaded other (omega arith)
  f22_scan-none (suc n) (suc fuel) enough fits none =
      let (c, loaded, other) = last_byte (suc n) fits none in
      scan_next fuel p0 (suc (suc n)) c mem loaded other n 0 (omega arith)
        (f22_scan-none n fuel (omega arith) (omega arith) (λ j b h at. none j b (omega arith) at))
