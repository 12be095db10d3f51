-- ===== src/Wasm2c/Stdio/Pad.antt =====
-- `f31` of samples/obf_1/obf_w2c.c, the padding of printf: 256 bytes of the stack are set to the
-- character and put out as often as it takes.
use squanchy.Base.{
  ℕ, zero, suc, ◌+◌, ◌-◌, ◌*◌, ◌/◌, ◌%◌, ◌≤◌, ◌<◌, ◌^◌, true, false, Option, none, some, ◌≡◌, refl,
  ap, arith, ◌==◌, ltb, leb, u32, bit_and, if◌then◌else◌, Bool-cases, inl, inr,
}
use squanchy.Wasm2c.{Checked, ok, trap}
use squanchy.Wasm2c.Format.{sub32}
use squanchy.Wasm2c.Memset.{f9}
use squanchy.Wasm2c.Instance.{W2cSquanchy}
use squanchy.Wasm2c.Instance.Calls.{Callee}
use squanchy.Wasm2c.Stdio.{f25}

-- What is left of a run, after what came before it.
abbrev pub and_run {ℓ κ} :
    {A : Type ℓ} {B : Type κ} → Option (Checked A) → (A → Option (Checked B)) → Option (Checked B)
and_run none rest = none
and_run (some (trap t)) rest = some (trap t)
and_run (some (ok a)) rest = rest a

-- The loop `var_L2` and the output behind it.
unfoldable pub f31_loop :
    ℕ → ℕ → Callee → W2cSquanchy → (p0 p3 l5 : ℕ) → Option (Checked W2cSquanchy)
f31_loop zero fuel callee w p0 p3 l5 = none
f31_loop (suc rounds) fuel callee w p0 p3 l5 = and_run (f25 fuel callee w p0 l5 256) λ w'.
    elim (ltb 255 (u32 (p3 + 4294967040))) [
      | true ↦ f31_loop rounds fuel callee w' p0 (u32 (p3 + 4294967040)) l5
      | false ↦ f25 fuel callee w' p0 l5 (u32 (p3 + 4294967040))
    ]

-- Between the guards and the label `var_B0`: `p3` bytes of the character `p1`.
unfoldable pub f31_pad :
    ℕ → ℕ → Callee → W2cSquanchy → (p0 p1 p3 l5 : ℕ) → Option (Checked W2cSquanchy)
f31_pad rounds fuel callee w p0 p1 p3 l5 =
    and_run (f9 fuel w.memory l5 p1 (if ltb p3 256 then p3 else 256)) λ r. elim (ltb p3 256) [
      | true ↦ f25 fuel callee (record w { memory = r.1 }) p0 l5 p3
      | false ↦ f31_loop rounds fuel callee (record w { memory = r.1 }) p0 p3 l5
    ]

unfoldable pub f31 :
    ℕ → ℕ → Callee → W2cSquanchy → (p0 p1 p2 p3 p4 : ℕ) → Option (Checked W2cSquanchy)
f31 rounds fuel callee w p0 p1 p2 p3 p4 =
    let l5 = sub32 w.g0 256 in
    let body = f31_pad rounds fuel callee (record w { g0 = l5 }) p0 p1 (sub32 p2 p3) l5 in
    let ends = λ (v : W2cSquanchy). some (ok (record v { g0 = u32 (l5 + 256) })) in
    elim (leb (u32 (p2 + 2 ^ 31)) (u32 (p3 + 2 ^ 31))) [
      | true ↦ ends (record w { g0 = l5 })
      | false ↦ elim (bit_and p4 73728 == 0) [
        | false ↦ ends (record w { g0 = l5 })
        | true ↦ and_run body ends
      ]
    ]

-- Outputs of 256 bytes, one after the other, and one of the rest.
abbrev pub blocks_out :
    (k : ℕ) → (fuel : ℕ) → Callee → W2cSquanchy → (p0 l5 r : ℕ) → Option (Checked W2cSquanchy)
blocks_out zero fuel callee w p0 l5 r = f25 fuel callee w p0 l5 r
blocks_out (suc k) fuel callee w p0 l5 r =
    and_run (f25 fuel callee w p0 l5 256) λ w'. blocks_out k fuel callee w' p0 l5 r

-- As many rounds as blocks are enough.
f31_loop-blocks :
    (k rounds fuel : ℕ) (callee : Callee) (w : W2cSquanchy) (p0 l5 r n : ℕ)
    → k < rounds
    → r < 256
    → n ≡ r + 256 * suc k
    → n < 2 ^ 32
    → f31_loop rounds fuel callee w p0 n l5 ≡ blocks_out (suc k) fuel callee w p0 l5 r
unfolding f31_loop
f31_loop-blocks k zero fuel callee w p0 l5 r n enough rest e small = absurd (omega arith)
f31_loop-blocks zero (suc rounds) fuel callee w p0 l5 r n enough rest e small =
    let less : u32 (n + 4294967040) ≡ r = omega arith in
    let stop : ltb 255 r ≡ false = ground (arith, rest) in rw (f31_loop, less, stop, less) refl
f31_loop-blocks (suc k) (suc rounds) fuel callee w p0 l5 r n enough rest e small =
    let m : ℕ = r + 256 * suc k in
    let less : u32 (n + 4294967040) ≡ m = omega arith in
    let go : ltb 255 m ≡ true = ground arith in
    rw (f31_loop, less, go, less)
      (λ i. and_run (f25 fuel callee w p0 l5 256) λ w'.
        f31_loop-blocks k rounds fuel callee w' p0 l5 r m (omega arith) rest refl (omega arith) i)

module _ (rounds fuel : ℕ) (callee : Callee) (p0 l5 n : ℕ) (small : n < 2 ^ 32)
    (enough : n / 256 < rounds) where
  either_way :
      (v : W2cSquanchy)
      → (elim (ltb n 256) [
        | true ↦ f25 fuel callee v p0 l5 n
        | false ↦ f31_loop rounds fuel callee v p0 n l5
      ])
        ≡ blocks_out (n / 256) fuel callee v p0 l5 (n % 256)
  either_way v = elim (Bool-cases (ltb n 256)) [
    | inl few ↦
        let no_block : n / 256 ≡ 0 = ground (arith, few) in
        let all_left : n % 256 ≡ n = ground (arith, few) in rw (few, no_block, all_left) refl
    | inr many ↦
        let k : ℕ = n / 256 - 1 in
        let block : n / 256 ≡ suc k = ground (arith, many) in
        rw (many, block)
          (f31_loop-blocks k rounds fuel callee v p0 l5 (n % 256) n (omega arith) (omega arith)
            (omega arith) small)
  ]

  f31_pad-blocks :
      (w : W2cSquanchy) (p1 : ℕ)
      → f31_pad rounds fuel callee w p0 p1 n l5
        ≡ and_run
            (f9 fuel w.memory l5 p1 (if ltb n 256 then n else 256))
            λ r. blocks_out (n / 256) fuel callee (record w { memory = r.1 }) p0 l5 (n % 256)
  unfolding f31_pad
  f31_pad-blocks w p1 = λ i.
      and_run (f9 fuel w.memory l5 p1 (if ltb n 256 then n else 256))
        λ r. either_way (record w { memory = r.1 }) i

-- Where p2 is the larger of two numbers below 2 ^ 31, the flags ask for padding, and there are more
-- rounds than blocks, f31 sets as many as p2 - p3 and at most 256 bytes below the stack to the
-- character, puts these out in blocks of 256 and a last one of the rest, all together p2 - p3 bytes,
-- and then the stack's pointer is where it was, whatever the outputs did to it.
pub f31-pads :
    (rounds fuel : ℕ) (callee : Callee) (w : W2cSquanchy) (p0 p1 p2 p3 p4 : ℕ)
    → p3 < p2
    → p2 < 2 ^ 31
    → bit_and p4 73728 ≡ 0
    → w.g0 < 2 ^ 32
    → 256 ≤ w.g0
    → (p2 - p3) / 256 < rounds
    → f31 rounds fuel callee w p0 p1 p2 p3 p4
      ≡ and_run
          (and_run
            (f9 fuel w.memory (w.g0 - 256) p1 (if ltb (p2 - p3) 256 then p2 - p3 else 256))
            λ r.
              blocks_out
                ((p2 - p3) / 256)
                fuel
                callee
                (record w { g0 = w.g0 - 256; memory = r.1 })
                p0
                (w.g0 - 256)
                ((p2 - p3) % 256))
          (λ v. some (ok (record v { g0 = w.g0 })))
unfolding f31
f31-pads rounds fuel callee w p0 p1 p2 p3 p4 wider small asked word stack enough =
    let below : sub32 w.g0 256 ≡ w.g0 - 256 = omega (arith, word, stack) in
    let back : u32 (w.g0 - 256 + 256) ≡ w.g0 = omega (arith, word, stack) in
    let left : sub32 p2 p3 ≡ p2 - p3 = omega arith in
    let pad : leb (u32 (p2 + 2 ^ 31)) (u32 (p3 + 2 ^ 31)) ≡ false = ground (arith, wider, small) in
    let flag : bit_and p4 73728 == 0 ≡ true = ground (arith, asked) in
    rw (f31, pad, flag, below, left, back)
      (ap (λ (t : Option (Checked W2cSquanchy)). and_run t λ v. some (ok (record v { g0 = w.g0 })))
        (f31_pad-blocks rounds fuel callee p0 (w.g0 - 256) (p2 - p3) (omega arith) enough
          (record w { g0 = w.g0 - 256 }) p1))
