-- ===== src/Wasm2c/Wide.antt =====
-- The shifts of 128-bit numbers in samples/obf_1/obf_w2c.c, `f43` and `f44`: the number comes in two
-- 64-bit halves, the low one first, and the result is stored in the memory.
pub mod Powers
pub mod Left
pub mod Right
pub mod Stores
use squanchy.Base.{
  ℕ, ◌+◌, ◌*◌, ◌/◌, ◌^◌, Bool, true, false, List, if◌then◌else◌, ◌==◌, u32, u64, bit_and, bit_or,
}
use squanchy.Wasm2c.{Checked, ok, trap}
use squanchy.Wasm2c.Format.{sub32}
use squanchy.Wasm2c.Memory.{i64_store}

-- `x <<= (y & 63)` and `x >>= (y & 63)` on a `u64`.
abbrev pub shl64 : ℕ → ℕ → ℕ
shl64 x y = u64 (x * 2 ^ bit_and y 63)

abbrev pub shr64 : ℕ → ℕ → ℕ
shr64 x y = x / 2 ^ bit_and y 63

-- What `f43` has in `var_p1` and `var_p2` at the label `var_B0`.
unfoldable pub f43_halves : (p1 p2 p3 : ℕ) → ℕ × ℕ
f43_halves p1 p2 p3 =
    if bit_and p3 64 == 0
    then (if p3 == 0
        then (p1, p2)
        else (shl64 p1 p3, bit_or (shr64 p1 (sub32 64 p3)) (shl64 p2 p3)))
    else (0, shl64 p1 (u32 (p3 + 4294967232)))

-- What `f44` has there.
unfoldable pub f44_halves : (p1 p2 p3 : ℕ) → ℕ × ℕ
f44_halves p1 p2 p3 =
    if bit_and p3 64 == 0
    then (if p3 == 0
        then (p1, p2)
        else (bit_or (shl64 p2 (sub32 64 p3)) (shr64 p1 p3), shr64 p2 p3))
    else (shr64 p2 (u32 (p3 + 4294967232)), 0)

-- The code from the label on.
unfoldable pub store_halves : List ℕ → ℕ → ℕ × ℕ → Checked (List ℕ)
store_halves mem p0 (p1, p2) = elim (i64_store mem p0 p1) [
  | trap t ↦ trap t
  | ok mem' ↦ i64_store mem' (p0 + 8) p2
]

unfoldable pub f43 : List ℕ → (p0 p1 p2 p3 : ℕ) → Checked (List ℕ)
f43 mem p0 p1 p2 p3 = store_halves mem p0 (f43_halves p1 p2 p3)

unfoldable pub f44 : List ℕ → (p0 p1 p2 p3 : ℕ) → Checked (List ℕ)
f44 mem p0 p1 p2 p3 = store_halves mem p0 (f44_halves p1 p2 p3)
