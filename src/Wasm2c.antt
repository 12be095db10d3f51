-- ===== src/Wasm2c.antt =====
-- The helpers in front of the code that wasm2c wrote for the sample samples/obf_1/obf_w2c.c, which
-- the tool marks always-inline: linear memory and tables. It is the build with bounds checks,
-- without guard pages, segment registers and 64-bit memories, on a little-endian machine.
pub mod Arrays
pub mod Bits
pub mod Format
pub mod Instance
pub mod Memchr
pub mod Memcpy
pub mod Memory
pub mod Memset
pub mod Stdio
pub mod Table
pub mod Types
pub mod Utf8
pub mod Wide
use squanchy.Base.{
  ℕ, ◌+◌, Bool, true, false, not, ◌&&◌, List, [], ◌∷◌, ◌++◌, if◌then◌else◌, leb, u64, take, drop,
  length,
}

-- `wasm_rt_trap_t`
pub data Trap : Type 0 where
  trap_none oob int_overflow div_by_zero invalid_conversion unreachable call_indirect : Trap
  uncaught_exception unaligned exhaustion : Trap

-- `TRAP` does not return.
pub data Checked {ℓ} (A : Type ℓ) : Type ℓ where
  ok : A → Checked A
  trap : Trap → Checked A

-- `RANGE_CHECK`, whose sum is a `uint64_t`: whether the access goes on.
unfoldable pub in_range : (size offset len : ℕ) → Bool
in_range size offset len = leb (u64 (offset + len)) size

-- The elements from an index on are overwritten, as `memcpy` and `memmove` do within an array.
abbrev pub write_at {ℓ} : {A : Type ℓ} → List A → ℕ → List A → List A
write_at xs k new = take k xs ++ (new ++ drop (k + length new) xs)

-- As many elements from an index on.
abbrev pub read_at {ℓ} : {A : Type ℓ} → List A → ℕ → ℕ → List A
read_at xs k n = take n (drop k xs)
