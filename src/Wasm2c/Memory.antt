-- ===== src/Wasm2c/Memory.antt =====
-- Loads, stores and the bulk operations on a linear memory, samples/obf_1/obf_w2c.c. A memory is
-- the list of its bytes; its member `size` is the length.
pub mod Laws
pub mod Abstract
pub mod Refines
use squanchy.Base.{
  ℕ, zero, suc, ◌+◌, ◌-◌, ◌*◌, ◌/◌, ◌%◌, ◌^◌, Bool, true, false, List, [], ◌∷◌, if◌then◌else◌, ltb,
  leb, length, replicate, u8, u64,
}
use squanchy.Wasm2c.{Trap, oob, Checked, ok, trap, in_range, write_at, read_at}

-- The bytes of a number, the lowest first, and back.
unfoldable pub to_bytes : (n v : ℕ) → List ℕ
to_bytes zero v = []
to_bytes (suc n) v = v % 256 ∷ to_bytes n (v / 256)

unfoldable pub from_bytes : List ℕ → ℕ
from_bytes [] = 0
from_bytes (b ∷ bs) = b + 256 * from_bytes bs

-- `DEFINE_LOAD` for an unsigned `t1` of `n` bytes.
unfoldable pub load_unsigned : (n : ℕ) → List ℕ → (addr : ℕ) → Checked ℕ
load_unsigned n mem addr =
    if in_range (length mem) addr n then ok (from_bytes (read_at mem addr n)) else trap oob

-- The cast of a signed number of `n` bytes to one of `to` bytes.
unfoldable pub sign_extend : (n to v : ℕ) → ℕ
sign_extend n to v = if ltb v (2 ^ (8 * n - 1)) then v else v + 2 ^ (8 * to) - 2 ^ (8 * n)

-- `DEFINE_LOAD` for a signed `t1` of `n` bytes and a `t3` of `to` bytes.
unfoldable pub load_signed : (n to : ℕ) → List ℕ → (addr : ℕ) → Checked ℕ
load_signed n to mem addr =
    if in_range (length mem) addr n
    then ok (sign_extend n to (from_bytes (read_at mem addr n)))
    else trap oob

-- `DEFINE_STORE` for a `t1` of `n` bytes: the value's low bytes are kept.
unfoldable pub store : (n : ℕ) → List ℕ → (addr value : ℕ) → Checked (List ℕ)
store n mem addr value =
    if in_range (length mem) addr n then ok (write_at mem addr (to_bytes n value)) else trap oob

abbrev pub i32_load : List ℕ → ℕ → Checked ℕ
i32_load = load_unsigned 4

abbrev pub i64_load : List ℕ → ℕ → Checked ℕ
i64_load = load_unsigned 8

abbrev pub i32_load8_s : List ℕ → ℕ → Checked ℕ
i32_load8_s = load_signed 1 4

abbrev pub i64_load32_s : List ℕ → ℕ → Checked ℕ
i64_load32_s = load_signed 4 8

abbrev pub i32_store : List ℕ → ℕ → ℕ → Checked (List ℕ)
i32_store = store 4

abbrev pub i64_store : List ℕ → ℕ → ℕ → Checked (List ℕ)
i64_store = store 8

unfoldable pub memory_fill : List ℕ → (d val n : ℕ) → Checked (List ℕ)
memory_fill mem d val n =
    if in_range (length mem) d n then ok (write_at mem d (replicate n (u8 val))) else trap oob

-- The destination after the copy; `src` is the same memory where the source copies within one.
unfoldable pub memory_copy : (dest src : List ℕ) → (dest_addr src_addr n : ℕ) → Checked (List ℕ)
memory_copy dest src dest_addr src_addr n =
    if in_range (length dest) dest_addr n
    then (if in_range (length src) src_addr n
        then ok (write_at dest dest_addr (read_at src src_addr n))
        else trap oob)
    else trap oob

-- `memory_init`, with `LOAD_DATA` and `load_data`; the segment's size is its length.
unfoldable pub memory_init : (dest src : List ℕ) → (dest_addr src_addr n : ℕ) → Checked (List ℕ)
memory_init dest src dest_addr src_addr n =
    if ltb (length src) (u64 (src_addr + n))
    then trap oob
    else if in_range (length dest) dest_addr n
    then ok (write_at dest dest_addr (read_at src src_addr n))
    else trap oob
