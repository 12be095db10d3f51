-- ===== src/Wasm2c/Memory/Abstract.antt =====
-- What a linear memory promises: a size and a byte at each address below it. The operations of
-- samples/obf_1/obf_w2c.c on its array are one command each; the abstract ones say what each address
-- holds afterwards.
use squanchy.Base.{
  ℕ, ◌+◌, ◌-◌, ◌/◌, ◌%◌, ◌^◌, ◌<◌, ◌&&◌, Option, some, List, [], ◌∷◌, if◌then◌else◌, ltb, leb,
  length, get_elem?, u8,
}
use squanchy.Wasm2c.{oob, Checked, ok, trap}
use squanchy.Wasm2c.Memory.{store, memory_fill, memory_copy, memory_init}

-- The bulk operations and the stores of `n` bytes, with their operands.
pub data Command : Type 0 where
  write : (n addr value : ℕ) → Command
  fill : (d val n : ℕ) → Command
  copy : (dest_addr src_addr n : ℕ) → Command
  init : (segment : List ℕ) → (dest_addr src_addr n : ℕ) → Command

unfoldable pub execute : Command → List ℕ → Checked (List ℕ)
execute (write n addr value) mem = store n mem addr value
execute (fill d val n) mem = memory_fill mem d val n
execute (copy dest_addr src_addr n) mem = memory_copy mem mem dest_addr src_addr n
execute (init segment dest_addr src_addr n) mem = memory_init mem segment dest_addr src_addr n

-- The commands one after the other, up to a trap.
unfoldable pub execute_all : List Command → List ℕ → Checked (List ℕ)
execute_all [] mem = ok mem
execute_all (c ∷ cs) mem = elim (execute c mem) [ ok mem' ↦ execute_all cs mem' | trap t ↦ trap t ]

-- The bytes by their addresses; there is none from the size on.
abbrev pub Bytes : Type 0
Bytes = ℕ → Option ℕ

abbrev pub view : List ℕ → Bytes
view mem = get_elem? mem

-- `n` addresses from `d` on get new bytes.
abbrev pub overlay : (d n : ℕ) → (ℕ → Option ℕ) → Bytes → Bytes
overlay d n new bytes i = if leb d i && ltb i (d + n) then new (i - d) else bytes i

unfoldable pub specified : (size : ℕ) → Command → Bytes → Checked Bytes
specified size (write n addr value) bytes =
    if leb (addr + n) size
    then ok (overlay addr n (λ k. some (value / 256 ^ k % 256)) bytes)
    else trap oob
specified size (fill d val n) bytes =
    if leb (d + n) size then ok (overlay d n (λ k. some (u8 val)) bytes) else trap oob
specified size (copy dest_addr src_addr n) bytes =
    if leb (dest_addr + n) size && leb (src_addr + n) size
    then ok (overlay dest_addr n (λ k. bytes (src_addr + k)) bytes)
    else trap oob
specified size (init segment dest_addr src_addr n) bytes =
    if leb (dest_addr + n) size && leb (src_addr + n) (length segment)
    then ok (overlay dest_addr n (λ k. get_elem? segment (src_addr + k)) bytes)
    else trap oob

unfoldable pub specified_all : (size : ℕ) → List Command → Bytes → Checked Bytes
specified_all size [] bytes = ok bytes
specified_all size (c ∷ cs) bytes = elim (specified size c bytes) [
  | ok bytes' ↦ specified_all size cs bytes'
  | trap t ↦ trap t
]

-- The operands are 32-bit numbers, the address of a store with its constant offset a sum of two.
abbrev pub InWords : Command → Type 0
InWords (write n addr value) = (addr < 2 ^ 33) × (n < 2 ^ 32)
InWords (fill d val n) = (d < 2 ^ 32) × (n < 2 ^ 32)
InWords (copy dest_addr src_addr n) = (dest_addr < 2 ^ 32) × (src_addr < 2 ^ 32) × (n < 2 ^ 32)
InWords (init segment dest_addr src_addr n) =
    (dest_addr < 2 ^ 32) × (src_addr < 2 ^ 32) × (n < 2 ^ 32)

abbrev pub AllInWords : List Command → Type 0
AllInWords [] = Unit {0}
AllInWords (c ∷ cs) = InWords c × AllInWords cs
