-- ===== src/Wasm2c/Memory/Laws.antt =====
-- Stores and loads of samples/obf_1/obf_w2c.c agree, and the bulk operations keep the size.
use squanchy.Base.{
  ℕ, zero, suc, ◌+◌, ◌*◌, ◌/◌, ◌%◌, ◌^◌, ◌≤◌, ◌<◌, List, if◌then◌else◌, ◌≡◌, refl, sym, ap, ◌∙◌,
  subst, arith, ◌⊎◌, length, get_elem?, replicate, u8,
}
use native.Mathlib.Nat.{mod-add-div, mod-lt, mod-eq_of_lt, add-mul-mod_self_left, mul_assoc}
use native.Mathlib.Numerals.{unary_clauses}
use squanchy.Wasm2c.{oob, ok, trap, in_range, write_at, read_at}
use squanchy.Wasm2c.Arrays.{
  read_at-write_at, length-write_at, get_elem?-write_at, length-read_at, outside,
}
use squanchy.Wasm2c.Memory.{to_bytes, from_bytes, load_unsigned, store, memory_copy, memory_fill}

pub to_bytes-length : (n v : ℕ) → length (to_bytes n v) ≡ n
unfolding to_bytes
to_bytes-length zero v = refl
to_bytes-length (suc n) v = ap suc (to_bytes-length n (v / 256))

-- A remainder by the lowest byte and the rest.
split_mod : (v p : ℕ) → 0 < p → v % (256 * p) ≡ v % 256 + 256 * (v / 256 % p)
split_mod v p pos =
    let low : ℕ = v % 256 + 256 * (v / 256 % p) in
    let whole : v ≡ low + 256 * p * (v / 256 / p) =
      omega (arith, mod-add-div v 256, mod-add-div (v / 256) p, mul_assoc 256 p (v / 256 / p)) in
    let small : low < 256 * p = omega (arith, mod-lt (v / 256) pos) in
    ap (λ (x : ℕ). x % (256 * p)) whole
    ∙ (add-mul-mod_self_left low (256 * p) (v / 256 / p) ∙ mod-eq_of_lt small)

power_pos : (n : ℕ) → 0 < 256 ^ n
power_pos zero = omega arith
power_pos (suc n) = simp unary_clauses (omega (arith, power_pos n))

power_suc : (n : ℕ) → 256 ^ suc n ≡ 256 * 256 ^ n
power_suc n = simp unary_clauses (omega arith)

from_bytes-to_bytes : (n v : ℕ) → from_bytes (to_bytes n v) ≡ v % 256 ^ n
unfolding from_bytes to_bytes
from_bytes-to_bytes zero v = omega arith
from_bytes-to_bytes (suc n) v =
    rw (from_bytes-to_bytes n (v / 256), power_suc n) (sym (split_mod v (256 ^ n) (power_pos n)))

-- An access within the memory goes on.
go_on {ℓ} :
    {A : Type ℓ} (a : A) (size offset len : ℕ)
    → offset + len ≤ size
    → size < 2 ^ 64
    → (if in_range size offset len then ok a else trap oob) ≡ ok a
unfolding in_range
go_on a size offset len fits small = ground (arith, fits, small)

-- A load within the memory gives the number in its bytes.
pub load_unsigned-ok :
    (n : ℕ) (mem : List ℕ) (addr : ℕ)
    → addr + n ≤ length mem
    → length mem < 2 ^ 64
    → load_unsigned n mem addr ≡ ok (from_bytes (read_at mem addr n))
unfolding load_unsigned
load_unsigned-ok n mem addr fits small =
    go_on (from_bytes (read_at mem addr n)) (length mem) addr n fits small

-- A store or a fill within the memory succeeds.
pub store-ok :
    (n : ℕ) (mem : List ℕ) (addr value : ℕ)
    → addr + n ≤ length mem
    → length mem < 2 ^ 64
    → store n mem addr value ≡ ok (write_at mem addr (to_bytes n value))
unfolding store
store-ok n mem addr value fits small =
    go_on (write_at mem addr (to_bytes n value)) (length mem) addr n fits small

pub memory_fill-ok :
    (mem : List ℕ) (d val n : ℕ)
    → d + n ≤ length mem
    → length mem < 2 ^ 64
    → memory_fill mem d val n ≡ ok (write_at mem d (replicate n (u8 val)))
unfolding memory_fill
memory_fill-ok mem d val n fits small =
    go_on (write_at mem d (replicate n (u8 val))) (length mem) d n fits small

pub memory_copy-ok :
    (mem : List ℕ) (d s n : ℕ)
    → d + n ≤ length mem
    → s + n ≤ length mem
    → length mem < 2 ^ 64
    → memory_copy mem mem d s n ≡ ok (write_at mem d (read_at mem s n))
unfolding memory_copy in_range
memory_copy-ok mem d s n fits fits' small = ground (arith, fits, fits', small)

-- A store within the memory succeeds, a load of as many bytes at the same address then gives the
-- value's low bytes, the size is as it was and so is every byte outside the store.
pub store-load :
    (n addr value : ℕ) (mem : List ℕ)
    → addr + n ≤ length mem
    → length mem < 2 ^ 64
    → (mem' : List ℕ) × (store n mem addr value ≡ ok mem')
      × (load_unsigned n mem' addr ≡ ok (value % 256 ^ n))
      × (length mem' ≡ length mem)
      × ((i : ℕ) → (i < addr) ⊎ (addr + n ≤ i) → get_elem? mem' i ≡ get_elem? mem i)
unfolding store load_unsigned in_range
store-load n addr value mem fits small =
    let new : List ℕ = to_bytes n value in
    let len : length new ≡ n = to_bytes-length n value in
    let room : addr + length new ≤ length mem = omega (arith, len, fits) in
    let kept : length (write_at mem addr new) ≡ length mem = length-write_at mem new addr room in
    let back : from_bytes (read_at (write_at mem addr new) addr n) ≡ value % 256 ^ n =
      ap from_bytes (
        subst (λ (k : ℕ). read_at (write_at mem addr new) addr k ≡ new) len
          (read_at-write_at mem new addr room))
      ∙ from_bytes-to_bytes n value in
    (
      write_at mem addr new,
      go_on (write_at mem addr new) (length mem) addr n fits small,
      go_on _ (length (write_at mem addr new)) addr n (omega (arith, fits, kept))
            (omega (arith, small, kept))
          ∙ ap ok back,
      kept,
      λ i away. get_elem?-write_at mem new addr i room (outside i away len),
    )

-- A store or a load that does not end within the memory traps, as long as the end is a 64-bit
-- number.
pub store-oob :
    (n addr value : ℕ) (mem : List ℕ)
    → length mem < addr + n
    → addr + n < 2 ^ 64
    → (store n mem addr value ≡ trap oob) × (load_unsigned n mem addr ≡ trap oob)
unfolding store load_unsigned in_range
store-oob n addr value mem outside small =
    (ground (arith, outside, small), ground (arith, outside, small))

-- A copy within both memories succeeds, keeps the size, puts the bytes of the source there and
-- keeps the others; the two may be the same memory and the ranges may overlap.
pub memory_copy-copies :
    (dest src : List ℕ) (dest_addr src_addr n : ℕ)
    → dest_addr + n ≤ length dest
    → src_addr + n ≤ length src
    → length dest < 2 ^ 64
    → length src < 2 ^ 64
    → (dest' : List ℕ) × (memory_copy dest src dest_addr src_addr n ≡ ok dest')
      × (length dest' ≡ length dest)
      × (read_at dest' dest_addr n ≡ read_at src src_addr n)
      × ((i : ℕ) → (i < dest_addr) ⊎ (dest_addr + n ≤ i) → get_elem? dest' i ≡ get_elem? dest i)
unfolding memory_copy in_range
memory_copy-copies dest src dest_addr src_addr n fits fits' small small' =
    let new : List ℕ = read_at src src_addr n in
    let len : length new ≡ n = length-read_at src src_addr n fits' in
    let room : dest_addr + length new ≤ length dest = omega (arith, len, fits) in
    (
      write_at dest dest_addr new,
      ground (arith, fits, fits', small, small'),
      length-write_at dest new dest_addr room,
      subst (λ (k : ℕ). read_at (write_at dest dest_addr new) dest_addr k ≡ new) len
          (read_at-write_at dest new dest_addr room),
      λ i away. get_elem?-write_at dest new dest_addr i room (outside i away len),
    )
