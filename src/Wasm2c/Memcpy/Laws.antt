-- ===== src/Wasm2c/Memcpy/Laws.antt =====
-- `f21` of samples/obf_1/obf_w2c.c copies less than 512 bytes as the instruction memory.copy does.
use squanchy.Base.{
  ℕ, ◌+◌, ◌-◌, ◌%◌, ◌≤◌, ◌<◌, ◌^◌, ◌&&◌, true, false, Option, some, List, ◌⊎◌, inl, inr, ◌≡◌, refl,
  sym, ap, ap₂, ◌∙◌, arith, ltb, leb, length, get_elem?, if◌then◌else◌, ◌==◌, u32, bit_and, bit_xor,
  Bool-cases, drop,
}
use squanchy.Wasm2c.{Checked, ok, write_at, read_at}
use squanchy.Wasm2c.Arrays.{
  get_elem?-write_at, get_elem?-within, get_elem?-left, get_elem?-read_at, length-read_at,
}
use squanchy.Wasm2c.Arrays.Reads.{same_elements}
use squanchy.Wasm2c.Bits.Masks.{bit_and-3}
use squanchy.Wasm2c.Memory.{memory_copy}
use squanchy.Wasm2c.Memory.Laws.{memory_copy-ok}
use squanchy.Wasm2c.Memchr.Words.{IsBytes}
use squanchy.Wasm2c.Memcpy.{f21_unaligned, f21_aligned, f21_align, f21_short, f21}
use squanchy.Wasm2c.Memcpy.Copied.{Copied, Copied-none}
use squanchy.Wasm2c.Memcpy.Bytes.{Ends, Ends-eq, f21_unaligned-Ends}
use squanchy.Wasm2c.Memcpy.Words.{f21_aligned-Ends, f21_align-Ends}

module _ (d s total : ℕ) (mem : List ℕ) (fits : d + total ≤ length mem)
    (fits' : s + total ≤ length mem) where
  -- The whole range copied is the write of what was read.
  Copied-all :
      (out : List ℕ) → Copied d s total mem out → out ≡ write_at mem d (read_at mem s total)
  Copied-all out c =
      let new : List ℕ = read_at mem s total in
      let len : length new ≡ total = length-read_at mem s total fits' in
      same_elements out (write_at mem d new) λ i. elim (Bool-cases (leb d i && ltb i (d + total))) [
        | inl e ↦
            let below : i - d < total = ground (arith, e) in
            let place : d + (i - d) ≡ i = ground (arith, e) in
            sym (ap (get_elem? out) place)
            ∙ (c.copied (i - d) below
                ∙ (sym (get_elem?-read_at mem s total (i - d) below)
                    ∙ (sym (
                          get_elem?-left new (drop (d + length new) mem) (i - d)
                            (omega (arith, len)))
                        ∙ (sym (get_elem?-within mem new d (i - d) (omega arith))
                            ∙ ap (get_elem? (write_at mem d new)) place))))
        | inr e ↦
            c.others i (ground (arith, e))
            ∙ sym (get_elem?-write_at mem new d i (omega (arith, len)) (ground (arith, e, len)))
      ]

-- Where `f21` goes below 512 bytes.
module _ (fuel d s n end : ℕ) (mem : List ℕ) (e : u32 (d + n) ≡ end) where
  short_unaligned :
      (bit_and (bit_xor s d) 3 == 0) ≡ false
      → f21_short fuel mem d s n ≡ f21_unaligned fuel mem d s end
  unfolding f21_short
  short_unaligned h = rw (f21_short, h, e) refl

  module _ (same : (bit_and (bit_xor s d) 3 == 0) ≡ true) where
    short_even : (bit_and d 3 == 0) ≡ true → f21_short fuel mem d s n ≡ f21_aligned fuel mem s d end
    unfolding f21_short
    short_even h = rw (f21_short, same, h, e) refl

    module _ (odd : (bit_and d 3 == 0) ≡ false) where
      short_nothing : (n == 0) ≡ true → f21_short fuel mem d s n ≡ f21_aligned fuel mem s d end
      unfolding f21_short
      short_nothing h = rw (f21_short, same, odd, h, e) refl

      short_align : (n == 0) ≡ false → f21_short fuel mem d s n ≡ f21_align fuel mem s d end
      unfolding f21_short
      short_align h = rw (f21_short, same, odd, h, e) refl

module _ (d s total : ℕ) (apart : (s + total ≤ d) ⊎ (d + total ≤ s)) (mem : List ℕ)
    (bytes : IsBytes mem) (fits : d + total ≤ length mem) (fits' : s + total ≤ length mem)
    (small : length mem < 2 ^ 32) where
  abbrev EndsHere : Option (Checked (List ℕ)) → Type 0
  EndsHere = Ends d s total apart mem bytes fits fits' small

  abbrev l3 : ℕ
  l3 = d + total

  module _ (fuel : ℕ) (enough : total < fuel) where
    from_aligned : ((d + 0) % 4 ≡ 0) ⊎ (0 ≡ total) → EndsHere (f21_aligned fuel mem s d l3)
    from_aligned at_word =
        Ends-eq d s total apart mem bytes fits fits' small
          (ap₂ (λ (a b : ℕ). f21_aligned fuel mem a b l3) (omega arith) (omega arith))
          (f21_aligned-Ends d s total apart mem bytes fits fits' small fuel 0 mem (omega arith)
            at_word (omega arith) (Copied-none d s mem))

    from_align : 0 < total → EndsHere (f21_align fuel mem s d l3)
    from_align some_left =
        Ends-eq d s total apart mem bytes fits fits' small
          (ap₂ (λ (a b : ℕ). f21_align fuel mem a b l3) (omega arith) (omega arith))
          (f21_align-Ends d s total apart mem bytes fits fits' small fuel 0 mem some_left
            (omega arith) (Copied-none d s mem))

    f21_short-Ends : EndsHere (f21_short fuel mem d s total)
    f21_short-Ends =
        let e3 : u32 (d + total) ≡ l3 = omega arith in
        let low : bit_and d 3 ≡ d % 4 = bit_and-3 d (omega arith) in
        elim (Bool-cases (bit_and (bit_xor s d) 3 == 0)) [
          | inr differ ↦
              Ends-eq d s total apart mem bytes fits fits' small
                (short_unaligned fuel d s total l3 mem e3 differ)
                (f21_unaligned-Ends d s total apart mem bytes fits fits' small fuel enough)
          | inl same ↦ elim (Bool-cases (bit_and d 3 == 0)) [
            | inl even ↦
                Ends-eq d s total apart mem bytes fits fits' small
                  (short_even fuel d s total l3 mem e3 same even)
                  (from_aligned (inl (ground (arith, even, low))))
            | inr odd ↦ elim (Bool-cases (total == 0)) [
              | inl nothing ↦
                  Ends-eq d s total apart mem bytes fits fits' small
                    (short_nothing fuel d s total l3 mem e3 same odd nothing)
                    (from_aligned (inr (ground (arith, nothing))))
              | inr something ↦
                  Ends-eq d s total apart mem bytes fits fits' small
                    (short_align fuel d s total l3 mem e3 same odd something)
                    (from_align (ground (arith, something)))
            ]
          ]
        ]

f21_runs :
    (fuel p0 p1 p2 : ℕ) (mem out : List ℕ)
    → ltb p2 512 ≡ true
    → f21_short fuel mem p0 p1 p2 ≡ some (ok out)
    → f21 fuel mem p0 p1 p2 ≡ some (ok (p0, out))
unfolding f21
f21_runs fuel p0 p1 p2 mem out short runs = rw (f21, short, runs) refl

f21_skips :
    (fuel p0 p1 p2 : ℕ) (mem : List ℕ)
    → ltb p2 512 ≡ false
    → f21 fuel mem p0 p1 p2 ≡ some (ok (p0, mem))
unfolding f21
f21_skips fuel p0 p1 p2 mem long = rw (f21, long) refl

-- In a memory of bytes below 2 ^ 32, with two ranges within it that do not overlap and more rounds
-- than bytes, `f21` returns its pointer and leaves the memory that memory.copy leaves, where there
-- are fewer than 512 bytes; from 512 bytes on it leaves the memory as it was.
pub f21-memory_copy :
    (fuel p0 p1 p2 : ℕ) (mem : List ℕ)
    → IsBytes mem
    → p0 + p2 ≤ length mem
    → p1 + p2 ≤ length mem
    → length mem < 2 ^ 32
    → (p1 + p2 ≤ p0) ⊎ (p0 + p2 ≤ p1)
    → p2 < fuel
    → (out : List ℕ) × (f21 fuel mem p0 p1 p2 ≡ some (ok (p0, out)))
      × ((if ltb p2 512 then memory_copy mem mem p0 p1 p2 else ok mem) ≡ ok out)
f21-memory_copy fuel p0 p1 p2 mem bytes fits fits' small apart enough =
    elim (Bool-cases (ltb p2 512)) [
      | inr long ↦ (mem, f21_skips fuel p0 p1 p2 mem long, rw long refl)
      | inl short ↦
          let (out, runs, c) =
            f21_short-Ends p0 p1 p2 apart mem bytes fits fits' small fuel enough in
          (
            out,
            f21_runs fuel p0 p1 p2 mem out short runs,
            rw short (
                memory_copy-ok mem p0 p1 p2 fits fits' (omega arith)
                ∙ ap ok (sym (Copied-all p0 p1 p2 mem fits fits' out c))),
          )
    ]
