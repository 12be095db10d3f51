-- ===== src/Wasm2c/Memory/Refines.antt =====
-- The array operations of samples/obf_1/obf_w2c.c keep the promise of a linear memory.
use squanchy.Base.{
  ℕ, zero, suc, ◌+◌, ◌-◌, ◌*◌, ◌/◌, ◌%◌, ◌^◌, ◌≤◌, ◌<◌, ◌&&◌, Option, some, List, [], ◌∷◌, ◌≡◌,
  refl, sym, ap, ◌∙◌, arith, inl, inr, ◌⊎◌, ltb, leb, length, replicate, get_elem?, drop, u8,
  Bool-cases,
}
use mathlib.Core.Path.{fun_ext}
use native.Mathlib.Numerals.{unary_clauses}
use native.Mathlib.Nat.{div-div-eq-div-mul}
use squanchy.Wasm2c.{oob, Checked, ok, trap, in_range, write_at, read_at}
use squanchy.Wasm2c.Arrays.{
  get_elem?-write_at, get_elem?-within, get_elem?-left, get_elem?-read_at, length-write_at,
  get_elem?-replicate, length-replicate, length-read_at,
}
use squanchy.Wasm2c.Memory.{to_bytes, store, memory_fill, memory_copy, memory_init}
use squanchy.Wasm2c.Memory.Laws.{to_bytes-length}
use squanchy.Wasm2c.Memory.Abstract.{
  Command, write, fill, copy, init, execute, execute_all, Bytes, view, overlay, specified,
  specified_all, InWords, AllInWords,
}

-- A write into the array is an overlay of the bytes that it writes.
view-write_at :
    (mem new : List ℕ) (d n : ℕ) (bytes : ℕ → Option ℕ)
    → length new ≡ n
    → d + n ≤ length mem
    → ((k : ℕ) → k < n → get_elem? new k ≡ bytes k)
    → view (write_at mem d new) ≡ overlay d n bytes (view mem)
view-write_at mem new d n bytes len fits same = fun_ext λ i. elim (Bool-cases (leb d i)) [
  | inr before ↦
      get_elem?-write_at mem new d i (omega (arith, len, fits)) (inl (ground (arith, before)))
      ∙ ground (arith, before)
  | inl from ↦ elim (Bool-cases (ltb i (d + n))) [
    | inr behind ↦
        get_elem?-write_at mem new d i (omega (arith, len, fits))
          (inr (ground (arith, behind, len)))
        ∙ ground (arith, behind)
    | inl inside ↦
        let k : ℕ = i - d in
        let place : d + k ≡ i = ground (arith, from) in
        let small : k < n = ground (arith, from, inside) in
        ap (get_elem? (write_at mem d new)) (sym place)
        ∙ (get_elem?-within mem new d k (omega (arith, fits))
            ∙ (get_elem?-left new (drop (d + length new) mem) k (omega (arith, small, len))
                ∙ (same k small ∙ ground (arith, from, inside))))
  ]
]

power : (k : ℕ) → 256 ^ suc k ≡ 256 * 256 ^ k
power k = simp unary_clauses (omega arith)

get_elem?-to_bytes : (n v k : ℕ) → k < n → get_elem? (to_bytes n v) k ≡ some (v / 256 ^ k % 256)
unfolding to_bytes
get_elem?-to_bytes zero v k h = absurd (omega (arith, h))
get_elem?-to_bytes (suc n) v zero h =
    let whole : v ≡ v / 1 = omega arith in ap (λ (w : ℕ). some (w % 256)) whole
get_elem?-to_bytes (suc n) v (suc k) h =
    get_elem?-to_bytes n (v / 256) k (omega (arith, h))
    ∙ ap (λ (w : ℕ). some (w % 256))
        (div-div-eq-div-mul v 256 (256 ^ k) ∙ ap (λ (w : ℕ). v / w) (sym (power k)))

-- Both trap, or both succeed, the array has kept its length and holds the specified bytes.
abbrev pub Agree : List ℕ → Checked (List ℕ) → Checked Bytes → Type 0
Agree mem run spec =
    ((run ≡ trap oob) × (spec ≡ trap oob))
    ⊎ ((mem' : List ℕ) × (run ≡ ok mem') × (length mem' ≡ length mem) × (spec ≡ ok (view mem')))

overlaid :
    (mem new : List ℕ) (d n : ℕ) (bytes : ℕ → Option ℕ) (run : Checked (List ℕ))
    (spec : Checked Bytes)
    → length new ≡ n
    → d + n ≤ length mem
    → ((k : ℕ) → k < n → get_elem? new k ≡ bytes k)
    → run ≡ ok (write_at mem d new)
    → spec ≡ ok (overlay d n bytes (view mem))
    → Agree mem run spec
overlaid mem new d n bytes run spec len fits same runs specifies = inr (
  write_at mem d new,
  runs,
  length-write_at mem new d (omega (arith, len, fits)),
  specifies ∙ ap ok (sym (view-write_at mem new d n bytes len fits same)),
)

execute-specified :
    (c : Command) (mem : List ℕ)
    → InWords c
    → length mem ≤ 2 ^ 32
    → Agree mem (execute c mem) (specified (length mem) c (view mem))
unfolding execute specified store memory_fill memory_copy memory_init in_range
execute-specified (write n addr value) mem words small =
    elim (Bool-cases (leb (addr + n) (length mem))) [
      | inl fits ↦
          overlaid mem (to_bytes n value) addr n (λ k. some (value / 256 ^ k % 256)) _ _
            (to_bytes-length n value) (ground (arith, fits)) (get_elem?-to_bytes n value)
            (ground (arith, words.0, words.1, fits, small)) (ground (arith, fits))
      | inr out ↦ inl (ground (arith, words.0, words.1, out, small), ground (arith, out))
    ]
execute-specified (fill d val n) mem words small = elim (Bool-cases (leb (d + n) (length mem))) [
  | inl fits ↦
      overlaid mem (replicate n (u8 val)) d n (λ k. some (u8 val)) _ _ (length-replicate n (u8 val))
        (ground (arith, fits)) (get_elem?-replicate n (u8 val))
        (ground (arith, words.0, words.1, fits, small)) (ground (arith, fits))
  | inr out ↦ inl (ground (arith, words.0, words.1, out, small), ground (arith, out))
]
execute-specified (copy d s n) mem (words_d, words_s, words_n) small =
    elim (Bool-cases (leb (d + n) (length mem) && leb (s + n) (length mem))) [
      | inl fits ↦
          let room : s + n ≤ length mem = ground (arith, fits) in
          overlaid mem (read_at mem s n) d n (λ k. get_elem? mem (s + k)) _ _
            (length-read_at mem s n room) (ground (arith, fits)) (get_elem?-read_at mem s n)
            (ground (arith, words_d, words_s, words_n, fits, small)) (ground (arith, fits))
      | inr out ↦ inl (ground (arith, words_d, words_s, words_n, out, small), ground (arith, out))
    ]
execute-specified (init segment d s n) mem (words_d, words_s, words_n) small =
    elim (Bool-cases (leb (d + n) (length mem) && leb (s + n) (length segment))) [
      | inl fits ↦
          let room : s + n ≤ length segment = ground (arith, fits) in
          overlaid mem (read_at segment s n) d n (λ k. get_elem? segment (s + k)) _ _
            (length-read_at segment s n room) (ground (arith, fits)) (get_elem?-read_at segment s n)
            (ground (arith, words_d, words_s, words_n, fits, small)) (ground (arith, fits))
      | inr out ↦ inl (ground (arith, words_d, words_s, words_n, out, small), ground (arith, out))
    ]

module _ (c : Command) (cs : List Command) (mem : List ℕ) where
  execute_all-first :
      {run : Checked (List ℕ)}
      → execute c mem ≡ run
      → execute_all (c ∷ cs) mem ≡ elim run [ ok mem' ↦ execute_all cs mem' | trap t ↦ trap t ]
  unfolding execute_all
  execute_all-first e =
      ap (λ (r : Checked (List ℕ)). elim r [ ok mem' ↦ execute_all cs mem' | trap t ↦ trap t ]) e

  specified_all-first :
      (size : ℕ) (bytes : Bytes) {spec : Checked Bytes}
      → specified size c bytes ≡ spec
      → specified_all size (c ∷ cs) bytes
        ≡ elim spec [ ok bytes' ↦ specified_all size cs bytes' | trap t ↦ trap t ]
  unfolding specified_all
  specified_all-first size bytes e =
      ap
        (λ (r : Checked Bytes). elim r [
          | ok bytes' ↦ specified_all size cs bytes'
          | trap t ↦ trap t
        ])
        e

-- A sequence of stores, fills, copies and initialisations on the array traps exactly where the
-- specification of the bytes at each address does, and otherwise keeps the size and ends with the
-- specified bytes.
pub execute_all-specified :
    (cs : List Command) (mem : List ℕ)
    → AllInWords cs
    → length mem ≤ 2 ^ 32
    → Agree mem (execute_all cs mem) (specified_all (length mem) cs (view mem))
unfolding execute_all specified_all
execute_all-specified [] mem words small = inr (mem, refl, refl, refl)
execute_all-specified (c ∷ cs) mem words small = elim (execute-specified c mem words.0 small) [
  | inl (runs, specifies) ↦ inl (
    execute_all-first c cs mem runs,
    specified_all-first c cs mem (length mem) (view mem) specifies,
  )
  | inr (mem₁, runs, len, specifies) ↦
      let first = execute_all-first c cs mem runs in
      let begins =
        specified_all-first c cs mem (length mem) (view mem) specifies
        ∙ ap (λ (size : ℕ). specified_all size cs (view mem₁)) (sym len) in
      elim (execute_all-specified cs mem₁ words.1 (omega (arith, len, small))) [
        | inl (runs', specifies') ↦ inl (first ∙ runs', begins ∙ specifies')
        | inr (mem₂, runs', len', specifies') ↦
            inr (mem₂, first ∙ runs', len' ∙ len, begins ∙ specifies')
      ]
]
