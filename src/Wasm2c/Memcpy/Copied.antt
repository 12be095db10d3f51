-- ===== src/Wasm2c/Memcpy/Copied.antt =====
-- A memory into which a part of a range has been copied.
use squanchy.Base.{
  ℕ, zero, suc, ◌+◌, ◌-◌, ◌*◌, ◌≤◌, ◌<◌, ◌^◌, ◌&&◌, List, [], ◌∷◌, ◌⊎◌, inl, inr, ◌≡◌, refl, subst,
  sym, ap, ap₂, ◌∙◌, arith, ltb, leb, length, get_elem?, Bool-cases,
}
use squanchy.Wasm2c.{ok, write_at, read_at}
use squanchy.Wasm2c.Arrays.{
  length-write_at, get_elem?-write_at, get_elem?-within, get_elem?-left, get_elem?-read_at,
  length-read_at, in_memory,
}
use squanchy.Wasm2c.Memory.{to_bytes, from_bytes}
use squanchy.Wasm2c.Memory.Laws.{store-ok, load_unsigned-ok}
use squanchy.Wasm2c.Memchr.Words.{IsBytes}
use squanchy.Wasm2c.Memcpy.{copy_step, copy_each}

-- The first `k` bytes from `s` on stand from `d` on; all else is as it was.
pub record Copied (d s k : ℕ) (mem mem' : List ℕ) : Type 0 where
  pub same_size : length mem' ≡ length mem
  pub others : (i : ℕ) → (i < d) ⊎ (d + k ≤ i) → get_elem? mem' i ≡ get_elem? mem i
  pub copied : (j : ℕ) → j < k → get_elem? mem' (d + j) ≡ get_elem? mem (s + j)

pub Copied-none : (d s : ℕ) (mem : List ℕ) → Copied d s 0 mem mem
Copied-none d s mem = record {
  same_size = refl;
  others = λ i h. refl;
  copied = λ j h. absurd (omega arith);
}

-- The copy keeps bytes bytes.
Copied-IsBytes :
    (d s k : ℕ) (mem mem' : List ℕ) → IsBytes mem → Copied d s k mem mem' → IsBytes mem'
Copied-IsBytes d s k mem mem' bytes c i b at = elim (Bool-cases (leb d i && ltb i (d + k))) [
  | inl e ↦
      let from : d ≤ i = ground (arith, e) in
      let below : i - d < k = ground (arith, e) in
      bytes (s + (i - d)) b
        (sym (c.copied (i - d) below) ∙ (ap (get_elem? mem') (omega arith) ∙ at))
  | inr e ↦ bytes i b (sym (c.others i (ground (arith, e))) ∙ at)
]

bytes_back : (bs : List ℕ) (n : ℕ) → length bs ≡ n → IsBytes bs → to_bytes n (from_bytes bs) ≡ bs
unfolding to_bytes from_bytes
bytes_back [] zero len small = refl
bytes_back [] (suc n) len small = absurd (omega arith)
bytes_back (b ∷ bs) zero len small = absurd (omega arith)
bytes_back (b ∷ bs) (suc n) len small =
    let byte : b < 256 = small 0 b refl in
    ap₂ (λ (x : ℕ) (xs : List ℕ). x ∷ xs) (omega arith)
      (ap (to_bytes n) (omega arith) ∙ bytes_back bs n (omega arith) (λ i c at. small (suc i) c at))

copy_step-ok :
    (n : ℕ) (mem : List ℕ) (dest src : ℕ)
    → IsBytes mem
    → dest + n ≤ length mem
    → src + n ≤ length mem
    → length mem < 2 ^ 64
    → copy_step n mem dest src ≡ ok (write_at mem dest (read_at mem src n))
unfolding copy_step
copy_step-ok n mem dest src bytes fits fits' small =
    let new : List ℕ = read_at mem src n in
    let read_bytes : IsBytes new = λ i b at. bytes (src + i) b (
      sym (
        get_elem?-read_at mem src n i
          (omega (arith, in_memory new i b at, length-read_at mem src n fits')))
      ∙ at) in
    let back : to_bytes n (from_bytes new) ≡ new =
      bytes_back new n (length-read_at mem src n fits') read_bytes in
    rw (copy_step, load_unsigned-ok n mem src fits' small)
      (store-ok n mem dest (from_bytes new) fits small
        ∙ ap (λ (bs : List ℕ). ok (write_at mem dest bs)) back)

-- Offsets at a distance of `n`.
abbrev pub offsets : (n count o : ℕ) → List ℕ
offsets n zero o = []
offsets n (suc count) o = o ∷ offsets n count (o + n)

copy_each-more :
    (n : ℕ) (mem m1 next : List ℕ) (dest src o : ℕ) (os : List ℕ)
    → copy_step n mem (dest + o) (src + o) ≡ ok m1
    → copy_each n m1 dest src os ≡ ok next
    → copy_each n mem dest src (o ∷ os) ≡ ok next
unfolding copy_each
copy_each-more n mem m1 next dest src o os ran rest = rw (copy_each, ran) rest

-- A range that stays apart from the one it is copied to, in a memory of bytes.
module _ (d s total : ℕ) (apart : (s + total ≤ d) ⊎ (d + total ≤ s)) (mem : List ℕ)
    (bytes : IsBytes mem) (fits : d + total ≤ length mem) (fits' : s + total ≤ length mem)
    (small : length mem < 2 ^ 64) where
  -- A byte to copy is no copied one.
  fresh : (k j : ℕ) → k ≤ j → j < total → (s + j < d) ⊎ (d + k ≤ s + j)
  fresh k j order below = ground (arith, apart)

  Copied-next :
      (k n j : ℕ) (mem' : List ℕ)
      → k + n ≤ total
      → k ≤ j
      → j < k + n
      → Copied d s k mem mem'
      → get_elem? (write_at mem' (d + k) (read_at mem' (s + k) n)) (d + j) ≡ get_elem? mem (s + j)
  Copied-next k n j mem' room from below c =
      let new : List ℕ = read_at mem' (s + k) n in
      let len : length new ≡ n = length-read_at mem' (s + k) n (omega (arith, c.same_size)) in
      let place : d + k + (j - k) ≡ d + j = omega arith in
      let back : s + k + (j - k) ≡ s + j = omega arith in
      ap (get_elem? (write_at mem' (d + k) new)) (sym place)
      ∙ (get_elem?-within mem' new (d + k) (j - k) (omega (arith, c.same_size))
          ∙ (get_elem?-left new _ (j - k) (omega (arith, len))
              ∙ (get_elem?-read_at mem' (s + k) n (j - k) (omega arith)
                  ∙ (ap (get_elem? mem') back ∙ c.others (s + j) (fresh k j from (omega arith))))))

  Copied-write :
      (k n : ℕ) (mem' : List ℕ)
      → k + n ≤ total
      → Copied d s k mem mem'
      → Copied d s (k + n) mem (write_at mem' (d + k) (read_at mem' (s + k) n))
  Copied-write k n mem' room c =
      let new : List ℕ = read_at mem' (s + k) n in
      let len : length new ≡ n = length-read_at mem' (s + k) n (omega (arith, c.same_size)) in
      let fit : d + k + length new ≤ length mem' = omega (arith, c.same_size, len) in
      record {
        same_size = length-write_at mem' new (d + k) fit ∙ c.same_size;
        others = λ i h.
            get_elem?-write_at mem' new (d + k) i fit (ground (arith, h, len))
            ∙ c.others i (ground (arith, h));
        copied = λ j h. elim (Bool-cases (ltb j k)) [
          | inl e ↦
              let below : j < k = ground (arith, e) in
              get_elem?-write_at mem' new (d + k) (d + j) fit (inl (omega arith)) ∙ c.copied j below
          | inr e ↦ Copied-next k n j mem' room (ground (arith, e)) h c
        ];
      }

  pub copy_step-Copied :
      (k n : ℕ) (mem' : List ℕ)
      → k + n ≤ total
      → Copied d s k mem mem'
      → (next : List ℕ) × (copy_step n mem' (d + k) (s + k) ≡ ok next) × Copied d s (k + n) mem next
  copy_step-Copied k n mem' room c = (
    write_at mem' (d + k) (read_at mem' (s + k) n),
    copy_step-ok n mem' (d + k) (s + k) (Copied-IsBytes d s k mem mem' bytes c)
        (omega (arith, c.same_size)) (omega (arith, c.same_size)) (omega (arith, c.same_size)),
    Copied-write k n mem' room c,
  )

  -- `count` steps, each behind the one before.
  pub copy_each-Copied :
      (k n o count : ℕ) (mem' : List ℕ)
      → k + o + n * count ≤ total
      → Copied d s (k + o) mem mem'
      → (next : List ℕ) × (copy_each n mem' (d + k) (s + k) (offsets n count o) ≡ ok next)
        × Copied d s (k + o + n * count) mem next
  unfolding copy_each
  copy_each-Copied k n o zero mem' room c =
      (mem', refl, subst (λ (t : ℕ). Copied d s t mem mem') (omega arith) c)
  copy_each-Copied k n o (suc count) mem' room c =
      let (m1, ran, c1) = copy_step-Copied (k + o) n mem' (grind arith) c in
      let (next, runs, c2) =
        copy_each-Copied k n (o + n) count m1 (grind arith)
          (subst (λ (t : ℕ). Copied d s t mem m1) (omega arith) c1) in
      let dest : d + (k + o) ≡ d + k + o = omega arith in
      let src : s + (k + o) ≡ s + k + o = omega arith in
      (
        next,
        copy_each-more n mem' m1 next (d + k) (s + k) o (offsets n count (o + n))
            (sym (ap₂ (copy_step n mem') dest src) ∙ ran) runs,
        subst (λ (t : ℕ). Copied d s t mem next) (grind arith) c2,
      )
