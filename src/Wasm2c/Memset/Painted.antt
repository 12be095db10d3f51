-- ===== src/Wasm2c/Memset/Painted.antt =====
-- A memory that a run of stores has partly filled with one byte.
use squanchy.Base.{
  ℕ, ◌+◌, ◌-◌, ◌≤◌, ◌<◌, ◌^◌, Bool, true, false, ◌&&◌, ◌||◌, List, [], ◌∷◌, ◌⊎◌, inl, inr, ◌≡◌,
  refl, some, sym, ap, ◌∙◌, arith, ltb, leb, length, get_elem?, replicate, Bool-cases,
}
use squanchy.Wasm2c.{ok, write_at}
use squanchy.Wasm2c.Arrays.{
  length-write_at, get_elem?-write_at, get_elem?-fill, length-replicate, outside,
}
use squanchy.Wasm2c.Arrays.Reads.{same_elements}
use squanchy.Wasm2c.Memory.{to_bytes, store}
use squanchy.Wasm2c.Memory.Laws.{store-ok}
use squanchy.Wasm2c.Memset.{store_each}

-- Whether an address lies in one of the ranges, each a start and a length.
abbrev pub covers : List (ℕ × ℕ) → ℕ → Bool
covers [] i = false
covers ((a, n) ∷ ranges) i = (leb a i && ltb i (a + n)) || covers ranges i

-- `mem'` is `mem` but between `lo` and `hi`, and holds `c` in the ranges.
pub record Painted (c lo hi : ℕ) (mem mem' : List ℕ) (ranges : List (ℕ × ℕ)) : Type 0 where
  pub same_size : length mem' ≡ length mem
  pub outside : (i : ℕ) → (i < lo) ⊎ (hi ≤ i) → get_elem? mem' i ≡ get_elem? mem i
  pub inside : (i : ℕ) → covers ranges i ≡ true → get_elem? mem' i ≡ some c

beyond : {lo hi : ℕ} (a n i : ℕ) → (i < lo) ⊎ (hi ≤ i) → lo ≤ a → a + n ≤ hi → (i < a) ⊎ (a + n ≤ i)
beyond a n i (inl before) from to = inl (omega arith)
beyond a n i (inr behind) from to = inr (omega arith)

-- The ranges of stores of `n` bytes, added to others.
abbrev pub spread : ℕ → List ℕ → List (ℕ × ℕ) → List (ℕ × ℕ)
spread n [] ranges = ranges
spread n (a ∷ as_) ranges = spread n as_ ((a, n) ∷ ranges)

-- All stores of `n` bytes lie between `lo` and `hi`.
abbrev pub Between : (n lo hi : ℕ) → List ℕ → Type 0
Between n lo hi [] = Unit
Between n lo hi (a ∷ as_) = (lo ≤ a) × (a + n ≤ hi) × Between n lo hi as_

module _ (c lo hi : ℕ) (mem : List ℕ) (fits : hi ≤ length mem) (small : length mem < 2 ^ 64) where
  pub nothing-Painted : Painted c lo hi mem mem []
  nothing-Painted = record { same_size = refl; outside = λ i h. refl; inside = λ i h. absurd (cc) }

  -- Other ranges that cover no more.
  pub Painted-fewer :
      (mem' : List ℕ) (ranges fewer : List (ℕ × ℕ))
      → ((i : ℕ) → covers fewer i ≡ true → covers ranges i ≡ true)
      → Painted c lo hi mem mem' ranges
      → Painted c lo hi mem mem' fewer
  Painted-fewer mem' ranges fewer less p = record {
    same_size = p.same_size;
    outside = p.outside;
    inside = λ i h. p.inside i (less i h);
  }

  fill-Painted :
      (mem' : List ℕ) (ranges : List (ℕ × ℕ)) (a n : ℕ)
      → lo ≤ a
      → a + n ≤ hi
      → Painted c lo hi mem mem' ranges
      → Painted c lo hi mem (write_at mem' a (replicate n c)) ((a, n) ∷ ranges)
  fill-Painted mem' ranges a n from to p =
      let len : length (replicate n c) ≡ n = length-replicate n c in
      let away_too : (i : ℕ) → (i < lo) ⊎ (hi ≤ i) → (i < a) ⊎ (a + n ≤ i) =
        λ i h. beyond a n i h from to in
      let room : a + n ≤ length mem' = omega (arith, p.same_size) in
      let room' : a + length (replicate n c) ≤ length mem' = omega arith in
      let away = λ (i : ℕ) (h : (i < a) ⊎ (a + n ≤ i)).
        get_elem?-write_at mem' (replicate n c) a i room' (outside i h len) in
      record {
        same_size = length-write_at mem' (replicate n c) a room' ∙ p.same_size;
        outside = λ i h. away i (away_too i h) ∙ p.outside i h;
        inside = λ i h. elim (Bool-cases (leb a i && ltb i (a + n))) [
          | inl e ↦ get_elem?-fill mem' a n c i room (ground (arith, e)) (ground (arith, e))
          | inr e ↦ away i (ground (arith, e)) ∙ p.inside i (ground (arith, e, h))
        ];
      }

  -- Stores of a value that is nothing but the byte.
  pub store_each-Painted :
      (n v : ℕ)
      → to_bytes n v ≡ replicate n c
      → (as_ : List ℕ) (mem' : List ℕ) (ranges : List (ℕ × ℕ)) → Between n lo hi as_
      → Painted c lo hi mem mem' ranges
      → (out : List ℕ) × (store_each n mem' v as_ ≡ ok out)
        × Painted c lo hi mem out (spread n as_ ranges)
  unfolding store_each
  store_each-Painted n v bytes [] mem' ranges between p = (mem', refl, p)
  store_each-Painted n v bytes (a ∷ as_) mem' ranges (from, to, rest) p =
      let stored : store n mem' a v ≡ ok (write_at mem' a (replicate n c)) =
        store-ok n mem' a v (omega (arith, p.same_size)) (omega (arith, p.same_size))
        ∙ ap (λ (bs : List ℕ). ok (write_at mem' a bs)) bytes in
      let (out, runs, q) =
        store_each-Painted n v bytes as_ (write_at mem' a (replicate n c)) ((a, n) ∷ ranges) rest
          (fill-Painted mem' ranges a n from to p) in
      (out, rw (store_each, stored) runs, q)

  -- Where the ranges cover all between `lo` and `hi`, the memory is the fill.
  pub Painted-all :
      (mem' : List ℕ) (ranges : List (ℕ × ℕ))
      → lo ≤ hi
      → ((i : ℕ) → lo ≤ i → i < hi → covers ranges i ≡ true)
      → Painted c lo hi mem mem' ranges
      → mem' ≡ write_at mem lo (replicate (hi - lo) c)
  Painted-all mem' ranges order all_covered p =
      let len : length (replicate (hi - lo) c) ≡ hi - lo = length-replicate (hi - lo) c in
      same_elements mem' _ λ i. elim (Bool-cases (leb lo i && ltb i hi)) [
        | inl e ↦
            p.inside i (all_covered i (ground (arith, e)) (ground (arith, e)))
            ∙ sym (
                get_elem?-fill mem lo (hi - lo) c i (omega arith) (ground (arith, e))
                  (ground (arith, e)))
        | inr e ↦
            p.outside i (ground (arith, e))
            ∙ sym (
                get_elem?-write_at mem (replicate (hi - lo) c) lo i (omega arith)
                  (ground (arith, e, len)))
      ]

  -- A part of the memory that is filled afterwards.
  pub Painted-then :
      (mem' out : List ℕ) (ranges : List (ℕ × ℕ)) (a n : ℕ)
      → lo ≤ a
      → a + n ≤ hi
      → Painted c lo hi mem mem' ranges
      → Painted c a (a + n) mem' out ((a, n) ∷ [])
      → Painted c lo hi mem out ((a, n) ∷ ranges)
  Painted-then mem' out ranges a n from to p q =
      let away_too : (i : ℕ) → (i < lo) ⊎ (hi ≤ i) → (i < a) ⊎ (a + n ≤ i) =
        λ i h. beyond a n i h from to in
      record {
        same_size = q.same_size ∙ p.same_size;
        outside = λ i h. q.outside i (away_too i h) ∙ p.outside i h;
        inside = λ i h. elim (Bool-cases (leb a i && ltb i (a + n))) [
          | inl e ↦ q.inside i (ground (arith, e))
          | inr e ↦ q.outside i (ground (arith, e)) ∙ p.inside i (ground (arith, e, h))
        ];
      }
