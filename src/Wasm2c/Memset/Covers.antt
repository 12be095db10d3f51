-- ===== src/Wasm2c/Memset/Covers.antt =====
-- Which bytes the stores of words in `f9` of samples/obf_1/obf_w2c.c cover.
use squanchy.Base.{
  ℕ, ◌+◌, ◌-◌, ◌≤◌, ◌<◌, true, ◌&&◌, List, [], ◌∷◌, inl, inr, ◌≡◌, arith, ltb, leb, Bool-cases,
}
use squanchy.Wasm2c.Memset.Painted.{covers, spread}

-- The addresses of the three groups of words, for words that begin at `l3` and end at `e`.
abbrev pub first : (l3 e : ℕ) → List ℕ
first l3 e = l3 ∷ (e - 4) ∷ []

abbrev pub second : (l3 e : ℕ) → List ℕ
second l3 e = (l3 + 8) ∷ (l3 + 4) ∷ (e - 8) ∷ (e - 12) ∷ []

abbrev pub third : (l3 e : ℕ) → List ℕ
third l3 e =
    (l3 + 24) ∷ (l3 + 20) ∷ (l3 + 16) ∷ (l3 + 12) ∷ (e - 16) ∷ (e - 20) ∷ (e - 24) ∷ (e - 28) ∷ []

-- The three groups of words cover both ends.
front_covers :
    (l3 e i : ℕ)
    → l3 ≤ i
    → i < l3 + 28
    → covers (spread 4 (third l3 e) (spread 4 (second l3 e) (spread 4 (first l3 e) []))) i ≡ true
front_covers l3 e i from below = ground arith

back_covers :
    (l3 e i : ℕ)
    → 28 ≤ e
    → e - 28 ≤ i
    → i < e
    → covers (spread 4 (third l3 e) (spread 4 (second l3 e) (spread 4 (first l3 e) []))) i ≡ true
back_covers l3 e i large from below = ground arith

pub words_cover :
    (l3 e i : ℕ)
    → 28 ≤ e
    → covers ((l3, 28) ∷ (e - 28, 28) ∷ []) i ≡ true
    → covers (spread 4 (third l3 e) (spread 4 (second l3 e) (spread 4 (first l3 e) []))) i ≡ true
words_cover l3 e i large h = elim (Bool-cases (leb l3 i && ltb i (l3 + 28))) [
  | inl front ↦ front_covers l3 e i (ground (arith, front)) (ground (arith, front))
  | inr behind ↦ back_covers l3 e i large (ground (arith, h, behind)) (ground (arith, h, behind))
]

-- The two ends of the words, and the rounds between them.
pub ends_cover :
    (l3 l4 i : ℕ)
    → l4 ≤ 56
    → covers ((l3, l4) ∷ []) i ≡ true
    → covers ((l3, 28) ∷ (l3 + l4 - 28, 28) ∷ []) i ≡ true
ends_cover l3 l4 i short h = ground (arith, h)

pub rounds_cover :
    (l3 l4 start rounds i : ℕ)
    → start ≤ l3 + 28
    → l3 + l4 ≤ start + rounds + 28
    → covers ((l3, l4) ∷ []) i ≡ true
    → covers ((start, rounds) ∷ (l3, 28) ∷ (l3 + l4 - 28, 28) ∷ []) i ≡ true
rounds_cover l3 l4 start rounds i near far h = ground (arith, h)
