-- ===== src/Wasm2c/Memcpy/Steps.antt =====
-- One round of each word loop of `f21` of samples/obf_1/obf_w2c.c.
use squanchy.Base.{
  ℕ, suc, ◌+◌, true, false, List, [], ◌∷◌, ◌≡◌, refl, ap, ap₂, ltb, leb, ◌==◌, u32, bit_and,
}
use squanchy.Wasm2c.{ok}
use squanchy.Wasm2c.Memcpy.{
  copy_step, copy_each, f21_tail, f21_words, f21_few, f21_blocks, f21_aligned, f21_align,
}

abbrev pub block : List ℕ
block = 0 ∷ 4 ∷ 8 ∷ 12 ∷ 16 ∷ 20 ∷ 24 ∷ 28 ∷ 32 ∷ 36 ∷ 40 ∷ 44 ∷ 48 ∷ 52 ∷ 56 ∷ 60 ∷ []

module _ (fuel p1 p2 l3 l4 q1 q2 : ℕ) (mem m1 : List ℕ) where
  module _ (ran : copy_step 4 mem p2 p1 ≡ ok m1) (e1 : u32 (p1 + 4) ≡ q1)
      (e2 : u32 (p2 + 4) ≡ q2) where
    pub words_more :
        ltb (u32 (p2 + 4)) l4 ≡ true
        → f21_words (suc fuel) mem p1 p2 l3 l4 ≡ f21_words fuel m1 q1 q2 l3 l4
    unfolding f21_words
    words_more more = rw ran (rw more (ap₂ (λ (a b : ℕ). f21_words fuel m1 a b l3 l4) e1 e2))

    pub words_last :
        ltb (u32 (p2 + 4)) l4 ≡ false
        → f21_words (suc fuel) mem p1 p2 l3 l4 ≡ f21_tail fuel m1 q1 q2 l3
    unfolding f21_words
    words_last last = rw ran (rw last (ap₂ (λ (a b : ℕ). f21_tail fuel m1 a b l3) e1 e2))

  module _ (l5 : ℕ) (ran : copy_each 4 mem p2 p1 block ≡ ok m1) (e1 : u32 (p1 + 64) ≡ q1)
      (e2 : u32 (p2 + 64) ≡ q2) where
    pub blocks_more :
        leb (u32 (p2 + 64)) l5 ≡ true
        → f21_blocks (suc fuel) mem p1 p2 l3 l4 l5 ≡ f21_blocks fuel m1 q1 q2 l3 l4 l5
    unfolding f21_blocks
    blocks_more more = rw ran (rw more (ap₂ (λ (a b : ℕ). f21_blocks fuel m1 a b l3 l4 l5) e1 e2))

    pub blocks_last :
        leb (u32 (p2 + 64)) l5 ≡ false
        → f21_blocks (suc fuel) mem p1 p2 l3 l4 l5 ≡ f21_few fuel m1 q1 q2 l3 l4
    unfolding f21_blocks
    blocks_last last = rw ran (rw last (ap₂ (λ (a b : ℕ). f21_few fuel m1 a b l3 l4) e1 e2))

  module _ (ran : copy_step 1 mem p2 p1 ≡ ok m1) (e1 : u32 (p1 + 1) ≡ q1)
      (e2 : u32 (p2 + 1) ≡ q2) where
    pub align_more :
        (bit_and q2 3 == 0) ≡ false
        → ltb q2 l3 ≡ true
        → f21_align (suc fuel) mem p1 p2 l3 ≡ f21_align fuel m1 q1 q2 l3
    unfolding f21_align
    align_more odd more = rw (ran, e2, odd, e2, more, e1, e2) refl

    pub align_even :
        (bit_and q2 3 == 0) ≡ true
        → f21_align (suc fuel) mem p1 p2 l3 ≡ f21_aligned fuel m1 q1 q2 l3
    unfolding f21_align
    align_even even = rw (ran, e2, even, e1, e2) refl

    pub align_end :
        (bit_and q2 3 == 0) ≡ false
        → ltb q2 l3 ≡ false
        → f21_align (suc fuel) mem p1 p2 l3 ≡ f21_aligned fuel m1 q1 q2 l3
    unfolding f21_align
    align_end odd last = rw (ran, e2, odd, e2, last, e1, e2) refl

module _ (fuel p1 p2 l3 l4 : ℕ) (mem : List ℕ) where
  pub few_tail : leb l4 p2 ≡ true → f21_few fuel mem p1 p2 l3 l4 ≡ f21_tail fuel mem p1 p2 l3
  unfolding f21_few
  few_tail h = rw (f21_few, h) refl

  pub few_words : leb l4 p2 ≡ false → f21_few fuel mem p1 p2 l3 l4 ≡ f21_words fuel mem p1 p2 l3 l4
  unfolding f21_few
  few_words h = rw (f21_few, h) refl

  module _ (e4 : bit_and l3 4294967292 ≡ l4) where
    pub aligned_small :
        ltb l3 64 ≡ true → f21_aligned fuel mem p1 p2 l3 ≡ f21_few fuel mem p1 p2 l3 l4
    unfolding f21_aligned
    aligned_small h = rw (f21_aligned, h) (ap (f21_few fuel mem p1 p2 l3) e4)

    pub aligned_near :
        ltb l3 64 ≡ false
        → ltb (u32 (l4 + 4294967232)) p2 ≡ true
        → f21_aligned fuel mem p1 p2 l3 ≡ f21_few fuel mem p1 p2 l3 l4
    unfolding f21_aligned
    aligned_near large h = rw (f21_aligned, large, e4, h) (ap (f21_few fuel mem p1 p2 l3) e4)

    pub aligned_blocks :
        (l5 : ℕ)
        → u32 (l4 + 4294967232) ≡ l5
        → ltb l3 64 ≡ false
        → ltb l5 p2 ≡ false
        → f21_aligned fuel mem p1 p2 l3 ≡ f21_blocks fuel mem p1 p2 l3 l4 l5
    unfolding f21_aligned
    aligned_blocks l5 e5 large h = rw (f21_aligned, large, e4, e5, h, e4, e5) refl
