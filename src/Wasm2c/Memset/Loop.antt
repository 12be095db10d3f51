-- ===== src/Wasm2c/Memset/Loop.antt =====
-- The loop of `f9` of samples/obf_1/obf_w2c.c: 32 bytes a round.
use squanchy.Base.{
  ℕ, zero, suc, ◌+◌, ◌-◌, ◌*◌, ◌/◌, ◌≤◌, ◌<◌, ◌^◌, true, false, List, [], ◌∷◌, inl, inr, ◌≡◌, refl,
  some, ap, ◌∙◌, arith, ltb, length, replicate, u32, Bool-cases,
}
use squanchy.Wasm2c.{ok}
use squanchy.Wasm2c.Memory.{to_bytes}
use squanchy.Wasm2c.Memset.{store_each, f9_loop}
use squanchy.Wasm2c.Memset.Painted.{covers, Painted, Painted-fewer, store_each-Painted, spread}

-- The four stores of a round.
abbrev pub round : ℕ → List ℕ
round p1 = (p1 + 24) ∷ (p1 + 16) ∷ (p1 + 8) ∷ p1 ∷ []

module _ (fuel p1 p2 v : ℕ) (mem mem' : List ℕ)
    (ran : store_each 8 mem v (round p1) ≡ ok mem') where
  f9_loop-more :
      ltb 31 (u32 (p2 + 4294967264)) ≡ true
      → f9_loop (suc fuel) mem p1 p2 v ≡ f9_loop fuel mem' (u32 (p1 + 32)) (u32 (p2 + 4294967264)) v
  unfolding f9_loop
  f9_loop-more more = rw ran (rw more refl)

  f9_loop-last :
      ltb 31 (u32 (p2 + 4294967264)) ≡ false → f9_loop (suc fuel) mem p1 p2 v ≡ some (ok mem')
  unfolding f9_loop
  f9_loop-last last = rw ran (rw last refl)

-- A round and the rounds after it cover what all of them are to cover.
covers-more :
    (p1 p2 i : ℕ) (ranges : List (ℕ × ℕ))
    → 64 ≤ p2
    → covers ((p1, p2 / 32 * 32) ∷ ranges) i ≡ true
    → covers ((p1 + 32, (p2 - 32) / 32 * 32) ∷ spread 8 (round p1) ranges) i ≡ true
covers-more p1 p2 i ranges large h =
    let less : (p2 - 32) / 32 * 32 + 32 ≡ p2 / 32 * 32 = omega arith in ground (arith, h, less)

covers-last :
    (p1 p2 i : ℕ) (ranges : List (ℕ × ℕ))
    → 32 ≤ p2
    → p2 < 64
    → covers ((p1, p2 / 32 * 32) ∷ ranges) i ≡ true
    → covers (spread 8 (round p1) ranges) i ≡ true
covers-last p1 p2 i ranges large below h =
    let one : p2 / 32 * 32 ≡ 32 = omega arith in ground (arith, h, one)

module _ (c lo hi : ℕ) (mem : List ℕ) (fits : hi ≤ length mem) (small : length mem ≤ 2 ^ 32) (v : ℕ)
    (bytes : to_bytes 8 v ≡ replicate 8 c) where
  -- From 32 bytes on the loop ends, and covers all whole rounds.
  pub f9_loop-Painted :
      (fuel p1 p2 : ℕ) (mem' : List ℕ) (ranges : List (ℕ × ℕ))
      → lo ≤ p1
      → p1 + p2 ≤ hi
      → 32 ≤ p2
      → p2 < 32 * suc fuel
      → Painted c lo hi mem mem' ranges
      → (out : List ℕ) × (f9_loop fuel mem' p1 p2 v ≡ some (ok out))
        × Painted c lo hi mem out ((p1, p2 / 32 * 32) ∷ ranges)
  f9_loop-Painted zero p1 p2 mem' ranges from to some_left enough p = absurd (omega arith)
  f9_loop-Painted (suc fuel) p1 p2 mem' ranges from to some_left enough p =
      let (next, ran, q) =
        store_each-Painted c lo hi mem fits (omega arith) 8 v bytes (round p1) mem' ranges
          (omega arith) p in
      let less : u32 (p2 + 4294967264) ≡ p2 - 32 = omega arith in
      elim (Bool-cases (ltb 31 (u32 (p2 + 4294967264)))) [
        | inl more ↦
            let place : u32 (p1 + 32) ≡ p1 + 32 = ground (arith, more, less) in
            let left : 32 ≤ p2 - 32 = ground (arith, more, less) in
            let (out, runs, r) =
              f9_loop-Painted fuel (p1 + 32) (p2 - 32) next (spread 8 (round p1) ranges)
                (omega arith) (omega arith) left (omega arith) q in
            (
              out,
              f9_loop-more fuel p1 p2 v mem' next ran more
                  ∙ (ap (λ (t : ℕ). f9_loop fuel next t (u32 (p2 + 4294967264)) v) place
                      ∙ (ap (λ (t : ℕ). f9_loop fuel next (p1 + 32) t v) less ∙ runs)),
              Painted-fewer c lo hi mem fits (omega arith) out _ ((p1, p2 / 32 * 32) ∷ ranges)
                  (λ i h. covers-more p1 p2 i ranges (omega arith) h) r,
            )
        | inr last ↦ (
          next,
          f9_loop-last fuel p1 p2 v mem' next ran last,
          Painted-fewer c lo hi mem fits (omega arith) next _ ((p1, p2 / 32 * 32) ∷ ranges)
              (λ i h. covers-last p1 p2 i ranges some_left (ground (arith, last, less)) h) q,
        )
      ]
