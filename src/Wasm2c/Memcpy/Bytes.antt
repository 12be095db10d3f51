-- ===== src/Wasm2c/Memcpy/Bytes.antt =====
-- The byte loops of `f21` of samples/obf_1/obf_w2c.c: what is left at the end, and four bytes a round.
use squanchy.Base.{
  ℕ, zero, suc, ◌+◌, ◌-◌, ◌≤◌, ◌<◌, ◌^◌, true, false, Option, some, List, [], ◌∷◌, ◌⊎◌, inl, inr,
  ◌≡◌, refl, subst, ap, ap₂, ◌∙◌, arith, ltb, leb, length, ◌==◌, u32, Bool-cases,
}
use squanchy.Wasm2c.{Checked, ok}
use squanchy.Wasm2c.Memchr.Words.{IsBytes}
use squanchy.Wasm2c.Memcpy.{copy_step, copy_each, f21_bytes, f21_tail, f21_quads, f21_unaligned}
use squanchy.Wasm2c.Memcpy.Copied.{Copied, Copied-none, copy_step-Copied, copy_each-Copied}

module _ (fuel p1 p2 l3 : ℕ) (mem m1 : List ℕ) (ran : copy_step 1 mem p2 p1 ≡ ok m1) where
  bytes_last : (u32 (p2 + 1) == l3) ≡ true → f21_bytes (suc fuel) mem p1 p2 l3 ≡ some (ok m1)
  unfolding f21_bytes
  bytes_last last = rw ran (rw last refl)

  bytes_more :
      (q1 q2 : ℕ)
      → (u32 (p2 + 1) == l3) ≡ false
      → u32 (p1 + 1) ≡ q1
      → u32 (p2 + 1) ≡ q2
      → f21_bytes (suc fuel) mem p1 p2 l3 ≡ f21_bytes fuel m1 q1 q2 l3
  unfolding f21_bytes
  bytes_more q1 q2 more e1 e2 = rw ran (rw more (ap₂ (λ (a b : ℕ). f21_bytes fuel m1 a b l3) e1 e2))

f21_tail-done :
    (fuel p1 p2 l3 : ℕ) (mem : List ℕ)
    → leb l3 p2 ≡ true
    → f21_tail fuel mem p1 p2 l3 ≡ some (ok mem)
unfolding f21_tail
f21_tail-done fuel p1 p2 l3 mem h = rw (f21_tail, h) refl

f21_tail-bytes :
    (fuel p1 p2 l3 : ℕ) (mem : List ℕ)
    → leb l3 p2 ≡ false
    → f21_tail fuel mem p1 p2 l3 ≡ f21_bytes fuel mem p1 p2 l3
unfolding f21_tail
f21_tail-bytes fuel p1 p2 l3 mem h = rw (f21_tail, h) refl

module _ (fuel p1 p2 l3 l4 : ℕ) (mem m1 : List ℕ)
    (ran : copy_each 1 mem p2 p1 (0 ∷ 1 ∷ 2 ∷ 3 ∷ []) ≡ ok m1) (q1 q2 : ℕ) (e1 : u32 (p1 + 4) ≡ q1)
    (e2 : u32 (p2 + 4) ≡ q2) where
  quads_more :
      leb (u32 (p2 + 4)) l4 ≡ true
      → f21_quads (suc fuel) mem p1 p2 l3 l4 ≡ f21_quads fuel m1 q1 q2 l3 l4
  unfolding f21_quads
  quads_more more = rw ran (rw more (ap₂ (λ (a b : ℕ). f21_quads fuel m1 a b l3 l4) e1 e2))

  quads_last :
      leb (u32 (p2 + 4)) l4 ≡ false
      → f21_quads (suc fuel) mem p1 p2 l3 l4 ≡ f21_tail fuel m1 q1 q2 l3
  unfolding f21_quads
  quads_last last = rw ran (rw last (ap₂ (λ (a b : ℕ). f21_tail fuel m1 a b l3) e1 e2))

module _ (fuel p0 p1 l3 l4 : ℕ) (mem : List ℕ) where
  unaligned_few : ltb l3 4 ≡ true → f21_unaligned fuel mem p0 p1 l3 ≡ f21_tail fuel mem p1 p0 l3
  unfolding f21_unaligned
  unaligned_few few = rw (f21_unaligned, few) refl

  module _ (many : ltb l3 4 ≡ false) (e : u32 (l3 + 4294967292) ≡ l4) where
    unaligned_tail : ltb l4 p0 ≡ true → f21_unaligned fuel mem p0 p1 l3 ≡ f21_tail fuel mem p1 p0 l3
    unfolding f21_unaligned
    unaligned_tail h = rw (f21_unaligned, many, e, h) refl

    unaligned_quads :
        ltb l4 p0 ≡ false → f21_unaligned fuel mem p0 p1 l3 ≡ f21_quads fuel mem p1 p0 l3 l4
    unfolding f21_unaligned
    unaligned_quads h = rw (f21_unaligned, many, e, h) (ap (f21_quads fuel mem p1 p0 l3) e)

module _ (d s total : ℕ) (apart : (s + total ≤ d) ⊎ (d + total ≤ s)) (mem : List ℕ)
    (bytes : IsBytes mem) (fits : d + total ≤ length mem) (fits' : s + total ≤ length mem)
    (small : length mem < 2 ^ 32) where
  -- A run that ends with the whole range copied.
  abbrev pub Ends : Option (Checked (List ℕ)) → Type 0
  Ends result = (out : List ℕ) × (result ≡ some (ok out)) × Copied d s total mem out

  pub Ends-eq : {r t : Option (Checked (List ℕ))} → r ≡ t → Ends t → Ends r
  Ends-eq e (out, runs, c) = (out, e ∙ runs, c)

  f21_bytes-Ends :
      (fuel k : ℕ) (mem' : List ℕ)
      → k < total
      → total ≤ fuel + k
      → Copied d s k mem mem'
      → Ends (f21_bytes fuel mem' (s + k) (d + k) (d + total))
  f21_bytes-Ends zero k mem' left enough c = absurd (omega arith)
  f21_bytes-Ends (suc fuel) k mem' left enough c =
      let (m1, ran, c1) =
        copy_step-Copied d s total apart mem bytes fits fits' (omega arith) k 1 mem' (omega arith)
          c in
      elim (Bool-cases (u32 (d + k + 1) == d + total)) [
        | inl last ↦ (
          m1,
          bytes_last fuel (s + k) (d + k) (d + total) mem' m1 ran last,
          subst (λ (t : ℕ). Copied d s t mem m1) (ground (arith, last)) c1,
        )
        | inr more ↦
            Ends-eq
              (bytes_more fuel (s + k) (d + k) (d + total) mem' m1 ran (s + (k + 1)) (d + (k + 1))
                more (omega arith) (omega arith))
              (f21_bytes-Ends fuel (k + 1) m1 (ground (arith, more)) (omega arith) c1)
      ]

  pub f21_tail-Ends :
      (fuel k : ℕ) (mem' : List ℕ)
      → k ≤ total
      → total ≤ fuel + k
      → Copied d s k mem mem'
      → Ends (f21_tail fuel mem' (s + k) (d + k) (d + total))
  f21_tail-Ends fuel k mem' within enough c = elim (Bool-cases (leb (d + total) (d + k))) [
    | inl none_left ↦ (
      mem',
      f21_tail-done fuel (s + k) (d + k) (d + total) mem' none_left,
      subst (λ (t : ℕ). Copied d s t mem mem') (ground (arith, none_left)) c,
    )
    | inr left ↦
        Ends-eq (f21_tail-bytes fuel (s + k) (d + k) (d + total) mem' left)
          (f21_bytes-Ends fuel k mem' (ground (arith, left)) enough c)
  ]

  f21_quads-Ends :
      (fuel k : ℕ) (mem' : List ℕ)
      → k + 4 ≤ total
      → total < fuel + k
      → Copied d s k mem mem'
      → Ends (f21_quads fuel mem' (s + k) (d + k) (d + total) (d + total - 4))
  f21_quads-Ends zero k mem' left enough c = absurd (omega arith)
  f21_quads-Ends (suc fuel) k mem' left enough c =
      let (m1, ran, c1) =
        copy_each-Copied d s total apart mem bytes fits fits' (omega arith) k 1 0 4 mem'
          (omega arith) (subst (λ (t : ℕ). Copied d s t mem mem') (omega arith) c) in
      let c4 : Copied d s (k + 4) mem m1 =
        subst (λ (t : ℕ). Copied d s t mem m1) (omega arith) c1 in
      let e1 : u32 (s + k + 4) ≡ s + (k + 4) = omega arith in
      let e2 : u32 (d + k + 4) ≡ d + (k + 4) = omega arith in
      let l3 : ℕ = d + total in
      elim (Bool-cases (leb (u32 (d + k + 4)) (l3 - 4))) [
        | inl more ↦
            Ends-eq (quads_more fuel (s + k) (d + k) l3 (l3 - 4) mem' m1 ran _ _ e1 e2 more)
              (f21_quads-Ends fuel (k + 4) m1 (ground (arith, more, e2)) (omega arith) c4)
        | inr last ↦
            Ends-eq (quads_last fuel (s + k) (d + k) l3 (l3 - 4) mem' m1 ran _ _ e1 e2 last)
              (f21_tail-Ends fuel (k + 4) m1 left (omega arith) c4)
      ]

  pub f21_unaligned-Ends : (fuel : ℕ) → total < fuel → Ends (f21_unaligned fuel mem d s (d + total))
  f21_unaligned-Ends fuel enough =
      let l3 : ℕ = d + total in
      let tail : Ends (f21_tail fuel mem s d l3) =
        Ends-eq (ap₂ (λ (a b : ℕ). f21_tail fuel mem a b l3) (omega arith) (omega arith))
          (f21_tail-Ends fuel 0 mem (omega arith) (omega arith) (Copied-none d s mem)) in
      elim (Bool-cases (ltb l3 4)) [
        | inl few ↦ Ends-eq (unaligned_few fuel d s l3 0 mem few) tail
        | inr many ↦
            let e : u32 (l3 + 4294967292) ≡ l3 - 4 = ground (arith, many) in
            elim (Bool-cases (ltb (l3 - 4) d)) [
              | inl h ↦ Ends-eq (unaligned_tail fuel d s l3 (l3 - 4) mem many e h) tail
              | inr h ↦
                  Ends-eq
                    (unaligned_quads fuel d s l3 (l3 - 4) mem many e h
                      ∙ ap₂ (λ (a b : ℕ). f21_quads fuel mem a b l3 (l3 - 4)) (omega arith)
                          (omega arith))
                    (f21_quads-Ends fuel 0 mem (ground (arith, h, many)) (omega arith)
                      (Copied-none d s mem))
            ]
      ]
