-- ===== src/Wasm2c/Utf8/Placed.antt =====
-- The bytes of one character in the memory, whatever the order in which `f41` of
-- samples/obf_1/obf_w2c.c stores them.
use squanchy.Base.{
  ℕ, zero, suc, ◌+◌, ◌%◌, ◌≤◌, ◌<◌, ◌^◌, List, [], ◌∷◌, Option, some, ◌⊎◌, ◌≡◌, ◌∙◌, arith, length,
  get_elem?, if◌then◌else◌, ◌==◌,
}
use squanchy.Wasm2c.{ok, write_at}
use squanchy.Wasm2c.Arrays.{length-write_at}
use squanchy.Wasm2c.Utf8.{store_bytes}
use squanchy.Wasm2c.Utf8.Bytes.{byte_after, store_bytes-next}

-- `bs` stands from `p` on, and all else is as it was.
pub record Placed (p : ℕ) (bs mem mem' : List ℕ) : Type 0 where
  pub same_size : length mem' ≡ length mem
  pub inside : (k : ℕ) → k < length bs → get_elem? mem' (p + k) ≡ get_elem? bs k
  pub others : (i : ℕ) → (i < p) ⊎ (p + length bs ≤ i) → get_elem? mem' i ≡ get_elem? mem i

-- One byte of the run, and how the memory looks after it.
put : List ℕ → ℕ → ℕ → List ℕ
put mem a b = write_at mem a (b ∷ [])

put_size : (mem : List ℕ) (a b : ℕ) → a < length mem → length (put mem a b) ≡ length mem
unfolding put
put_size mem a b h = length-write_at mem (b ∷ []) a (omega arith)

put_view :
    (mem : List ℕ) (a b i : ℕ)
    → a < length mem
    → get_elem? (put mem a b) i ≡ (if i == a then some b else get_elem? mem i)
unfolding put
put_view mem a b i h = byte_after mem a b i h

-- A list given place by place.
abbrev Reads : (ℕ → Option ℕ) → List ℕ → Type 0
Reads f [] = Unit
Reads f (b ∷ bs) = (f 0 ≡ some b) × Reads (λ k. f (suc k)) bs

each :
    (f : ℕ → Option ℕ) (bs : List ℕ) → Reads f bs → (k : ℕ) → k < length bs → f k ≡ get_elem? bs k
each f [] reads k h = absurd (omega arith)
each f (b ∷ bs) (e, rest) zero h = e
each f (b ∷ bs) (e, rest) (suc k) h = each (λ j. f (suc j)) bs rest k (omega arith)

module _ (mem : List ℕ) (p : ℕ) (small : length mem < 2 ^ 64) where
  pub one-Placed :
      (v0 b0 : ℕ)
      → v0 % 256 ≡ b0
      → p + 1 ≤ length mem
      → (mem' : List ℕ) × (store_bytes mem ((p, v0) ∷ []) ≡ ok mem') × Placed p (b0 ∷ []) mem mem'
  unfolding put store_bytes
  one-Placed v0 b0 e0 room =
      let view = λ (i : ℕ). put_view mem p b0 i (omega arith) in
      (
        put mem p b0,
        store_bytes-next mem p v0 b0 [] e0 (omega arith) small,
        record {
          same_size = put_size mem p b0 (omega arith);
          inside = λ k h. ground (arith, view (p + k), h);
          others = λ i h. ground (arith, view i, h);
        },
      )

  pub two-Placed :
      (v0 v1 b0 b1 : ℕ)
      → v0 % 256 ≡ b0
      → v1 % 256 ≡ b1
      → p + 2 ≤ length mem
      → (mem' : List ℕ) × (store_bytes mem ((p + 1, v1) ∷ (p, v0) ∷ []) ≡ ok mem')
        × Placed p (b0 ∷ b1 ∷ []) mem mem'
  unfolding put store_bytes
  two-Placed v0 v1 b0 b1 e0 e1 room =
      let m1 = put mem (p + 1) b1 in
      let s1 : length m1 ≡ length mem = put_size mem (p + 1) b1 (omega arith) in
      let m2 = put m1 p b0 in
      let view = λ (i : ℕ). put_view m1 p b0 i (omega arith) in
      let view1 = λ (i : ℕ). put_view mem (p + 1) b1 i (omega arith) in
      (
        m2,
        store_bytes-next mem (p + 1) v1 b1 ((p, v0) ∷ []) e1 (omega arith) small
            ∙ store_bytes-next m1 p v0 b0 [] e0 (omega arith) (omega arith),
        record {
          same_size = put_size m1 p b0 (omega arith) ∙ s1;
          inside =
              each (λ k. get_elem? m2 (p + k)) (b0 ∷ b1 ∷ [])
                (ground (arith, view (p + 0)), (ground (arith, view (p + 1), view1 (p + 1)), tt));
          others = λ i h. ground (arith, view i, view1 i, h);
        },
      )

  pub three-Placed :
      (v0 v1 v2 b0 b1 b2 : ℕ)
      → v0 % 256 ≡ b0
      → v1 % 256 ≡ b1
      → v2 % 256 ≡ b2
      → p + 3 ≤ length mem
      → (mem' : List ℕ) × (store_bytes mem ((p + 2, v2) ∷ (p, v0) ∷ (p + 1, v1) ∷ []) ≡ ok mem')
        × Placed p (b0 ∷ b1 ∷ b2 ∷ []) mem mem'
  unfolding put store_bytes
  three-Placed v0 v1 v2 b0 b1 b2 e0 e1 e2 room =
      let m1 = put mem (p + 2) b2 in
      let s1 : length m1 ≡ length mem = put_size mem (p + 2) b2 (omega arith) in
      let m2 = put m1 p b0 in
      let s2 : length m2 ≡ length mem = put_size m1 p b0 (omega arith) ∙ s1 in
      let m3 = put m2 (p + 1) b1 in
      let view = λ (i : ℕ). put_view m2 (p + 1) b1 i (omega arith) in
      let view1 = λ (i : ℕ). put_view m1 p b0 i (omega arith) in
      let view2 = λ (i : ℕ). put_view mem (p + 2) b2 i (omega arith) in
      (
        m3,
        store_bytes-next mem (p + 2) v2 b2 ((p, v0) ∷ (p + 1, v1) ∷ []) e2 (omega arith) small
            ∙ (store_bytes-next m1 p v0 b0 ((p + 1, v1) ∷ []) e0 (omega arith) (omega arith)
                ∙ store_bytes-next m2 (p + 1) v1 b1 [] e1 (omega arith) (omega arith)),
        record {
          same_size = put_size m2 (p + 1) b1 (omega arith) ∙ s2;
          inside =
              each (λ k. get_elem? m3 (p + k)) (b0 ∷ b1 ∷ b2 ∷ [])
                (
                  ground (arith, view (p + 0), view1 (p + 0)),
                  (
                    ground (arith, view (p + 1)),
                    (ground (arith, view (p + 2), view1 (p + 2), view2 (p + 2)), tt),
                  ),
                );
          others = λ i h. ground (arith, view i, view1 i, view2 i, h);
        },
      )

  pub four-Placed :
      (v0 v1 v2 v3 b0 b1 b2 b3 : ℕ)
      → v0 % 256 ≡ b0
      → v1 % 256 ≡ b1
      → v2 % 256 ≡ b2
      → v3 % 256 ≡ b3
      → p + 4 ≤ length mem
      → (mem' : List ℕ) × (store_bytes mem ((p + 3, v3) ∷ (p, v0) ∷ (p + 2, v2) ∷ (p + 1, v1) ∷ [])
          ≡ ok mem')
        × Placed p (b0 ∷ b1 ∷ b2 ∷ b3 ∷ []) mem mem'
  unfolding put store_bytes
  four-Placed v0 v1 v2 v3 b0 b1 b2 b3 e0 e1 e2 e3 room =
      let m1 = put mem (p + 3) b3 in
      let s1 : length m1 ≡ length mem = put_size mem (p + 3) b3 (omega arith) in
      let m2 = put m1 p b0 in
      let s2 : length m2 ≡ length mem = put_size m1 p b0 (omega arith) ∙ s1 in
      let m3 = put m2 (p + 2) b2 in
      let s3 : length m3 ≡ length mem = put_size m2 (p + 2) b2 (omega arith) ∙ s2 in
      let m4 = put m3 (p + 1) b1 in
      let view = λ (i : ℕ). put_view m3 (p + 1) b1 i (omega arith) in
      let view1 = λ (i : ℕ). put_view m2 (p + 2) b2 i (omega arith) in
      let view2 = λ (i : ℕ). put_view m1 p b0 i (omega arith) in
      let view3 = λ (i : ℕ). put_view mem (p + 3) b3 i (omega arith) in
      (
        m4,
        store_bytes-next mem (p + 3) v3 b3 ((p, v0) ∷ (p + 2, v2) ∷ (p + 1, v1) ∷ []) e3
              (omega arith) small
            ∙ (store_bytes-next m1 p v0 b0 ((p + 2, v2) ∷ (p + 1, v1) ∷ []) e0 (omega arith)
                  (omega arith)
                ∙ (store_bytes-next m2 (p + 2) v2 b2 ((p + 1, v1) ∷ []) e2 (omega arith)
                      (omega arith)
                    ∙ store_bytes-next m3 (p + 1) v1 b1 [] e1 (omega arith) (omega arith))),
        record {
          same_size = put_size m3 (p + 1) b1 (omega arith) ∙ s3;
          inside =
              each (λ k. get_elem? m4 (p + k)) (b0 ∷ b1 ∷ b2 ∷ b3 ∷ [])
                (
                  ground (arith, view (p + 0), view1 (p + 0), view2 (p + 0)),
                  (
                    ground (arith, view (p + 1)),
                    (
                      ground (arith, view (p + 2), view1 (p + 2)),
                      (
                        ground (arith, view (p + 3), view1 (p + 3), view2 (p + 3), view3 (p + 3)),
                        tt,
                      ),
                    ),
                  ),
                );
          others = λ i h. ground (arith, view i, view1 i, view2 i, view3 i, h);
        },
      )
