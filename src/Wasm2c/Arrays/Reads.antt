-- ===== src/Wasm2c/Arrays/Reads.antt =====
-- Reads of an array beside a write, and reads of what was read.
use squanchy.Base.{
  ℕ, zero, suc, ◌+◌, ◌≤◌, ◌<◌, none, some, List, [], ◌∷◌, ◌≡◌, refl, sym, ap, ap₂, ◌∙◌, arith, inl,
  inr, ◌⊎◌, leb, length, take, drop, get_elem?, Bool-cases,
}
use squanchy.Wasm2c.{write_at, read_at}
use squanchy.Wasm2c.Arrays.{
  suc-add, length-read_at, length-write_at, get_elem?-read_at, get_elem?-write_at,
}

le_or_lt : (n i : ℕ) → (n ≤ i) ⊎ (i < n)
le_or_lt n i = elim (Bool-cases (leb n i)) [
  | inl e ↦ inl (ground (arith, e))
  | inr e ↦ inr (ground (arith, e))
]

module _ {ℓ} {A : Type ℓ} where
  pub same_elements : (xs ys : List A) → ((i : ℕ) → get_elem? xs i ≡ get_elem? ys i) → xs ≡ ys
  same_elements [] [] h = refl
  same_elements [] (y ∷ ys) h = let e : none ≡ some y = h 0 in absurd (cc)
  same_elements (x ∷ xs) [] h = let e : some x ≡ none = h 0 in absurd (cc)
  same_elements (x ∷ xs) (y ∷ ys) h =
      let e : some x ≡ some y = h 0 in
      let front : x ≡ y = cc in
      ap₂ (λ (a : A) (as_ : List A). a ∷ as_) front (same_elements xs ys (λ i. h (suc i)))

  get_elem?-beyond : (xs : List A) (i : ℕ) → length xs ≤ i → get_elem? xs i ≡ none
  get_elem?-beyond [] i h = refl
  get_elem?-beyond (x ∷ xs) zero h = absurd (omega (arith, h))
  get_elem?-beyond (x ∷ xs) (suc i) h = get_elem?-beyond xs i (omega (arith, h))

  -- A read sees only what it reads.
  pub read_at-same :
      (xs ys : List A) (k n : ℕ)
      → k + n ≤ length xs
      → k + n ≤ length ys
      → ((i : ℕ) → i < n → get_elem? xs (k + i) ≡ get_elem? ys (k + i))
      → read_at xs k n ≡ read_at ys k n
  read_at-same xs ys k n fits fits' h = same_elements _ _ λ i. elim (le_or_lt n i) [
    | inl beyond ↦
        get_elem?-beyond (read_at xs k n) i (omega (arith, beyond, length-read_at xs k n fits))
        ∙ sym (
            get_elem?-beyond (read_at ys k n) i
              (omega (arith, beyond, length-read_at ys k n fits')))
    | inr within ↦
        get_elem?-read_at xs k n i within ∙ (h i within ∙ sym (get_elem?-read_at ys k n i within))
  ]

  -- What lies before a write is read as it was.
  pub read_at-apart :
      (xs new : List A) (k s n : ℕ)
      → k + length new ≤ length xs
      → s + n ≤ k
      → read_at (write_at xs k new) s n ≡ read_at xs s n
  read_at-apart xs new k s n h apart =
      read_at-same (write_at xs k new) xs s n (omega (arith, h, apart, length-write_at xs new k h))
        (omega (arith, h, apart))
        (λ i within. get_elem?-write_at xs new k (s + i) h (inl (omega (arith, within, apart))))

  take-drop_comm :
      (i n : ℕ) (xs : List A) (m : ℕ) → i + m ≤ n → take m (drop i (take n xs)) ≡ take m (drop i xs)
  take-drop_comm zero zero xs zero h = refl
  take-drop_comm zero zero xs (suc m) h = absurd (omega (arith, h))
  take-drop_comm zero (suc n) xs zero h = refl
  take-drop_comm zero (suc n) [] (suc m) h = refl
  take-drop_comm zero (suc n) (x ∷ xs) (suc m) h =
      ap (λ (t : List A). x ∷ t) (take-drop_comm zero n xs m (omega (arith, h)))
  take-drop_comm (suc i) zero xs m h = absurd (omega (arith, h))
  take-drop_comm (suc i) (suc n) [] m h = refl
  take-drop_comm (suc i) (suc n) (x ∷ xs) m h = take-drop_comm i n xs m (omega (arith, h))

  drop-nil : (j : ℕ) → drop {A = A} j [] ≡ []
  drop-nil zero = refl
  drop-nil (suc j) = refl

  drop-drop : (k i : ℕ) (xs : List A) → drop i (drop k xs) ≡ drop (k + i) xs
  drop-drop zero i xs = ap (λ (j : ℕ). drop j xs) (omega arith)
  drop-drop (suc k) i [] = drop-nil i ∙ sym (drop-nil (suc k + i))
  drop-drop (suc k) i (x ∷ xs) =
      drop-drop k i xs ∙ sym (ap (λ (j : ℕ). drop j (x ∷ xs)) (suc-add k i))

  -- A read of what was read.
  pub read_at-read_at :
      (xs : List A) (k n i m : ℕ) → i + m ≤ n → read_at (read_at xs k n) i m ≡ read_at xs (k + i) m
  read_at-read_at xs k n i m h = take-drop_comm i n (drop k xs) m h ∙ ap (take m) (drop-drop k i xs)
