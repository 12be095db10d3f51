-- ===== src/Wasm2c/Arrays.antt =====
-- Writes into an array, and reads of it, as lists.
pub mod Reads
use squanchy.Base.{
  ℕ, zero, suc, ◌+◌, ◌-◌, ◌≤◌, ◌<◌, List, [], ◌∷◌, ◌++◌, ◌≡◌, refl, sym, ap, ap₂, ◌∙◌, subst, arith,
  inl, inr, ◌⊎◌, length, take, drop, replicate, get_elem?, length-append, none, some, leb,
  Bool-cases,
}
use mathlib.Core.List.{append_assoc}
use squanchy.Wasm2c.{write_at, read_at}

pub suc-add : (a b : ℕ) → suc a + b ≡ suc (a + b)
suc-add a b = omega arith

module _ {ℓ} {A : Type ℓ} where
  pub length-take : (n : ℕ) (xs : List A) → n ≤ length xs → length (take n xs) ≡ n
  length-take zero xs h = refl
  length-take (suc n) [] h = absurd (omega (arith, h))
  length-take (suc n) (x ∷ xs) h = ap suc (length-take n xs (omega (arith, h)))

  pub length-drop : (n : ℕ) (xs : List A) → n ≤ length xs → length (drop n xs) + n ≡ length xs
  length-drop zero xs h = omega arith
  length-drop (suc n) [] h = absurd (omega (arith, h))
  length-drop (suc n) (x ∷ xs) h = omega (arith, length-drop n xs (omega (arith, h)))

  take-append : (xs ys : List A) → take (length xs) (xs ++ ys) ≡ xs
  take-append [] ys = refl
  take-append (x ∷ xs) ys = ap (λ (t : List A). x ∷ t) (take-append xs ys)

  pub drop-append : (xs ys : List A) → drop (length xs) (xs ++ ys) ≡ ys
  drop-append [] ys = refl
  drop-append (x ∷ xs) ys = drop-append xs ys

  pub take-drop : (k : ℕ) (xs : List A) → take k xs ++ drop k xs ≡ xs
  take-drop zero xs = refl
  take-drop (suc k) [] = refl
  take-drop (suc k) (x ∷ xs) = ap (λ (t : List A). x ∷ t) (take-drop k xs)

  -- What was written is read.
  pub read_at-write_at :
      (xs new : List A) (k : ℕ)
      → k + length new ≤ length xs
      → read_at (write_at xs k new) k (length new) ≡ new
  read_at-write_at xs new k h =
      let taken : length (take k xs) ≡ k = length-take k xs (omega (arith, h)) in
      let rest : List A = drop (k + length new) xs in
      subst (λ (j : ℕ). take (length new) (drop j (take k xs ++ (new ++ rest))) ≡ new) taken
        (rw (drop-append (take k xs) (new ++ rest)) (take-append new rest))

  pub length-write_at :
      (xs new : List A) (k : ℕ)
      → k + length new ≤ length xs
      → length (write_at xs k new) ≡ length xs
  length-write_at xs new k h = omega (
    arith,
    h,
    length-append (take k xs) (new ++ drop (k + length new) xs),
    length-append new (drop (k + length new) xs),
    length-take k xs (omega (arith, h)),
    length-drop (k + length new) xs h,
  )

  take-write_at : (xs new : List A) (k : ℕ) → k ≤ length xs → take k (write_at xs k new) ≡ take k xs
  take-write_at xs new k h =
      subst (λ (j : ℕ). take j (take k xs ++ (new ++ drop (k + length new) xs)) ≡ take k xs)
        (length-take k xs h) (take-append (take k xs) (new ++ drop (k + length new) xs))

  drop-write_at :
      (xs new : List A) (k : ℕ)
      → k + length new ≤ length xs
      → drop (k + length new) (write_at xs k new) ≡ drop (k + length new) xs
  drop-write_at xs new k h =
      let taken = length-take k xs (omega (arith, h)) in
      let len : length (take k xs ++ new) ≡ k + length new =
        omega (arith, length-append (take k xs) new, taken) in
      let rest : List A = drop (k + length new) xs in
      subst (λ (j : ℕ). drop j (write_at xs k new) ≡ rest) len
        (ap (drop (length (take k xs ++ new))) (sym (append_assoc (take k xs) new rest))
          ∙ drop-append (take k xs ++ new) rest)

  -- A later write at the same place covers an earlier one.
  pub write_at-twice :
      (xs new again : List A) (k : ℕ)
      → length new ≡ length again
      → k + length new ≤ length xs
      → write_at (write_at xs k new) k again ≡ write_at xs k again
  write_at-twice xs new again k same_length h =
      let behind : drop (k + length again) (write_at xs k new) ≡ drop (k + length again) xs =
        subst (λ (j : ℕ). drop (k + j) (write_at xs k new) ≡ drop (k + j) xs) same_length
          (drop-write_at xs new k h) in
      ap₂ (λ (s t : List A). s ++ (again ++ t)) (take-write_at xs new k (omega (arith, h))) behind

  pub get_elem?-left :
      (xs ys : List A) (i : ℕ) → i < length xs → get_elem? (xs ++ ys) i ≡ get_elem? xs i
  get_elem?-left [] ys i h = absurd (omega (arith, h))
  get_elem?-left (x ∷ xs) ys zero h = refl
  get_elem?-left (x ∷ xs) ys (suc i) h = get_elem?-left xs ys i (omega (arith, h))

  get_elem?-take : (xs : List A) (k i : ℕ) → i < k → get_elem? (take k xs) i ≡ get_elem? xs i
  get_elem?-take xs zero i h = absurd (omega (arith, h))
  get_elem?-take [] (suc k) i h = refl
  get_elem?-take (x ∷ xs) (suc k) zero h = refl
  get_elem?-take (x ∷ xs) (suc k) (suc i) h = get_elem?-take xs k i (omega (arith, h))

  get_elem?-right : (xs ys : List A) (i : ℕ) → get_elem? (xs ++ ys) (length xs + i) ≡ get_elem? ys i
  get_elem?-right [] ys i = ap (get_elem? ys) (omega arith)
  get_elem?-right (x ∷ xs) ys i =
      ap (get_elem? (x ∷ (xs ++ ys))) (suc-add (length xs) i) ∙ get_elem?-right xs ys i

  get_elem?-drop : (xs : List A) (k i : ℕ) → get_elem? (drop k xs) i ≡ get_elem? xs (k + i)
  get_elem?-drop xs zero i = ap (get_elem? xs) (omega arith)
  get_elem?-drop [] (suc k) i = refl
  get_elem?-drop (x ∷ xs) (suc k) i =
      get_elem?-drop xs k i ∙ ap (get_elem? (x ∷ xs)) (sym (suc-add k i))

  -- What lies outside the write is as it was.
  pub get_elem?-write_at :
      (xs new : List A) (k i : ℕ)
      → k + length new ≤ length xs
      → (i < k) ⊎ (k + length new ≤ i)
      → get_elem? (write_at xs k new) i ≡ get_elem? xs i
  get_elem?-write_at xs new k i h (inl before) =
      get_elem?-left (take k xs) (new ++ drop (k + length new) xs) i
        (omega (arith, before, length-take k xs (omega (arith, h))))
      ∙ get_elem?-take xs k i before
  get_elem?-write_at xs new k i h (inr behind) =
      let rest : List A = drop (k + length new) xs in
      let at_take : length (take k xs) + (length new + (i - (k + length new))) ≡ i =
        omega (arith, behind, length-take k xs (omega (arith, h))) in
      subst (λ (j : ℕ). get_elem? (take k xs ++ (new ++ rest)) j ≡ get_elem? xs i) at_take
        (get_elem?-right (take k xs) (new ++ rest) (length new + (i - (k + length new)))
          ∙ (get_elem?-right new rest (i - (k + length new))
              ∙ (get_elem?-drop xs (k + length new) (i - (k + length new))
                  ∙ ap (get_elem? xs) (omega (arith, behind)))))

  pub get_elem?-read_at :
      (xs : List A) (k n i : ℕ) → i < n → get_elem? (read_at xs k n) i ≡ get_elem? xs (k + i)
  get_elem?-read_at xs k n i h = get_elem?-take (drop k xs) n i h ∙ get_elem?-drop xs k i

  -- What lies in the write and behind it.
  pub get_elem?-within :
      (xs new : List A) (k i : ℕ)
      → k ≤ length xs
      → get_elem? (write_at xs k new) (k + i) ≡ get_elem? (new ++ drop (k + length new) xs) i
  get_elem?-within xs new k i h =
      let rest : List A = new ++ drop (k + length new) xs in
      subst (λ (j : ℕ). get_elem? (take k xs ++ rest) (j + i) ≡ get_elem? rest i)
        (length-take k xs h) (get_elem?-right (take k xs) rest i)

  pub drop-at :
      (xs : List A) (k : ℕ) (x : A) → get_elem? xs k ≡ some x → drop k xs ≡ x ∷ drop (suc k) xs
  drop-at [] k x h = absurd (cc)
  drop-at (y ∷ xs) zero x h = let e : some y ≡ some x = h in cc
  drop-at (y ∷ xs) (suc k) x h = drop-at xs k x h

  pub read_one :
      (mem : List A) (s : ℕ) (c : A) → get_elem? mem s ≡ some c → read_at mem s 1 ≡ c ∷ []
  read_one [] s c h = absurd (cc)
  read_one (x ∷ mem) zero c h = let e : some x ≡ some c = h in cc
  read_one (x ∷ mem) (suc s) c h = read_one mem s c h

  pub in_memory : (mem : List A) (s : ℕ) (c : A) → get_elem? mem s ≡ some c → s < length mem
  in_memory [] s c h = absurd (cc)
  in_memory (x ∷ mem) zero c h = omega arith
  in_memory (x ∷ mem) (suc s) c h = omega (arith, in_memory mem s c h)

  pub length-read_at : (xs : List A) (k n : ℕ) → k + n ≤ length xs → length (read_at xs k n) ≡ n
  length-read_at xs k n h =
      length-take n (drop k xs) (omega (arith, length-drop k xs (omega (arith, h))))

  pub length-replicate : (n : ℕ) (a : A) → length (replicate n a) ≡ n
  length-replicate zero a = refl
  length-replicate (suc n) a = ap suc (length-replicate n a)

module _ {ℓ} {A : Type ℓ} where
  pub get_elem?-replicate : (n : ℕ) (a : A) (k : ℕ) → k < n → get_elem? (replicate n a) k ≡ some a
  get_elem?-replicate zero a k h = absurd (omega (arith, h))
  get_elem?-replicate (suc n) a zero h = refl
  get_elem?-replicate (suc n) a (suc k) h = get_elem?-replicate n a k (omega (arith, h))

  -- What a fill holds.
  pub get_elem?-fill :
      (xs : List A) (a n : ℕ) (c : A) (i : ℕ)
      → a + n ≤ length xs
      → a ≤ i
      → i < a + n
      → get_elem? (write_at xs a (replicate n c)) i ≡ some c
  get_elem?-fill xs a n c i fits from below =
      let k : ℕ = i - a in
      let len : length (replicate n c) ≡ n = length-replicate n c in
      subst (λ (j : ℕ). get_elem? (write_at xs a (replicate n c)) j ≡ some c) (omega (arith, from))
        (get_elem?-within xs (replicate n c) a k (omega (arith, fits))
          ∙ (get_elem?-left (replicate n c) (drop (a + length (replicate n c)) xs) k
                (omega (arith, from, below, len))
              ∙ get_elem?-replicate n c k (omega (arith, from, below))))

-- A place outside a range, by the range's length.
pub outside :
    {n addr len : ℕ} (i : ℕ) → (i < addr) ⊎ (addr + n ≤ i) → len ≡ n → (i < addr) ⊎ (addr + len ≤ i)
outside i (inl before) e = inl before
outside i (inr behind) e = inr (omega (arith, behind, e))
