-- ===== src/Wasm2c/Format/Print.antt =====
-- One digit of the printing loops f28, f29 and f30 of samples/obf_1/obf_w2c.c: where it is stored, and
-- that the digits stored one before the other are a numeral.
use squanchy.Base.{
  ℕ, zero, suc, ◌+◌, ◌-◌, ◌/◌, ◌%◌, ◌^◌, ◌≤◌, ◌<◌, List, [], ◌∷◌, ◌++◌, ◌≡◌, refl, sym, ap, ap₂,
  ◌∙◌, subst, arith, length, take, drop, u32, bit_or, length-append, all, some, true, false,
}
use mathlib.Core.List.{append_assoc}
use squanchy.Wasm2c.{ok, in_range, write_at}
use squanchy.Wasm2c.Arrays.{length-take, length-write_at, take-drop, drop-append}
use squanchy.Wasm2c.Memory.{to_bytes, store}
use squanchy.Wasm2c.Format.{Returns, i32_store8}
use squanchy.Wasm2c.Format.Numeral.{
  Numeral, blank, digit, number, is_digit, leading_zero, Numeral-number, Numeral-is_digit,
  Numeral-leading_zero, Numeral-length,
}

module _ {ℓ} {A : Type ℓ} where
  take-take :
      (k n : ℕ) (xs ys : List A) → k ≤ n → n ≤ length xs → take k (take n xs ++ ys) ≡ take k xs
  take-take zero n xs ys p q = refl
  take-take (suc k) zero xs ys p q = absurd (omega (arith, p))
  take-take (suc k) (suc n) [] ys p q = absurd (omega (arith, q))
  take-take (suc k) (suc n) (x ∷ xs) ys p q =
      ap (λ (t : List A). x ∷ t) (take-take k n xs ys (omega (arith, p)) (omega (arith, q)))

  -- A write right behind which another one stands is one write.
  write_at-extend :
      (xs new : List A) (k : ℕ) (c : A)
      → k + length new + 1 ≤ length xs
      → write_at (write_at xs (k + length new) (c ∷ [])) k new ≡ write_at xs k (new ++ c ∷ [])
  write_at-extend xs new k c h =
      let m : ℕ = k + length new in
      let taken : length (take m xs) ≡ m = length-take m xs (omega (arith, h)) in
      let front : take k (write_at xs m (c ∷ [])) ≡ take k xs =
        take-take k m xs (c ∷ drop (m + 1) xs) (omega arith) (omega (arith, h)) in
      let back : drop m (write_at xs m (c ∷ [])) ≡ c ∷ drop (m + 1) xs =
        subst (λ (j : ℕ). drop j (write_at xs m (c ∷ [])) ≡ c ∷ drop (m + 1) xs) taken
          (drop-append (take m xs) (c ∷ drop (m + 1) xs)) in
      let behind : m + 1 ≡ k + length (new ++ c ∷ []) = omega (arith, length-append new (c ∷ [])) in
      ap₂ (λ (s t : List A). s ++ (new ++ t)) front (back ∙ ap (λ (j : ℕ). c ∷ drop j xs) behind)
      ∙ ap (λ (t : List A). take k xs ++ t)
          (sym (append_assoc new (c ∷ []) (drop (k + length (new ++ c ∷ [])) xs)))

-- The numeral of `v` stands before `p`, from `p'` on, and is all that has changed.
abbrev pub Written : (b : ℕ) → (ℕ → ℕ) → (v p : ℕ) → List ℕ → (p' : ℕ) → List ℕ → Type 0
Written b char v p mem p' mem' =
    (ds : List ℕ) × Numeral b char v ds × (p' + length ds ≡ p) × (mem' ≡ write_at mem p' ds)

pub nothing-Written : (b : ℕ) (char : ℕ → ℕ) (p : ℕ) (mem : List ℕ) → Written b char 0 p mem p mem
nothing-Written b char p mem = (
  [],
  blank,
  omega arith,
  sym (ap (λ (j : ℕ). take p mem ++ drop j mem) (omega arith) ∙ take-drop p mem),
)

-- A digit, and then the digits of the quotient before it.
pub Written-before :
    (b : ℕ) (char : ℕ → ℕ) (v p : ℕ) (mem : List ℕ) (p' : ℕ) (mem' : List ℕ)
    → 0 < v
    → 0 < p
    → p ≤ length mem
    → Written b char (v / b) (p - 1) (write_at mem (p - 1) (char (v % b) ∷ [])) p' mem'
    → Written b char v p mem p' mem'
Written-before b char v p mem p' mem' some_digit room fits (ds, numeral, place, written) = (
  ds ++ char (v % b) ∷ [],
  digit some_digit numeral,
  omega (arith, place, room, length-append ds (char (v % b) ∷ [])),
  written
      ∙ (ap (λ (k : ℕ). write_at (write_at mem k (char (v % b) ∷ [])) p' ds) (sym place)
          ∙ write_at-extend mem ds p' (char (v % b)) (omega (arith, place, room, fits))),
)

-- Where a printing loop stores a character.
pub put :
    (mem : List ℕ) (p x c : ℕ)
    → x ≡ c
    → c < 256
    → 0 < p
    → p ≤ length mem
    → length mem ≤ 2 ^ 32
    → i32_store8 mem (u32 (p + 4294967295)) x ≡ ok (write_at mem (p - 1) (c ∷ []))
unfolding store in_range to_bytes
put mem p x c e byte room fits small =
    let place : u32 (p + 4294967295) ≡ p - 1 = omega (arith, room, fits, small) in
    let same_byte : x % 256 ≡ c = omega (arith, e, byte) in
    rw (place, same_byte) (ground (arith, room, fits, small))

pub length-put :
    (mem : List ℕ) (p c : ℕ)
    → 0 < p
    → p ≤ length mem
    → length (write_at mem (p - 1) (c ∷ [])) ≡ length mem
length-put mem p c room fits = length-write_at mem (c ∷ []) (p - 1) (omega (arith, room, fits))

-- The characters '0' to '9': the digits' bits are not among those of '0'.
pub bit_or-48 : (d : ℕ) → d < 10 → bit_or d 48 ≡ d + 48
bit_or-48 zero h = refl
bit_or-48 (suc zero) h = refl
bit_or-48 (suc (suc zero)) h = refl
bit_or-48 (suc (suc (suc zero))) h = refl
bit_or-48 (suc (suc (suc (suc zero)))) h = refl
bit_or-48 (suc (suc (suc (suc (suc zero))))) h = refl
bit_or-48 (suc (suc (suc (suc (suc (suc zero)))))) h = refl
bit_or-48 (suc (suc (suc (suc (suc (suc (suc zero))))))) h = refl
bit_or-48 (suc (suc (suc (suc (suc (suc (suc (suc zero)))))))) h = refl
bit_or-48 (suc (suc (suc (suc (suc (suc (suc (suc (suc zero))))))))) h = refl
bit_or-48 (suc (suc (suc (suc (suc (suc (suc (suc (suc (suc d)))))))))) h =
    absurd (omega (arith, h))

-- A run has stored a numeral of `v` in the characters '0' and on right before `p`, returns where it
-- begins and has changed nothing else. The numeral has no leading zero and
-- at most `room` characters; that of 0 is empty.
abbrev pub Prints : (b : ℕ) → Returns → List ℕ → (v p room : ℕ) → Type 0
Prints b run mem v p room =
    (ds : List ℕ) × (run ≡ some (ok (p - length ds, write_at mem (p - length ds) ds)))
    × (number b 0 ds ≡ v)
    × (all (is_digit b) ds ≡ true)
    × (leading_zero ds ≡ false)
    × (length ds ≤ room)
    × (length ds ≤ p)

pub Written-Prints :
    (b : ℕ)
    → 1 < b
    → (run : Returns) (mem : List ℕ) (v p room p' : ℕ) (mem' : List ℕ) → v < b ^ room
    → run ≡ some (ok (p', mem'))
    → Written b (λ d. d + 48) v p mem p' mem'
    → Prints b run mem v p room
Written-Prints b base run mem v p room p' mem' bound runs (ds, numeral, place, written) =
    let begin : p' ≡ p - length ds = omega (arith, place) in
    (
      ds,
      runs
          ∙ ap₂ (λ (k : ℕ) (m : List ℕ). some (ok (k, m))) begin
              (written ∙ ap (λ (k : ℕ). write_at mem k ds) begin),
      Numeral-number b base numeral,
      Numeral-is_digit b base numeral,
      Numeral-leading_zero b base numeral,
      Numeral-length b base room bound numeral,
      omega (arith, place),
    )
