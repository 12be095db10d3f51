-- ===== src/Wasm2c/Format/Numeral.antt =====
-- Numerals as lists of characters, to say what the loops of samples/obf_1/obf_w2c.c print and read.
use squanchy.Base.{
  ℕ, zero, suc, ◌+◌, ◌-◌, ◌*◌, ◌/◌, ◌%◌, ◌≤◌, ◌<◌, Bool, true, false, ◌&&◌, List, [], ◌∷◌, ◌++◌,
  ◌==◌, leb, all, ◌≡◌, refl, sym, ap, ◌∙◌, subst, arith, length, length-append, ◌^◌, ◌⊎◌, inl, inr,
}
use native.Mathlib.Numerals.{unary_clauses}
use native.Mathlib.Nat.{mod-add-div, mod-lt, div-lt_iff_lt-mul}

-- The digits of a number, the highest first; 0 has none. `char` is the character of a digit.
pub data Numeral (b : ℕ) (char : ℕ → ℕ) : ℕ → List ℕ → Type 0 where
  blank : Numeral b char 0 []
  digit :
      {v : ℕ} {ds : List ℕ}
      → 0 < v
      → Numeral b char (v / b) ds
      → Numeral b char v (ds ++ char (v % b) ∷ [])

-- The value of the characters from '0' on, read from the left in a base.
unfoldable pub number : (b acc : ℕ) → List ℕ → ℕ
number b acc [] = acc
number b acc (c ∷ cs) = number b (acc * b + (c - 48)) cs

abbrev pub is_digit : (b c : ℕ) → Bool
is_digit b c = leb 48 c && leb (c + 1) (48 + b)

-- Whether a numeral begins with the character '0'.
abbrev pub leading_zero : List ℕ → Bool
leading_zero [] = false
leading_zero (c ∷ cs) = c == 48

pub number-append :
    (b acc : ℕ) (ds : List ℕ) (c : ℕ) → number b acc (ds ++ c ∷ []) ≡ number b acc ds * b + (c - 48)
unfolding number
number-append b acc [] c = refl
number-append b acc (d ∷ ds) c = number-append b (acc * b + (d - 48)) ds c

pub all-append :
    (p : ℕ → Bool) (ds : List ℕ) (c : ℕ)
    → all p ds ≡ true
    → p c ≡ true
    → all p (ds ++ c ∷ []) ≡ true
all-append p [] c h h' = ground (arith, h')
all-append p (d ∷ ds) c h h' = ground (arith, h, h', all-append p ds c)

empty_or_not : (ds : List ℕ) (c : ℕ) → (ds ≡ []) ⊎ (leading_zero (ds ++ c ∷ []) ≡ leading_zero ds)
empty_or_not [] c = inl refl
empty_or_not (d ∷ ds) c = inr refl

module _ (b : ℕ) (pos : 1 < b) where
  -- A numeral in the characters '0' and on has the number as its value.
  pub Numeral-number : {v : ℕ} {ds : List ℕ} → Numeral b (λ d. d + 48) v ds → number b 0 ds ≡ v
  unfolding number
  Numeral-number blank = refl
  Numeral-number (digit {v} {ds} h rest) =
      rw (number-append b 0 ds (v % b + 48), Numeral-number rest) (grind (arith, mod-add-div v b))

  quotient_lt : (n v : ℕ) → v < b ^ suc n → v / b < b ^ n
  quotient_lt n v h =
      let power : b ^ suc n ≡ b ^ n * b = simp unary_clauses (grind arith) in
      (div-lt_iff_lt-mul (omega (arith, pos))).1 (subst (λ (x : ℕ). v < x) power h)

  pub Numeral-length :
      (n : ℕ) {v : ℕ} {ds : List ℕ} → v < b ^ n → Numeral b (λ d. d + 48) v ds → length ds ≤ n
  Numeral-length n h blank = omega arith
  Numeral-length zero h (digit {v} {ds} some_left rest) =
      let one : b ^ 0 ≡ 1 = simp unary_clauses refl in absurd (omega (arith, h, some_left, one))
  Numeral-length (suc n) h (digit {v} {ds} some_left rest) =
      omega (arith, length-append ds ((v % b + 48) ∷ []), Numeral-length n (quotient_lt n v h) rest)

  pub Numeral-is_digit :
      {v : ℕ} {ds : List ℕ} → Numeral b (λ d. d + 48) v ds → all (is_digit b) ds ≡ true
  Numeral-is_digit blank = refl
  Numeral-is_digit (digit {v} {ds} h rest) =
      let small : v % b < b = mod-lt v (omega (arith, pos)) in
      all-append (is_digit b) ds (v % b + 48) (Numeral-is_digit rest) (ground (arith, small))

  nothing : {v : ℕ} {ds : List ℕ} → Numeral b (λ d. d + 48) v ds → ds ≡ [] → v ≡ 0
  unfolding number
  nothing n e = sym (Numeral-number n) ∙ ap (number b 0) e

  pub Numeral-leading_zero :
      {v : ℕ} {ds : List ℕ} → Numeral b (λ d. d + 48) v ds → leading_zero ds ≡ false
  Numeral-leading_zero blank = refl
  Numeral-leading_zero (digit {v} {ds} h rest) = elim (empty_or_not ds (v % b + 48)) [
    | inl e ↦
        let whole : v % b ≡ v = grind (arith, mod-add-div v b, nothing rest e) in
        ground (arith, e, whole, h)
    | inr e ↦ e ∙ Numeral-leading_zero rest
  ]
