-- ===== src/Deobfuscator/Table/Erase.antt =====
-- Erasing instructions one after the other, as `replaceFUNCREF_TABLE` of src/Deobfuscator.cpp does.
use squanchy.Base.{
  ap₂, ℕ, ◌≡◌, ◌≢◌, refl, sym, ap, ◌∙◌, true, false, not, ◌||◌, some, List, [], ◌∷◌, ◌++◌, ◌==◌,
  keep, find, flatten, arith, inl, inr, Bool-cases,
}
use squanchy.Ir.{Inst}
use squanchy.Ir.Ids.{has_id, member, DistinctIds}
use squanchy.Deobfuscator.{done, crash}
use squanchy.Deobfuscator.Table.{erase_id, present, erase_each}

abbrev pub erase_ids : List ℕ → List (List Inst) → List (List Inst)
erase_ids cs [] = []
erase_ids cs (b ∷ bs) = keep (λ i. not (member i.id cs)) b ∷ erase_ids cs bs

keep-keep :
    (c : ℕ) (cs : List ℕ) (b : List Inst)
    → keep (λ i. not (member i.id cs)) (keep (λ i. not (i.id == c)) b)
      ≡ keep (λ i. not (member i.id (c ∷ cs))) b
keep-keep c cs [] = refl
keep-keep c cs (i ∷ b) = ground (arith, keep-keep c cs b)

erase_ids-erase_id :
    (c : ℕ) (cs : List ℕ) (bs : List (List Inst))
    → erase_ids cs (erase_id c bs) ≡ erase_ids (c ∷ cs) bs
erase_ids-erase_id c cs [] = refl
erase_ids-erase_id c cs (b ∷ bs) = ap₂ ◌∷◌ (keep-keep c cs b) (erase_ids-erase_id c cs bs)

erase_ids-nil : (bs : List (List Inst)) → erase_ids [] bs ≡ bs
erase_ids-nil [] = refl
erase_ids-nil (b ∷ bs) = ap₂ ◌∷◌ (keep-all b) (erase_ids-nil bs)
  where
    keep-all : (is : List Inst) → keep (λ i. true) is ≡ is
    keep-all [] = refl
    keep-all (i ∷ is) = ap (λ js. i ∷ js) (keep-all is)

has_id-keep :
    (c d : ℕ) (b : List Inst) → d ≢ c → has_id d (keep (λ i. not (i.id == c)) b) ≡ has_id d b
has_id-keep c d [] ne = refl
has_id-keep c d (i ∷ b) ne = ground (arith, has_id-keep c d b ne)

present-erase_id :
    (c d : ℕ) (bs : List (List Inst)) → d ≢ c → present d (erase_id c bs) ≡ present d bs
present-erase_id c d [] ne = refl
present-erase_id c d (b ∷ bs) ne = rw (has_id-keep c d b ne, present-erase_id c d bs ne)

-- Erasing each of a list of present, distinct addresses.
pub erase_each-done :
    (cs : List ℕ) (bs : List (List Inst))
    → DistinctIds cs
    → ((c : ℕ) → member c cs ≡ true → present c bs ≡ true)
    → erase_each cs bs ≡ done (erase_ids cs bs)
unfolding erase_each
erase_each-done [] bs d p = ap done (sym (erase_ids-nil bs))
erase_each-done (c ∷ cs) bs d p =
    let here : present c bs ≡ true = p c (ground arith) in
    rw here (
      erase_each-done cs (erase_id c bs) d.1 (λ b b_in.
        let ne : b ≢ c = (λ e. ground (arith, d.0)) in
        present-erase_id c b bs ne ∙ p b (ground arith))
      ∙ ap done (erase_ids-erase_id c cs bs))

has_id-append : (c : ℕ) (xs ys : List Inst) → has_id c (xs ++ ys) ≡ (has_id c xs || has_id c ys)
has_id-append c [] ys = refl
has_id-append c (x ∷ xs) ys = ground (arith, has_id-append c xs ys)

pub present-flatten : (c : ℕ) (bs : List (List Inst)) → present c bs ≡ has_id c (flatten bs)
present-flatten c [] = refl
present-flatten c (b ∷ bs) = rw (present-flatten c bs, has_id-append c b (flatten bs))

pub has_id_of_find :
    (c : ℕ) (is : List Inst) (i : Inst) → find (λ j. j.id == c) is ≡ some i → has_id c is ≡ true
has_id_of_find c [] i h = absurd (ground arith)
has_id_of_find c (j ∷ is) i h = elim (Bool-cases (j.id == c)) [
  | inl hit ↦ rw hit
  | inr miss ↦ rw miss (has_id_of_find c is i (rw miss at h))
]

has_id-keep_self : (c : ℕ) (b : List Inst) → has_id c (keep (λ i. not (i.id == c)) b) ≡ false
has_id-keep_self c [] = refl
has_id-keep_self c (i ∷ b) = ground (arith, has_id-keep_self c b)

present-erase_id_self : (c : ℕ) (bs : List (List Inst)) → present c (erase_id c bs) ≡ false
present-erase_id_self c [] = refl
present-erase_id_self c (b ∷ bs) = rw (has_id-keep_self c b, present-erase_id_self c bs)

-- An address that is erased twice is gone the second time.
pub erase_each-twice :
    (pre : List ℕ) (c : ℕ) (post : List ℕ) (bs : List (List Inst))
    → erase_each (pre ++ c ∷ c ∷ post) bs ≡ crash
unfolding erase_each
erase_each-twice [] c post bs = elim (Bool-cases (present c bs)) [
  | inl here ↦ rw (here, present-erase_id_self c bs)
  | inr gone ↦ rw gone
]
erase_each-twice (d ∷ pre) c post bs = elim (Bool-cases (present d bs)) [
  | inl here ↦ rw here (erase_each-twice pre c post (erase_id d bs))
  | inr gone ↦ rw gone
]
