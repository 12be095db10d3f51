-- ===== src/Wasm2c/Table/Laws.antt =====
-- What the table operations of samples/obf_1/obf_w2c.c write, and which calls the check lets go.
use squanchy.Base.{
  ℕ, zero, suc, ◌+◌, ◌≤◌, ◌<◌, true, Option, none, some, List, [], ◌∷◌, ◌++◌, ◌≡◌, ◌≢◌, refl, sym,
  ap, ap₂, ◌∙◌, subst, arith, inl, inr, ◌⊎◌, ◌↔◌, map, length, take, drop, set, get_elem?,
  length-map, length-set, same_iff, Option-cases,
}
use mathlib.Core.List.{append_assoc}
use squanchy.Wasm2c.{ok, write_at, read_at}
use squanchy.Wasm2c.Arrays.{
  length-read_at, read_at-write_at, get_elem?-write_at, length-write_at, outside, take-drop,
}
use squanchy.Wasm2c.Table.{
  FuncType, Funcref, func_types_eq, check_call_indirect, ElemExpr, elem_value, assign_each,
  funcref_table_init,
}

next : (k : ℕ) → k + 1 ≡ suc k
next k = omega arith

module _ {ℓ} {A : Type ℓ} where
  take-set :
      (xs : List A) (k : ℕ) (v : A)
      → k < length xs
      → take (suc k) (set xs k v) ≡ take k xs ++ v ∷ []
  take-set [] k v h = absurd (omega (arith, h))
  take-set (x ∷ xs) zero v h = refl
  take-set (x ∷ xs) (suc k) v h = ap (λ (t : List A). x ∷ t) (take-set xs k v (omega (arith, h)))

  drop-set : (xs : List A) (k n : ℕ) (v : A) → k < n → drop n (set xs k v) ≡ drop n xs
  drop-set [] k n v h = refl
  drop-set (x ∷ xs) k zero v h = absurd (omega (arith, h))
  drop-set (x ∷ xs) zero (suc n) v h = refl
  drop-set (x ∷ xs) (suc k) (suc n) v h = drop-set xs k n v (omega (arith, h))

  -- The loop writes what one block write does.
  pub assign_each-write_at :
      (vs xs : List A) (k : ℕ) → k + length vs ≤ length xs → assign_each xs k vs ≡ write_at xs k vs
  unfolding assign_each
  assign_each-write_at [] xs k h =
      sym (ap (λ (j : ℕ). take k xs ++ drop j xs) (omega arith) ∙ take-drop k xs)
  assign_each-write_at (v ∷ vs) xs k h =
      let rest : List A = drop (k + suc (length vs)) xs in
      let front : take (k + 1) (set xs k v) ≡ take k xs ++ v ∷ [] =
        ap (λ (j : ℕ). take j (set xs k v)) (next k) ∙ take-set xs k v (omega (arith, h)) in
      let back : drop (k + 1 + length vs) (set xs k v) ≡ rest =
        drop-set xs k (k + 1 + length vs) v (omega arith)
        ∙ ap (λ (j : ℕ). drop j xs) (omega arith) in
      assign_each-write_at vs (set xs k v) (k + 1) (omega (arith, h, length-set xs k v))
      ∙ (ap₂ (λ (s t : List A). s ++ (vs ++ t)) front back
          ∙ append_assoc (take k xs) (v ∷ []) (vs ++ rest))

-- An initialisation within the segment and the table keeps the table's size and its other
-- elements, and the elements that it writes are the values of the segment's expressions.
pub funcref_table_init-writes :
    (module_instance : ℕ) (global : ℕ → Funcref) (dest : List Funcref) (src : List ElemExpr)
    (dest_addr src_addr n : ℕ)
    → dest_addr + n ≤ length dest
    → src_addr + n ≤ length src
    → (dest' : List Funcref) × (funcref_table_init module_instance global dest src dest_addr
          src_addr n
        ≡ ok dest')
      × (length dest' ≡ length dest)
      × (read_at dest' dest_addr n
          ≡ map (elem_value module_instance global) (read_at src src_addr n))
      × ((i : ℕ) → (i < dest_addr) ⊎ (dest_addr + n ≤ i) → get_elem? dest' i ≡ get_elem? dest i)
unfolding funcref_table_init
funcref_table_init-writes module_instance global dest src dest_addr src_addr n fits fits' =
    let new : List Funcref = map (elem_value module_instance global) (read_at src src_addr n) in
    let len : length new ≡ n =
      length-map (elem_value module_instance global) (read_at src src_addr n)
      ∙ length-read_at src src_addr n fits' in
    let room : dest_addr + length new ≤ length dest = omega (arith, len, fits) in
    let block : assign_each dest dest_addr new ≡ write_at dest dest_addr new =
      assign_each-write_at new dest dest_addr room in
    (
      write_at dest dest_addr new,
      ground (arith, fits, fits') ∙ ap ok block,
      length-write_at dest new dest_addr room,
      subst (λ (k : ℕ). read_at (write_at dest dest_addr new) dest_addr k ≡ new) len
          (read_at-write_at dest new dest_addr room),
      λ i away. get_elem?-write_at dest new dest_addr i room (outside i away len),
    )

func_types_eq_iff : (a b : FuncType) → (func_types_eq a b ≡ true) ↔ (a ≡ b)
unfolding func_types_eq
func_types_eq_iff none none = (λ h. refl, λ h. refl)
func_types_eq_iff none (some b) = (λ h. absurd (cc), λ h. absurd (cc))
func_types_eq_iff (some a) none = (λ h. absurd (cc), λ h. absurd (cc))
func_types_eq_iff (some a) (some b) =
    (λ h. ap some ((same_iff a b).0 h), λ h. (same_iff a b).1 (ground (arith, h)))

one_element : {o : Option Funcref} {r r' : Funcref} → o ≡ some r → o ≡ some r' → r' ≡ r
one_element e got = cc

-- The check lets a call go exactly when the table has an element there with a function and the
-- type that is called.
pub check_call_indirect-exact :
    (table : List Funcref) (ft : FuncType) (x : ℕ)
    → (check_call_indirect table ft x ≡ true)
      ↔ ((r : Funcref) × (get_elem? table x ≡ some r) × (r.func ≢ none) × (ft ≡ r.func_type))
unfolding check_call_indirect
check_call_indirect-exact table ft x = elim (Option-cases (get_elem? table x)) [
  | inl e ↦
      (λ h. absurd (ground (arith, e, h)), λ (r, got, there, rest). absurd (ground (arith, e, got)))
  | inr (r, e) ↦ elim (Option-cases r.func) [
    | inl f ↦ (
      λ h. absurd (ground (arith, e, f, h)),
      λ (r', got, there, rest).
          absurd (there (ap (λ (q : Funcref). q.func) (one_element e got) ∙ f)),
    )
    | inr (g, f) ↦ (
      λ h. (
        r,
        e,
        λ none_there. ground (arith, f, none_there),
        (func_types_eq_iff ft r.func_type).0 (ground (arith, e, f, h)),
      ),
      λ (r', got, there, rest). ground (
        arith,
        e,
        f,
        (func_types_eq_iff ft r.func_type).1
            (rest ∙ ap (λ (q : Funcref). q.func_type) (one_element e got)),
      ),
    )
  ]
]
