-- ===== src/Wasm2c/Table.antt =====
-- Tables of function and external references, and the check of an indirect call,
-- samples/obf_1/obf_w2c.c. A table is the list of its elements; its member `size` is the length.
pub mod Laws
use squanchy.Base.{
  ℕ, suc, ◌+◌, String, Bool, true, false, not, ◌&&◌, Option, none, some, List, [], ◌∷◌,
  if◌then◌else◌, map, ltb, leb, length, set, get_elem?, replicate, same,
}
use squanchy.Wasm2c.{Trap, oob, call_indirect, Checked, ok, trap, write_at, read_at}

-- `wasm_rt_func_type_t`, a pointer to 32 bytes or null, as the bytes.
abbrev pub FuncType : Type 0
FuncType = Option String

-- `wasm_rt_funcref_t`: the type, the function, the one for tail calls, the instance.
pub record Funcref : Type 0 where
  pub func_type : FuncType
  pub func : Option String
  pub func_tailcallee : Option String
  pub module_instance : Option ℕ

abbrev pub funcref_null_value : Funcref
funcref_null_value = record {
  func_type = none;
  func = none;
  func_tailcallee = none;
  module_instance = none;
}

unfoldable pub func_types_eq : FuncType → FuncType → Bool
func_types_eq none none = true
func_types_eq none (some b) = false
func_types_eq (some a) none = false
func_types_eq (some a) (some b) = same a b

-- `CHECK_CALL_INDIRECT`
unfoldable pub check_call_indirect : List Funcref → FuncType → ℕ → Bool
check_call_indirect table ft x = elim (get_elem? table x) [
  | none ↦ false
  | some r ↦ elim r.func [ none ↦ false | some f ↦ func_types_eq ft r.func_type ]
]

-- The function that `CALL_INDIRECT` goes to.
unfoldable pub call_indirect_target : List Funcref → FuncType → ℕ → Checked (Option Funcref)
call_indirect_target table ft x =
    if check_call_indirect table ft x then ok (get_elem? table x) else trap call_indirect

-- `wasm_elem_segment_expr_t`, by its member `expr_type`.
pub data ElemExpr : Type 0 where
  ref_func : FuncType → Option String → Option String → (module_offset : ℕ) → ElemExpr
  ref_null : ElemExpr
  global_get : (module_offset : ℕ) → ElemExpr

-- The `switch` in `funcref_table_init`. `global` is the reference at an offset of the instance.
unfoldable pub elem_value : (module_instance : ℕ) → (global : ℕ → Funcref) → ElemExpr → Funcref
elem_value module_instance global (ref_func t f tail offset) = record {
  func_type = t;
  func = f;
  func_tailcallee = tail;
  module_instance = some (module_instance + offset);
}
elem_value module_instance global ref_null = funcref_null_value
elem_value module_instance global (global_get offset) = global offset

module _ {ℓ} {A : Type ℓ} where
  -- A loop that assigns one value after another to the elements from an index on.
  unfoldable pub assign_each : List A → ℕ → List A → List A
  assign_each table i [] = table
  assign_each table i (v ∷ vs) = assign_each (set table i v) (i + 1) vs

  -- `DEFINE_TABLE_COPY`
  unfoldable pub table_copy : (dest src : List A) → (dest_addr src_addr n : ℕ) → Checked (List A)
  table_copy dest src dest_addr src_addr n =
      if ltb (length dest) (dest_addr + n)
      then trap oob
      else if ltb (length src) (src_addr + n)
      then trap oob
      else ok (write_at dest dest_addr (read_at src src_addr n))

  -- `DEFINE_TABLE_GET`
  unfoldable pub table_get : List A → ℕ → Checked A
  table_get table i = elim (get_elem? table i) [ none ↦ trap oob | some r ↦ ok r ]

  -- `DEFINE_TABLE_SET`
  unfoldable pub table_set : List A → ℕ → A → Checked (List A)
  table_set table i val = if leb (length table) i then trap oob else ok (set table i val)

  -- `DEFINE_TABLE_FILL`
  unfoldable pub table_fill : List A → (d : ℕ) → A → (n : ℕ) → Checked (List A)
  table_fill table d val n =
      if ltb (length table) (d + n) then trap oob else ok (assign_each table d (replicate n val))

unfoldable pub funcref_table_init :
    (module_instance : ℕ)
    → (global : ℕ → Funcref) → List Funcref
    → List ElemExpr
    → (dest_addr src_addr n : ℕ) → Checked (List Funcref)
funcref_table_init module_instance global dest src dest_addr src_addr n =
    if ltb (length src) (src_addr + n)
    then trap oob
    else if ltb (length dest) (dest_addr + n)
    then trap oob
    else ok (
        assign_each dest dest_addr
          (map (elem_value module_instance global) (read_at src src_addr n)))

-- An external reference is an opaque pointer; null is `none`.
unfoldable pub externref_table_init :
    List (Option ℕ) → (src_size dest_addr src_addr n : ℕ) → Checked (List (Option ℕ))
externref_table_init dest src_size dest_addr src_addr n =
    if ltb src_size (src_addr + n)
    then trap oob
    else if ltb (length dest) (dest_addr + n)
    then trap oob
    else ok (assign_each dest dest_addr (replicate n none))
