-- ===== src/Tests/Instances.antt =====
-- An instance of the module of samples/obf_1/obf_w2c.c, made with a runtime of zeros.
use squanchy.Base.{
  ℕ, zero, suc, ◌+◌, ◌-◌, ◌*◌, ◌≤◌, ◌<◌, ◌≡◌, ◌↔◌, refl, true, some, List, [], ◌∷◌, map, arith, inl,
  length, replicate, get_elem?,
}
use squanchy.Wasm2c.{ok, read_at}
use squanchy.Wasm2c.Arrays.{length-replicate}
use squanchy.Wasm2c.Memory.{i32_load}
use squanchy.Wasm2c.Table.{Funcref, funcref_null_value, elem_value}
use squanchy.Wasm2c.Types.{i32, i64, t6, get_func_type}
use squanchy.Wasm2c.Types.Signatures.{signature, get_func_type-exact}
use squanchy.Wasm2c.Format.{f28}
use squanchy.Wasm2c.Format.Hex.{letter}
use squanchy.Wasm2c.Format.Print.{Written}
use squanchy.Wasm2c.Instance.{W2cSquanchy, Runtime, instantiate, e0}
use squanchy.Wasm2c.Instance.Data.{d0}
use squanchy.Wasm2c.Instance.Startup.{Fresh, filled, segments, instantiate-Fresh}
use squanchy.Wasm2c.Instance.Stack.{
  StackOk, stack_init, stack_alloc, stack_restore, stack_get_free, stack_get_current,
  stack_get_base, stack_get_end,
}
use squanchy.Wasm2c.Instance.Stack.Reach.{Reach, begin, allocate, release, Reach-StackOk}
use squanchy.Wasm2c.Instance.Libc.{call_ctors, strerror}
use squanchy.Wasm2c.Instance.Libc.Errors.{begins_message, strerror-Fresh}
use squanchy.Wasm2c.Instance.Libc.Digits.{f28-Fresh}
use squanchy.Wasm2c.Instance.Libc.Constructors.{call_ctors-Fresh}

get_elem?-replicate : (n i : ℕ) (r : Funcref) → i < n → get_elem? (replicate n r) i ≡ some r
get_elem?-replicate zero i r h = absurd (omega (arith, h))
get_elem?-replicate (suc n) zero r h = refl
get_elem?-replicate (suc n) (suc i) r h = get_elem?-replicate n i r (omega (arith, h))

pages : ℕ → List ℕ
pages n = replicate (n * 65536) 0

length-pages : (n : ℕ) → length (pages n) ≡ n * 65536
unfolding pages
length-pages n = length-replicate (n * 65536) 0

abbrev zeros : Runtime
zeros = record {
  allocate_memory = λ initial_pages max_pages. pages initial_pages;
  allocate_funcref_table = λ elements max_elements. replicate elements funcref_null_value;
  length-allocate_memory = λ initial_pages max_pages. length-pages initial_pages;
  length-allocate_funcref_table =
      λ elements max_elements. length-replicate elements funcref_null_value;
  null_elements = λ elements max_elements i h. get_elem?-replicate elements i funcref_null_value h;
}

abbrev blank_instance : W2cSquanchy
blank_instance = record {
  env_instance = 0;
  wasi_instance = 0;
  g0 = 7;
  g1 = 7;
  g2 = 7;
  g3 = 7;
  memory = [];
  indirect_function_table = [];
}

instantiate-Fresh_example :
    (w : W2cSquanchy) × (instantiate zeros 16 1 2 blank_instance ≡ ok w) × Fresh 16 1 2 w
instantiate-Fresh_example = instantiate-Fresh zeros 16 1 2 blank_instance

-- The instance that the instantiation makes.
abbrev made : W2cSquanchy
made = record {
  env_instance = 1;
  wasi_instance = 2;
  g0 = 65536;
  g1 = 0;
  g2 = 0;
  g3 = 0;
  memory = filled (pages 258);
  indirect_function_table = funcref_null_value ∷ map (elem_value 16 (λ k. funcref_null_value)) e0;
}

made-Fresh : Fresh 16 1 2 made
made-Fresh =
    let (size, first, second) = segments (pages 258) (length-pages 258) in
    (refl, refl, refl, refl, refl, refl, size, first, second, refl)

-- An instance without its memory.
abbrev small : W2cSquanchy
small = record made { memory = []; g3 = 65536 }

plenty : 100 ≤ stack_get_free small
unfolding stack_get_free
plenty = omega arith

plenty' : 100 ≤ stack_get_free (stack_init small)
unfolding stack_get_free stack_init
plenty' = omega arith

plenty'' :
    40
    ≤ stack_get_free (
        stack_restore (stack_alloc (stack_init small) 100).0 (stack_get_current (stack_init small)))
unfolding stack_get_free stack_get_current stack_restore stack_alloc stack_init
plenty'' = omega arith

call_ctors-Fresh_example :
    (w : W2cSquanchy) × (call_ctors made ≡ ok w)
    × StackOk w
    × (stack_get_free w ≡ 65536)
    × (i32_load w.memory 69680 ≡ ok 69560)
    × (i32_load w.memory 69608 ≡ ok 42)
    × (read_at w.memory 65536 2788 ≡ d0)
call_ctors-Fresh_example = call_ctors-Fresh 16 1 2 made made-Fresh

strerror-Fresh_example :
    (k : ℕ) × (strerror made 200 ≡ ok (66096 + k))
    × (begins_message k ≡ true)
    × (153 < 200 → strerror made 200 ≡ strerror made 0)
strerror-Fresh_example = strerror-Fresh 16 1 2 made 200 made-Fresh

f28-Fresh_example :
    (p : ℕ) × (mem : List ℕ) × (f28 16 made.memory 48879 1000 32 ≡ some (ok (p, mem)))
    × Written 16 (letter 32) 48879 1000 made.memory p mem
f28-Fresh_example =
    let (size, first, second) = segments (pages 258) (length-pages 258) in
    f28-Fresh 16 1 2 made 48879 1000 32 made-Fresh (omega arith) (omega arith) (omega arith)
      (omega (arith, size)) (inl (omega arith))

get_func_type-exact_example : (get_func_type 3 1 (i32 ∷ i64 ∷ i32 ∷ i64 ∷ []) ≡ some t6) ↔ (
    signature t6
    ≡ some (record { params = 3; results = 1; types = i32 ∷ i64 ∷ i32 ∷ i64 ∷ []; id = t6 }))
get_func_type-exact_example = get_func_type-exact 3 1 (i32 ∷ i64 ∷ i32 ∷ i64 ∷ []) t6 refl

abbrev taken_back : W2cSquanchy
taken_back =
    stack_restore (stack_alloc (stack_init small) 100).0 (stack_get_current (stack_init small))

-- 100 bytes are taken and given back, and 40 are taken.
abbrev at_last : W2cSquanchy
at_last = (stack_alloc taken_back 40).0

path : Reach small at_last 65488
path = allocate 40 (release (allocate 100 begin plenty') begin) plenty''

Reach-StackOk_example :
    StackOk at_last
    × (stack_get_current at_last ≡ 65488)
    × (stack_get_end at_last ≡ 0)
    × (stack_get_base at_last ≡ 65536)
    × (stack_get_free at_last + (65536 - stack_get_current at_last) ≡ 65536)
    × (at_last.memory ≡ small.memory)
Reach-StackOk_example = Reach-StackOk refl path
