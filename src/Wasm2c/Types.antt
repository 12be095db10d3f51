-- ===== src/Wasm2c/Types.antt =====
-- The function types of samples/obf_1/obf_w2c.c: their identifiers and `get_func_type`, which finds
-- the identifier of a signature.
pub mod Signatures
use squanchy.Base.{
  ℕ, String, Bool, true, false, ◌&&◌, Option, none, some, List, [], ◌∷◌, ◌++◌, ◌==◌, if◌then◌else◌,
}

-- `wasm_rt_type_t`
pub data ValueType : Type 0 where
  i32 i64 f32 f64 v128 funcref externref : ValueType

-- The enumeration's numbers, which C compares.
abbrev pub enumerated : ValueType → ℕ
enumerated i32 = 0
enumerated i64 = 1
enumerated f32 = 2
enumerated f64 = 3
enumerated v128 = 4
enumerated funcref = 5
enumerated externref = 6

abbrev pub same_type : ValueType → ValueType → Bool
same_type s t = enumerated s == enumerated t

-- `FUNC_TYPE_T`: the 32 bytes, written in hexadecimal.
abbrev pub t0 : String
t0 = "cdad8f6aaf3ed086f09ad7f0c70d489f2759f38d71a181a8cc0653986234aaf5"

abbrev pub t1 : String
t1 = "72ab00df203dcea1f229c79d13407e98ac7d414a532e424261552eaaebbec635"

abbrev pub t2 : String
t2 = "0780967a42f73ee6705c2fac83f567d2a2a069415ff8e7967f23ab00035f4a3c"

abbrev pub t3 : String
t3 = "92fb6adf49070a83be080268cdf695274ac2f3e5e47d2949e8ed42926a9ddaf0"

abbrev pub t4 : String
t4 = "893a3d2c8f4d7f6d6c9d626729af3d44398ec3f3e851c199b9dd9fd53d1fd3e4"

abbrev pub t5 : String
t5 = "36a9e7f1c95b82ffb99743e0c5c4ce95d83c9a430aac59f84ef3cbfab6145068"

abbrev pub t6 : String
t6 = "7295c90314989dfaa471a55241ef012b0c4492472d6af2421b467698747e943c"

abbrev pub t7 : String
t7 = "78de71b6499a339dd370884c50d4eadfe12a1812f6f364f7ea4f9419a72028e8"

abbrev pub t8 : String
t8 = "8139e980368639f3be5e29bf5564be61a7825c6d9851fff0201116c8919fb9b5"

abbrev pub t9 : String
t9 = "55b8a3b08f562c115a24cc206147eceb9c2873fc7e39dd0f09415b10e414c1c6"

abbrev pub t10 : String
t10 = "261081e22143d6013e2d2f1617786fbab32f4d549b8aa9ddbf53923cd371c6b2"

abbrev pub t11 : String
t11 = "c13564942d557356f4e1630d0ee122793248e91a100b2b9408e2be330f6d1599"

abbrev pub t12 : String
t12 = "31b9044113aad09c5db8f927885bb5370bb29aae326a9b73b78c1bb7a9d260fa"

abbrev pub t13 : String
t13 = "f6981bc610dab7b26337cddc72cae9500013ba106cde872710f8862fe3db94e4"

abbrev pub t14 : String
t14 = "cb35334899c7eed1bea097290e3b5363fd8d79660ea8d0a5ac96b015448e99a8"

abbrev pub t15 : String
t15 = "1e50dccf7efa1ac1602d953707013ae32435c17e9be9ae5929aec896231e2528"

abbrev pub t16 : String
t16 = "ff571f8374675d672ac80d923de847a11e73c703a1ee837266a91c9de78cddfb"

abbrev pub t17 : String
t17 = "47e98d9280de15d838bcd1ba52974f1388c7009e5e2a6de1194df64636894820"

abbrev pub t18 : String
t18 = "10144290bfa8378cdc819f4c634e62b71129aa0968895f5e139ccce2cb517a78"

abbrev pub t19 : String
t19 = "da38ac4e54bdb1ae3b403ce73c03435dec48fc548898633988c69d0c9305ff00"

abbrev pub t20 : String
t20 = "1438fb59964bde5bf196a56f4727012a3a43595a48b7106205b1d3c63543b823"

abbrev pub t21 : String
t21 = "62be4b77107ac95b6e42b01487bdc6847aa9ca80d76fda70865f0df954fe0f54"

-- One of the tests of `get_func_type`.
pub record TypeTest : Type 0 where
  pub params : ℕ
  pub results : ℕ
  pub types : List ValueType
  pub id : String

-- The variable arguments compared one after the other, up to the first that differs.
abbrev pub has_types : (expected args : List ValueType) → Bool
has_types [] args = true
has_types (t ∷ ts) [] = false
has_types (t ∷ ts) (a ∷ args) = same_type a t && has_types ts args

abbrev pub passes : TypeTest → (params results : ℕ) → List ValueType → Bool
passes test p r args = (p == test.params) && ((r == test.results) && has_types test.types args)

abbrev type_test : ℕ → ℕ → List ValueType → String → TypeTest
type_test p r ts t = record { params = p; results = r; types = ts; id = t }

-- The tests for `t0` to `t10`.
abbrev pub first_tests : List TypeTest
first_tests =
    type_test 3 1 (i32 ∷ i32 ∷ i32 ∷ i32 ∷ []) t0
    ∷ type_test 0 1 (i32 ∷ []) t1
    ∷ type_test 1 1 (i32 ∷ i32 ∷ []) t2
    ∷ type_test 2 1 (i32 ∷ i32 ∷ i32 ∷ []) t3
    ∷ type_test 1 0 (i32 ∷ []) t4
    ∷ type_test 0 0 ([]) t5
    ∷ type_test 3 1 (i32 ∷ i64 ∷ i32 ∷ i64 ∷ []) t6
    ∷ type_test 3 0 (i32 ∷ i32 ∷ i32 ∷ []) t7
    ∷ type_test 5 1 (i32 ∷ i32 ∷ i32 ∷ i32 ∷ i32 ∷ i32 ∷ []) t8
    ∷ type_test 6 1 (i32 ∷ f64 ∷ i32 ∷ i32 ∷ i32 ∷ i32 ∷ i32 ∷ []) t9
    ∷ type_test 2 0 (i32 ∷ i32 ∷ []) t10
    ∷ []

-- The tests for `t11` to `t21`.
abbrev pub last_tests : List TypeTest
last_tests =
    type_test 2 1 (i64 ∷ i32 ∷ i32 ∷ []) t11
    ∷ type_test 4 0 (i32 ∷ i64 ∷ i64 ∷ i32 ∷ []) t12
    ∷ type_test 4 1 (i32 ∷ i32 ∷ i32 ∷ i32 ∷ i32 ∷ []) t13
    ∷ type_test 2 1 (f64 ∷ i32 ∷ f64 ∷ []) t14
    ∷ type_test 7 1 (i32 ∷ i32 ∷ i32 ∷ i32 ∷ i32 ∷ i32 ∷ i32 ∷ i32 ∷ []) t15
    ∷ type_test 4 0 (i32 ∷ i32 ∷ i32 ∷ i32 ∷ []) t16
    ∷ type_test 3 1 (i64 ∷ i32 ∷ i32 ∷ i32 ∷ []) t17
    ∷ type_test 5 0 (i32 ∷ i32 ∷ i32 ∷ i32 ∷ i32 ∷ []) t18
    ∷ type_test 1 1 (f64 ∷ i64 ∷ []) t19
    ∷ type_test 2 1 (i64 ∷ i64 ∷ f64 ∷ []) t20
    ∷ type_test 4 1 (i32 ∷ i32 ∷ i64 ∷ i32 ∷ i64 ∷ []) t21
    ∷ []

abbrev pub type_tests : List TypeTest
type_tests = first_tests ++ last_tests

unfoldable pub search : List TypeTest → (params results : ℕ) → List ValueType → Option String
search [] p r args = none
search (test ∷ tests) p r args =
    if passes test p r args then some test.id else search tests p r args

-- `get_func_type`
unfoldable pub get_func_type : (params results : ℕ) → List ValueType → Option String
get_func_type = search type_tests
