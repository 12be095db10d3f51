-- ===== src/Tests/Encodings.antt =====
-- The character encodings of samples/obf_1/obf_w2c.c at a locale that has an encoding.
use squanchy.Base.{
  ℕ, List, [], ◌∷◌, ◌++◌, ◌≡◌, refl, ap, ◌∙◌, arith, length, replicate, take, some, drop, subst,
  length-append,
}
use squanchy.Wasm2c.{ok, read_at}
use squanchy.Wasm2c.Arrays.{drop-append, length-replicate}
use squanchy.Wasm2c.Memory.{i32_load, from_bytes}
use squanchy.Wasm2c.Memory.Laws.{load_unsigned-ok}
use squanchy.Wasm2c.Instance.{W2cSquanchy}
use squanchy.Wasm2c.Instance.Libc.{f39}
use squanchy.Wasm2c.Utf8.{f41_locale, f42}
use squanchy.Wasm2c.Utf8.Laws.{utf8, Answers, f42-Answers}

unfoldable unused : ℕ → List ℕ
unused n = replicate n 0

length-unused : (n : ℕ) → length (unused n) ≡ n
unfolding unused
length-unused n = length-replicate n 0

-- The locale stands at the address 0, and what points to it at 69680.
abbrev before_pointer : List ℕ
before_pointer = 1 ∷ 0 ∷ 0 ∷ 0 ∷ unused 69676

abbrev with_locale : W2cSquanchy
with_locale = record {
  env_instance = 1;
  wasi_instance = 2;
  g0 = 65536;
  g1 = 0;
  g2 = 0;
  g3 = 0;
  memory = before_pointer ++ (0 ∷ 0 ∷ 0 ∷ 0 ∷ []);
  indirect_function_table = [];
}

room : length with_locale.memory ≡ 69684
room = omega (arith, length-append (unused 69676) (0 ∷ 0 ∷ 0 ∷ 0 ∷ []), length-unused 69676)

pointer : read_at with_locale.memory 69680 4 ≡ 0 ∷ 0 ∷ 0 ∷ 0 ∷ []
pointer =
    let there : length before_pointer ≡ 69680 = omega (arith, length-unused 69676) in
    subst (λ (j : ℕ). take 4 (drop j with_locale.memory) ≡ 0 ∷ 0 ∷ 0 ∷ 0 ∷ []) there
      (rw (drop-append before_pointer (0 ∷ 0 ∷ 0 ∷ 0 ∷ [])) refl)

encoding : f41_locale with_locale ≡ ok 1
unfolding f41_locale f39 from_bytes
encoding =
    let first : i32_load with_locale.memory 69680 ≡ ok 0 =
      load_unsigned-ok 4 with_locale.memory 69680 (omega (arith, room)) (omega (arith, room))
      ∙ ap (λ (bs : List ℕ). ok (from_bytes bs)) pointer in
    let second : i32_load with_locale.memory 0 ≡ ok 1 =
      load_unsigned-ok 4 with_locale.memory 0 (omega (arith, room)) (omega (arith, room)) in
    rw (f41_locale, f39, first, second) refl

-- The euro sign takes three bytes.
euro : utf8 8364 ≡ some (226 ∷ 130 ∷ 172 ∷ [])
euro = refl

f42-Answers_example : Answers with_locale 4 (f42 with_locale 4 8364) (utf8 8364)
f42-Answers_example =
    f42-Answers with_locale 4 8364 (omega (arith, room)) (omega (arith, room)) (omega (arith, room))
      (omega arith) 1 (omega arith) encoding (omega arith)
