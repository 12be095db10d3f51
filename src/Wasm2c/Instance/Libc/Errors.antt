-- ===== src/Wasm2c/Instance/Libc/Errors.antt =====
-- The constructors and the error messages of samples/obf_1/obf_w2c.c on an instance that was made.
use squanchy.Base.{
  ℕ, zero, suc, ◌+◌, ◌*◌, ◌<◌, Bool, true, false, ◌&&◌, ◌≡◌, refl, sym, ap, ◌∙◌, subst, arith, inl,
  inr, List, ◌∷◌, none, some, if◌then◌else◌, length, u32, ltb, ◌==◌, get_elem?, Bool-cases,
}
use squanchy.Wasm2c.{Checked, ok, trap, read_at}
use squanchy.Wasm2c.Arrays.Reads.{read_at-read_at}
use squanchy.Wasm2c.Memory.{from_bytes, load_unsigned}
use squanchy.Wasm2c.Memory.Laws.{load_unsigned-ok}
use squanchy.Wasm2c.Instance.{W2cSquanchy}
use squanchy.Wasm2c.Instance.Data.{d0}
use squanchy.Wasm2c.Instance.Startup.{Fresh}
use squanchy.Wasm2c.Instance.Libc.{f56, strerror}

-- The messages' bytes, which are followed by the table of their places.
abbrev pub messages : List ℕ
messages = read_at d0 560 1920

-- A place among the messages at which one begins: the first byte, or one behind a terminator.
unfoldable pub begins_message : ℕ → Bool
begins_message k =
    ltb k 1920 && elim (get_elem? (0 ∷ messages) k) [ none ↦ false | some b ↦ b == 0 ]

abbrev place : ℕ → ℕ
place number = from_bytes (read_at d0 (2480 + number * 2) 2)

abbrev pub all_below : (ℕ → Bool) → ℕ → Bool
all_below p zero = true
all_below p (suc n) = let rest = all_below p n in p n && rest

pub all_below-lt : (p : ℕ → Bool) (n k : ℕ) → all_below p n ≡ true → k < n → p k ≡ true
all_below-lt p zero k h lt = absurd (omega (arith, lt))
all_below-lt p (suc n) k h lt = elim (Bool-cases (k == n)) [
  | inl same ↦
      let e : n ≡ k = ground (arith, same) in subst (λ (j : ℕ). p j ≡ true) e (ground (arith, h))
  | inr other ↦ all_below-lt p n k (ground (arith, h)) (ground (arith, other, lt))
]

places : all_below (λ k. begins_message (place k)) 154 ≡ true
unfolding begins_message from_bytes
places = refl

both-first : (a b : Bool) → (a && b) ≡ true → a ≡ true
both-first true b h = refl
both-first false b h = h

ltb_lt : (a b : ℕ) → ltb a b ≡ true → a < b
ltb_lt a b h = ground (arith, h)

clamp_lt : (number : ℕ) → (if ltb 153 number then 0 else number) < 154
clamp_lt number = ground arith

clamp_large : (number : ℕ) → 153 < number → (if ltb 153 number then 0 else number) ≡ 0
clamp_large number h = ground (arith, h)

begins_message-lt : (k : ℕ) → begins_message k ≡ true → k < 1920
unfolding begins_message
begins_message-lt k h = ltb_lt k 1920 (both-first _ _ h)

load_place :
    (mem : List ℕ) (k : ℕ)
    → k < 154
    → length mem ≡ 258 * 65536
    → read_at mem 65536 2788 ≡ d0
    → load_unsigned 2 mem (u32 (u32 (k * 2) + 68016)) ≡ ok (place k)
load_place mem k small size segment =
    let here : u32 (u32 (k * 2) + 68016) ≡ 65536 + (2480 + k * 2) = omega (arith, small) in
    let bytes : read_at mem (65536 + (2480 + k * 2)) 2 ≡ read_at d0 (2480 + k * 2) 2 =
      sym (read_at-read_at mem 65536 2788 (2480 + k * 2) 2 (omega (arith, small)))
      ∙ ap (λ (xs : List ℕ). read_at xs (2480 + k * 2) 2) segment in
    ap (load_unsigned 2 mem) here
    ∙ (load_unsigned-ok 2 mem (65536 + (2480 + k * 2)) (omega (arith, small, size))
          (omega (arith, size))
        ∙ ap (λ (xs : List ℕ). ok (from_bytes xs)) bytes)

abbrev message_at : Checked ℕ → Checked ℕ
message_at r = elim r [ trap t ↦ trap t | ok offset ↦ ok (u32 (offset + 66096)) ]

-- On an instance as it is after the instantiation, the message for any error number is found: its
-- address is the one of a message's first byte among the module's data, and a number from 154 on
-- has the message of 0.
pub strerror-Fresh :
    (self env wasi : ℕ) (w : W2cSquanchy) (number : ℕ)
    → Fresh self env wasi w
    → (k : ℕ) × (strerror w number ≡ ok (66096 + k))
      × (begins_message k ≡ true)
      × (153 < number → strerror w number ≡ strerror w 0)
unfolding strerror f56
strerror-Fresh self env wasi w number fresh =
    let (imported, hosted, a0, a1, a2, a3, size, first, second, table) = fresh in
    let which : ℕ = if ltb 153 number then 0 else number in
    let small : which < 154 = clamp_lt number in
    let begins : begins_message (place which) ≡ true =
      all_below-lt (λ j. begins_message (place j)) 154 which places small in
    let sum : u32 (place which + 66096) ≡ 66096 + place which =
      omega (arith, begins_message-lt (place which) begins) in
    (
      place which,
      ap message_at (load_place w.memory which small size first) ∙ ap ok sum,
      begins,
      λ big.
          ap (λ (v : ℕ). message_at (load_unsigned 2 w.memory (u32 (u32 (v * 2) + 68016))))
            (clamp_large number big),
    )
