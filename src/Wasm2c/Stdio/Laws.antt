-- ===== src/Wasm2c/Stdio/Laws.antt =====
-- Output to a stream of samples/obf_1/obf_w2c.c whose buffer has room.
use squanchy.Base.{
  ℕ, zero, suc, ◌+◌, ◌≤◌, ◌<◌, ◌^◌, Bool, true, false, List, some, ◌⊎◌, inl, inr, ◌≡◌, refl, sym,
  ap, ◌∙◌, arith, length, get_elem?, ◌==◌, leb, ltb, u32, bit_and, if◌then◌else◌, Bool-cases, subst,
}
use squanchy.Wasm2c.{ok, write_at}
use squanchy.Wasm2c.Arrays.Reads.{read_at-same}
use squanchy.Wasm2c.Format.{then_run, i32_load8_u, sub32}
use squanchy.Wasm2c.Memory.{i32_load, i32_store, memory_copy, from_bytes, to_bytes}
use squanchy.Wasm2c.Memory.Laws.{load_unsigned-ok, store-ok, memory_copy-copies}
use squanchy.Wasm2c.Memchr.Words.{IsBytes}
use squanchy.Wasm2c.Memcpy.{f21}
use squanchy.Wasm2c.Memcpy.Laws.{f21-memory_copy}
use squanchy.Wasm2c.Instance.{W2cSquanchy}
use squanchy.Wasm2c.Instance.Calls.{Callee}
use squanchy.Wasm2c.Stdio.{f22_copy, f22_scan, f22_fits, f22_room, f22, f25}
use squanchy.Wasm2c.Stdio.Scan.{NoNewline, f22_scan-none}

-- A load gives what it gave, where its bytes are what they were.
load_kept :
    (mem mem' : List ℕ) (a v : ℕ)
    → a + 4 ≤ length mem
    → length mem < 2 ^ 64
    → length mem' ≡ length mem
    → ((i : ℕ) → i < 4 → get_elem? mem' (a + i) ≡ get_elem? mem (a + i))
    → i32_load mem a ≡ ok v
    → i32_load mem' a ≡ ok v
load_kept mem mem' a v fits small size kept loaded =
    load_unsigned-ok 4 mem' a (omega arith) (omega arith)
    ∙ (ap (λ (bs : List ℕ). ok (from_bytes bs)) (read_at-same mem' mem a 4 (omega arith) fits kept)
        ∙ (sym (load_unsigned-ok 4 mem a fits small) ∙ loaded))

module _ (fuel : ℕ) (callee : Callee) (w : W2cSquanchy) (p0 p1 p2 wend wpos line : ℕ)
    (enough : p1 < fuel) (bytes : IsBytes w.memory) (small : length w.memory < 2 ^ 32)
    (source : p0 + p1 ≤ length w.memory) (stream : p2 + 84 ≤ length w.memory)
    (end_at : i32_load w.memory (p2 + 16) ≡ ok wend)
    (next_at : i32_load w.memory (p2 + 20) ≡ ok wpos)
    (line_at : i32_load w.memory (p2 + 80) ≡ ok line) (buffered : 0 < wend)
    (inside : wend ≤ length w.memory) (room : wpos + p1 ≤ wend) (short : p1 < 512)
    (apart : (p0 + p1 ≤ wpos) ⊎ (wpos + p1 ≤ p0)) (aside : (p2 + 24 ≤ wpos) ⊎ (wpos + p1 ≤ p2 + 20))
    (whole : (2147483648 ≤ line) ⊎ NoNewline w.memory p0 p1) where
  -- The copy, and the next place behind it.
  f22_copy-buffers :
      (copied : List ℕ) × (out : List ℕ) × (f22_copy fuel w p1 p2 0 wpos p0
        ≡ some (ok (record w { memory = out }, p1)))
      × (memory_copy w.memory w.memory wpos p0 p1 ≡ ok copied)
      × (i32_store copied (p2 + 20) (wpos + p1) ≡ ok out)
  unfolding f22_copy
  f22_copy-buffers =
      let below : ltb p1 512 ≡ true = ground (arith, short) in
      let (done, runs, as_copy) =
        f21-memory_copy fuel wpos p0 p1 w.memory bytes (omega arith) source small apart enough in
      let (copied, copies, size, same, others) =
        memory_copy-copies w.memory w.memory wpos p0 p1 (omega arith) source (omega arith)
          (omega arith) in
      let both : ok copied ≡ ok done =
        sym copies
        ∙ (sym (
              ap (λ (b : Bool). if b then memory_copy w.memory w.memory wpos p0 p1 else ok w.memory)
                below)
            ∙ as_copy) in
      let here : f21 fuel w.memory wpos p0 p1 ≡ some (ok (wpos, copied)) = runs ∙ cc in
      let next : i32_load copied (p2 + 20) ≡ ok wpos =
        load_kept w.memory copied (p2 + 20) wpos (omega arith) (omega arith) size
          (λ i h. others (p2 + 20 + i) (ground (arith, aside, h))) next_at in
      let moved : u32 (wpos + p1) ≡ wpos + p1 = omega arith in
      let stored =
        store-ok 4 copied (p2 + 20) (wpos + p1) (omega (arith, size)) (omega (arith, size)) in
      let count : u32 (0 + p1) ≡ p1 = omega arith in
      (
        copied,
        write_at copied (p2 + 20) (to_bytes 4 (wpos + p1)),
        rw (f22_copy, here, next, then_run, moved, stored, count) refl,
        copies,
        stored,
      )

  -- Whatever the search for a newline is for, it leads to the copy.
  f22_fits-copy : f22_fits fuel callee w p0 p1 p2 wpos ≡ f22_copy fuel w p1 p2 0 wpos p0
  unfolding f22_fits
  f22_fits-copy = elim (Bool-cases (leb 2147483648 line)) [
    | inl full ↦ rw (f22_fits, line_at, then_run, full) refl
    | inr by_line ↦ searched p1 refl by_line
  ]
    where
      searched :
          (n : ℕ)
          → n ≡ p1
          → leb 2147483648 line ≡ false
          → f22_fits fuel callee w p0 p1 p2 wpos ≡ f22_copy fuel w p1 p2 0 wpos p0
      searched zero e by_line =
          let none_left : p1 == 0 ≡ true = ground (arith, e) in
          rw (f22_fits, line_at, then_run, by_line, none_left) refl
      searched (suc n) e by_line =
          let some_left : p1 == 0 ≡ false = ground (arith, e) in
          let clear : NoNewline w.memory p0 p1 = elim whole [
            | inl full ↦ absurd (ground (arith, full, by_line))
            | inr c ↦ c
          ] in
          let scanned : f22_scan fuel w.memory p0 p1 ≡ some (ok 0) =
            subst (λ (k : ℕ). f22_scan fuel w.memory p0 k ≡ some (ok 0)) e
              (f22_scan-none w.memory p0 small n fuel (omega arith) (omega arith)
                (λ j b h at. clear j b (omega arith) at)) in
          rw (f22_fits, line_at, then_run, by_line, some_left, scanned) refl

  f22-copy : f22 fuel callee w p0 p1 p2 ≡ f22_copy fuel w p1 p2 0 wpos p0
  unfolding f22 f22_room
  f22-copy =
      let there : wend == 0 ≡ false = ground (arith, buffered) in
      let enough_room : leb p1 (sub32 wend wpos) ≡ true = ground (arith, room, inside, small) in
      rw (f22, end_at, then_run, there, f22_room, next_at, enough_room) f22_fits-copy

  -- Let a stream in a memory of bytes below 2 ^ 32 places have a buffer within the memory, with room
  -- for the bytes, of which there are fewer than 512 and fewer than rounds; let the place in the
  -- buffer overlap neither the bytes nor the stream's next place; and let the stream not be buffered
  -- by lines or the bytes hold no newline. Then f25 on a stream without an error leaves the memory
  -- that memory.copy of the bytes to the next place and a store of the place behind them leave, and
  -- nothing else is changed; on a stream with an error it changes nothing.
  pub f25-buffers :
      (flags : ℕ)
      → i32_load8_u w.memory p2 ≡ ok flags
      → (copied : List ℕ) × (out : List ℕ) × (memory_copy w.memory w.memory wpos p0 p1 ≡ ok copied)
        × (i32_store copied (p2 + 20) (wpos + p1) ≡ ok out)
        × (f25 fuel callee w p2 p0 p1
            ≡ some (ok (if bit_and flags 32 == 0 then record w { memory = out } else w)))
        × (f22 fuel callee w p0 p1 p2 ≡ some (ok (record w { memory = out }, p1)))
  unfolding f25
  f25-buffers flags loaded =
      let (copied, out, runs, copies, moved) = f22_copy-buffers in
      let written : f22 fuel callee w p0 p1 p2 ≡ some (ok (record w { memory = out }, p1)) =
        f22-copy ∙ runs in
      let result : f25 fuel callee w p2 p0 p1
          ≡ some (ok (if bit_and flags 32 == 0 then record w { memory = out } else w)) =
        elim (Bool-cases (bit_and flags 32 == 0)) [
          | inl clear ↦ rw (f25, loaded, then_run, clear, written) refl
          | inr error ↦ rw (f25, loaded, then_run, error) refl
        ] in
      (copied, out, copies, moved, result, written)
