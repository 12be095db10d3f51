-- ===== src/Wasm2c/Instance/Stack/Reach.antt =====
-- How code of samples/obf_1/obf_w2c.c and its host use the stack of an instance: it is set up, blocks
-- are allocated as long as they fit, and the pointer is put back to where a block began or ended.
use squanchy.Base.{ℕ, ◌+◌, ◌-◌, ◌*◌, ◌/◌, ◌≤◌, ◌≡◌, refl, arith}
use squanchy.Wasm2c.Instance.{W2cSquanchy}
use squanchy.Wasm2c.Instance.Stack.{
  StackOk, stack_init, stack_alloc, stack_restore, stack_get_free, stack_get_current,
  stack_get_base, stack_get_end, stack_init-StackOk, stack_alloc-block, free_value,
}

-- The instances that an instance with a fresh stack pointer reaches, and where their pointer then
-- is: an allocation moves it down and rounds it down to a multiple of 16, and a release puts it back
-- to where it was in an instance that has been reached.
pub data Reach (start : W2cSquanchy) : W2cSquanchy → ℕ → Type 0 where
  begin : Reach start (stack_init start) 65536
  allocate :
      {w : W2cSquanchy} {p : ℕ} (n : ℕ)
      → Reach start w p
      → n ≤ stack_get_free w
      → Reach start (stack_alloc w n).0 ((p - n) / 16 * 16)
  release :
      {w u : W2cSquanchy} {p q : ℕ}
      → Reach start w p
      → Reach start u q
      → Reach start (stack_restore w (stack_get_current u)) q

abbrev pub Kept : W2cSquanchy → W2cSquanchy → ℕ → Type 0
Kept start w p = StackOk w × (w.g0 ≡ p) × (w.g2 ≡ 0) × (w.g3 ≡ 65536) × (w.memory ≡ start.memory)

invariant : {start w : W2cSquanchy} {p : ℕ} → start.g0 ≡ 65536 → Reach start w p → Kept start w p
unfolding stack_init stack_alloc stack_restore stack_get_current
invariant {start} e begin = (stack_init-StackOk start e, e, refl, refl, refl)
invariant e (allocate {w} {p} n r fits) =
    let (well, here, end, base, memory) = invariant e r in
    let (well', given, aligned, room, close, free) = stack_alloc-block w n well fits in
    (well', omega (arith, here, aligned, room, close), end, base, memory)
invariant e (release {w} {u} r s) =
    let (well, here, end, base, memory) = invariant e r in
    let (well', here', end', base', memory') = invariant e s in
    (
      (well'.0, well.1, omega (arith, end), omega (arith, well'.3, base, base'), well.4),
      here',
      end,
      base,
      memory,
    )

-- However the stack of an instance whose pointer began at 65536 is used, by allocations that fit
-- what is free and by putting the pointer back to where it has been, the pointer is where these
-- uses put it, a multiple of 16 between 0 and 65536, what is free and what is taken is 65536 bytes
-- together, and the memory is untouched.
pub Reach-StackOk :
    {start w : W2cSquanchy} {p : ℕ}
    → start.g0 ≡ 65536
    → Reach start w p
    → StackOk w
      × (stack_get_current w ≡ p)
      × (stack_get_end w ≡ 0)
      × (stack_get_base w ≡ 65536)
      × (stack_get_free w + (65536 - stack_get_current w) ≡ 65536)
      × (w.memory ≡ start.memory)
unfolding stack_get_end stack_get_base stack_get_current
Reach-StackOk {start} {w} {p} e r =
    let (well, here, end, base, memory) = invariant e r in
    let (aligned, aligned_end, above, below, word) = well in
    (well, here, end, base, omega (arith, free_value w well, end, base, above, below), memory)
