-- ===== src/Tests/Demos.antt =====
-- The demo's function at two words whose sum wraps around.
use squanchy.Base.{◌+◌, ◌≡◌, u32, arith}
use squanchy.Samples.Add.{add, add_lem}

add_lem_example : add 4294967295 10 ≡ u32 (4294967295 + 10 + 1926)
add_lem_example = add_lem 4294967295 10 (omega arith) (omega arith)
