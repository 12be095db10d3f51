-- ===== src/Driver/Prepare/Total.antt =====
-- The preparation in `deobfuscateFunction` of src/Deobfuscator.cpp returns, and what it then gives.
use squanchy.Base.{String}
use squanchy.Ir.{Module, edit_function, edit_functions}
use squanchy.Deobfuscator.{Deobfuscator}
use squanchy.Deobfuscator.Asm.{without_asm_named}
use squanchy.Driver.Prepare.{settle, add_no_inline}

abbrev cleaned : String → Module → Module
cleaned n m = edit_functions settle (edit_function n add_no_inline (without_asm_named n m))
