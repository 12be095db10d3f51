-- ===== src/Driver/Prepare.antt =====
-- `deobfuscateFunction` of src/Deobfuscator.cpp from its start to the pass over the attributes.
pub mod Laws
pub mod Clean
pub mod Total
use squanchy.Base.{
  ℕ, String, Bool, true, false, ◌&&◌, ◌==◌, Option, none, some, List, if◌then◌else◌,
}
use squanchy.Ir.{Function, Module, edit_function, edit_functions}
use squanchy.Deobfuscator.{Deobfuscator, Outcome, done, crash, out_of_fuel, ◌>>=◌}
use squanchy.Deobfuscator.AlwaysInline.Names.{set_functions_always_inline}
use squanchy.Deobfuscator.Asm.{remove_asm_named}
use squanchy.Deobfuscator.Inline.{inline_functions}
use squanchy.Deobfuscator.Instance.{inject_initializer}
use squanchy.Driver.{Llvm, Options, on_function}

-- The checks in `isWasm2CFunction` are commented out. The type of the first argument is read, also
-- where there is none.
unfoldable pub is_wasm2c_function : Function → Outcome Bool
is_wasm2c_function f = if f.arg_size == 0 then crash else done true

abbrev pub remove_optnone : Function → Function
remove_optnone f = record f { optimize_none = false }

abbrev pub add_no_inline : Function → Function
add_no_inline f = record f { no_inline = true }

-- The body of the loop over the module's functions in step 7.
abbrev pub settle : Function → Function
settle f =
    if f.no_inline && f.always_inline
    then record f { no_inline = false; always_inline = false }
    else f

-- Up to and with the inlining helpers' attributes: steps 1 and 2.
unfoldable pub link_runtime : Llvm → String → Deobfuscator → Deobfuscator
link_runtime llvm n d =
    let m : Module = edit_function n remove_optnone d.ir in
    let r : Module = record d.runtime { layout = m.layout } in
    record d { ir = llvm.link m r; runtime = r }

unfoldable pub initialize : Options → String → Module → Outcome Module
initialize opts n m =
    if opts.inject_initializer
    then on_function n (inject_initializer opts.module_name m) m
    else done m

-- Steps 5 to 7.
unfoldable pub inline_and_clean : Llvm → ℕ → String → Module → Outcome Module
inline_and_clean llvm fuel n m =
    elim (inline_functions (llvm.inline_call n) llvm.arrange n fuel m) [
      | none ↦ out_of_fuel
      | some m' ↦ do
        m'' ← remove_asm_named n m'
        done (edit_functions settle (edit_function n add_no_inline m''))
    ]

unfoldable pub prepare : Llvm → Options → ℕ → String → Deobfuscator → Outcome Deobfuscator
prepare llvm opts fuel n d =
    let d' : Deobfuscator = set_functions_always_inline opts.module_name (link_runtime llvm n d) in
    do
      m ← initialize opts n d'.ir
      m' ← inline_and_clean llvm fuel n m
      done (record d' { ir = m' })
