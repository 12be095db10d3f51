-- ===== src/Deobfuscator/AlwaysInline.antt =====
-- `setFunctionAlwayInline`, `setFunctionsAlwayInline` and `removeAlwayInlineAttribute` of
-- src/Deobfuscator.cpp.
pub mod Names
pub mod Laws
pub mod Loads
use squanchy.Base.{
  String, Bool, true, false, ◌&&◌, Option, none, some, List, [], ◌∷◌, ◌++◌, if◌then◌else◌,
}
use squanchy.Ir.{
  Inst, Function, Module, is_call, uses_function, get_function, edit_function, edit_functions,
  edit_insts,
}
use squanchy.Deobfuscator.{Deobfuscator}

unfoldable pub add_attribute : Function → Function
add_attribute f = record f { always_inline = true }

remove_attribute : Function → Function
remove_attribute f = record f { always_inline = false }

-- The attribute of each call among the users of `n`.
mark_call : String → Inst → Inst
mark_call n i = if is_call i && uses_function n i then record i { always_inline = true } else i

unfoldable pub mark_users : String → Module → Module
unfolding mark_call
mark_users n = edit_functions (edit_insts (mark_call n))

-- The overload that takes a pointer, null or not.
unfoldable pub set_pointer : Option Function → Deobfuscator → Deobfuscator
unfolding add_attribute mark_users
set_pointer none d = d
set_pointer (some f) d = if f.always_inline then d else record d {
  ir = mark_users f.name (edit_function f.name add_attribute d.ir);
  ai_function_names = d.ai_function_names ++ f.name ∷ [];
}

-- The overload that takes a name.
unfoldable pub set_function_always_inline : String → Deobfuscator → Deobfuscator
unfolding set_pointer
set_function_always_inline n d = set_pointer (get_function n d.ir) d

unfoldable pub set_all : List String → Deobfuscator → Deobfuscator
set_all [] d = d
set_all (n ∷ ns) d = set_all ns (set_function_always_inline n d)

clear_all : List String → Module → Module
unfolding remove_attribute
clear_all [] m = m
clear_all (n ∷ ns) m = clear_all ns (edit_function n remove_attribute m)

unfoldable pub remove_always_inline_attribute : Deobfuscator → Deobfuscator
unfolding clear_all
remove_always_inline_attribute d = record d { ir = clear_all d.ai_function_names d.ir }
