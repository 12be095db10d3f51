-- ===== src/Lib.antt =====
-- Squanchy lifts obfuscated WebAssembly: a module that wasm2c and clang have made into LLVM IR is
-- linked with a small runtime, its helpers are inlined, it is simplified by LLVM's passes and by
-- SiMBA++, and the wanted functions are extracted and printed. This library models that program as
-- functions on a small module type, and proves what its parts do.
--
-- The parts, by file:
--   * Base: the names, list operations and tests that all files share.
--   * Ir: what the tool reads and edits of an LLVM module. A pointer to a function is its name.
--     Ir/Functions and Ir/Ids hold the laws of the symbol table and of instruction lists.
--   * Deobfuscator: the class of src/Deobfuscator.h and the passes of src/Deobfuscator.cpp.
--     Count is getInstructionCount; Asm removeCallASMSideEffects; Callocs replaceCallocs;
--     AlwaysInline setFunctionAlwayInline and setFunctionsAlwayInline; Inline inlineFunctions
--     (Contract says what is asked of InlineFunction, Reference is an inliner that does it);
--     Instance injectInitializer and replaceInstanceRefs; Table replaceFUNCREF_TABLE.
--   * Pipeline: the passes and the loop of optimizeFunctionWithCustomPipeline, and SiMBAPass::run of
--     src/SiMBAPass.cpp.
--   * Extract: LLVMExtract of src/LLVMExtract.cpp. Select is the selection by names and expressions
--     and the passes that run; Recursive the work queue.
--   * Driver: the options, the constructor, deobfuscateFunction (Prepare up to the attributes, Passes
--     the rest), deobfuscate and writeOutput (Run), and main of src/Squanchy.cpp (Main). It calls the
--     passes, the pipeline and the extraction in the order of the code.
--   * Runtime: runtime/wasm_runtime.cpp, the memory and the environment that the module imports.
--   * Wasm2c: the sample samples/obf_1/obf_w2c.c. Memory and Table are the helpers for linear memory
--     and tables, Memory/Abstract the promise of a memory as bytes at addresses. Types are the
--     function types and get_func_type; Instance the struct of obf_w2c.h, its instantiation
--     (Startup), its stack (Stack), the calls through its table (Calls) and small functions of its C
--     library (Libc); Format the library's conversions between numbers and characters;
--     Wide its shifts of 128-bit numbers; Memset its memset (f9), Memcpy
--     its memcpy (f21), Memchr its memchr and strnlen (f17, f18), Utf8 its wcrtomb and wctomb (f41,
--     f42), Stdio the output to a stream (f16, f22, f25) and
--     its padding (f31); the write function that a stream names is
--     a parameter.
--   * Samples: the function of samples/reeverse_demo/add.c, calc_org of samples/obf_1/execute.c, and
--     the binary operations they use.
--   * Tests: the theorems on concrete inputs.
--
-- State and errors. A pass takes the members or the function that it edits and gives the new ones;
-- an Outcome says whether it returns, ends in report_fatal_error, runs into undefined behaviour or
-- out of fuel. What LLVM, SiMBA++ and the file system do is a record of functions (Llvm and
-- ExtractLlvm) that the definitions take. A wasm2c helper gives a value or a trap. An instance of
-- the sample is a record; what allocates its memory and table is the interface Runtime of
-- Wasm2c/Instance, with sizes as asked for and null elements, and the function behind an indirect call a parameter.
--
-- Fuel. The loops over rounds (inlining and the custom pipeline) have no bound in the code and run
-- on fuel. The work queue of the extraction runs on one more than the functions of the module and
-- the values selected together, which is enough for every module. The loops that print and read
-- numbers run on fuel too: 16, 22 and twice ten rounds print every 64-bit number, and a decimal is
-- read in one round for each digit. memset takes a round for each 32 bytes; memchr and
-- memcpy at most one for each byte and one more, as does the search for a newline;
-- the padding takes one for each 256 bytes.
--
-- Not modelled: what is printed besides the module, the passes of LLVM themselves, materialisation
-- of lazily read modules, floating point, the mains of the samples, and of the code that wasm2c
-- generated for obf_1 the obfuscated calc, printf's interpreter of formats and the
-- write function of its streams.
pub mod Base
pub mod Ir
pub mod Deobfuscator
pub mod Pipeline
pub mod Extract
pub mod Driver
pub mod Runtime
pub mod Wasm2c
pub mod Samples
pub mod Tests
