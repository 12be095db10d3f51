-- ===== src/Extract/Recursive.antt =====
-- The work queue of `LLVMExtract`, src/LLVMExtract.cpp, under its parameter `Recursive`.
pub mod Measure
pub mod Closure
use squanchy.Base.{
  ℕ, zero, suc, String, Bool, true, false, Option, none, some, List, [], ◌∷◌, ◌++◌, if◌then◌else◌,
}
use squanchy.Ir.{Module}
use squanchy.Extract.{Gv, function, alias, variable, has_gv, callees}

pub record Work : Type 0 where
  pub gvs : List Gv
  pub queue : List String

-- A callee that is new is inserted and pushed. The back of the queue is the head of the list.
abbrev pub enter : String → Work → Work
enter c w =
    if has_gv (function c) w.gvs
    then w
    else record { gvs = w.gvs ++ function c ∷ []; queue = c ∷ w.queue }

-- The loop over the calls of one function.
unfoldable pub visit : List String → Work → Work
visit [] w = w
visit (c ∷ cs) w = visit cs (enter c w)

-- `while (!Workqueue.empty())`, on fuel; `none` means that the fuel ran out.
unfoldable pub drain : Module → ℕ → Work → Option (List Gv)
drain m zero w = none
drain m (suc fuel) w = elim w.queue [
  | [] ↦ some w.gvs
  | f ∷ fs ↦ drain m fuel (visit (callees m f) (record w { queue = fs }))
]

-- The queue after the loop over the set, its back first.
unfoldable pub start_queue : List Gv → List String → List String
start_queue [] queue = queue
start_queue (function f ∷ gs) queue = start_queue gs (f ∷ queue)
start_queue (alias _ ∷ gs) queue = start_queue gs queue
start_queue (variable _ ∷ gs) queue = start_queue gs queue

unfoldable pub extend : Module → ℕ → List Gv → Option (List Gv)
extend m fuel gs = drain m fuel (record { gvs = gs; queue = start_queue gs [] })
