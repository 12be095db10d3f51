-- ===== src/Extract/Recursive/Measure.antt =====
-- The work queue of `LLVMExtract`, src/LLVMExtract.cpp, ends.
use squanchy.Base.{
  ℕ, zero, suc, ◌+◌, ◌≤◌, ◌<◌, String, true, false, not, ◌||◌, Option, none, some, List, [], ◌∷◌,
  ◌++◌, ◌≡◌, refl, sym, ap, arith, inl, inr, find, count, length, all, same, same_iff, Bool-cases,
  Option-cases, List-cases,
}
use squanchy.Ir.{Inst, Function, Module, instructions, get_function}
use squanchy.Extract.{Gv, function, alias, variable, has_gv, is_defined, callees_from, callees}
use squanchy.Extract.Recursive.{Work, enter, visit, drain, extend, start_queue}

-- The functions that are not yet in the set.
abbrev pub missing_from : List Gv → List Function → ℕ
missing_from gs fs = count (λ (f : Function). not (has_gv (function f.name) gs)) fs

pub has_gv-append : (g : Gv) (xs ys : List Gv) → has_gv g (xs ++ ys) ≡ (has_gv g xs || has_gv g ys)
has_gv-append g [] ys = refl
has_gv-append g (x ∷ xs) ys = ground (arith, has_gv-append g xs ys)

missing-le :
    (gs : List Gv) (n : String) (fs : List Function)
    → missing_from (gs ++ function n ∷ []) fs ≤ missing_from gs fs
missing-le gs n [] = omega arith
missing-le gs n (f ∷ fs) =
    ground (arith, missing-le gs n fs, has_gv-append (function f.name) gs (function n ∷ []))

missing-lt :
    (gs : List Gv) (n : String) (fs : List Function) (f : Function)
    → find (λ (f : Function). same f.name n) fs ≡ some f
    → has_gv (function n) gs ≡ false
    → missing_from (gs ++ function n ∷ []) fs < missing_from gs fs
missing-lt gs n [] f h lacks = absurd (cc)
missing-lt gs n (g ∷ gs') f h lacks = elim (Bool-cases (same g.name n)) [
  | inl e ↦ ground (
    arith,
    e,
    (same_iff g.name n).0 e,
    sym (ap (λ (x : String). has_gv (function x) gs) ((same_iff g.name n).0 e)),
    lacks,
    missing-le gs n gs',
    has_gv-append (function g.name) gs (function n ∷ []),
  )
  | inr e ↦ ground (
    arith,
    e,
    h,
    missing-lt gs n gs' f,
    lacks,
    has_gv-append (function g.name) gs (function n ∷ []),
  )
]

abbrev pub missing : Module → List Gv → ℕ
missing m gs = missing_from gs m.functions

all-callees_from : (m : Module) (is : List Inst) → all (is_defined m) (callees_from m is) ≡ true
unfolding callees_from
all-callees_from m [] = refl
all-callees_from m (i ∷ is) = ground (arith, all-callees_from m is)

pub all-callees : (m : Module) (n : String) → all (is_defined m) (callees m n) ≡ true
unfolding callees
all-callees m n =
    elim (get_function n m)
      as (λ (o : Option Function).
        all (is_defined m) (elim o [ none ↦ [] | some f ↦ callees_from m (instructions f) ])
        ≡ true) [ none ↦ refl | some f ↦ all-callees_from m (instructions f) ]

pub is_defined-found :
    (m : Module) (n : String) → is_defined m n ≡ true → (f : Function) × (get_function n m ≡ some f)
is_defined-found m n d = elim (Option-cases (get_function n m)) [
  | inl e ↦ absurd (ground (arith, e, d))
  | inr found ↦ found
]

-- What is left to do: functions to insert, and names in the queue.
abbrev pub work_left : Module → Work → ℕ
work_left m w = missing m w.gvs + length w.queue

missing-insert :
    (m : Module) (n : String) (gs : List Gv)
    → is_defined m n ≡ true
    → has_gv (function n) gs ≡ false
    → missing m (gs ++ function n ∷ []) < missing m gs
unfolding get_function
missing-insert m n gs d lacks =
    let (f, found) = is_defined-found m n d in missing-lt gs n m.functions f found lacks

enter-work_left :
    (m : Module) (c : String) (w : Work)
    → is_defined m c ≡ true
    → work_left m (enter c w) ≤ work_left m w
enter-work_left m c w defined = elim (Bool-cases (has_gv (function c) w.gvs)) [
  | inl e ↦ ground (arith, e)
  | inr e ↦ ground (arith, e, missing-insert m c w.gvs defined e)
]

visit-work_left :
    (m : Module) (cs : List String) (w : Work)
    → all (is_defined m) cs ≡ true
    → work_left m (visit cs w) ≤ work_left m w
unfolding visit
visit-work_left m [] w defined = omega arith
visit-work_left m (c ∷ cs) w defined = omega (
  arith,
  enter-work_left m c w (ground (arith, defined)),
  visit-work_left m cs (enter c w) (ground (arith, defined)),
)

drain-ends :
    (m : Module) (fuel : ℕ) (w : Work)
    → work_left m w < fuel
    → (gs : List Gv) × (drain m fuel w ≡ some gs)
unfolding drain
drain-ends m zero w enough = absurd (omega (arith, enough))
drain-ends m (suc fuel) w enough = elim (List-cases w.queue) [
  | inl e ↦ (w.gvs, ground (arith, e))
  | inr (f, fs, e) ↦
      let done = drain-ends m fuel (visit (callees m f) (record w { queue = fs })) (
        ground (
          arith,
          enough,
          e,
          visit-work_left m (callees m f) (record w { queue = fs }) (all-callees m f),
        )) in
      (done.0, ground (arith, e, done.1))
]

start_queue-length :
    (gs : List Gv) (queue : List String) → length (start_queue gs queue) ≤ length gs + length queue
unfolding start_queue
start_queue-length [] queue = omega arith
start_queue-length (function f ∷ gs) queue = ground (arith, start_queue-length gs (f ∷ queue))
start_queue-length (alias _ ∷ gs) queue = ground (arith, start_queue-length gs queue)
start_queue-length (variable _ ∷ gs) queue = ground (arith, start_queue-length gs queue)

missing_from-le : (gs : List Gv) (fs : List Function) → missing_from gs fs ≤ length fs
missing_from-le gs [] = omega arith
missing_from-le gs (f ∷ fs) = ground (arith, missing_from-le gs fs)

-- Fuel for one round per start value and per function of the module lets the work queue of the
-- recursive extraction run empty.
pub extend-ends :
    (m : Module) (fuel : ℕ) (gs : List Gv)
    → length m.functions + length gs < fuel
    → (all_gvs : List Gv) × (extend m fuel gs ≡ some all_gvs)
unfolding extend
extend-ends m fuel gs enough =
    drain-ends m fuel (record { gvs = gs; queue = start_queue gs [] })
      (ground (arith, enough, start_queue-length gs [], missing_from-le gs m.functions))
