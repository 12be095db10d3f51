-- ===== src/Extract/Recursive/Closure.antt =====
-- The recursive extraction of src/LLVMExtract.cpp keeps the functions that a call chain reaches.
use squanchy.Base.{
  ℕ, zero, suc, String, true, ◌||◌, some, List, [], ◌∷◌, ◌++◌, ◌≡◌, refl, sym, subst, arith, ◌⊎◌,
  inl, inr, ◌↔◌, same, same_iff, same_refl, same_comm, has_name, Bool-cases,
}
use squanchy.Ir.{Module}
use squanchy.Extract.{Gv, function, alias, variable, has_gv, callees}
use squanchy.Extract.Recursive.{Work, enter, visit, drain, extend, start_queue}
use squanchy.Extract.Recursive.Measure.{has_gv-append}

-- A function of the start set, or one with a body that a reached function calls.
pub data Reaches (m : Module) (gs : List Gv) : String → Type 0 where
  start : {n : String} → has_gv (function n) gs ≡ true → Reaches m gs n
  step : {n c : String} → Reaches m gs n → has_name c (callees m n) ≡ true → Reaches m gs c

last-inserted : (gs : List Gv) (c : String) → has_gv (function c) (gs ++ function c ∷ []) ≡ true
last-inserted gs c = ground (arith, has_gv-append (function c) gs (function c ∷ []), same_refl c)

enter-grows :
    (g : Gv) (c : String) (w : Work) → has_gv g w.gvs ≡ true → has_gv g (enter c w).gvs ≡ true
enter-grows g c w h = ground (arith, h, has_gv-append g w.gvs (function c ∷ []))

enter-inserts : (c : String) (w : Work) → has_gv (function c) (enter c w).gvs ≡ true
enter-inserts c w = ground (arith, last-inserted w.gvs c)

enter-queue :
    (f c : String) (w : Work) → has_name f w.queue ≡ true → has_name f (enter c w).queue ≡ true
enter-queue f c w h = ground (arith, h)

enter-new :
    (f c : String) (w : Work)
    → has_gv (function f) (enter c w).gvs ≡ true
    → (has_gv (function f) w.gvs ≡ true) ⊎ (has_name f (enter c w).queue ≡ true)
enter-new f c w h = elim (Bool-cases (has_gv (function f) w.gvs)) [
  | inl e ↦ inl e
  | inr e ↦
      inr (ground (arith, e, h, has_gv-append (function f) w.gvs (function c ∷ []), same_comm c f))
]

visit-grows :
    (g : Gv) (cs : List String) (w : Work)
    → has_gv g w.gvs ≡ true
    → has_gv g (visit cs w).gvs ≡ true
unfolding visit
visit-grows g [] w h = h
visit-grows g (c ∷ cs) w h = visit-grows g cs (enter c w) (enter-grows g c w h)

visit-queue :
    (f : String) (cs : List String) (w : Work)
    → has_name f w.queue ≡ true
    → has_name f (visit cs w).queue ≡ true
unfolding visit
visit-queue f [] w h = h
visit-queue f (c ∷ cs) w h = visit-queue f cs (enter c w) (enter-queue f c w h)

visit-inserts :
    (n : String) (cs : List String) (w : Work)
    → has_name n cs ≡ true
    → has_gv (function n) (visit cs w).gvs ≡ true
unfolding visit
visit-inserts n [] w h = absurd (cc)
visit-inserts n (c ∷ cs) w h = elim (Bool-cases (same c n)) [
  | inl e ↦ visit-grows (function n) cs (enter c w) (
      subst (λ (x : String). has_gv (function x) (enter c w).gvs ≡ true) ((same_iff c n).0 e)
        (enter-inserts c w))
  | inr e ↦ visit-inserts n cs (enter c w) (ground (arith, e, h))
]

visit-new :
    (f : String) (cs : List String) (w : Work)
    → has_gv (function f) (visit cs w).gvs ≡ true
    → (has_gv (function f) w.gvs ≡ true) ⊎ (has_name f (visit cs w).queue ≡ true)
unfolding visit
visit-new f [] w h = inl h
visit-new f (c ∷ cs) w h = elim (visit-new f cs (enter c w) h) [
  | inr q ↦ inr q
  | inl e ↦ elim (enter-new f c w e) [
    | inl old ↦ inl old
    | inr q ↦ inr (visit-queue f cs (enter c w) q)
  ]
]

-- The functions of the set that are not queued have all their callees in the set.
abbrev Covered : Module → Work → Type 0
Covered m w =
    (f : String)
    → has_gv (function f) w.gvs ≡ true
    → (has_name f w.queue ≡ true)
      ⊎ ((c : String) → has_name c (callees m f) ≡ true → has_gv (function c) w.gvs ≡ true)

-- The names of the set and of the queue are reached.
abbrev Sound : Module → List Gv → Work → Type 0
Sound m gs w =
    (f : String) → (has_gv (function f) w.gvs || has_name f w.queue) ≡ true → Reaches m gs f

Covered-round :
    (m : Module) (gs : List Gv) (f : String) (fs : List String)
    → Covered m (record { gvs = gs; queue = f ∷ fs })
    → Covered m (visit (callees m f) (record { gvs = gs; queue = fs }))
Covered-round m gs f fs covered g h =
    let w : Work = record { gvs = gs; queue = fs } in
    elim (visit-new g (callees m f) w h) [
      | inr q ↦ inl q
      | inl old ↦ elim (covered g old) [
        | inr closed ↦ inr (λ c called. visit-grows (function c) (callees m f) w (closed c called))
        | inl q ↦ elim (Bool-cases (same f g)) [
          | inl e ↦ inr (λ c called. visit-inserts c (callees m f) w (
              subst (λ (x : String). has_name c (callees m x) ≡ true) (sym ((same_iff f g).0 e))
                called))
          | inr e ↦ inl (visit-queue g (callees m f) w (ground (arith, e, q)))
        ]
      ]
    ]

enter-Sound :
    (m : Module) (gs : List Gv) (c : String) (w : Work)
    → Reaches m gs c
    → Sound m gs w
    → Sound m gs (enter c w)
enter-Sound m gs c w reached sound f h = elim (Bool-cases (same c f)) [
  | inl e ↦ subst (λ (x : String). Reaches m gs x) ((same_iff c f).0 e) reached
  | inr e ↦
      sound f
        (ground (arith, e, h, has_gv-append (function f) w.gvs (function c ∷ []), same_comm c f))
]

visit-Sound :
    (m : Module) (gs : List Gv) (cs : List String) (w : Work)
    → ((c : String) → has_name c cs ≡ true → Reaches m gs c)
    → Sound m gs w
    → Sound m gs (visit cs w)
unfolding visit
visit-Sound m gs [] w reached sound = sound
visit-Sound m gs (c ∷ cs) w reached sound =
    visit-Sound m gs cs (enter c w) (λ n h. reached n (ground (arith, h)))
      (enter-Sound m gs c w (reached c (ground (arith, same_refl c))) sound)

Sound-round :
    (m : Module) (gs start_set : List Gv) (f : String) (fs : List String)
    → Sound m start_set (record { gvs = gs; queue = f ∷ fs })
    → Sound m start_set (visit (callees m f) (record { gvs = gs; queue = fs }))
Sound-round m gs start_set f fs sound =
    visit-Sound m start_set (callees m f) (record { gvs = gs; queue = fs })
      (λ c called. step (sound f (ground (arith, same_refl f))) called)
      (λ n h. sound n (ground (arith, h)))

drain-closed :
    (m : Module) (start_set : List Gv) (fuel : ℕ) (gs : List Gv) (queue : List String)
    (out : List Gv)
    → drain m fuel (record { gvs = gs; queue = queue }) ≡ some out
    → Covered m (record { gvs = gs; queue = queue })
    → Sound m start_set (record { gvs = gs; queue = queue })
    → Covered m (record { gvs = out; queue = [] })
      × Sound m start_set (record { gvs = out; queue = [] })
      × ((g : Gv) → has_gv g gs ≡ true → has_gv g out ≡ true)
unfolding drain
drain-closed m start_set zero gs queue out h covered sound = absurd (cc)
drain-closed m start_set (suc fuel) gs [] out h covered sound =
    let same_set : gs ≡ out = ground (arith, h) in
    subst
      (λ (o : List Gv).
        Covered m (record { gvs = o; queue = [] })
        × Sound m start_set (record { gvs = o; queue = [] })
        × ((g : Gv) → has_gv g gs ≡ true → has_gv g o ≡ true))
      same_set (covered, sound, λ g inside. inside)
drain-closed m start_set (suc fuel) gs (f ∷ fs) out h covered sound =
    let w : Work = visit (callees m f) (record { gvs = gs; queue = fs }) in
    let (cov, snd, grows) =
      drain-closed m start_set fuel w.gvs w.queue out h (Covered-round m gs f fs covered)
        (Sound-round m gs start_set f fs sound) in
    (
      cov,
      snd,
      λ g inside. grows g (visit-grows g (callees m f) (record { gvs = gs; queue = fs }) inside),
    )

start_queue-has :
    (f : String) (gs : List Gv) (queue : List String)
    → has_name f (start_queue gs queue) ≡ (has_gv (function f) gs || has_name f queue)
unfolding start_queue
start_queue-has f [] queue = refl
start_queue-has f (function g ∷ gs) queue =
    ground (arith, start_queue-has f gs (g ∷ queue), same_comm f g)
start_queue-has f (alias _ ∷ gs) queue = start_queue-has f gs queue
start_queue-has f (variable _ ∷ gs) queue = start_queue-has f gs queue

Reaches-kept :
    (m : Module) (gs out : List Gv)
    → Covered m (record { gvs = out; queue = [] })
    → ((g : Gv) → has_gv g gs ≡ true → has_gv g out ≡ true)
    → {n : String} → Reaches m gs n
    → has_gv (function n) out ≡ true
Reaches-kept m gs out covered grows (start {n} inside) = grows (function n) inside
Reaches-kept m gs out covered grows (step {n} {c} reached called) =
    elim (covered n (Reaches-kept m gs out covered grows reached)) [
      | inl q ↦ absurd (ground (arith, q))
      | inr closed ↦ closed c called
    ]

-- When the recursive extraction ends, the functions of its set are exactly those that a chain of
-- direct calls reaches from the functions that were selected.
pub extend-Reaches :
    (m : Module) (fuel : ℕ) (gs out : List Gv) (n : String)
    → extend m fuel gs ≡ some out
    → (has_gv (function n) out ≡ true) ↔ Reaches m gs n
unfolding extend
extend-Reaches m fuel gs out n h =
    let (covered, sound, grows) =
      drain-closed m gs fuel gs (start_queue gs []) out h
        (λ f inside. inl (ground (arith, inside, start_queue-has f gs [])))
        (λ f inside. start (ground (arith, inside, start_queue-has f gs []))) in
    (
      λ inside. sound n (ground (arith, inside)),
      λ reached. Reaches-kept m gs out covered grows reached,
    )
