-- ===== src/Kernel/Eleccion.antt =====
-- Which READY thread the short-term scheduler dispatches.
use mathlib.Core.List.{Mem, mem_of_ne_of_mem, mem-cons, not-mem-nil, mem-cons_self}
use mathlib.Core.Logic.Or
use sist_op_tp2c.Base.{
  ℕ, ◌≤◌, ◌<◌, ◌≡◌, ◌≢◌, refl, sym, ap, ◌∙◌, some, List, [], ◌∷◌, ◌++◌, ◌==◌, if◌then◌else◌, arith,
  Bool-cases, ltb, inl, inr,
}
use sist_op_tp2c.Kernel.Estados.{Kernel, primero}
use sist_op_tp2c.Kernel.CortoPlazo.{
  ListGetMinimum, con_prioridad, comparar_mayor_prioridad, filtrar_por_mayor_prioridad,
  elegir_por_prioridad, obtener_siguiente_a_exec_prioridades,
}

-- `list_get_minimum` of a list that is not empty, by a comparison that returns the argument with the
-- smaller key, the second one where the keys are equal: an element that no other has a smaller key.
abbrev pub MinimoPorClave : ListGetMinimum → Type 0
MinimoPorClave list_get_minimum =
    (clave : ℕ × ℕ → ℕ) (comparar : ℕ × ℕ → ℕ × ℕ → ℕ × ℕ)
    → ((a b : ℕ × ℕ) → comparar a b ≡ (if ltb (clave a) (clave b) then a else b))
    → (x : ℕ × ℕ) (xs : List (ℕ × ℕ))
    → (m : ℕ × ℕ) × (list_get_minimum comparar (x ∷ xs) ≡ some m)
      × Mem m (x ∷ xs)
      × ((y : ℕ × ℕ) → Mem y (x ∷ xs) → clave m ≤ clave y)

-- The priorities are all above a bound, or all at least it.
abbrev pub TodasMayores : ℕ → List (ℕ × ℕ) → Type 0
TodasMayores p [] = Unit {0}
TodasMayores p (y ∷ ys) = (p < y.1) × TodasMayores p ys

abbrev pub TodasDesde : ℕ → List (ℕ × ℕ) → Type 0
TodasDesde p [] = Unit {0}
TodasDesde p (y ∷ ys) = (p ≤ y.1) × TodasDesde p ys

-- The thread and its priority, with the READY threads before it and after it: no one has a smaller
-- number, and each one before it has a greater number.
abbrev pub PrimeroConMenorNumero : List (ℕ × ℕ) → ℕ × ℕ → Type 0
PrimeroConMenorNumero xs h =
    (antes : List (ℕ × ℕ)) × (despues : List (ℕ × ℕ)) × (xs ≡ antes ++ h ∷ despues)
    × TodasMayores h.1 antes
    × TodasDesde h.1 despues

desde : (p : ℕ) (xs : List (ℕ × ℕ)) → ((y : ℕ × ℕ) → Mem y xs → p ≤ y.1) → TodasDesde p xs
desde p [] h = tt
desde p (x ∷ xs) h = (h x (mem-cons_self), desde p xs (λ y m. h y (mem-cons.1 (Or.inr m))))

pub filtrar-primero :
    (p : ℕ) (xs : List (ℕ × ℕ)) (m : ℕ × ℕ)
    → Mem m xs
    → m.1 ≡ p
    → ((y : ℕ × ℕ) → Mem y xs → p ≤ y.1)
    → (h : ℕ) × (primero (filtrar_por_mayor_prioridad p xs) ≡ some (h, p))
      × PrimeroConMenorNumero xs (h, p)
unfolding primero filtrar_por_mayor_prioridad
filtrar-primero p [] m i e h = absurd (not-mem-nil i)
filtrar-primero p (x ∷ xs) m i e h = elim (Bool-cases (x.1 == p)) [
  | inl si ↦
      let v : x.1 ≡ p = ground arith in
      rw si (
        x.0,
        ap (λ q. some (x.0, q)) v,
        ([], xs, ap (λ q. (x.0, q) ∷ xs) v, tt, desde p xs (λ y n. h y (mem-cons.1 (Or.inr n)))),
      )
  | inr ni ↦
      let no : x.1 ≢ p = ground arith in
      let otro : m ≢ x = λ c. no (sym (ap (λ (y : ℕ × ℕ). y.1) c) ∙ e) in
      let menor : p ≤ x.1 = h x mem-cons_self in
      let r =
        filtrar-primero p xs m (mem_of_ne_of_mem otro i) e (λ y n. h y (mem-cons.1 (Or.inr n))) in
      rw ni (r.0, r.1, (x ∷ r.2.0, r.2.1, ap (◌∷◌ x) r.2.2, (ground arith, r.2.3), r.2.4))
]

-- With PRIORIDADES (and CMN), for a `list_get_minimum` that returns an element of the smallest key,
-- and READY threads that are all alive and at least one: the scheduler chooses a thread, no READY
-- thread has a smaller priority number, and each thread before it in READY has a greater number.
pub elegir_por_prioridad_lem :
    (list_get_minimum : ListGetMinimum)
    → MinimoPorClave list_get_minimum
    → (k : Kernel) (x : ℕ × ℕ) (xs : List (ℕ × ℕ))
    → con_prioridad k.tcbs k.estado_ready ≡ some (x ∷ xs)
    → (h : ℕ × ℕ) × (obtener_siguiente_a_exec_prioridades list_get_minimum k ≡ some h.0)
      × PrimeroConMenorNumero (x ∷ xs) h
unfolding obtener_siguiente_a_exec_prioridades elegir_por_prioridad comparar_mayor_prioridad
elegir_por_prioridad_lem list_get_minimum minimo k x xs e =
    let r = minimo (λ y. y.1) comparar_mayor_prioridad (λ a b. refl) x xs in
    let f = filtrar-primero r.0.1 (x ∷ xs) r.0 r.2 refl r.3 in
    let igual : obtener_siguiente_a_exec_prioridades list_get_minimum k ≡ some f.0 =
      rw e (rw r.1 (rw f.1 refl)) in
    ((f.0, r.0.1), igual, f.2)
