-- ===== src/Kernel/Despacho.antt =====
-- A round of the short-term scheduler: the READY threads, their count and EXEC.
use mathlib.Core.List.Perm
use mathlib.Core.List.{Perm}
use sist_op_tp2c.Base.{
  ℕ, ◌<◌, ◌-◌, ◌≡◌, refl, ap, subst, true, false, sym, ◌∙◌, length, Option, some, List, [], ◌∷◌,
  ◌==◌, arith, Bool-cases, >>=-eq-some, inl, inr,
}
use sist_op_tp2c.Kernel.Estados.{Kernel, Tcb, primero, contiene, quitar, transicion_ready_a_exec}
use sist_op_tp2c.Kernel.CortoPlazo.{
  AlgoritmoPlanificacion, fifo, prioridades, cmn, otro, ListGetMinimum, con_prioridad,
  filtrar_por_mayor_prioridad, comparar_mayor_prioridad, elegir_por_prioridad,
  obtener_siguiente_a_exec_fifo, obtener_siguiente_a_exec_prioridades, obtener_siguiente_a_exec,
  planificar,
}
use sist_op_tp2c.Kernel.Semaforos.{Sincronizado, length-quitar}

contiene-filtrado :
    (p : ℕ) (tcbs : ℕ → Option Tcb) (hs : List ℕ) (xs : List (ℕ × ℕ)) (x : ℕ × ℕ)
    → con_prioridad tcbs hs ≡ some xs
    → primero (filtrar_por_mayor_prioridad p xs) ≡ some x
    → contiene x.0 hs ≡ true
unfolding con_prioridad primero filtrar_por_mayor_prioridad contiene
contiene-filtrado p tcbs [] [] x e f = cc
contiene-filtrado p tcbs [] (y ∷ ys) x e f = cc
contiene-filtrado p tcbs (h ∷ hs) [] x e f = cc
contiene-filtrado p tcbs (h ∷ hs) (y ∷ ys) x e f =
    let t = >>=-eq-some (tcbs h) _ e in
    let r = >>=-eq-some (con_prioridad tcbs hs) _ t.2 in
    let primera : (h, t.0.prioridad) ≡ y = cc in
    let cola : r.0 ≡ ys = cc in
    let suyo : h ≡ y.0 = ap (λ (z : ℕ × ℕ). z.0) primera in
    let resto : con_prioridad tcbs hs ≡ some ys = cc in
    elim (Bool-cases (y.1 == p)) [
      | inl si ↦
          let mismo : y ≡ x = cc (rw si at f) in
          let igual : y.0 ≡ x.0 = ap (λ (z : ℕ × ℕ). z.0) mismo in ground arith
      | inr ni ↦ let ih = contiene-filtrado p tcbs hs ys x resto (rw ni at f) in ground arith
    ]

contiene-prioridades :
    (list_get_minimum : ListGetMinimum) (k : Kernel) (h : ℕ)
    → obtener_siguiente_a_exec_prioridades list_get_minimum k ≡ some h
    → contiene h k.estado_ready ≡ true
unfolding obtener_siguiente_a_exec_prioridades elegir_por_prioridad
contiene-prioridades list_get_minimum k h e =
    let c = >>=-eq-some (con_prioridad k.tcbs k.estado_ready) _ e in
    let m = >>=-eq-some (list_get_minimum comparar_mayor_prioridad c.0) _ c.2 in
    let f = >>=-eq-some (primero (filtrar_por_mayor_prioridad m.0.1 c.0)) _ m.2 in
    let igual : f.0.0 ≡ h = cc in
    subst (λ x. contiene x k.estado_ready ≡ true) igual
      (contiene-filtrado m.0.1 k.tcbs k.estado_ready c.0 f.0 c.1 f.1)

contiene-primero : (hs : List ℕ) (h : ℕ) → primero hs ≡ some h → contiene h hs ≡ true
unfolding primero contiene
contiene-primero [] h e = cc
contiene-primero (x ∷ xs) h e = ground arith

contiene-elegido :
    (list_get_minimum : ListGetMinimum) (a : AlgoritmoPlanificacion) (k : Kernel) (h : ℕ)
    → obtener_siguiente_a_exec list_get_minimum a k ≡ some h
    → contiene h k.estado_ready ≡ true
unfolding obtener_siguiente_a_exec obtener_siguiente_a_exec_fifo
contiene-elegido list_get_minimum fifo k h e = contiene-primero k.estado_ready h e
contiene-elegido list_get_minimum prioridades k h e = contiene-prioridades list_get_minimum k h e
contiene-elegido list_get_minimum cmn k h e = contiene-prioridades list_get_minimum k h e
contiene-elegido list_get_minimum otro k h e = cc

quitar-Perm : (h : ℕ) (xs : List ℕ) → contiene h xs ≡ true → Perm xs (h ∷ quitar h xs)
unfolding contiene quitar
quitar-Perm h [] c = cc
quitar-Perm h (x ∷ xs) c = elim (Bool-cases (x == h)) [
  | inl si ↦ let v : x ≡ h = ground arith in rw si (rw v (Perm.refl _))
  | inr ni ↦
      let c1 : contiene h xs ≡ true = ground arith in
      rw ni (Perm.trans (Perm.cons x (quitar-Perm h xs c1)) (Perm.swap _ _ _))
]

-- For each planning algorithm and any `list_get_minimum`: if the semaphore equals the number of READY
-- threads and a round of the short-term scheduler dispatches a thread, the semaphore equals the number
-- again, the thread is in EXEC, and READY lost this thread and no other.
pub planificar_lem :
    (list_get_minimum : ListGetMinimum) (a : AlgoritmoPlanificacion) (k k1 : Kernel) (h : ℕ)
    → Sincronizado k
    → planificar list_get_minimum a k ≡ some (h, k1)
    → Sincronizado k1 × (k1.estado_exec ≡ some h) × Perm k.estado_ready (h ∷ k1.estado_ready)
unfolding planificar transicion_ready_a_exec
planificar_lem list_get_minimum a k k1 h s e = elim (Bool-cases (k.semaforo_estado_ready == 0)) [
  | inl si ↦ let f = rw si at e in cc
  | inr ni ↦
      let c = >>=-eq-some (obtener_siguiente_a_exec list_get_minimum a k) _ (rw ni at e) in
      let igual : (
        c.0,
        transicion_ready_a_exec c.0
            (record k { semaforo_estado_ready = k.semaforo_estado_ready - 1 }),
      )
          ≡ (h, k1) =
        cc in
      let dentro = contiene-elegido list_get_minimum a k c.0 c.1 in
      subst
        (λ (r : ℕ × Kernel).
          Sincronizado r.1
          × (r.1.estado_exec ≡ some r.0)
          × Perm k.estado_ready (r.0 ∷ r.1.estado_ready))
        igual
        (
          omega (arith, length-quitar c.0 k.estado_ready dentro),
          refl,
          quitar-Perm c.0 k.estado_ready dentro,
        )
]

no_vacia : (xs : List ℕ) → 0 < length xs → (x : ℕ) × (ys : List ℕ) × (xs ≡ x ∷ ys)
no_vacia [] h = absurd (omega arith)
no_vacia (x ∷ xs) h = (x, xs, refl)

-- With FIFO: if the semaphore is positive and equals the number of READY threads, the round of the
-- scheduler does dispatch a thread, the first one in READY, and the others stay in their order.
pub planificar_fifo_lem :
    (list_get_minimum : ListGetMinimum) (k : Kernel)
    → Sincronizado k
    → 0 < k.semaforo_estado_ready
    → (h : ℕ) × (k1 : Kernel) × (planificar list_get_minimum fifo k ≡ some (h, k1))
      × (k.estado_ready ≡ h ∷ k1.estado_ready)
unfolding planificar transicion_ready_a_exec obtener_siguiente_a_exec obtener_siguiente_a_exec_fifo
    primero quitar
planificar_fifo_lem list_get_minimum k s positivo =
    let (x, ys, e) = no_vacia k.estado_ready (omega arith) in
    let abierto : (k.semaforo_estado_ready == 0) ≡ false = ground arith in
    let elegido : primero k.estado_ready ≡ some x = rw e refl in
    let mismo : (x == x) ≡ true = ground arith in
    let quitado : quitar x k.estado_ready ≡ ys = rw e (rw mismo refl) in
    (
      x,
      transicion_ready_a_exec x (record k { semaforo_estado_ready = k.semaforo_estado_ready - 1 }),
      rw abierto (rw elegido refl),
      e ∙ ap (◌∷◌ x) (sym quitado),
    )
