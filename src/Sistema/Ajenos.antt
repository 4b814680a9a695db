-- ===== src/Sistema/Ajenos.antt =====
-- The ids of the processes of the memory against the ones that the kernel has given.
use sist_op_tp2c.Base.{
  ℕ, ◌+◌, ◌<◌, ◌≡◌, ◌≢◌, sym, ap, ◌∙◌, true, some, List, [], ◌∷◌, ◌++◌, ◌==◌, add32, u32_mod, arith,
  All, Cumple, Cumple->>=_any, Cumple-if,
}
use sist_op_tp2c.Utils.Mensajes.{codigo, operacion_confirmar}
use sist_op_tp2c.Memoria.Estructuras.{EstructuraProceso}
use sist_op_tp2c.Memoria.Procesos.{SinPid}
use sist_op_tp2c.Kernel.Estados.{Kernel, quitar, primero, buscar_proceso, con_tcb}
use sist_op_tp2c.Kernel.LargoPlazo.{
  planificador_largo_plazo, inicializar_proceso, crear_hilo_principal, transicion_new_a_ready,
}
use sist_op_tp2c.Kernel.Identidades.{Pids, pids, guardar-MismosPids}
use sist_op_tp2c.Kernel.Cambios.{Cambio, mismos, sin, nuevo, iniciado}
use sist_op_tp2c.Sistema.Ids.{ids}
use sist_op_tp2c.Kernel.Unicos.{UnicosBajo, quitar-All, snoc-All}

-- Each id was given before, and is not of a process that waits in NEW.
abbrev pub Ajenos : Pids → List ℕ → Type 0
Ajenos (ps, news, n) = All (λ q. (q < n) × All (λ y. y ≢ q) news)

-- The ids once the process at the head of NEW is in READY.
abbrev pub sin_primero : ℕ → Kernel → Pids
sin_primero pid k = ((pids k).0, quitar pid k.estado_new, k.siguiente_pid)

All-imp : (P Q : ℕ → Type 0) (xs : List ℕ) → ((x : ℕ) → P x → Q x) → All P xs → All Q xs
All-imp P Q [] f h = tt
All-imp P Q (x ∷ xs) f h = (f x h.0, All-imp P Q xs f h.1)

-- A step of the kernel keeps that.
pub Cambio-Ajenos :
    (k : Kernel) {q : Pids} (xs : List ℕ)
    → Cambio k q
    → k.siguiente_pid + 1 < u32_mod
    → Ajenos (pids k) xs
    → Ajenos q xs
Cambio-Ajenos k xs mismos h a = a
Cambio-Ajenos k xs (sin pid) h a = a
Cambio-Ajenos k xs nuevo h a =
    let igual : add32 k.siguiente_pid 1 ≡ k.siguiente_pid + 1 = omega arith in
    rw igual (
      All-imp _ _ xs
        (λ x (menor, otros). (
          omega arith,
          snoc-All (λ y. y ≢ x) k.estado_new k.siguiente_pid otros (λ e. omega arith),
        ))
        a)
Cambio-Ajenos k xs (iniciado pid) h a =
    All-imp _ _ xs (λ x b. (b.0, quitar-All (λ y. y ≢ x) pid k.estado_new b.1)) a

primero-ne : (pid x : ℕ) (news : List ℕ) → primero news ≡ some pid → All (λ y. y ≢ x) news → x ≢ pid
unfolding primero
primero-ne pid x [] e a q = cc
primero-ne pid x (y ∷ ys) e a q = a.0 cc

-- The process at the head of NEW is not in the memory.
pub primero-SinPid :
    (k : Kernel) (pid : ℕ) (ps : List EstructuraProceso)
    → primero k.estado_new ≡ some pid
    → Ajenos (pids k) (ids ps)
    → SinPid pid ps
primero-SinPid k pid [] e a = tt
primero-SinPid k pid (p ∷ ps) e a =
    (primero-ne pid p.pid k.estado_new e a.0.1, primero-SinPid k pid ps e a.1)

-- Its start takes it out of NEW.
pub iniciar-pids :
    (k : Kernel) (pid : ℕ)
    → primero k.estado_new ≡ some pid
    → Cumple
        (λ k1. pids k1 ≡ sin_primero pid k)
        (planificador_largo_plazo operacion_confirmar operacion_confirmar k)
unfolding planificador_largo_plazo inicializar_proceso crear_hilo_principal transicion_new_a_ready
    con_tcb codigo
iniciar-pids k pid e = Cumple-if _ (k.semaforo_memoria_suficiente == 0) _ _ tt (
    Cumple-if _ (k.semaforo_estado_new == 0) _ _ tt (
      rw e (
        Cumple->>=_any _ (buscar_proceso pid k.lista_procesos) _ (λ p _.
          ap (λ (q : Pids). (q.0, quitar pid k.estado_new, k.siguiente_pid))
            (guardar-MismosPids (record p { tids = p.tids ++ 0 ∷ [] }) k)))))

cabeza-unica :
    (n pid : ℕ) (news : List ℕ)
    → primero news ≡ some pid
    → UnicosBajo n news
    → (pid < n) × All (λ y. y ≢ pid) (quitar pid news)
unfolding primero quitar
cabeza-unica n pid [] e u = cc
cabeza-unica n pid (y ∷ ys) e u =
    let igual : y ≡ pid = cc in
    let si : (y == pid) ≡ true = ground arith in
    rw si (let menor = u.0 in omega arith, All-imp _ _ ys (λ z d q. d (igual ∙ sym q)) u.1)

pub iniciado-Ajenos :
    (k : Kernel) (pid : ℕ) (xs : List ℕ)
    → primero k.estado_new ≡ some pid
    → UnicosBajo k.siguiente_pid k.estado_new
    → Ajenos (pids k) xs
    → Ajenos (sin_primero pid k) (xs ++ pid ∷ [])
iniciado-Ajenos k pid xs e u a =
    snoc-All _ xs pid
      (All-imp _ _ xs (λ x b. (b.0, quitar-All (λ y. y ≢ x) pid k.estado_new b.1)) a)
      (cabeza-unica k.siguiente_pid pid k.estado_new e u)
