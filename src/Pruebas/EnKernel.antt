-- ===== src/Pruebas/EnKernel.antt =====
-- The theorems of the kernel at a few threads.
use mathlib.Core.List.{Perm, Mem, mem-cons, mem-cons_self, not-mem-nil, Mem-prop}
use mathlib.Core.Logic.Or
use sist_op_tp2c.Base.{
  ℕ, ◌≤◌, ◌≡◌, ◌⊎◌, inl, inr, refl, sym, ap, subst, ◌∙◌, true, false, none, some, List, [], ◌∷◌,
  arith, ltb, leb, if◌then◌else◌, Bool-cases,
}
use sist_op_tp2c.Kernel.Estados.{
  Kernel, Tcb, Mutex, inicializar_estados, crear_proceso, quitar, primero, transicion_ready_a_exec,
}
use sist_op_tp2c.Kernel.CortoPlazo.{
  ListGetMinimum, fifo, con_prioridad, obtener_siguiente_a_exec, obtener_siguiente_a_exec_fifo,
  obtener_siguiente_a_exec_prioridades, planificar,
}
use sist_op_tp2c.Kernel.Eleccion.{MinimoPorClave, PrimeroConMenorNumero, elegir_por_prioridad_lem}
use sist_op_tp2c.Kernel.Semaforos.{Sincronizado}
use sist_op_tp2c.Kernel.Despacho.{planificar_lem, planificar_fifo_lem}
use sist_op_tp2c.Kernel.Mutexes.{Coherentes}
use sist_op_tp2c.Kernel.Alcanzable.{
  creado, inicio, paso, Alcanzable-Sincronizado, Alcanzable-Coherentes,
}

-- A minimum by a left fold.
menor : (ℕ × ℕ → ℕ × ℕ → ℕ × ℕ) → ℕ × ℕ → List (ℕ × ℕ) → ℕ × ℕ
menor comparar x [] = x
menor comparar x (y ∷ ys) = menor comparar (comparar x y) ys

abbrev minimo_por_pliegue : ListGetMinimum
minimo_por_pliegue comparar [] = none
minimo_por_pliegue comparar (x ∷ xs) = some (menor comparar x xs)

-- The least of a list by a key.
abbrev EsMenor : (ℕ × ℕ → ℕ) → ℕ × ℕ → List (ℕ × ℕ) → Type 0
EsMenor clave m xs = Mem m xs × ((y : ℕ × ℕ) → Mem y xs → leb (clave m) (clave y) ≡ true)

con_otro :
    (clave : ℕ × ℕ → ℕ) (m x y z : ℕ × ℕ) (ys : List (ℕ × ℕ))
    → (z ≡ x) ⊎ (z ≡ y)
    → clave z ≤ clave x
    → clave z ≤ clave y
    → EsMenor clave m (z ∷ ys)
    → EsMenor clave m (x ∷ y ∷ ys)
con_otro clave m x y z ys cual hx hy e = (
  Or.elim Mem-prop (mem-cons.0 e.0)
      (λ q. elim cual [
        | inl v ↦ subst (λ w. Mem w (x ∷ y ∷ ys)) (sym (q ∙ v)) mem-cons_self
        | inr v ↦ subst (λ w. Mem w (x ∷ y ∷ ys)) (sym (q ∙ v)) (mem-cons.1 (Or.inr mem-cons_self))
      ])
      (λ i. mem-cons.1 (Or.inr (mem-cons.1 (Or.inr i)))),
  λ w i.
      let primero : leb (clave m) (clave z) ≡ true = e.1 z mem-cons_self in
      Or.elim (hlevel) (mem-cons.0 i) (λ q. let v : clave w ≡ clave x = ap clave q in ground arith)
        (λ j.
          Or.elim (hlevel) (mem-cons.0 j)
            (λ q. let v : clave w ≡ clave y = ap clave q in ground arith)
            (λ n. e.1 w (mem-cons.1 (Or.inr n)))),
)

menor-EsMenor :
    (clave : ℕ × ℕ → ℕ) (comparar : ℕ × ℕ → ℕ × ℕ → ℕ × ℕ)
    → ((a b : ℕ × ℕ) → comparar a b ≡ (if ltb (clave a) (clave b) then a else b))
    → (x : ℕ × ℕ) (xs : List (ℕ × ℕ)) → EsMenor clave (menor comparar x xs) (x ∷ xs)
unfolding menor
menor-EsMenor clave comparar c x [] = (
  mem-cons_self,
  λ y i.
      Or.elim (hlevel) (mem-cons.0 i) (λ q. let v : clave y ≡ clave x = ap clave q in ground arith)
        (λ n. absurd (not-mem-nil n)),
)
menor-EsMenor clave comparar c x (y ∷ ys) =
    let resto = menor-EsMenor clave comparar c (comparar x y) ys in
    let igual = c x y in
    elim (Bool-cases (ltb (clave x) (clave y))) [
      | inl si ↦
          let v : comparar x y ≡ x = rw si at igual in
          let w : clave (comparar x y) ≡ clave x = ap clave v in
          let h : clave x ≤ clave y = ground arith in
          con_otro clave _ x y (comparar x y) ys (inl v) (omega arith) (omega arith) resto
      | inr ni ↦
          let v : comparar x y ≡ y = rw ni at igual in
          let w : clave (comparar x y) ≡ clave y = ap clave v in
          let h : clave y ≤ clave x = ground arith in
          con_otro clave _ x y (comparar x y) ys (inr v) (omega arith) (omega arith) resto
    ]

minimo-MinimoPorClave : MinimoPorClave minimo_por_pliegue
minimo-MinimoPorClave clave comparar c x xs =
    let m = menor-EsMenor clave comparar c x xs in
    (menor comparar x xs, refl, m.0, λ y i. let h = m.1 y i in ground arith)

abbrev tcb : ℕ → Tcb
tcb h = record {
  tid = h;
  prioridad = if ltb h 1 then 5 else 2;
  pid_padre = 0;
  nombre_archivo = [];
  hilos_bloqueados = [];
}

abbrev un_mutex : Mutex
un_mutex = record {
  recurso = 82 ∷ [];
  esta_libre = false;
  hilos_bloqueados = [];
  hilo_asignado = some 1;
}

-- Threads 0, 1 and 2 in READY, thread 3 in EXEC, and a mutex that thread 1 holds.
abbrev pub kernel_prueba : Kernel
kernel_prueba = record inicializar_estados {
  tcbs = λ h. some (tcb h);
  siguiente_dir = 4;
  lista_procesos =
      record {
        pid = 0;
        tids = 0 ∷ 1 ∷ 2 ∷ 3 ∷ [];
        mutex = un_mutex ∷ [];
        tamanio = 16;
        ultimo_tid = 3;
        prioridad = 0;
        nombre_archivo = [];
      }
      ∷ [];
  siguiente_pid = 1;
  estado_new = [];
  estado_ready = 0 ∷ 1 ∷ 2 ∷ [];
  estado_exec = some 3;
  estado_blocked = [];
  cola_io = [];
  semaforo_estado_ready = 3;
}

ready_con_prioridad :
    con_prioridad kernel_prueba.tcbs kernel_prueba.estado_ready
    ≡ some ((0, 5) ∷ (1, 2) ∷ (2, 2) ∷ [])
unfolding con_prioridad
ready_con_prioridad = refl

elegir_por_prioridad_example :
    (h : ℕ × ℕ) × (obtener_siguiente_a_exec_prioridades minimo_por_pliegue kernel_prueba ≡ some h.0)
    × PrimeroConMenorNumero ((0, 5) ∷ (1, 2) ∷ (2, 2) ∷ []) h
elegir_por_prioridad_example =
    elegir_por_prioridad_lem minimo_por_pliegue minimo-MinimoPorClave kernel_prueba (0, 5)
      ((1, 2) ∷ (2, 2) ∷ []) ready_con_prioridad

abbrev kernel_despachado : Kernel
kernel_despachado = record kernel_prueba {
  estado_exec = some 0;
  estado_ready = 1 ∷ 2 ∷ [];
  semaforo_estado_ready = 2;
}

despacho : planificar minimo_por_pliegue fifo kernel_prueba ≡ some (0, kernel_despachado)
unfolding planificar obtener_siguiente_a_exec obtener_siguiente_a_exec_fifo primero
    transicion_ready_a_exec quitar
despacho = refl

planificar_example :
    Sincronizado kernel_despachado
    × (kernel_despachado.estado_exec ≡ some 0)
    × Perm kernel_prueba.estado_ready (0 ∷ kernel_despachado.estado_ready)
planificar_example =
    planificar_lem minimo_por_pliegue fifo kernel_prueba kernel_despachado 0 refl despacho

planificar_fifo_example :
    (h : ℕ) × (k1 : Kernel) × (planificar minimo_por_pliegue fifo kernel_prueba ≡ some (h, k1))
    × (kernel_prueba.estado_ready ≡ h ∷ k1.estado_ready)
planificar_fifo_example = planificar_fifo_lem minimo_por_pliegue kernel_prueba refl (omega arith)

Alcanzable-Sincronizado_example : Sincronizado (crear_proceso (105 ∷ []) 16 0 inicializar_estados)
Alcanzable-Sincronizado_example = Alcanzable-Sincronizado (paso inicio (creado (105 ∷ []) 16 0))

Alcanzable-Coherentes_example : Coherentes (crear_proceso (105 ∷ []) 16 0 inicializar_estados)
Alcanzable-Coherentes_example = Alcanzable-Coherentes (paso inicio (creado (105 ∷ []) 16 0))
