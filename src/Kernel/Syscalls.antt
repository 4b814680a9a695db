-- ===== src/Kernel/Syscalls.antt =====
-- kernel/src/kernel-utils/syscalls.c: the system calls of threads, mutexes, I/O and dumps. A call
-- runs for the thread in EXEC; the packets that it sends to the memory have no effect on the state.
use sist_op_tp2c.Base.{
  iguales, ℕ, ◌+◌, Bool, true, false, ◌&&◌, Option, none, some, List, [], ◌∷◌, ◌++◌, ◌>>=◌, ◌==◌,
  if◌then◌else◌, add32,
}
use sist_op_tp2c.Kernel.Estados.{
  Kernel, Pcb, Tcb, Mutex, buscar_proceso, guardar_proceso, con_tcb, contiene,
  transicion_exec_a_blocked, transicion_blocked_a_ready,
}

-- The thread in EXEC with its TCB.
unfoldable pub en_ejecucion : Kernel → Option (ℕ × Tcb)
en_ejecucion k = k.estado_exec >>= λ h. k.tcbs h >>= λ t. some (h, t)

-- `list_find` by `existe_tid_y_pid_en_lista`: `some none` is NULL.
unfoldable pub buscar_hilo_en : (ℕ → Option Tcb) → ℕ → ℕ → List ℕ → Option (Option ℕ)
buscar_hilo_en tcbs pid tid [] = some none
buscar_hilo_en tcbs pid tid (h ∷ hs) =
    let resto = buscar_hilo_en tcbs pid tid hs in
    tcbs h >>= λ t. if (t.tid == tid) && (t.pid_padre == pid) then some (some h) else resto

-- Where READY and BLOCKED do not have it, EXEC is compared by its tid only.
unfoldable pub buscar_hilo_en_exec : ℕ → Kernel → Option (Option ℕ)
unfolding en_ejecucion
buscar_hilo_en_exec tid k =
    en_ejecucion k >>= λ e. if e.1.tid == tid then some (some e.0) else some none

unfoldable pub buscar_hilo_en_proceso : Pcb → ℕ → Kernel → Option (Option ℕ)
buscar_hilo_en_proceso p tid k =
    if contiene tid p.tids
    then (buscar_hilo_en k.tcbs p.pid tid k.estado_ready >>= λ r. elim r [
      | some h ↦ some (some h)
      | none ↦ buscar_hilo_en k.tcbs p.pid tid k.estado_blocked >>= λ b. elim b [
        | some h ↦ some (some h)
        | none ↦ buscar_hilo_en_exec tid k
      ]
    ])
    else some none

unfoldable pub syscall_crear_hilo : List ℕ → ℕ → Kernel → Option Kernel
syscall_crear_hilo archivo prioridad k = do
  e ← en_ejecucion k
  p ← buscar_proceso e.1.pid_padre k.lista_procesos
  let tid : ℕ = add32 p.ultimo_tid 1
  let h : ℕ = k.siguiente_dir
  let k1 : Kernel =
      con_tcb h
        (some (record {
          tid = tid;
          prioridad = prioridad;
          pid_padre = e.1.pid_padre;
          nombre_archivo = archivo;
          hilos_bloqueados = [];
        }))
        k
  let k2 : Kernel = guardar_proceso (record p { ultimo_tid = tid; tids = p.tids ++ tid ∷ [] }) k1
  some (record k2 {
    siguiente_dir = k.siguiente_dir + 1;
    estado_ready = k.estado_ready ++ h ∷ [];
    semaforo_estado_ready = k.semaforo_estado_ready + 1;
  })

-- The caller waits for the thread that was found, if one was.
unfoldable pub esperar_a : ℕ → Option ℕ → Kernel → Option (Bool × Kernel)
esperar_a invocador none k = some (false, k)
esperar_a invocador (some h) k = do
  t ← k.tcbs h
  k1 ←
      transicion_exec_a_blocked
        (con_tcb h (some (record t { hilos_bloqueados = t.hilos_bloqueados ++ invocador ∷ [] })) k)
  some (true, k1)

-- The answer is whether the thread was blocked.
unfoldable pub syscall_esperar_hilo : ℕ → Kernel → Option (Bool × Kernel)
syscall_esperar_hilo tid k = do
  e ← en_ejecucion k
  p ← buscar_proceso e.1.pid_padre k.lista_procesos
  a_esperar ← buscar_hilo_en_proceso p tid k
  esperar_a e.0 a_esperar k

-- `list_find` by `encontrar_mutex_proceso_en_ejecucion`, and the writes through its pointer.
unfoldable pub buscar_mutex : List ℕ → List Mutex → Option Mutex
buscar_mutex recurso [] = none
buscar_mutex recurso (m ∷ ms) =
    let resto = buscar_mutex recurso ms in if iguales m.recurso recurso then some m else resto

unfoldable pub cambiar_mutex : List ℕ → Mutex → List Mutex → List Mutex
cambiar_mutex recurso n [] = []
cambiar_mutex recurso n (m ∷ ms) =
    let resto = cambiar_mutex recurso n ms in
    if iguales m.recurso recurso then n ∷ ms else m ∷ resto

unfoldable pub syscall_crear_mutex : List ℕ → Kernel → Option Kernel
syscall_crear_mutex recurso k = do
  e ← en_ejecucion k
  p ← buscar_proceso e.1.pid_padre k.lista_procesos
  let nuevo : Mutex = record {
    recurso = recurso;
    esta_libre = true;
    hilos_bloqueados = [];
    hilo_asignado = none;
  }
  some (guardar_proceso (record p { mutex = p.mutex ++ nuevo ∷ [] }) k)

-- The mutex and the answer of the call, which is whether the thread holds the mutex.
unfoldable pub tomar_mutex : ℕ → Mutex → Bool × Mutex
tomar_mutex h m =
    if m.esta_libre
    then (true, record m { esta_libre = false; hilo_asignado = some h })
    else (false, record m { hilos_bloqueados = m.hilos_bloqueados ++ h ∷ [] })

unfoldable pub syscall_bloquear_mutex : List ℕ → Kernel → Option (Bool × Kernel)
syscall_bloquear_mutex recurso k = do
  e ← en_ejecucion k
  p ← buscar_proceso e.1.pid_padre k.lista_procesos
  m ← buscar_mutex recurso p.mutex
  let tomado : Bool × Mutex = tomar_mutex e.0 m
  let k1 : Kernel = guardar_proceso (record p { mutex = cambiar_mutex recurso tomado.1 p.mutex }) k
  if tomado.0 then some (true, k1) else (transicion_exec_a_blocked k1 >>= λ k2. some (false, k2))

-- The mutex after its owner leaves it, and the thread that goes to READY.
unfoldable pub ceder_mutex : Mutex → Mutex × Option ℕ
ceder_mutex m = elim m.hilos_bloqueados [
  | [] ↦ (record m { esta_libre = true; hilo_asignado = none }, none)
  | h ∷ hs ↦ (record m { hilos_bloqueados = hs; hilo_asignado = some h }, some h)
]

unfoldable pub despertar : Option ℕ → Kernel → Kernel
despertar none k = k
despertar (some h) k = transicion_blocked_a_ready h k

unfoldable pub syscall_desbloquear_mutex : List ℕ → Kernel → Option Kernel
syscall_desbloquear_mutex recurso k = do
  e ← en_ejecucion k
  p ← buscar_proceso e.1.pid_padre k.lista_procesos
  m ← buscar_mutex recurso p.mutex
  d ← m.hilo_asignado
  duenio ← k.tcbs d
  let cedido : Mutex × Option ℕ = ceder_mutex m
  if e.1.tid == duenio.tid
      then some (
          despertar cedido.1
            (guardar_proceso (record p { mutex = cambiar_mutex recurso cedido.0 p.mutex }) k))
      else some k

unfoldable pub syscall_io : ℕ → Kernel → Option Kernel
syscall_io tiempo k = do
  e ← en_ejecucion k
  k1 ← transicion_exec_a_blocked k
  some (record k1 {
    cola_io = k1.cola_io ++ record { hilo = e.0; tiempo = tiempo } ∷ [];
    semaforo_io = k1.semaforo_io + 1;
  })

-- The answer is awaited by another thread, `esperar_respuesta_dump_memory`.
unfoldable pub syscall_dump_memory : Kernel → Option Kernel
syscall_dump_memory k = en_ejecucion k >>= λ e. transicion_exec_a_blocked k
