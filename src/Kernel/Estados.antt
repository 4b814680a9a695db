-- ===== src/Kernel/Estados.antt =====
-- kernel/src/kernel-utils/estructuras.h, estados.c and procesos.c: the state of the kernel. A thread
-- control block is an address of a heap; a process control block is known by its id. A step is what
-- runs between two waits of the kernel's threads. `none` is a null or freed pointer that the code
-- follows, an `abort`, or a `sem_wait` that nobody would end.
use sist_op_tp2c.Base.{
  ℕ, ◌+◌, ◌-◌, Bool, true, false, Option, none, some, List, [], ◌∷◌, ◌++◌, ◌>>=◌, ◌==◌,
  if◌then◌else◌, add32,
}

-- `t_tcb`
pub record Tcb : Type 0 where
  pub tid : ℕ
  pub prioridad : ℕ
  pub pid_padre : ℕ
  pub nombre_archivo : List ℕ
  pub hilos_bloqueados : List ℕ

-- `t_mutex`
pub record Mutex : Type 0 where
  pub recurso : List ℕ
  pub esta_libre : Bool
  pub hilos_bloqueados : List ℕ
  pub hilo_asignado : Option ℕ

-- `t_pcb`
pub record Pcb : Type 0 where
  pub pid : ℕ
  pub tids : List ℕ
  pub mutex : List Mutex
  pub tamanio : ℕ
  pub ultimo_tid : ℕ
  pub prioridad : ℕ
  pub nombre_archivo : List ℕ

-- `t_solicitud_io`
pub record SolicitudIo : Type 0 where
  pub hilo : ℕ
  pub tiempo : ℕ

-- The globals. `siguiente_pid` is ULTIMO_PID + 1, and `siguiente_dir` the next address of a TCB.
pub record Kernel : Type 0 where
  pub tcbs : ℕ → Option Tcb
  pub siguiente_dir : ℕ
  pub lista_procesos : List Pcb
  pub siguiente_pid : ℕ
  pub estado_new : List ℕ
  pub estado_ready : List ℕ
  pub estado_exec : Option ℕ
  pub estado_blocked : List ℕ
  pub cola_io : List SolicitudIo
  pub semaforo_estado_new : ℕ
  pub semaforo_memoria_suficiente : ℕ
  pub semaforo_estado_ready : ℕ
  pub semaforo_io : ℕ

unfoldable pub inicializar_estados : Kernel
inicializar_estados = record {
  tcbs = λ h. none;
  siguiente_dir = 0;
  lista_procesos = [];
  siguiente_pid = 0;
  estado_new = [];
  estado_ready = [];
  estado_exec = none;
  estado_blocked = [];
  cola_io = [];
  semaforo_estado_new = 0;
  semaforo_memoria_suficiente = 1;
  semaforo_estado_ready = 0;
  semaforo_io = 0;
}

-- `list_remove_element`: the first occurrence.
unfoldable pub quitar : ℕ → List ℕ → List ℕ
quitar h [] = []
quitar h (x ∷ xs) = let resto = quitar h xs in if x == h then xs else x ∷ resto

unfoldable pub contiene : ℕ → List ℕ → Bool
contiene h [] = false
contiene h (x ∷ xs) = let resto = contiene h xs in if x == h then true else resto

-- A write through a pointer, and `free`.
unfoldable pub con_tcb : ℕ → Option Tcb → Kernel → Kernel
con_tcb h t k = record k { tcbs = λ x. if x == h then t else k.tcbs x }

-- `crear_proceso`; `syscall_crear_proceso` does nothing else. ULTIMO_PID is an `int`, whose overflow C
-- leaves undefined: `siguiente_pid`, one more than it, goes round as the `uint32_t` that it is given to.
unfoldable pub crear_proceso : List ℕ → ℕ → ℕ → Kernel → Kernel
crear_proceso archivo tamanio prioridad k = record k {
  lista_procesos =
      k.lista_procesos
      ++ record {
        pid = k.siguiente_pid;
        tids = [];
        mutex = [];
        tamanio = tamanio;
        ultimo_tid = 0;
        prioridad = prioridad;
        nombre_archivo = archivo;
      }
        ∷ [];
  siguiente_pid = add32 k.siguiente_pid 1;
  estado_new = k.estado_new ++ k.siguiente_pid ∷ [];
  semaforo_estado_new = k.semaforo_estado_new + 1;
}

-- `buscar_proceso`, which aborts where there is none.
unfoldable pub buscar_proceso : ℕ → List Pcb → Option Pcb
buscar_proceso pid [] = none
buscar_proceso pid (p ∷ ps) =
    let resto = buscar_proceso pid ps in if p.pid == pid then some p else resto

-- The writes through the pointer that it returns.
unfoldable pub cambiar_proceso : ℕ → Pcb → List Pcb → List Pcb
cambiar_proceso pid q [] = []
cambiar_proceso pid q (p ∷ ps) =
    let resto = cambiar_proceso pid q ps in if p.pid == pid then q ∷ ps else p ∷ resto

abbrev pub guardar_proceso : Pcb → Kernel → Kernel
guardar_proceso p k = record k { lista_procesos = cambiar_proceso p.pid p k.lista_procesos }

-- The transitions between the states of a thread.
unfoldable pub transicion_exec_a_ready : ℕ → Kernel → Kernel
transicion_exec_a_ready h k = record k {
  estado_exec = none;
  estado_ready = k.estado_ready ++ h ∷ [];
  semaforo_estado_ready = k.semaforo_estado_ready + 1;
}

unfoldable pub transicion_ready_a_exec : ℕ → Kernel → Kernel
transicion_ready_a_exec h k = record k {
  estado_exec = some h;
  estado_ready = quitar h k.estado_ready;
}

-- Its callers have followed the pointer in EXEC, so it is not null.
unfoldable pub transicion_exec_a_blocked : Kernel → Option Kernel
transicion_exec_a_blocked k = k.estado_exec >>= λ h.
    some (record k { estado_exec = none; estado_blocked = k.estado_blocked ++ h ∷ [] })

unfoldable pub transicion_blocked_a_ready : ℕ → Kernel → Kernel
transicion_blocked_a_ready h k = record k {
  estado_blocked = quitar h k.estado_blocked;
  estado_ready = k.estado_ready ++ h ∷ [];
  semaforo_estado_ready = k.semaforo_estado_ready + 1;
}

-- The loop that moves the threads of a list, first to last.
unfoldable pub desbloquear_todos : List ℕ → Kernel → Kernel
desbloquear_todos [] k = k
desbloquear_todos (h ∷ hs) k = desbloquear_todos hs (transicion_blocked_a_ready h k)

-- One round of the I/O device: the wait for the device has no effect on the state.
unfoldable pub atender_solicitudes : List SolicitudIo → Kernel → Option Kernel
atender_solicitudes [] k = none
atender_solicitudes (s ∷ resto) k =
    if k.semaforo_io == 0
    then none
    else some (
        transicion_blocked_a_ready s.hilo
          (record k { cola_io = resto; semaforo_io = k.semaforo_io - 1 }))

unfoldable pub dispositivo_io : Kernel → Option Kernel
dispositivo_io k = atender_solicitudes k.cola_io k

-- `list_get` at 0.
unfoldable pub primero {ℓ} : {A : Type ℓ} → List A → Option A
primero [] = none
primero (x ∷ xs) = some x
