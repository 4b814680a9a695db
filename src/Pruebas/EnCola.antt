-- ===== src/Pruebas/EnCola.antt =====
-- The queue of a mutex, at a mutex with an owner and one that waits; and the ids at a process created.
use sist_op_tp2c.Base.{
  ℕ, ◌<◌, ◌≡◌, ◌≢◌, ◌⊎◌, refl, Bool, true, false, none, some, [], ◌∷◌, ◌++◌, arith, u32_mod,
}
use sist_op_tp2c.Kernel.Estados.{
  Kernel, Pcb, Mutex, Tcb, inicializar_estados, crear_proceso, buscar_proceso,
}
use sist_op_tp2c.Kernel.Syscalls.{
  en_ejecucion, buscar_mutex, syscall_bloquear_mutex, syscall_desbloquear_mutex,
}
use sist_op_tp2c.Kernel.Alcanzable.{creado, inicio, paso}
use sist_op_tp2c.Kernel.Identidades.{pids}
use sist_op_tp2c.Kernel.Unicos.{PidsUnicos, pasos, Alcanzable-PidsUnicos}
use sist_op_tp2c.Kernel.Cola.{
  cola, cola_de, Despierta, syscall_bloquear_mutex-cola, syscall_desbloquear_mutex-cola,
}

abbrev hilo : ℕ → Tcb
hilo h = record {
  tid = h;
  prioridad = 0;
  pid_padre = 0;
  nombre_archivo = [];
  hilos_bloqueados = [];
}

-- Thread 1 has the mutex, and thread 2 waits.
abbrev mutex_prueba : Mutex
mutex_prueba = record {
  recurso = 82 ∷ [];
  esta_libre = false;
  hilos_bloqueados = 2 ∷ [];
  hilo_asignado = some 1;
}

abbrev pcb_prueba : Pcb
pcb_prueba = record {
  pid = 0;
  tids = 0 ∷ 1 ∷ 2 ∷ [];
  mutex = mutex_prueba ∷ [];
  tamanio = 16;
  ultimo_tid = 2;
  prioridad = 0;
  nombre_archivo = [];
}

abbrev corriendo : ℕ → Kernel
corriendo h = record inicializar_estados {
  tcbs = λ x. some (hilo x);
  siguiente_dir = 3;
  lista_procesos = pcb_prueba ∷ [];
  siguiente_pid = 1;
  estado_exec = some h;
  estado_blocked = 2 ∷ [];
}

corre : (h : ℕ) → en_ejecucion (corriendo h) ≡ some (h, hilo h)
unfolding en_ejecucion
corre h = refl

suyo : buscar_proceso 0 (pcb_prueba ∷ []) ≡ some pcb_prueba
unfolding buscar_proceso
suyo = refl

hay : buscar_mutex (82 ∷ []) (mutex_prueba ∷ []) ≡ some mutex_prueba
unfolding buscar_mutex
hay = refl

-- Thread 0 asks for the mutex.
syscall_bloquear_mutex-cola_example :
    (b : Bool) × (k1 : Kernel) × (syscall_bloquear_mutex (82 ∷ []) (corriendo 0) ≡ some (b, k1))
    × (cola_de (82 ∷ []) 0 k1 ≡ some (cola mutex_prueba ++ 0 ∷ []))
    × (((cola mutex_prueba ≡ [])
          × (b ≡ true)
          × (k1.estado_exec ≡ some 0)
          × (k1.estado_blocked ≡ (corriendo 0).estado_blocked))
        ⊎ ((cola mutex_prueba ≢ [])
            × (b ≡ false)
            × (k1.estado_exec ≡ none)
            × (k1.estado_blocked ≡ (corriendo 0).estado_blocked ++ 0 ∷ [])))
syscall_bloquear_mutex-cola_example =
    syscall_bloquear_mutex-cola (82 ∷ []) (corriendo 0) 0 (hilo 0) pcb_prueba mutex_prueba (corre 0)
      suyo hay (((1, refl), tt), tt)

-- Thread 1 gives it back.
syscall_desbloquear_mutex-cola_example :
    (k1 : Kernel) × (syscall_desbloquear_mutex (82 ∷ []) (corriendo 1) ≡ some k1)
    × (cola_de (82 ∷ []) 0 k1 ≡ some (2 ∷ []))
    × Despierta (2 ∷ []) (corriendo 1) k1
syscall_desbloquear_mutex-cola_example =
    syscall_desbloquear_mutex-cola (82 ∷ []) (corriendo 1) 1 (hilo 1) pcb_prueba mutex_prueba
      (corre 1) suyo hay 1 (2 ∷ []) (hilo 1) refl refl refl

un_paso : pasos (paso inicio (creado (105 ∷ []) 16 0)) < u32_mod
unfolding pasos
un_paso = omega arith

Alcanzable-PidsUnicos_example :
    PidsUnicos (pids (crear_proceso (105 ∷ []) 16 0 inicializar_estados))
Alcanzable-PidsUnicos_example = Alcanzable-PidsUnicos (paso inicio (creado (105 ∷ []) 16 0)) un_paso
