-- ===== src/Kernel/Operaciones.antt =====
-- The count of the READY threads, through each operation of a running thread, the long-term
-- scheduler, the I/O device and the answer to a dump.
use sist_op_tp2c.Base.{
  ℕ, ◌≡◌, Bool, Option, none, some, List, [], ◌∷◌, ◌>>=◌, ◌==◌, arith, length-append, Cumple,
  Cumple->>=, Cumple->>=_any, Cumple-if, Cumple-some,
}
use sist_op_tp2c.Utils.Mensajes.{OpCode, codigo, operacion_confirmar, operacion_notificar_error}
use sist_op_tp2c.Kernel.Estados.{
  Kernel, Pcb, Tcb, buscar_proceso, crear_proceso, con_tcb, SolicitudIo, primero,
  atender_solicitudes, dispositivo_io,
}
use sist_op_tp2c.Kernel.LargoPlazo.{
  crear_hilo_principal, transicion_new_a_ready, inicializar_proceso, planificador_largo_plazo,
}
use sist_op_tp2c.Kernel.Syscalls.{
  en_ejecucion, buscar_hilo_en_proceso, syscall_crear_hilo, esperar_a, syscall_esperar_hilo,
  syscall_crear_mutex, syscall_bloquear_mutex, syscall_desbloquear_mutex, syscall_io,
  syscall_dump_memory, buscar_mutex, tomar_mutex, ceder_mutex,
}
use sist_op_tp2c.Kernel.Finalizar.{syscall_finalizar_proceso}
use sist_op_tp2c.Kernel.Instrucciones.{
  Atendida, Operacion, op_crear_proceso, op_finalizar_proceso, op_crear_hilo, op_finalizar_hilo,
  op_esperar_hilo, op_crear_mutex, op_bloquear_mutex, op_desbloquear_mutex, op_io, op_dump_memory,
  op_desalojar_hilo, op_desconocida, atender_operacion,
}
use sist_op_tp2c.Kernel.Semaforos.{
  Sincronizado, blocked_a_ready-Sincronizado, exec_a_ready-Sincronizado,
  exec_a_blocked-Sincronizado, despertar-Sincronizado, finalizar_hilo-Sincronizado,
  finalizar_proceso-Sincronizado,
}

-- A step that needs the thread in EXEC and its process.
pub con_proceso {ℓ} :
    {A : Type ℓ} (Q : A → Type 0) (k : Kernel) (f : ℕ × Tcb → Pcb → Option A)
    → ((e : ℕ × Tcb) (p : Pcb) → Cumple Q (f e p))
    → Cumple Q
        (en_ejecucion k >>= λ e. buscar_proceso e.1.pid_padre k.lista_procesos >>= λ p. f e p)
con_proceso Q k f g =
    Cumple->>=_any Q (en_ejecucion k) _
      (λ e _. Cumple->>=_any Q (buscar_proceso e.1.pid_padre k.lista_procesos) _ (λ p _. g e p))

crear_hilo-Sincronizado :
    (archivo : List ℕ) (prioridad : ℕ) (k : Kernel)
    → Sincronizado k
    → Cumple Sincronizado (syscall_crear_hilo archivo prioridad k)
unfolding syscall_crear_hilo
crear_hilo-Sincronizado archivo prioridad k s =
    con_proceso Sincronizado k _
      (λ e p. omega (arith, length-append k.estado_ready (k.siguiente_dir ∷ [])))

esperar_a-Sincronizado :
    (invocador : ℕ) (o : Option ℕ) (k : Kernel)
    → Sincronizado k
    → Cumple (λ (r : Bool × Kernel). Sincronizado r.1) (esperar_a invocador o k)
unfolding esperar_a con_tcb
esperar_a-Sincronizado invocador none k s = s
esperar_a-Sincronizado invocador (some h) k s =
    Cumple->>=_any _ (k.tcbs h) _
      (λ t _. Cumple->>= Sincronizado _ _ _ (exec_a_blocked-Sincronizado _ s) (λ k1 h1. h1))

esperar_hilo-Sincronizado :
    (tid : ℕ) (k : Kernel)
    → Sincronizado k
    → Cumple (λ (r : Bool × Kernel). Sincronizado r.1) (syscall_esperar_hilo tid k)
unfolding syscall_esperar_hilo
esperar_hilo-Sincronizado tid k s = con_proceso _ k _ (λ e p.
    Cumple->>=_any _ (buscar_hilo_en_proceso p tid k) _ (λ a _. esperar_a-Sincronizado e.0 a k s))

crear_mutex-Sincronizado :
    (recurso : List ℕ) (k : Kernel)
    → Sincronizado k
    → Cumple Sincronizado (syscall_crear_mutex recurso k)
unfolding syscall_crear_mutex
crear_mutex-Sincronizado recurso k s = con_proceso Sincronizado k _ (λ e p. s)

bloquear_mutex-Sincronizado :
    (recurso : List ℕ) (k : Kernel)
    → Sincronizado k
    → Cumple (λ (r : Bool × Kernel). Sincronizado r.1) (syscall_bloquear_mutex recurso k)
unfolding syscall_bloquear_mutex
bloquear_mutex-Sincronizado recurso k s = con_proceso _ k _ (λ e p.
    Cumple->>=_any _ (buscar_mutex recurso p.mutex) _ (λ m _.
      Cumple-if _ (tomar_mutex e.0 m).0 _ _ s
        (Cumple->>= Sincronizado _ _ _ (exec_a_blocked-Sincronizado _ s) (λ k1 h1. h1))))

desbloquear_mutex-Sincronizado :
    (recurso : List ℕ) (k : Kernel)
    → Sincronizado k
    → Cumple Sincronizado (syscall_desbloquear_mutex recurso k)
unfolding syscall_desbloquear_mutex
desbloquear_mutex-Sincronizado recurso k s = con_proceso _ k _ (λ e p.
    Cumple->>=_any _ (buscar_mutex recurso p.mutex) _ (λ m _.
      Cumple->>=_any _ m.hilo_asignado _ (λ d _. Cumple->>=_any _ (k.tcbs d) _ (λ duenio _.
        Cumple-if _ (e.1.tid == duenio.tid) _ _ (despertar-Sincronizado (ceder_mutex m).1 _ s) s))))

io-Sincronizado :
    (tiempo : ℕ) (k : Kernel) → Sincronizado k → Cumple Sincronizado (syscall_io tiempo k)
unfolding syscall_io
io-Sincronizado tiempo k s =
    Cumple->>=_any _ (en_ejecucion k) _
      (λ e _. Cumple->>= Sincronizado _ _ _ (exec_a_blocked-Sincronizado k s) (λ k1 h1. h1))

dump_memory-Sincronizado :
    (k : Kernel) → Sincronizado k → Cumple Sincronizado (syscall_dump_memory k)
unfolding syscall_dump_memory
dump_memory-Sincronizado k s =
    Cumple->>=_any _ (en_ejecucion k) _ (λ e _. exec_a_blocked-Sincronizado k s)

finalizar-Sincronizado :
    (r : OpCode) (k : Kernel) → Sincronizado k → Cumple Sincronizado (syscall_finalizar_proceso r k)
unfolding syscall_finalizar_proceso
finalizar-Sincronizado r k s =
    Cumple->>=_any _ (en_ejecucion k) _ (λ e _. finalizar_proceso-Sincronizado r e.1.pid_padre k s)

-- All the operations of the dispatcher.
operacion-Sincronizado :
    (h : ℕ) (op : Operacion) (k : Kernel)
    → Sincronizado k
    → Cumple (λ (a : Atendida). Sincronizado a.kernel) (atender_operacion h op k)
unfolding atender_operacion crear_proceso
operacion-Sincronizado h (op_crear_proceso archivo tamanio prioridad) k s = s
operacion-Sincronizado h (op_finalizar_proceso r) k s =
    Cumple->>= Sincronizado _ _ _ (finalizar-Sincronizado r k s) (λ k1 h1. h1)
operacion-Sincronizado h (op_crear_hilo archivo prioridad) k s =
    Cumple->>= Sincronizado _ _ _ (crear_hilo-Sincronizado archivo prioridad k s) (λ k1 h1. h1)
operacion-Sincronizado h (op_finalizar_hilo r) k s =
    Cumple->>= Sincronizado _ _ _ (finalizar_hilo-Sincronizado r k s) (λ k1 h1. h1)
operacion-Sincronizado h (op_esperar_hilo tid) k s =
    Cumple->>= (λ (r : Bool × Kernel). Sincronizado r.1) _ _ _ (esperar_hilo-Sincronizado tid k s)
      (λ r h1. h1)
operacion-Sincronizado h (op_crear_mutex recurso) k s =
    Cumple->>= Sincronizado _ _ _ (crear_mutex-Sincronizado recurso k s) (λ k1 h1. h1)
operacion-Sincronizado h (op_bloquear_mutex recurso) k s =
    Cumple->>= (λ (r : Bool × Kernel). Sincronizado r.1) _ _ _
      (bloquear_mutex-Sincronizado recurso k s) (λ r h1. Cumple-if _ r.0 _ _ h1 h1)
operacion-Sincronizado h (op_desbloquear_mutex recurso) k s =
    Cumple->>= Sincronizado _ _ _ (desbloquear_mutex-Sincronizado recurso k s) (λ k1 h1. h1)
operacion-Sincronizado h (op_io tiempo) k s =
    Cumple->>= Sincronizado _ _ _ (io-Sincronizado tiempo k s) (λ k1 h1. h1)
operacion-Sincronizado h op_dump_memory k s =
    Cumple->>= Sincronizado _ _ _ (dump_memory-Sincronizado k s) (λ k1 h1. h1)
operacion-Sincronizado h op_desalojar_hilo k s = exec_a_ready-Sincronizado h k s
operacion-Sincronizado h (op_desconocida c) k s = s

-- Each operation that the CPU sends, all the system calls included, leaves `semaforo_estado_ready`
-- equal to the number of READY threads if it was.
pub atender_operacion-Sincronizado :
    (h : ℕ) (op : Operacion) (k : Kernel) (a : Atendida)
    → Sincronizado k
    → atender_operacion h op k ≡ some a
    → Sincronizado a.kernel
atender_operacion-Sincronizado h op k a s e =
    Cumple-some (λ (b : Atendida). Sincronizado b.kernel) _ (operacion-Sincronizado h op k s) e

-- So does a round of the long-term scheduler, with any answers of the memory.
pub largo_plazo-Sincronizado :
    (r1 r2 : OpCode) (k k1 : Kernel)
    → Sincronizado k
    → planificador_largo_plazo r1 r2 k ≡ some k1
    → Sincronizado k1
unfolding planificador_largo_plazo inicializar_proceso transicion_new_a_ready crear_hilo_principal
    con_tcb
largo_plazo-Sincronizado r1 r2 k k1 s e =
    Cumple-some Sincronizado (planificador_largo_plazo r1 r2 k)
      (Cumple-if _ (k.semaforo_memoria_suficiente == 0) _ _ tt (
        Cumple-if _ (k.semaforo_estado_new == 0) _ _ tt (
          Cumple->>=_any _ (primero k.estado_new) _ (λ pid _.
            Cumple-if _ (codigo r1 == codigo operacion_notificar_error) _ _ s (
              Cumple->>=_any _ (buscar_proceso pid k.lista_procesos) _ (λ p _.
                Cumple-if _ (codigo r2 == codigo operacion_confirmar) _ _
                  (omega (arith, length-append k.estado_ready (k.siguiente_dir ∷ []))) s))))))
      e

solicitudes-Sincronizado :
    (xs : List SolicitudIo) (k : Kernel)
    → Sincronizado k
    → Cumple Sincronizado (atender_solicitudes xs k)
unfolding atender_solicitudes
solicitudes-Sincronizado [] k s = tt
solicitudes-Sincronizado (x ∷ xs) k s =
    Cumple-if _ (k.semaforo_io == 0) _ _ tt (blocked_a_ready-Sincronizado x.hilo _ s)

-- So does a round of the I/O device.
pub dispositivo_io-Sincronizado :
    (k k1 : Kernel) → Sincronizado k → dispositivo_io k ≡ some k1 → Sincronizado k1
unfolding dispositivo_io
dispositivo_io-Sincronizado k k1 s e =
    Cumple-some Sincronizado (dispositivo_io k) (solicitudes-Sincronizado k.cola_io k s) e
