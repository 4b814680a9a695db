-- ===== src/Kernel/Coherencia.antt =====
-- The invariant of the mutexes, through each operation of a running thread.
use mathlib.Core.List.{reverse}
use sist_op_tp2c.Base.{
  ℕ, ◌≡◌, refl, sym, subst, Bool, Option, none, some, List, [], ◌∷◌, ◌>>=◌, ◌==◌, Cumple,
  Cumple->>=, Cumple->>=_any, Cumple-if, Cumple-some,
}
use sist_op_tp2c.Utils.Mensajes.{OpCode, codigo, operacion_confirmar}
use sist_op_tp2c.Kernel.Estados.{
  Kernel, Pcb, Tcb, buscar_proceso, crear_proceso, con_tcb, contiene, quitar,
  transicion_exec_a_ready, transicion_exec_a_blocked, desbloquear_todos,
}
use sist_op_tp2c.Kernel.Syscalls.{
  en_ejecucion, buscar_hilo_en_proceso, syscall_crear_hilo, esperar_a, syscall_esperar_hilo,
  syscall_crear_mutex, syscall_bloquear_mutex, syscall_desbloquear_mutex, syscall_io,
  syscall_dump_memory, buscar_mutex, tomar_mutex, ceder_mutex, cambiar_mutex,
}
use sist_op_tp2c.Kernel.Finalizar.{
  liberar_mutexes, syscall_finalizar_hilo, remover_hilo_de_ready_o_blocked, liberar_hilo,
  liberar_hilos, finalizar_proceso_por_pid, syscall_finalizar_proceso,
}
use sist_op_tp2c.Kernel.Instrucciones.{
  Atendida, Operacion, op_crear_proceso, op_finalizar_proceso, op_crear_hilo, op_finalizar_hilo,
  op_esperar_hilo, op_crear_mutex, op_bloquear_mutex, op_desbloquear_mutex, op_io, op_dump_memory,
  op_desalojar_hilo, op_desconocida, atender_operacion,
}
use sist_op_tp2c.Kernel.Mutexes.{
  Coherentes, TodosCoherentes, ProcesosCoherentes, Coherente, tomar_mutex-Coherente,
  ceder_mutex-Coherente, coherentes-snoc, buscar_mutex-Coherente, cambiar_mutex-Coherente,
  procesos-snoc, buscar_proceso-Coherente, cambiar_proceso-Coherente, quitar_proceso-Coherente,
  despertar-procesos, desbloquear_todos-procesos, liberar_mutexes-Coherente,
}

-- A step of the thread in EXEC, whose process has coherent mutexes.
con_proceso {ℓ} :
    {A : Type ℓ} (Q : A → Type 0) (k : Kernel) (f : ℕ × Tcb → Pcb → Option A)
    → Coherentes k
    → ((e : ℕ × Tcb) (p : Pcb) → TodosCoherentes p.mutex → Cumple Q (f e p))
    → Cumple Q
        (en_ejecucion k >>= λ e. buscar_proceso e.1.pid_padre k.lista_procesos >>= λ p. f e p)
con_proceso Q k f c g = Cumple->>=_any Q (en_ejecucion k) _ (λ e _.
    Cumple->>= (λ (p : Pcb). TodosCoherentes p.mutex) Q
      (buscar_proceso e.1.pid_padre k.lista_procesos) _
      (buscar_proceso-Coherente e.1.pid_padre k.lista_procesos c) (λ p t. g e p t))

bloquear : (k : Kernel) → Coherentes k → Cumple Coherentes (transicion_exec_a_blocked k)
unfolding transicion_exec_a_blocked
bloquear k c = Cumple->>=_any _ k.estado_exec _ (λ h _. c)

crear_hilo-Coherentes :
    (archivo : List ℕ) (prioridad : ℕ) (k : Kernel)
    → Coherentes k
    → Cumple Coherentes (syscall_crear_hilo archivo prioridad k)
unfolding syscall_crear_hilo con_tcb
crear_hilo-Coherentes archivo prioridad k c =
    con_proceso Coherentes k _ c (λ e p t. cambiar_proceso-Coherente p.pid _ k.lista_procesos t c)

esperar_a-Coherentes :
    (invocador : ℕ) (o : Option ℕ) (k : Kernel)
    → Coherentes k
    → Cumple (λ (r : Bool × Kernel). Coherentes r.1) (esperar_a invocador o k)
unfolding esperar_a con_tcb
esperar_a-Coherentes invocador none k c = c
esperar_a-Coherentes invocador (some h) k c =
    Cumple->>=_any _ (k.tcbs h) _ (λ t _. Cumple->>= Coherentes _ _ _ (bloquear _ c) (λ k1 h1. h1))

esperar_hilo-Coherentes :
    (tid : ℕ) (k : Kernel)
    → Coherentes k
    → Cumple (λ (r : Bool × Kernel). Coherentes r.1) (syscall_esperar_hilo tid k)
unfolding syscall_esperar_hilo
esperar_hilo-Coherentes tid k c = con_proceso _ k _ c (λ e p t.
    Cumple->>=_any _ (buscar_hilo_en_proceso p tid k) _ (λ a _. esperar_a-Coherentes e.0 a k c))

crear_mutex-Coherentes :
    (recurso : List ℕ) (k : Kernel)
    → Coherentes k
    → Cumple Coherentes (syscall_crear_mutex recurso k)
unfolding syscall_crear_mutex
crear_mutex-Coherentes recurso k c = con_proceso Coherentes k _ c (λ e p t.
    cambiar_proceso-Coherente p.pid _ k.lista_procesos (coherentes-snoc p.mutex _ t (refl, refl)) c)

bloquear_mutex-Coherentes :
    (recurso : List ℕ) (k : Kernel)
    → Coherentes k
    → Cumple (λ (r : Bool × Kernel). Coherentes r.1) (syscall_bloquear_mutex recurso k)
unfolding syscall_bloquear_mutex
bloquear_mutex-Coherentes recurso k c = con_proceso _ k _ c (λ e p t.
    Cumple->>= Coherente _ (buscar_mutex recurso p.mutex) _
      (buscar_mutex-Coherente recurso p.mutex t)
      (λ m b.
        let queda =
          cambiar_proceso-Coherente p.pid
            (record p { mutex = cambiar_mutex recurso (tomar_mutex e.0 m).1 p.mutex })
            k.lista_procesos
            (cambiar_mutex-Coherente recurso (tomar_mutex e.0 m).1 p.mutex
              (tomar_mutex-Coherente e.0 m b) t)
            c in
        Cumple-if _ (tomar_mutex e.0 m).0 _ _ queda
          (Cumple->>= Coherentes _ _ _ (bloquear _ queda) (λ k1 h1. h1))))

desbloquear_mutex-Coherentes :
    (recurso : List ℕ) (k : Kernel)
    → Coherentes k
    → Cumple Coherentes (syscall_desbloquear_mutex recurso k)
unfolding syscall_desbloquear_mutex
desbloquear_mutex-Coherentes recurso k c = con_proceso _ k _ c (λ e p t.
    Cumple->>= Coherente _ (buscar_mutex recurso p.mutex) _
      (buscar_mutex-Coherente recurso p.mutex t)
      (λ m b. Cumple->>=_any _ m.hilo_asignado _ (λ d _. Cumple->>=_any _ (k.tcbs d) _ (λ duenio _.
        Cumple-if _ (e.1.tid == duenio.tid) _ _
          (subst ProcesosCoherentes (sym (despertar-procesos (ceder_mutex m).1 _)) (
            cambiar_proceso-Coherente p.pid
              (record p { mutex = cambiar_mutex recurso (ceder_mutex m).0 p.mutex })
              k.lista_procesos
              (cambiar_mutex-Coherente recurso (ceder_mutex m).0 p.mutex (ceder_mutex-Coherente m b)
                t)
              c))
          c))))

io-Coherentes : (tiempo : ℕ) (k : Kernel) → Coherentes k → Cumple Coherentes (syscall_io tiempo k)
unfolding syscall_io
io-Coherentes tiempo k c =
    Cumple->>=_any _ (en_ejecucion k) _
      (λ e _. Cumple->>= Coherentes _ _ _ (bloquear k c) (λ k1 h1. h1))

dump_memory-Coherentes : (k : Kernel) → Coherentes k → Cumple Coherentes (syscall_dump_memory k)
unfolding syscall_dump_memory
dump_memory-Coherentes k c = Cumple->>=_any _ (en_ejecucion k) _ (λ e _. bloquear k c)

finalizar_hilo-Coherentes :
    (r : OpCode) (k : Kernel) → Coherentes k → Cumple Coherentes (syscall_finalizar_hilo r k)
unfolding syscall_finalizar_hilo con_tcb
finalizar_hilo-Coherentes r k c = con_proceso _ k _ c (λ e p t.
    Cumple-if _ (codigo r == codigo operacion_confirmar) _ _
      (Cumple->>= (λ q. TodosCoherentes q.0 × Coherentes q.1) _ (liberar_mutexes e.1.tid p.mutex k)
        _ (liberar_mutexes-Coherente e.1.tid p.mutex k t c)
        (λ q h. subst ProcesosCoherentes (sym (desbloquear_todos-procesos e.1.hilos_bloqueados _)) (
          cambiar_proceso-Coherente p.pid (record p { tids = quitar e.1.tid p.tids; mutex = q.0 })
            q.1.lista_procesos h.0 h.1)))
      tt)

remover-Coherentes :
    (h : ℕ) (k : Kernel) → Coherentes k → Cumple Coherentes (remover_hilo_de_ready_o_blocked h k)
unfolding remover_hilo_de_ready_o_blocked
remover-Coherentes h k c =
    Cumple-if _ (contiene h k.estado_ready) _ _
      (Cumple-if _ (k.semaforo_estado_ready == 0) _ _ tt c) c

liberar_hilo-Coherentes :
    (p : Pcb) (tid : ℕ) (k : Kernel) → Coherentes k → Cumple Coherentes (liberar_hilo p tid k)
unfolding liberar_hilo con_tcb
liberar_hilo-Coherentes p tid k c =
    Cumple->>=_any _ (buscar_hilo_en_proceso p tid k) _ (λ encontrado _.
      Cumple->>=_any _ encontrado _ (λ h _. Cumple->>=_any _ (k.tcbs h) _ (λ t _.
        Cumple->>= Coherentes _ _ _
          (remover-Coherentes h (desbloquear_todos t.hilos_bloqueados k)
            (subst ProcesosCoherentes (sym (desbloquear_todos-procesos t.hilos_bloqueados k)) c))
          (λ k1 h1. h1))))

liberar_hilos-Coherentes :
    (p : Pcb) (tids : List ℕ) (k : Kernel)
    → Coherentes k
    → Cumple Coherentes (liberar_hilos p tids k)
unfolding liberar_hilos
liberar_hilos-Coherentes p [] k c = c
liberar_hilos-Coherentes p (tid ∷ tids) k c =
    Cumple->>= Coherentes _ (liberar_hilo (record p { tids = tid ∷ tids }) tid k) _
      (liberar_hilo-Coherentes (record p { tids = tid ∷ tids }) tid k c)
      (liberar_hilos-Coherentes p tids)

pub finalizar_pid-Coherentes :
    (r : OpCode) (pid : ℕ) (k : Kernel)
    → Coherentes k
    → Cumple Coherentes (finalizar_proceso_por_pid r pid k)
unfolding finalizar_proceso_por_pid
finalizar_pid-Coherentes r pid k c =
    Cumple->>=_any _ (buscar_proceso pid k.lista_procesos) _ (λ p _.
      Cumple-if _ (codigo r == codigo operacion_confirmar) _ _
        (Cumple->>= Coherentes _ _ _
          (liberar_hilos-Coherentes p (reverse p.tids) _
            (quitar_proceso-Coherente pid k.lista_procesos c))
          (λ k1 h. h))
        tt)

finalizar-Coherentes :
    (r : OpCode) (k : Kernel) → Coherentes k → Cumple Coherentes (syscall_finalizar_proceso r k)
unfolding syscall_finalizar_proceso
finalizar-Coherentes r k c =
    Cumple->>=_any _ (en_ejecucion k) _ (λ e _. finalizar_pid-Coherentes r e.1.pid_padre k c)

operacion-Coherentes :
    (h : ℕ) (op : Operacion) (k : Kernel)
    → Coherentes k
    → Cumple (λ (a : Atendida). Coherentes a.kernel) (atender_operacion h op k)
unfolding atender_operacion crear_proceso transicion_exec_a_ready
operacion-Coherentes h (op_crear_proceso archivo tamanio prioridad) k c =
    procesos-snoc k.lista_procesos _ c tt
operacion-Coherentes h (op_finalizar_proceso r) k c =
    Cumple->>= Coherentes _ _ _ (finalizar-Coherentes r k c) (λ k1 h1. h1)
operacion-Coherentes h (op_crear_hilo archivo prioridad) k c =
    Cumple->>= Coherentes _ _ _ (crear_hilo-Coherentes archivo prioridad k c) (λ k1 h1. h1)
operacion-Coherentes h (op_finalizar_hilo r) k c =
    Cumple->>= Coherentes _ _ _ (finalizar_hilo-Coherentes r k c) (λ k1 h1. h1)
operacion-Coherentes h (op_esperar_hilo tid) k c =
    Cumple->>= (λ (r : Bool × Kernel). Coherentes r.1) _ _ _ (esperar_hilo-Coherentes tid k c)
      (λ r h1. h1)
operacion-Coherentes h (op_crear_mutex recurso) k c =
    Cumple->>= Coherentes _ _ _ (crear_mutex-Coherentes recurso k c) (λ k1 h1. h1)
operacion-Coherentes h (op_bloquear_mutex recurso) k c =
    Cumple->>= (λ (r : Bool × Kernel). Coherentes r.1) _ _ _ (bloquear_mutex-Coherentes recurso k c)
      (λ r h1. Cumple-if _ r.0 _ _ h1 h1)
operacion-Coherentes h (op_desbloquear_mutex recurso) k c =
    Cumple->>= Coherentes _ _ _ (desbloquear_mutex-Coherentes recurso k c) (λ k1 h1. h1)
operacion-Coherentes h (op_io tiempo) k c =
    Cumple->>= Coherentes _ _ _ (io-Coherentes tiempo k c) (λ k1 h1. h1)
operacion-Coherentes h op_dump_memory k c =
    Cumple->>= Coherentes _ _ _ (dump_memory-Coherentes k c) (λ k1 h1. h1)
operacion-Coherentes h op_desalojar_hilo k c = c
operacion-Coherentes h (op_desconocida n) k c = c

-- If in each process a free mutex has no owner and no waiting thread and a taken one has an owner,
-- this is so after each operation that the CPU sends, all the system calls included.
pub atender_operacion-Coherentes :
    (h : ℕ) (op : Operacion) (k : Kernel) (a : Atendida)
    → Coherentes k
    → atender_operacion h op k ≡ some a
    → Coherentes a.kernel
atender_operacion-Coherentes h op k a c e =
    Cumple-some (λ (b : Atendida). Coherentes b.kernel) _ (operacion-Coherentes h op k c) e
