-- ===== src/Kernel/Semaforos.antt =====
-- `semaforo_estado_ready` counts the READY threads: each transition and each system call keeps that.
use sist_op_tp2c.Base.{
  ℕ, ◌+◌, ◌≡◌, true, Option, none, some, List, [], ◌∷◌, ◌++◌, ◌==◌, arith, length, length-append,
  Bool-cases, Cumple, Cumple->>=, Cumple->>=_any, Cumple-if, inl, inr,
}
use mathlib.Core.List.{reverse}
use sist_op_tp2c.Utils.Mensajes.{OpCode, codigo, operacion_confirmar}
use sist_op_tp2c.Kernel.Estados.{
  Kernel, Pcb, Mutex, buscar_proceso, con_tcb, contiene, quitar, transicion_exec_a_ready,
  transicion_exec_a_blocked, transicion_blocked_a_ready, desbloquear_todos,
}
use sist_op_tp2c.Kernel.Syscalls.{en_ejecucion, buscar_hilo_en_proceso, despertar}
use sist_op_tp2c.Kernel.Finalizar.{
  liberar_mutex, esta_mutex_asignado_a_tid, liberar_mutexes, syscall_finalizar_hilo,
  remover_hilo_de_ready_o_blocked, liberar_hilo, liberar_hilos, finalizar_proceso_por_pid,
  quitar_proceso,
}

abbrev pub Sincronizado : Kernel → Type 0
Sincronizado k = k.semaforo_estado_ready ≡ length k.estado_ready

length-snoc : {A : Type 0} (xs : List A) (x : A) → length (xs ++ x ∷ []) ≡ length xs + 1
length-snoc xs x = length-append xs (x ∷ [])

pub length-quitar :
    (h : ℕ) (xs : List ℕ) → contiene h xs ≡ true → length xs ≡ length (quitar h xs) + 1
unfolding contiene quitar
length-quitar h [] c = cc
length-quitar h (x ∷ xs) c = elim (Bool-cases (x == h)) [
  | inl si ↦ rw si omega arith
  | inr ni ↦
      let c1 : contiene h xs ≡ true = ground arith in rw ni (omega (arith, length-quitar h xs c1))
]

pub blocked_a_ready-Sincronizado :
    (h : ℕ) (k : Kernel) → Sincronizado k → Sincronizado (transicion_blocked_a_ready h k)
unfolding transicion_blocked_a_ready
blocked_a_ready-Sincronizado h k s = omega (arith, length-snoc k.estado_ready h)

pub exec_a_ready-Sincronizado :
    (h : ℕ) (k : Kernel) → Sincronizado k → Sincronizado (transicion_exec_a_ready h k)
unfolding transicion_exec_a_ready
exec_a_ready-Sincronizado h k s = omega (arith, length-snoc k.estado_ready h)

pub exec_a_blocked-Sincronizado :
    (k : Kernel) → Sincronizado k → Cumple Sincronizado (transicion_exec_a_blocked k)
unfolding transicion_exec_a_blocked
exec_a_blocked-Sincronizado k s = Cumple->>=_any Sincronizado k.estado_exec _ (λ h e. s)

pub desbloquear_todos-Sincronizado :
    (hs : List ℕ) (k : Kernel) → Sincronizado k → Sincronizado (desbloquear_todos hs k)
unfolding desbloquear_todos
desbloquear_todos-Sincronizado [] k s = s
desbloquear_todos-Sincronizado (h ∷ hs) k s =
    desbloquear_todos-Sincronizado hs (transicion_blocked_a_ready h k)
      (blocked_a_ready-Sincronizado h k s)

pub despertar-Sincronizado :
    (o : Option ℕ) (k : Kernel) → Sincronizado k → Sincronizado (despertar o k)
unfolding despertar
despertar-Sincronizado none k s = s
despertar-Sincronizado (some h) k s = blocked_a_ready-Sincronizado h k s

-- A mutex release that keeps the count, for all the mutexes of a process.
pub liberar_mutexes-Sincronizado :
    (tid : ℕ) (ms : List Mutex) (k : Kernel)
    → Sincronizado k
    → Cumple (λ (r : List Mutex × Kernel). Sincronizado r.1) (liberar_mutexes tid ms k)
unfolding liberar_mutexes
liberar_mutexes-Sincronizado tid [] k s = s
liberar_mutexes-Sincronizado tid (m ∷ ms) k s =
    Cumple->>=_any _ (esta_mutex_asignado_a_tid k.tcbs tid m) _ (λ a e.
      Cumple-if _ a _ _
        (Cumple->>= (λ r. Sincronizado r.1) _
          (liberar_mutexes tid ms (despertar (liberar_mutex m).1 k)) _
          (liberar_mutexes-Sincronizado tid ms _ (despertar-Sincronizado (liberar_mutex m).1 k s))
          (λ r h. h))
        (Cumple->>= (λ r. Sincronizado r.1) _ (liberar_mutexes tid ms k) _
          (liberar_mutexes-Sincronizado tid ms k s) (λ r h. h)))

pub finalizar_hilo-Sincronizado :
    (r : OpCode) (k : Kernel) → Sincronizado k → Cumple Sincronizado (syscall_finalizar_hilo r k)
unfolding syscall_finalizar_hilo con_tcb
finalizar_hilo-Sincronizado r k s = Cumple->>=_any _ (en_ejecucion k) _ (λ e _.
    Cumple->>=_any _ (buscar_proceso e.1.pid_padre k.lista_procesos) _ (λ p _.
      Cumple-if _ (codigo r == codigo operacion_confirmar) _ _
        (Cumple->>= (λ q. Sincronizado q.1) _ (liberar_mutexes e.1.tid p.mutex k) _
          (liberar_mutexes-Sincronizado e.1.tid p.mutex k s)
          (λ q h. desbloquear_todos-Sincronizado e.1.hilos_bloqueados _ h))
        tt))

remover-Sincronizado :
    (h : ℕ) (k : Kernel)
    → Sincronizado k
    → Cumple Sincronizado (remover_hilo_de_ready_o_blocked h k)
unfolding remover_hilo_de_ready_o_blocked
remover-Sincronizado h k s = elim (Bool-cases (contiene h k.estado_ready)) [
  | inl si ↦ rw si (
      Cumple-if _ (k.semaforo_estado_ready == 0) _ _ tt
        (omega (arith, length-quitar h k.estado_ready si)))
  | inr ni ↦ rw ni s
]

liberar_hilo-Sincronizado :
    (p : Pcb) (tid : ℕ) (k : Kernel) → Sincronizado k → Cumple Sincronizado (liberar_hilo p tid k)
unfolding liberar_hilo con_tcb
liberar_hilo-Sincronizado p tid k s =
    Cumple->>=_any _ (buscar_hilo_en_proceso p tid k) _ (λ encontrado _.
      Cumple->>=_any _ encontrado _ (λ h _. Cumple->>=_any _ (k.tcbs h) _ (λ t _.
        Cumple->>= Sincronizado _ _ _
          (remover-Sincronizado h (desbloquear_todos t.hilos_bloqueados k)
            (desbloquear_todos-Sincronizado t.hilos_bloqueados k s))
          (λ k1 h1. h1))))

liberar_hilos-Sincronizado :
    (p : Pcb) (tids : List ℕ) (k : Kernel)
    → Sincronizado k
    → Cumple Sincronizado (liberar_hilos p tids k)
unfolding liberar_hilos
liberar_hilos-Sincronizado p [] k s = s
liberar_hilos-Sincronizado p (tid ∷ tids) k s =
    Cumple->>= Sincronizado _ (liberar_hilo (record p { tids = tid ∷ tids }) tid k) _
      (liberar_hilo-Sincronizado (record p { tids = tid ∷ tids }) tid k s)
      (liberar_hilos-Sincronizado p tids)

pub finalizar_proceso-Sincronizado :
    (r : OpCode) (pid : ℕ) (k : Kernel)
    → Sincronizado k
    → Cumple Sincronizado (finalizar_proceso_por_pid r pid k)
unfolding finalizar_proceso_por_pid
finalizar_proceso-Sincronizado r pid k s =
    Cumple->>=_any _ (buscar_proceso pid k.lista_procesos) _ (λ p _.
      Cumple-if _ (codigo r == codigo operacion_confirmar) _ _
        (Cumple->>= Sincronizado _ _ _
          (liberar_hilos-Sincronizado p (reverse p.tids)
            (record k { lista_procesos = quitar_proceso pid k.lista_procesos }) s)
          (λ k1 h. h))
        tt)
