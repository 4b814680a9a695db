-- ===== src/Kernel/Finalizar.antt =====
-- kernel/src/kernel-utils/syscalls.c: the ends of a thread and of a process. The answer of the memory
-- is a parameter. `none` is also a wait for the memory's or the scheduler's semaphores.
use sist_op_tp2c.Base.{
  ℕ, ◌+◌, ◌-◌, Bool, true, false, Option, none, some, List, [], ◌∷◌, ◌>>=◌, ◌==◌, if◌then◌else◌,
}
use mathlib.Core.List.{reverse}
use sist_op_tp2c.Utils.Mensajes.{OpCode, codigo, operacion_confirmar}
use sist_op_tp2c.Kernel.Estados.{
  Kernel, Pcb, Tcb, Mutex, buscar_proceso, guardar_proceso, con_tcb, contiene, quitar,
  transicion_blocked_a_ready, desbloquear_todos,
}
use sist_op_tp2c.Kernel.Syscalls.{en_ejecucion, buscar_hilo_en_proceso, despertar}

-- The loop of `syscall_finalizar_hilo` for one mutex that the thread holds.
unfoldable pub liberar_mutex : Mutex → Mutex × Option ℕ
liberar_mutex m = elim m.hilos_bloqueados [
  | [] ↦ (record m { esta_libre = true; hilo_asignado = none }, none)
  | h ∷ hs ↦
      (record m { esta_libre = false; hilos_bloqueados = hs; hilo_asignado = some h }, some h)
]

-- `esta_mutex_asignado_a_tid`, which follows the pointer to the owner.
unfoldable pub esta_mutex_asignado_a_tid : (ℕ → Option Tcb) → ℕ → Mutex → Option Bool
esta_mutex_asignado_a_tid tcbs tid m = elim m.hilo_asignado [
  | none ↦ some false
  | some d ↦ tcbs d >>= λ t. some (t.tid == tid)
]

-- The mutexes of the process, the released ones in their order.
unfoldable pub liberar_mutexes : ℕ → List Mutex → Kernel → Option (List Mutex × Kernel)
liberar_mutexes tid [] k = some ([], k)
liberar_mutexes tid (m ∷ ms) k =
    let cedido : Mutex × Option ℕ = liberar_mutex m in
    let con_el_resto : Option (List Mutex × Kernel) =
      liberar_mutexes tid ms (despertar cedido.1 k) in
    let sin_cambio : Option (List Mutex × Kernel) = liberar_mutexes tid ms k in
    esta_mutex_asignado_a_tid k.tcbs tid m >>= λ asignado.
    if asignado
    then (con_el_resto >>= λ r. some (cedido.0 ∷ r.0, r.1))
    else (sin_cambio >>= λ r. some (m ∷ r.0, r.1))

-- EXEC keeps the address of the freed TCB until the next dispatch.
unfoldable pub syscall_finalizar_hilo : OpCode → Kernel → Option Kernel
syscall_finalizar_hilo respuesta k = do
  e ← en_ejecucion k
  p ← buscar_proceso e.1.pid_padre k.lista_procesos
  if codigo respuesta == codigo operacion_confirmar
      then (liberar_mutexes e.1.tid p.mutex k >>= λ r. some (
          con_tcb e.0 none (
            desbloquear_todos e.1.hilos_bloqueados
              (guardar_proceso (record p { tids = quitar e.1.tid p.tids; mutex = r.0 }) r.1))))
      else none

unfoldable pub remover_hilo_de_ready_o_blocked : ℕ → Kernel → Option Kernel
remover_hilo_de_ready_o_blocked h k =
    let bloqueado : List ℕ = quitar h k.estado_blocked in
    if contiene h k.estado_ready
    then (if k.semaforo_estado_ready == 0
        then none
        else some (record k {
          estado_ready = quitar h k.estado_ready;
          semaforo_estado_ready = k.semaforo_estado_ready - 1;
          estado_blocked = bloqueado;
        }))
    else some (record k { estado_blocked = bloqueado })

-- The body of the loop over the tids, for the thread with the last one.
unfoldable pub liberar_hilo : Pcb → ℕ → Kernel → Option Kernel
liberar_hilo p tid k = do
  encontrado ← buscar_hilo_en_proceso p tid k
  h ← encontrado
  t ← k.tcbs h
  k1 ← remover_hilo_de_ready_o_blocked h (desbloquear_todos t.hilos_bloqueados k)
  some (con_tcb h none k1)

-- The loop, with the tids from the last to the first. Only their presence is asked of the list.
unfoldable pub liberar_hilos : Pcb → List ℕ → Kernel → Option Kernel
liberar_hilos p [] k = some k
liberar_hilos p (tid ∷ tids) k =
    liberar_hilo (record p { tids = tid ∷ tids }) tid k >>= liberar_hilos p tids

unfoldable pub quitar_proceso : ℕ → List Pcb → List Pcb
quitar_proceso pid [] = []
quitar_proceso pid (p ∷ ps) =
    let resto = quitar_proceso pid ps in if p.pid == pid then ps else p ∷ resto

unfoldable pub finalizar_proceso_por_pid : OpCode → ℕ → Kernel → Option Kernel
finalizar_proceso_por_pid respuesta pid k = do
  p ← buscar_proceso pid k.lista_procesos
  if codigo respuesta == codigo operacion_confirmar
      then (liberar_hilos p (reverse p.tids)
            (record k { lista_procesos = quitar_proceso pid k.lista_procesos })
          >>= λ k1.
              some (record k1 { semaforo_memoria_suficiente = k1.semaforo_memoria_suficiente + 1 }))
      else none

-- The thread with any tid ends its process.
unfoldable pub syscall_finalizar_proceso : OpCode → Kernel → Option Kernel
syscall_finalizar_proceso respuesta k =
    en_ejecucion k >>= λ e. finalizar_proceso_por_pid respuesta e.1.pid_padre k

-- The thread that awaits the answer to a dump of `h`, with the answer to the end of the process.
unfoldable pub esperar_respuesta_dump_memory : OpCode → OpCode → ℕ → Kernel → Option Kernel
esperar_respuesta_dump_memory respuesta respuesta_final h k =
    if codigo respuesta == codigo operacion_confirmar
    then some (transicion_blocked_a_ready h k)
    else (k.tcbs h >>= λ t. finalizar_proceso_por_pid respuesta_final t.pid_padre k)
