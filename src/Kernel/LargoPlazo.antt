-- ===== src/Kernel/LargoPlazo.antt =====
-- kernel/src/kernel-utils/planificador-largo-plazo.c: a round of the long-term scheduler, with the
-- two answers of the memory as parameters.
use sist_op_tp2c.Base.{ℕ, ◌+◌, ◌-◌, Option, none, some, [], ◌∷◌, ◌++◌, ◌>>=◌, ◌==◌, if◌then◌else◌}
use sist_op_tp2c.Utils.Mensajes.{OpCode, codigo, operacion_notificar_error, operacion_confirmar}
use sist_op_tp2c.Kernel.Estados.{
  Kernel, Pcb, buscar_proceso, guardar_proceso, con_tcb, quitar, primero,
}

-- The TCB of the main thread, at the next address, and its tid in the process.
unfoldable pub crear_hilo_principal : Pcb → Kernel → ℕ × Kernel
crear_hilo_principal p k =
    let h = k.siguiente_dir in
    (
      h,
      guardar_proceso (record p { tids = p.tids ++ 0 ∷ [] })
          (record (con_tcb h
            (some (record {
              tid = 0;
              prioridad = p.prioridad;
              pid_padre = p.pid;
              nombre_archivo = p.nombre_archivo;
              hilos_bloqueados = [];
            }))
            k) { siguiente_dir = k.siguiente_dir + 1 }),
    )

unfoldable pub transicion_new_a_ready : ℕ → ℕ → Kernel → Kernel
transicion_new_a_ready pid h k = record k {
  estado_new = quitar pid k.estado_new;
  estado_ready = k.estado_ready ++ h ∷ [];
  semaforo_estado_ready = k.semaforo_estado_ready + 1;
}

-- What follows the two waits, for the process at the head of NEW. An answer that is not an error
-- lets the scheduler try the next process; without memory, its semaphore stays taken.
unfoldable pub inicializar_proceso : OpCode → OpCode → ℕ → Kernel → Option Kernel
inicializar_proceso resultado_proceso resultado pid k =
    if codigo resultado_proceso == codigo operacion_notificar_error
    then some (record k { semaforo_estado_new = k.semaforo_estado_new + 1 })
    else (buscar_proceso pid k.lista_procesos >>= λ p.
        let creado : ℕ × Kernel =
          crear_hilo_principal p
            (record k { semaforo_memoria_suficiente = k.semaforo_memoria_suficiente + 1 }) in
        if codigo resultado == codigo operacion_confirmar
        then some (transicion_new_a_ready pid creado.0 creado.1)
        else some creado.1)

unfoldable pub planificador_largo_plazo : OpCode → OpCode → Kernel → Option Kernel
planificador_largo_plazo resultado_proceso resultado k =
    if k.semaforo_memoria_suficiente == 0
    then none
    else if k.semaforo_estado_new == 0
    then none
    else (primero k.estado_new >>= λ pid.
        inicializar_proceso resultado_proceso resultado pid (record k {
          semaforo_memoria_suficiente = k.semaforo_memoria_suficiente - 1;
          semaforo_estado_new = k.semaforo_estado_new - 1;
        }))
