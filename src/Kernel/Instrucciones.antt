-- ===== src/Kernel/Instrucciones.antt =====
-- kernel/src/kernel-utils/planificador-corto-plazo.c: what the kernel does with each operation that
-- the CPU sends while a thread runs.
use sist_op_tp2c.Base.{
  ℕ, Bool, true, false, Option, none, some, List, [], ◌∷◌, ◌++◌, ◌>>=◌, if◌then◌else◌,
}
use sist_op_tp2c.Utils.Mensajes.{OpCode, operacion_confirmar, operacion_notificar_error}
use sist_op_tp2c.Kernel.Estados.{Kernel, crear_proceso, transicion_exec_a_ready}
use sist_op_tp2c.Kernel.Syscalls.{
  syscall_crear_hilo, syscall_esperar_hilo, syscall_crear_mutex, syscall_bloquear_mutex,
  syscall_desbloquear_mutex, syscall_io, syscall_dump_memory,
}
use sist_op_tp2c.Kernel.Finalizar.{syscall_finalizar_hilo, syscall_finalizar_proceso}

-- An operation with its data, read from the socket; the ends carry the answer of the memory.
pub data Operacion : Type 0 where
  op_crear_proceso : List ℕ → ℕ → ℕ → Operacion
  op_finalizar_proceso : OpCode → Operacion
  op_crear_hilo : List ℕ → ℕ → Operacion
  op_finalizar_hilo : OpCode → Operacion
  op_esperar_hilo : ℕ → Operacion
  op_crear_mutex : List ℕ → Operacion
  op_bloquear_mutex : List ℕ → Operacion
  op_desbloquear_mutex : List ℕ → Operacion
  op_io : ℕ → Operacion
  op_dump_memory : Operacion
  op_desalojar_hilo : Operacion
  op_desconocida : ℕ → Operacion

-- The state after an operation, what is sent to the CPU, and whether the thread goes on.
pub record Atendida : Type 0 where
  pub kernel : Kernel
  pub enviado : List OpCode
  pub sigue : Bool

abbrev atendida : List OpCode → Bool → Kernel → Option Atendida
atendida enviado sigue k = some (record { kernel = k; enviado = enviado; sigue = sigue })

unfoldable pub atender_operacion : ℕ → Operacion → Kernel → Option Atendida
atender_operacion h (op_crear_proceso archivo tamanio prioridad) k =
    atendida [] true (crear_proceso archivo tamanio prioridad k)
atender_operacion h (op_finalizar_proceso respuesta) k =
    syscall_finalizar_proceso respuesta k >>= λ k1. atendida [] false k1
atender_operacion h (op_crear_hilo archivo prioridad) k =
    syscall_crear_hilo archivo prioridad k >>= λ k1. atendida (operacion_confirmar ∷ []) true k1
atender_operacion h (op_finalizar_hilo respuesta) k =
    syscall_finalizar_hilo respuesta k >>= λ k1. atendida (operacion_confirmar ∷ []) false k1
atender_operacion h (op_esperar_hilo tid) k = syscall_esperar_hilo tid k >>= λ r.
    atendida (operacion_confirmar ∷ []) (if r.0 then false else true) r.1
atender_operacion h (op_crear_mutex recurso) k =
    syscall_crear_mutex recurso k >>= λ k1. atendida (operacion_confirmar ∷ []) true k1
atender_operacion h (op_bloquear_mutex recurso) k = syscall_bloquear_mutex recurso k >>= λ r.
    if r.0
    then atendida (operacion_confirmar ∷ []) true r.1
    else atendida (operacion_notificar_error ∷ []) false r.1
atender_operacion h (op_desbloquear_mutex recurso) k =
    syscall_desbloquear_mutex recurso k >>= λ k1. atendida (operacion_confirmar ∷ []) true k1
atender_operacion h (op_io tiempo) k = syscall_io tiempo k >>= λ k1. atendida [] false k1
atender_operacion h op_dump_memory k =
    syscall_dump_memory k >>= λ k1. atendida (operacion_confirmar ∷ []) false k1
atender_operacion h op_desalojar_hilo k = atendida [] false (transicion_exec_a_ready h k)
atender_operacion h (op_desconocida c) k = atendida [] false k

-- The recursion over the operations that the CPU sends; it waits where none is left.
unfoldable pub procesar_instrucciones_cpu :
    ℕ → List Operacion → Kernel → Option (List OpCode × Kernel)
procesar_instrucciones_cpu h [] k = none
procesar_instrucciones_cpu h (op ∷ ops) k = atender_operacion h op k >>= λ a.
    let resto = procesar_instrucciones_cpu h ops a.kernel in
    if a.sigue then (resto >>= λ r. some (a.enviado ++ r.0, r.1)) else some (a.enviado, a.kernel)
