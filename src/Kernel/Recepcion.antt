-- ===== src/Kernel/Recepcion.antt =====
-- kernel/src/kernel-utils/planificador-corto-plazo.c: what `procesar_instrucciones_cpu` reads from the
-- socket of the CPU before it attends an operation.
use sist_op_tp2c.Base.{ℕ, Option, some, List, ◌>>=◌, ◌==◌, if◌then◌else◌}
use sist_op_tp2c.Utils.Buffer.{Buffer}
use sist_op_tp2c.Utils.Mensajes.{
  OpCode, codigo, recibir_operacion, recibir_buffer, operacion_desalojar_hilo,
  operacion_crear_proceso, operacion_finalizar_proceso, operacion_crear_hilo,
  operacion_finalizar_hilo, operacion_esperar_hilo, operacion_crear_mutex, operacion_bloquear_mutex,
  operacion_desbloquear_mutex, operacion_dump_memory, operacion_io,
}
use sist_op_tp2c.Utils.KernelCpu.{
  deserializar_datos_crear_proceso, deserializar_datos_crear_hilo,
  deserializar_datos_operacion_mutex, deserializar_datos_operacion_hilo,
  deserializar_datos_operacion_io,
}
use sist_op_tp2c.Kernel.Instrucciones.{
  Operacion, op_crear_proceso, op_finalizar_proceso, op_crear_hilo, op_finalizar_hilo,
  op_esperar_hilo, op_crear_mutex, op_bloquear_mutex, op_desbloquear_mutex, op_io, op_dump_memory,
  op_desalojar_hilo, op_desconocida,
}

-- `recibir_buffer`, and the data that are read from it; the rest of the socket stays.
unfoldable pub con_datos :
    {A : Type 0} → (Buffer → Option A) → (A → Operacion) → List ℕ → Option (Operacion × List ℕ)
con_datos leer f s = do r ← recibir_buffer s; d ← leer r.0; some (f d, r.1)

-- `respuesta` is the answer of the memory, for the operations that end a thread or a process.
module _ (respuesta : OpCode) where
  unfoldable pub recibir_con_codigo : ℕ → List ℕ → Option (Operacion × List ℕ)
  recibir_con_codigo cod s =
      if cod == codigo operacion_crear_proceso
      then con_datos deserializar_datos_crear_proceso
          (λ d. op_crear_proceso d.archivo_pseudocodigo d.tamanio_proceso d.prioridad) s
      else if cod == codigo operacion_finalizar_proceso
      then some (op_finalizar_proceso respuesta, s)
      else if cod == codigo operacion_crear_hilo
      then con_datos deserializar_datos_crear_hilo
          (λ d. op_crear_hilo d.archivo_pseudocodigo d.prioridad) s
      else if cod == codigo operacion_finalizar_hilo
      then some (op_finalizar_hilo respuesta, s)
      else if cod == codigo operacion_esperar_hilo
      then con_datos deserializar_datos_operacion_hilo (λ d. op_esperar_hilo d.tid) s
      else if cod == codigo operacion_crear_mutex
      then con_datos deserializar_datos_operacion_mutex (λ d. op_crear_mutex d.recurso) s
      else if cod == codigo operacion_bloquear_mutex
      then con_datos deserializar_datos_operacion_mutex (λ d. op_bloquear_mutex d.recurso) s
      else if cod == codigo operacion_desbloquear_mutex
      then con_datos deserializar_datos_operacion_mutex (λ d. op_desbloquear_mutex d.recurso) s
      else if cod == codigo operacion_io
      then con_datos deserializar_datos_operacion_io (λ d. op_io d.tiempo) s
      else if cod == codigo operacion_dump_memory
      then some (op_dump_memory, s)
      else if cod == codigo operacion_desalojar_hilo
      then some (op_desalojar_hilo, s)
      else some (op_desconocida cod, s)

  -- `none` where the CPU closes the socket, or where its bytes are not the data of their code.
  unfoldable pub recibir_de_cpu : List ℕ → Option (Operacion × List ℕ)
  recibir_de_cpu s = recibir_operacion s >>= λ cod. recibir_con_codigo cod.0 cod.1
