-- ===== src/Memoria/Comunicaciones.antt =====
-- memoria/src/comunicaciones.c and main.c: a request is read from its socket, attended, and answered.
-- `none` is a fault, and the `abort` where the CPU closes its connection.
use sist_op_tp2c.Base.{ℕ, Bool, ◌||◌, Option, none, some, List, [], ◌>>=◌, ◌==◌, if◌then◌else◌}
use sist_op_tp2c.Utils.Buffer.{Malloc, Buffer, bytes32}
use sist_op_tp2c.Utils.Mensajes.{
  OpCode, codigo, al_cerrar, recibir_operacion, recibir_buffer, enviar_paquete, enviar_codigo,
  operacion_devolver_contexto_ejecucion, operacion_crear_proceso, operacion_finalizar_proceso,
  operacion_crear_hilo, operacion_finalizar_hilo, operacion_dump_memory, operacion_confirmar,
  operacion_notificar_error, operacion_devolver_instruccion, operacion_actualizar_contexto,
  operacion_leer_memoria, operacion_escribir_memoria,
}
use sist_op_tp2c.Utils.KernelMemoria.{
  deserializar_datos_inicializacion_hilo, deserializar_datos_inicializacion_proceso,
  deserializar_datos_finalizacion_hilo, deserializar_datos_finalizacion_proceso, DatosDumpMemory,
  DatosFinalizacionHilo,
}
use sist_op_tp2c.Utils.CpuMemoria.{
  deserializar_datos_solicitar_contexto, deserializar_datos_contexto_memoria,
  deserializar_datos_solicitar_instruccion, deserializar_datos_leer_memoria,
  deserializar_datos_escribir_memoria, serializar_datos_contexto,
  serializar_datos_devolver_instruccion,
}
use sist_op_tp2c.Memoria.{
  Memoria, Respuesta, confirmar, notificar_error, PeticionKernel, crear_proceso, finaliza_proceso,
  crear_hilo, finaliza_hilo, dump_memory, atender_peticion_kernel, PeticionCpu, RespuestaCpu,
  devolver_contexto, actualizar_contexto, devuelve_instruccion, lee_memoria, escribe_memoria,
  contexto, instruccion, dato, confirmada, atender_peticion_cpu,
}

-- `recibir_buffer`, and the data that are read from it; the rest of the socket stays.
unfoldable pub leer_datos :
    {A B : Type 0} → (Buffer → Option A) → (A → B) → List ℕ → Option (B × List ℕ)
leer_datos leer f s = do r ← recibir_buffer s; d ← leer r.0; some (f d, r.1)

-- The `t_datos_finalizacion_hilo` that is read for a dump is used as a `t_datos_dump_memory`: the two
-- have the same fields in the same order.
unfoldable pub como_dump : DatosFinalizacionHilo → DatosDumpMemory
como_dump d = record { pid = d.pid; tid = d.tid }

-- `none` is the use of data that no case read.
unfoldable pub leer_buffer_kernel : ℕ → List ℕ → Option (PeticionKernel × List ℕ)
leer_buffer_kernel cod s =
    if cod == codigo operacion_crear_proceso
    then leer_datos deserializar_datos_inicializacion_proceso crear_proceso s
    else if cod == codigo operacion_finalizar_proceso
    then leer_datos deserializar_datos_finalizacion_proceso finaliza_proceso s
    else if cod == codigo operacion_crear_hilo
    then leer_datos deserializar_datos_inicializacion_hilo crear_hilo s
    else if cod == codigo operacion_finalizar_hilo
    then leer_datos deserializar_datos_finalizacion_hilo finaliza_hilo s
    else if cod == codigo operacion_dump_memory
    then leer_datos deserializar_datos_finalizacion_hilo (λ d. dump_memory (como_dump d)) s
    else none

unfoldable pub leer_buffer_cpu : ℕ → List ℕ → Option (PeticionCpu × List ℕ)
leer_buffer_cpu cod s =
    if cod == codigo operacion_devolver_contexto_ejecucion
    then leer_datos deserializar_datos_solicitar_contexto devolver_contexto s
    else if cod == codigo operacion_actualizar_contexto
    then leer_datos deserializar_datos_contexto_memoria actualizar_contexto s
    else if cod == codigo operacion_devolver_instruccion
    then leer_datos deserializar_datos_solicitar_instruccion devuelve_instruccion s
    else if cod == codigo operacion_leer_memoria
    then leer_datos deserializar_datos_leer_memoria lee_memoria s
    else if cod == codigo operacion_escribir_memoria
    then leer_datos deserializar_datos_escribir_memoria escribe_memoria s
    else none

-- The codes with a case in `atender_peticion_kernel` and in `atender_peticion_cpu`.
unfoldable pub es_de_kernel : ℕ → Bool
es_de_kernel cod =
    cod == codigo operacion_crear_proceso
    || (cod == codigo operacion_finalizar_proceso
        || (cod == codigo operacion_crear_hilo
            || (cod == codigo operacion_finalizar_hilo || cod == codigo operacion_dump_memory)))

unfoldable pub es_de_cpu : ℕ → Bool
es_de_cpu cod =
    cod == codigo operacion_devolver_contexto_ejecucion
    || (cod == codigo operacion_actualizar_contexto
        || (cod == codigo operacion_devolver_instruccion
            || (cod == codigo operacion_leer_memoria || cod == codigo operacion_escribir_memoria)))

-- `confirmar_operacion` and `notificar_error`
unfoldable pub codigo_de_respuesta : Respuesta → OpCode
codigo_de_respuesta confirmar = operacion_confirmar
codigo_de_respuesta notificar_error = operacion_notificar_error

-- `enviar_buffer`, `confirmar_operacion`, and the number of OPERACION_LEER_MEMORIA without a code.
unfoldable pub enviar_respuesta_cpu : Malloc → RespuestaCpu → Option (List ℕ)
enviar_respuesta_cpu m (contexto c) =
    enviar_paquete m operacion_devolver_contexto_ejecucion (serializar_datos_contexto m c)
enviar_respuesta_cpu m (instruccion i) =
    enviar_paquete m operacion_devolver_instruccion
      (serializar_datos_devolver_instruccion m (record { instruccion = i }))
enviar_respuesta_cpu m (dato x) = some (bytes32 x)
enviar_respuesta_cpu m confirmada = some (enviar_codigo operacion_confirmar)

-- The bytes that the memory sends back. An unknown code is not answered, nor is a closed socket.
unfoldable pub atender_kernel :
    (List ℕ → Option (List (List ℕ)))
    → (DatosDumpMemory → List ℕ → Bool)
    → List ℕ
    → Memoria
    → Option (List ℕ × Memoria)
atender_kernel archivos escribe s m = elim (recibir_operacion s) [
  | none ↦ al_cerrar s (some ([], m)) none
  | some (cod, s1) ↦
      if es_de_kernel cod
      then (leer_buffer_kernel cod s1 >>= λ p.
          atender_peticion_kernel archivos escribe p.0 m >>= λ r.
          some (enviar_codigo (codigo_de_respuesta r.0), r.1))
      else some ([], m)
]

unfoldable pub atender_cpu : Malloc → List ℕ → Memoria → Option (List ℕ × Memoria)
atender_cpu ml s m = do
  cod ← recibir_operacion s
  if es_de_cpu cod.0
      then (leer_buffer_cpu cod.0 cod.1 >>= λ p.
          atender_peticion_cpu p.0 m >>= λ r. enviar_respuesta_cpu ml r.0 >>= λ bs. some (bs, r.1))
      else some ([], m)
