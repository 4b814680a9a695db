-- ===== src/Cpu/Conexion.antt =====
-- cpu/src/main.c: the requests to the memory and the dispatch of a thread, as bytes on their sockets.
-- `memoria` takes the bytes of a request to the bytes that come back. `none` is a fault or an `abort`.
use sist_op_tp2c.Base.{ℕ, Option, none, some, List, ◌>>=◌, ◌==◌, if◌then◌else◌}
use sist_op_tp2c.Utils.Buffer.{Malloc, Buffer}
use sist_op_tp2c.Utils.Mensajes.{
  OpCode, codigo, recibir_operacion, recibir_buffer, enviar_paquete, operacion_ejecutar_hilo,
  operacion_devolver_contexto_ejecucion, operacion_confirmar, operacion_devolver_instruccion,
  operacion_actualizar_contexto, operacion_leer_memoria, operacion_escribir_memoria,
}
use sist_op_tp2c.Utils.KernelCpu.{HiloACpu, deserializar_hilo_a_cpu}
use sist_op_tp2c.Utils.CpuMemoria.{
  Contexto, DatosObtenerInstruccion, DatosLeerMemoria, DatosEscribirMemoria,
  serializar_datos_contexto, deserializar_datos_contexto, serializar_datos_solicitar_instruccion,
  deserializar_datos_devolver_instruccion, serializar_datos_leer_memoria,
  serializar_datos_escribir_memoria,
}

-- A packet whose code is not looked at.
unfoldable pub recibir_paquete : {A : Type 0} → (Buffer → Option A) → List ℕ → Option A
recibir_paquete leer s = do op ← recibir_operacion s; b ← recibir_buffer op.1; leer b.0

module _ {A : Type 0} (ml : Malloc) (memoria : List ℕ → Option (List ℕ × A)) where
  unfoldable pub enviar_y_recibir : OpCode → Option Buffer → Option (List ℕ × A)
  enviar_y_recibir op datos = enviar_paquete ml op datos >>= memoria

  -- The buffer is the one that came from the kernel.
  unfoldable pub contexto_por_socket : Buffer → Option (Contexto × A)
  contexto_por_socket b = do
    r ← enviar_y_recibir operacion_devolver_contexto_ejecucion (some b)
    c ← recibir_paquete deserializar_datos_contexto r.0
    some (c, r.1)

  unfoldable pub instruccion_por_socket : DatosObtenerInstruccion → Option (List ℕ × A)
  instruccion_por_socket d = do
    r ←
        enviar_y_recibir operacion_devolver_instruccion
          (serializar_datos_solicitar_instruccion ml d)
    i ← recibir_paquete deserializar_datos_devolver_instruccion r.0
    some (i.instruccion, r.1)

  unfoldable pub lectura_por_socket : DatosLeerMemoria → Option (ℕ × A)
  lectura_por_socket d = do
    r ← enviar_y_recibir operacion_leer_memoria (serializar_datos_leer_memoria ml d)
    x ← recibir_operacion r.0
    some (x.0, r.1)

  unfoldable pub escritura_por_socket : DatosEscribirMemoria → Option A
  escritura_por_socket d = do
    r ← enviar_y_recibir operacion_escribir_memoria (serializar_datos_escribir_memoria ml d)
    op ← recibir_operacion r.0
    if op.0 == codigo operacion_confirmar then some r.1 else none

  -- The code that comes back is not looked at.
  unfoldable pub actualizar_por_socket : Contexto → Option A
  actualizar_por_socket c = do
    r ← enviar_y_recibir operacion_actualizar_contexto (serializar_datos_contexto ml c)
    some r.1

  -- A thread from the kernel: what `escuchar_dispatch` leaves in `pcb` and in `contexto`.
  unfoldable pub despachado_por_socket : List ℕ → Option (HiloACpu × Contexto × A)
  despachado_por_socket s = do
    op ← recibir_operacion s
    if op.0 == codigo operacion_ejecutar_hilo
        then (recibir_buffer op.1 >>= λ b. deserializar_hilo_a_cpu b.0 >>= λ pcb.
            contexto_por_socket b.0 >>= λ c. some (pcb, c.0, c.1))
        else none
