-- ===== src/Utils/Mensajes.antt =====
-- utils/src/utils/mensajes.c: operation codes, packets, and the two reads of a receiver. A socket is
-- the list of the bytes that are still to be received.
pub mod Envio
pub mod Atencion
pub mod Dialogo
use sist_op_tp2c.Base.{
  ℕ, ◌+◌, ◌*◌, Bool, true, false, Option, none, some, List, ◌++◌, [], ◌∷◌, ◌>>=◌, leb,
  if◌then◌else◌, length, take, drop,
}
use sist_op_tp2c.Utils.Buffer.{
  Malloc, Buffer, bytes32, valor32, en_memoria, buffer_create, buffer_add, buffer_add_uint32,
  buffer_add_string,
}

-- `op_code`
pub data OpCode : Type 0 where
  operacion_mensaje operacion_devolver_contexto_ejecucion operacion_paquete operacion_ejecutar_hilo
        operacion_desalojar_hilo operacion_crear_proceso operacion_finalizar_proceso
        operacion_crear_hilo operacion_finalizar_hilo operacion_esperar_hilo operacion_cancelar_hilo
        operacion_crear_mutex operacion_bloquear_mutex operacion_desbloquear_mutex
        operacion_dump_memory operacion_io operacion_confirmar operacion_notificar_error
        operacion_devolver_instruccion operacion_actualizar_contexto operacion_leer_memoria
        operacion_escribir_memoria operacion_segmentation_fault :
      OpCode

-- The numbers of the constants.
unfoldable pub codigo : OpCode → ℕ
codigo operacion_mensaje = 0
codigo operacion_devolver_contexto_ejecucion = 1
codigo operacion_paquete = 2
codigo operacion_ejecutar_hilo = 3
codigo operacion_desalojar_hilo = 4
codigo operacion_crear_proceso = 5
codigo operacion_finalizar_proceso = 6
codigo operacion_crear_hilo = 7
codigo operacion_finalizar_hilo = 8
codigo operacion_esperar_hilo = 9
codigo operacion_cancelar_hilo = 10
codigo operacion_crear_mutex = 11
codigo operacion_bloquear_mutex = 12
codigo operacion_desbloquear_mutex = 13
codigo operacion_dump_memory = 14
codigo operacion_io = 15
codigo operacion_confirmar = 16
codigo operacion_notificar_error = 17
codigo operacion_devolver_instruccion = 18
codigo operacion_actualizar_contexto = 19
codigo operacion_leer_memoria = 20
codigo operacion_escribir_memoria = 21
codigo operacion_segmentation_fault = 22

-- `t_paquete`
pub record Paquete : Type 0 where
  pub codigo_operacion : ℕ
  pub buffer : Buffer

-- `buffer_add` of the packet's bytes reads `size` bytes of its block.
pub serializar_paquete : Malloc → Paquete → Option Buffer
serializar_paquete m p = do
  b ← buffer_add_uint32 (buffer_create m (2 * 4 + p.buffer.size)) p.codigo_operacion
  b' ← buffer_add_uint32 b p.buffer.size
  if leb p.buffer.size (length p.buffer.stream)
      then buffer_add b' (take p.buffer.size p.buffer.stream)
      else none

-- `none` where fewer than four bytes come before the close: with none of them that is the -1 of a
-- connection that was closed, and with 1 to 3 of them the code returned has bytes never written.
pub recibir_operacion : List ℕ → Option (ℕ × List ℕ)
recibir_operacion s = if leb 4 (length s) then some (valor32 (take 4 s), drop 4 s) else none

-- What a reader that tests for -1 does with such a `none`: `x` if the connection was closed, and a fault
-- where it goes on with a code that is not all written.
abbrev pub al_cerrar {ℓ} : {A : Type ℓ} → List ℕ → A → A → A
al_cerrar [] x falta = x
al_cerrar (b ∷ s) x falta = falta

-- The size, and then as many bytes; `none` where the sender closes before them, and the code goes
-- on with bytes that were never written.
pub recibir_buffer : List ℕ → Option (Buffer × List ℕ)
unfolding recibir_operacion
recibir_buffer s = do
  size ← recibir_operacion s
  if leb size.0 (length size.1)
      then some
          (record { size = size.0; offset = 0; stream = take size.0 size.1 }, drop size.0 size.1)
      else none

-- The packet that `enviar_mensaje` sends.
unfoldable pub enviar_mensaje : Malloc → List ℕ → Option Buffer
enviar_mensaje m mensaje = do
  b ←
      buffer_add_string (buffer_create m (4 + (length mensaje + 1))) (length mensaje + 1)
        (en_memoria mensaje)
  serializar_paquete m (record { codigo_operacion = codigo operacion_mensaje; buffer = b })

-- The bytes that `send` gives to the socket: as many as the size of the buffer.
unfoldable pub send : Buffer → Option (List ℕ)
send b = if leb b.size (length b.stream) then some (take b.size b.stream) else none

-- A packet with the data, written and sent.
unfoldable pub enviar_paquete : Malloc → OpCode → Option Buffer → Option (List ℕ)
enviar_paquete m operacion datos = do
  buffer ← datos
  paquete ← serializar_paquete m (record { codigo_operacion = codigo operacion; buffer = buffer })
  send paquete

-- The bytes of an operation code that is sent by itself.
unfoldable pub enviar_codigo : OpCode → List ℕ
enviar_codigo operacion = bytes32 (codigo operacion)

-- The code that a sender reads as an answer; the inner `none` is -1, a connection closed without one.
unfoldable pub codigo_recibido : List ℕ → Option (Option ℕ)
codigo_recibido s = elim (recibir_operacion s) [
  | none ↦ al_cerrar s (some none) none
  | some (cod, _) ↦ some (some cod)
]
