-- ===== src/Utils/MemoriaFilesystem.antt =====
-- utils/src/utils/comunicacion_memoria_filesystem.c: the dump that the memory sends to the file
-- system, and its answer.
pub mod IdaYVuelta
use sist_op_tp2c.Base.{
  ℕ, ◌+◌, Bool, true, false, Option, none, some, List, ◌>>=◌, leb, if◌then◌else◌, length, take,
}
use sist_op_tp2c.Utils.Buffer.{
  Malloc, Buffer, en_memoria, buffer_create, buffer_add, buffer_read, buffer_add_uint32,
  buffer_read_uint32, buffer_add_string, buffer_read_string,
}
use sist_op_tp2c.Utils.Mensajes.{codigo, operacion_confirmar, operacion_notificar_error}

-- `t_datos_dump_memory_fs`; `contenido` is the memory that the pointer points to.
pub record DatosDumpMemoryFs : Type 0 where
  pub nombre_archivo : List ℕ
  pub tamanio : ℕ
  pub contenido : List ℕ

pub serializar_datos_dump_memory_fs : Malloc → DatosDumpMemoryFs → Option Buffer
serializar_datos_dump_memory_fs m d = do
  b ←
      buffer_add_string (buffer_create m (4 + (length d.nombre_archivo + 1) + 4 + d.tamanio))
        (length d.nombre_archivo + 1) (en_memoria d.nombre_archivo)
  b' ← buffer_add_uint32 b d.tamanio
  if leb d.tamanio (length d.contenido) then buffer_add b' (take d.tamanio d.contenido) else none

pub deserializar_datos_dump_memory_fs : Buffer → Option DatosDumpMemoryFs
deserializar_datos_dump_memory_fs b = do
  nombre ← buffer_read_string b
  tamanio ← buffer_read_uint32 nombre.1
  contenido ← buffer_read tamanio.1 tamanio.0
  some (record { nombre_archivo = nombre.0; tamanio = tamanio.0; contenido = contenido.0 })

-- The code that `enviar_respuesta_operacion` sends.
unfoldable pub enviar_respuesta_operacion : Bool → ℕ
enviar_respuesta_operacion resultado =
    if resultado then codigo operacion_confirmar else codigo operacion_notificar_error
