-- ===== src/Filesystem/Atencion.antt =====
-- filesystem/src/main.c: the start of the bitmap and of bloques.dat, and the requests of the memory as
-- bytes of a socket. `none` is a fault.
use sist_op_tp2c.Base.{
  ℕ, ◌+◌, ◌-◌, ◌*◌, ◌/◌, Bool, false, Option, none, some, List, [], ◌++◌, ◌>>=◌, ◌==◌,
  if◌then◌else◌, replicate, take, length,
}
use sist_op_tp2c.Utils.Buffer.{bytes32}
use sist_op_tp2c.Utils.Mensajes.{
  al_cerrar, codigo, recibir_operacion, recibir_buffer, operacion_mensaje, operacion_dump_memory,
}
use sist_op_tp2c.Utils.MemoriaFilesystem.{
  deserializar_datos_dump_memory_fs, enviar_respuesta_operacion,
}
use sist_op_tp2c.Filesystem.{Filesystem, Metadata, crear_archivo_dump}

-- bloques.dat: what the file holds, or zeros where there is none.
unfoldable pub inicializar_bloques : Option (List ℕ) → ℕ → ℕ → List ℕ
inicializar_bloques none block_size block_count = replicate (block_count * block_size) 0
inicializar_bloques (some bytes) block_size block_count = bytes

-- The bits of bitmap.dat: those of the file cut or filled with zeros to whole bytes, or zeros.
unfoldable pub inicializar_bitmap : Option (List Bool) → ℕ → List Bool
inicializar_bitmap none block_count = replicate ((block_count + 7) / 8 * 8) false
inicializar_bitmap (some bits) block_count =
    let bitmap_size = (block_count + 7) / 8 * 8 in
    take bitmap_size bits ++ replicate (bitmap_size - length bits) false

unfoldable pub inicializar_filesystem :
    Option (List ℕ) → Option (List Bool) → List Metadata → ℕ → ℕ → Filesystem
inicializar_filesystem bloques bits files block_size block_count = record {
  block_size = block_size;
  block_count = block_count;
  bitmap = inicializar_bitmap bits block_count;
  bloques = inicializar_bloques bloques block_size block_count;
  files = files;
}

-- The bytes that are sent back. A message is read and not answered.
unfoldable pub atender_peticion_filesystem_memoria :
    ℕ → List ℕ → Filesystem → Option (List ℕ × Filesystem)
atender_peticion_filesystem_memoria cod s f =
    if cod == codigo operacion_mensaje
    then (recibir_buffer s >>= λ _. some ([], f))
    else if cod == codigo operacion_dump_memory
    then (recibir_buffer s >>= λ b. deserializar_datos_dump_memory_fs b.0 >>= λ d.
        crear_archivo_dump d.nombre_archivo d.contenido d.tamanio f >>= λ r.
        some (bytes32 (enviar_respuesta_operacion r.0), r.1))
    else some (bytes32 (enviar_respuesta_operacion false), f)

unfoldable pub atender_memoria : List ℕ → Filesystem → Option (List ℕ × Filesystem)
atender_memoria s f = elim (recibir_operacion s) [
  | none ↦ al_cerrar s (some ([], f)) none
  | some (cod, s1) ↦ atender_peticion_filesystem_memoria cod s1 f
]
