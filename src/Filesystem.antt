-- ===== src/Filesystem.antt =====
-- filesystem/src/main.c: the bitmap of blocks, the file of blocks and the dumps. A free block is a
-- `false` bit; the file of blocks is the list of its bytes.
pub mod Bloques
pub mod Lectura
pub mod Indice
pub mod Escritura
pub mod Contenido
pub mod Atencion
mod Montaje
use sist_op_tp2c.Base.{
  ℕ, zero, suc, ◌+◌, ◌-◌, ◌*◌, ◌/◌, Bool, true, false, Option, none, some, List, [], ◌∷◌, ◌++◌,
  ◌>>=◌, ◌==◌, ltb, leb, min, if◌then◌else◌, length, set, take, drop, replicate,
}
use sist_op_tp2c.Utils.Buffer.{bytes32}

-- `t_file_metadata`, with the name of its file.
pub record Metadata : Type 0 where
  pub nombre_archivo : List ℕ
  pub size : ℕ
  pub index_block : ℕ

-- The configuration, `bitmap`, bloques.dat and the directory of files, the newest first.
pub record Filesystem : Type 0 where
  pub block_size : ℕ
  pub block_count : ℕ
  pub bitmap : List Bool
  pub bloques : List ℕ
  pub files : List Metadata

-- The loop from block `i`, while blocks are missing.
unfoldable pub libres_desde : ℕ → ℕ → List Bool → List ℕ
libres_desde i zero bits = []
libres_desde i (suc faltan) [] = []
libres_desde i (suc faltan) (true ∷ bits) = libres_desde (suc i) (suc faltan) bits
libres_desde i (suc faltan) (false ∷ bits) = i ∷ libres_desde (suc i) faltan bits

-- The inner `none` is NULL. A search that comes to the end of a bitmap with fewer bits than blocks reads
-- behind it.
unfoldable pub encontrar_bloques_libres : ℕ → Filesystem → Option (Option (List ℕ))
encontrar_bloques_libres cantidad f =
    let bloques = libres_desde 0 cantidad (take f.block_count f.bitmap) in
    if ltb (length bloques) cantidad
    then (if leb f.block_count (length f.bitmap) then some none else none)
    else some (some bloques)

unfoldable pub contar : List Bool → ℕ
contar [] = 0
contar (true ∷ bits) = contar bits
contar (false ∷ bits) = suc (contar bits)

unfoldable pub bloques_libres : Filesystem → ℕ
bloques_libres f = contar (take f.block_count f.bitmap)

-- The loop tests a bit for each block.
unfoldable pub contar_bloques_libres : Filesystem → Option ℕ
contar_bloques_libres f =
    if leb f.block_count (length f.bitmap) then some (bloques_libres f) else none

unfoldable pub bloques_necesarios : ℕ → Filesystem → ℕ
bloques_necesarios tamanio f = (tamanio + f.block_size - 1) / f.block_size

-- With a BLOCK_SIZE of 0 the code divides by zero.
unfoldable pub calcular_bloques_necesarios : ℕ → Filesystem → Option ℕ
calcular_bloques_necesarios tamanio f =
    if f.block_size == 0 then none else some (bloques_necesarios tamanio f)

-- `bitarray_set_bit` of each block, in order.
unfoldable pub marcar : List ℕ → List Bool → List Bool
marcar [] bits = bits
marcar (i ∷ is) bits = marcar is (set bits i true)

-- `fwrite` at an offset: the bytes before it (zeros where the file ends sooner) and behind it stay.
unfoldable pub escribir_bloque : ℕ → List ℕ → Filesystem → Filesystem
escribir_bloque nro datos f =
    let desde = nro * f.block_size in
    record f {
      bloques =
          take desde f.bloques
          ++ (replicate (desde - length f.bloques) 0
              ++ (datos ++ drop (desde + length datos) f.bloques));
    }

-- The index block holds the numbers of the data blocks, four bytes each.
unfoldable pub indices : List ℕ → List ℕ
indices [] = []
indices (b ∷ bs) = bytes32 b ++ indices bs

-- The loop over the data blocks, from the one that holds byte `offset`. A block that takes bytes behind
-- the end of `contenido` is a fault.
unfoldable pub escribir_datos : List ℕ → ℕ → List ℕ → ℕ → Filesystem → Option Filesystem
escribir_datos [] offset contenido tamanio f = some f
escribir_datos (b ∷ bs) offset contenido tamanio f =
    let size = if ltb tamanio (offset + f.block_size) then tamanio - offset else f.block_size in
    let resto =
      escribir_datos bs (offset + f.block_size) contenido tamanio
        (escribir_bloque b (take size (drop offset contenido)) f) in
    if leb (min tamanio (offset + f.block_size)) (length contenido) then resto else none

-- The blocks that were found, the first one for the index.
unfoldable pub guardar_archivo : List ℕ → List ℕ → List ℕ → ℕ → Filesystem → Option Filesystem
guardar_archivo [] nombre contenido tamanio f = none
guardar_archivo (indice ∷ datos) nombre contenido tamanio f =
    escribir_datos datos 0 contenido tamanio (
      escribir_bloque indice (indices datos) (record f {
        bitmap = marcar (indice ∷ datos) f.bitmap;
        files = record { nombre_archivo = nombre; size = tamanio; index_block = indice } ∷ f.files;
      }))

-- What follows the search of the blocks, of NULL or of the blocks. The free blocks are counted for the
-- log as each block is marked, which leaves the length of the bitmap.
unfoldable pub con_bloques :
    Option (List ℕ) → List ℕ → List ℕ → ℕ → Filesystem → Option (Bool × Filesystem)
con_bloques none nombre contenido tamanio f = some (false, f)
con_bloques (some bloques) nombre contenido tamanio f = contar_bloques_libres f >>= λ _.
    guardar_archivo bloques nombre contenido tamanio f >>= λ f1. some (true, f1)

-- The outer `none` is a fault; the Boolean is the answer to the memory.
unfoldable pub crear_archivo_dump : List ℕ → List ℕ → ℕ → Filesystem → Option (Bool × Filesystem)
crear_archivo_dump nombre contenido tamanio f = do
  necesarios ← calcular_bloques_necesarios tamanio f
  encontrados ← encontrar_bloques_libres (necesarios + 1) f
  con_bloques encontrados nombre contenido tamanio f
