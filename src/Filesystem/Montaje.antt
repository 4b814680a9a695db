-- ===== src/Filesystem/Montaje.antt =====
-- The filesystem that its program starts with.
use sist_op_tp2c.Base.{
  ℕ, ◌+◌, ◌-◌, ◌*◌, ◌/◌, ◌<◌, ◌≤◌, Bool, Option, none, some, List, arith, length, take,
  length-append, length-take, length-replicate, replicate, false,
}
use sist_op_tp2c.Filesystem.{Metadata}
use sist_op_tp2c.Filesystem.Bloques.{Montado}
use sist_op_tp2c.Filesystem.Atencion.{inicializar_filesystem, inicializar_bitmap}

-- The bitmap is given whole bytes, enough for a bit for each block, whatever its file held.
inicializar_bitmap-entero :
    (bits : Option (List Bool)) (block_count : ℕ)
    → block_count ≤ length (inicializar_bitmap bits block_count)
unfolding inicializar_bitmap
inicializar_bitmap-entero none n = omega (arith, length-replicate ((n + 7) / 8 * 8) false)
inicializar_bitmap-entero (some bits) n =
    let m : ℕ = (n + 7) / 8 * 8 in
    omega (
      arith,
      length-append (take m bits) (replicate (m - length bits) false),
      length-take m bits,
      length-replicate (m - length bits) false,
    )

-- The program starts with a filesystem as its dumps need it, where BLOCK_SIZE is not 0.
inicializar_filesystem-Montado :
    (bloques : Option (List ℕ)) (bits : Option (List Bool)) (files : List Metadata)
    (block_size block_count : ℕ)
    → 0 < block_size
    → Montado (inicializar_filesystem bloques bits files block_size block_count)
unfolding inicializar_filesystem
inicializar_filesystem-Montado bloques bits files block_size block_count h =
    (h, inicializar_bitmap-entero bits block_count)
