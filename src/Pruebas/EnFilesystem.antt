-- ===== src/Pruebas/EnFilesystem.antt =====
-- The theorems of the filesystem at four blocks of four bytes, the first of them in use.
use sist_op_tp2c.Base.{
  arith, ◌+◌, ◌<◌, ◌≡◌, ◌⊎◌, true, false, some, [], ◌∷◌, ◌++◌, take, drop, replicate,
}
use sist_op_tp2c.Filesystem.{Filesystem, bloques_libres, bloques_necesarios, crear_archivo_dump}
use sist_op_tp2c.Filesystem.Bloques.{ocupar, crear_archivo_dump_lem}

abbrev filesystem_prueba : Filesystem
filesystem_prueba = record {
  block_size = 4;
  block_count = 4;
  bitmap = true ∷ false ∷ false ∷ false ∷ false ∷ [];
  bloques = replicate 16 0;
  files = [];
}

-- Five bytes take two blocks of data and one for the index.
crear_archivo_dump_example :
    ((bloques_libres filesystem_prueba < bloques_necesarios 5 filesystem_prueba + 1)
      × (crear_archivo_dump (97 ∷ []) (1 ∷ 2 ∷ 3 ∷ 4 ∷ 5 ∷ []) 5 filesystem_prueba
          ≡ some (false, filesystem_prueba)))
    ⊎ ((f' : Filesystem) × (crear_archivo_dump
            (97 ∷ [])
            (1 ∷ 2 ∷ 3 ∷ 4 ∷ 5 ∷ [])
            5
            filesystem_prueba
          ≡ some (true, f'))
        × (f'.bitmap
            ≡ ocupar (bloques_necesarios 5 filesystem_prueba + 1) (take 4 filesystem_prueba.bitmap)
              ++ drop 4 filesystem_prueba.bitmap)
        × (bloques_libres f' + (bloques_necesarios 5 filesystem_prueba + 1)
            ≡ bloques_libres filesystem_prueba))
crear_archivo_dump_example =
    crear_archivo_dump_lem (97 ∷ []) (1 ∷ 2 ∷ 3 ∷ 4 ∷ 5 ∷ []) 5 filesystem_prueba
      (omega arith, omega arith) (omega arith)
