-- ===== src/Pruebas/EnDump.antt =====
-- The theorems on dumps at four blocks of eight bytes, the first of them in use.
use sist_op_tp2c.Base.{ℕ, ◌+◌, true, false, List, [], ◌∷◌, ◌++◌, replicate}
use sist_op_tp2c.Utils.KernelMemoria.{DatosDumpMemory}
use sist_op_tp2c.Filesystem.{Filesystem}

abbrev vacio : Filesystem
vacio = record {
  block_size = 8;
  block_count = 4;
  bitmap = true ∷ false ∷ false ∷ false ∷ false ∷ [];
  bloques = replicate 32 0;
  files = [];
}

-- Ten bytes in two blocks, after the index in block 1.
abbrev con_archivo : Filesystem
con_archivo = record {
  block_size = 8;
  block_count = 4;
  bitmap = true ∷ true ∷ true ∷ true ∷ false ∷ [];
  bloques =
      replicate 8 0
      ++ (2 ∷ 0 ∷ 0 ∷ 0 ∷ 3 ∷ 0 ∷ 0 ∷ 0 ∷ 1 ∷ 2 ∷ 3 ∷ 4 ∷ 5 ∷ 6 ∷ 7 ∷ 8 ∷ 9 ∷ 10 ∷ replicate 6 0);
  files = record { nombre_archivo = 97 ∷ []; size = 10; index_block = 1 } ∷ [];
}

abbrev diez : List ℕ
diez = 1 ∷ 2 ∷ 3 ∷ 4 ∷ 5 ∷ 6 ∷ 7 ∷ 8 ∷ 9 ∷ 10 ∷ []

abbrev formato : ℕ → ℕ → List ℕ
formato pid tid = (48 + pid) ∷ 45 ∷ (48 + tid) ∷ []

abbrev pedido : DatosDumpMemory
pedido = record { pid = 3; tid = 0 }
