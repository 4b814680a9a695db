-- ===== src/Filesystem/Lectura.antt =====
-- How the contents of a file are found in the blocks of filesystem/src/main.c: the metadata name the
-- index block, whose numbers are those of the data blocks. The program writes this layout.
use sist_op_tp2c.Base.{ℕ, zero, suc, ◌-◌, ◌*◌, List, [], ◌∷◌, ◌++◌, ltb, if◌then◌else◌, take, drop}
use sist_op_tp2c.Utils.Buffer.{valor32}
use sist_op_tp2c.Filesystem.{Metadata, Filesystem, bloques_necesarios}

unfoldable pub leer_indices : ℕ → List ℕ → List ℕ
leer_indices zero bytes = []
leer_indices (suc n) bytes = valor32 (take 4 bytes) ∷ leer_indices n (drop 4 bytes)

-- The blocks in order, each one whole but for the last.
unfoldable pub leer_bloques : List ℕ → ℕ → ℕ → List ℕ → List ℕ
leer_bloques [] block_size faltan bytes = []
leer_bloques (b ∷ bs) block_size faltan bytes =
    take (if ltb faltan block_size then faltan else block_size) (drop (b * block_size) bytes)
    ++ leer_bloques bs block_size (faltan - block_size) bytes

unfoldable pub leer_archivo : Metadata → Filesystem → List ℕ
leer_archivo md f =
    leer_bloques
      (leer_indices (bloques_necesarios md.size f) (drop (md.index_block * f.block_size) f.bloques))
      f.block_size md.size f.bloques
