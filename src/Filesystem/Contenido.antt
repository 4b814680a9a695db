-- ===== src/Filesystem/Contenido.antt =====
-- A dump is read back through its index block.
use sist_op_tp2c.Base.{ℕ, ◌*◌, ◌≤◌, ◌<◌, ◌≡◌, List, ◌∷◌, length, u32_mod}
use sist_op_tp2c.Filesystem.{Metadata, Filesystem}
use sist_op_tp2c.Filesystem.Lectura.{leer_archivo}

-- What a file's metadata say, and what is read through them.
abbrev pub Guardado : List ℕ → List ℕ → Filesystem → Filesystem → Type 0
Guardado nombre c f g =
    (md : Metadata) × (g.files ≡ md ∷ f.files)
    × (md.nombre_archivo ≡ nombre)
    × (md.size ≡ length c)
    × (leer_archivo md g ≡ c)

-- The blocks fit in the file of blocks, their numbers are `uint32_t`, and the index of `n` of them fits
-- in its block.
abbrev pub Alcanza : ℕ → Filesystem → Type 0
Alcanza n f =
    (0 < f.block_size)
    × (4 * n ≤ f.block_size)
    × (f.block_count * f.block_size ≤ length f.bloques)
    × (f.block_count ≤ u32_mod)
