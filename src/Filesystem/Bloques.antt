-- ===== src/Filesystem/Bloques.antt =====
-- The search of free blocks and the bitmap that a dump leaves.
use sist_op_tp2c.Base.{
  ℕ, zero, suc, ◌+◌, ◌≤◌, ◌<◌, ◌≡◌, refl, sym, ap, ◌∙◌, ◌⊎◌, inl, inr, Bool, true, false, none,
  some, List, [], ◌∷◌, ◌++◌, ◌==◌, leb, ltb, length, set, take, drop, arith, min, Bool-cases,
  append_assoc, length-append, take-append-drop,
}
use sist_op_tp2c.Filesystem.{
  Filesystem, libres_desde, encontrar_bloques_libres, contar, bloques_libres, bloques_necesarios,
  marcar, escribir_bloque, guardar_archivo, contar_bloques_libres, calcular_bloques_necesarios,
  con_bloques, crear_archivo_dump,
}
use sist_op_tp2c.Filesystem.Escritura.{datos_escritos, escribir_datos_lem}

-- BLOCK_SIZE is not 0, and the bitmap has a bit for each block.
abbrev pub Montado : Filesystem → Type 0
Montado f = (0 < f.block_size) × (f.block_count ≤ length f.bitmap)

pub length-libres :
    (i n : ℕ) (bits : List Bool) → length (libres_desde i n bits) ≡ min n (contar bits)
unfolding libres_desde contar
length-libres i zero bits = omega arith
length-libres i (suc n) [] = omega arith
length-libres i (suc n) (true ∷ bits) = length-libres (suc i) (suc n) bits
length-libres i (suc n) (false ∷ bits) = omega (arith, length-libres (suc i) n bits)

-- The first `n` free blocks are taken, and the others stay.
unfoldable pub ocupar : ℕ → List Bool → List Bool
ocupar zero bits = bits
ocupar (suc n) [] = []
ocupar (suc n) (true ∷ bits) = true ∷ ocupar (suc n) bits
ocupar (suc n) (false ∷ bits) = true ∷ ocupar n bits

contar-ocupar :
    (n : ℕ) (bits : List Bool) → n ≤ contar bits → contar (ocupar n bits) + n ≡ contar bits
unfolding ocupar contar
contar-ocupar zero bits h = omega arith
contar-ocupar (suc n) [] h = omega arith
contar-ocupar (suc n) (true ∷ bits) h = contar-ocupar (suc n) bits h
contar-ocupar (suc n) (false ∷ bits) h = omega (arith, contar-ocupar n bits (omega arith))

set-medio :
    (pre post : List Bool) (i : ℕ)
    → length pre ≡ i
    → set (pre ++ false ∷ post) i true ≡ pre ++ true ∷ post
set-medio [] post zero h = refl
set-medio [] post (suc i) h = absurd (omega arith)
set-medio (x ∷ pre) post zero h = absurd (omega arith)
set-medio (x ∷ pre) post (suc i) h = ap (◌∷◌ x) (set-medio pre post i (omega arith))

length-uno : (pre : List Bool) (x : Bool) (i : ℕ) → length pre ≡ i → length (pre ++ x ∷ []) ≡ suc i
length-uno pre x i h = omega (arith, length-append pre (x ∷ []))

marcar-libres :
    (pre bits post : List Bool) (n i : ℕ)
    → length pre ≡ i
    → marcar (libres_desde i n bits) (pre ++ (bits ++ post)) ≡ pre ++ (ocupar n bits ++ post)
unfolding marcar libres_desde ocupar
marcar-libres pre bits post zero i h = refl
marcar-libres pre [] post (suc n) i h = refl
marcar-libres pre (true ∷ bits) post (suc n) i h =
    let r = marcar-libres (pre ++ true ∷ []) bits post (suc n) (suc i) (length-uno pre true i h) in
    ap (marcar (libres_desde (suc i) (suc n) bits))
      (sym (append_assoc pre (true ∷ []) (bits ++ post)))
    ∙ r
    ∙ append_assoc pre (true ∷ []) (ocupar (suc n) bits ++ post)
marcar-libres pre (false ∷ bits) post (suc n) i h =
    let r = marcar-libres (pre ++ true ∷ []) bits post n (suc i) (length-uno pre true i h) in
    rw (marcar, set-medio pre (bits ++ post) i h)
      (ap (marcar (libres_desde (suc i) n bits)) (sym (append_assoc pre (true ∷ []) (bits ++ post)))
        ∙ r
        ∙ append_assoc pre (true ∷ []) (ocupar n bits ++ post))

ocupar-nil : (n : ℕ) → ocupar n [] ≡ []
unfolding ocupar
ocupar-nil zero = refl
ocupar-nil (suc n) = refl

take-ocupar :
    (n m : ℕ) (bits : List Bool)
    → take m (ocupar n (take m bits) ++ drop m bits) ≡ ocupar n (take m bits)
unfolding ocupar
take-ocupar n zero bits = sym (ocupar-nil n)
take-ocupar n (suc m) [] = rw (ocupar-nil n) refl
take-ocupar zero (suc m) (x ∷ bits) = ap (◌∷◌ x) (ap (take m) (take-append-drop m bits))
take-ocupar (suc n) (suc m) (true ∷ bits) = ap (◌∷◌ true) (take-ocupar (suc n) m bits)
take-ocupar (suc n) (suc m) (false ∷ bits) = ap (◌∷◌ true) (take-ocupar n m bits)

-- The writes of data blocks leave the bitmap.
datos-bitmap :
    (bs : List ℕ) (offset : ℕ) (contenido : List ℕ) (t : ℕ) (f : Filesystem)
    → ((datos_escritos bs offset contenido t f).bitmap ≡ f.bitmap)
      × ((datos_escritos bs offset contenido t f).block_count ≡ f.block_count)
unfolding datos_escritos escribir_bloque
datos-bitmap [] offset contenido t f = (refl, refl)
datos-bitmap (b ∷ bs) offset contenido t f = datos-bitmap bs (offset + f.block_size) contenido t _

guardar-bitmap :
    (bs nombre contenido : List ℕ) (t : ℕ) (f : Filesystem)
    → 0 < length bs
    → t ≤ length contenido
    → (f' : Filesystem) × (guardar_archivo bs nombre contenido t f ≡ some f')
      × (f'.bitmap ≡ marcar bs f.bitmap)
      × (f'.block_count ≡ f.block_count)
unfolding guardar_archivo escribir_bloque
guardar-bitmap [] nombre contenido t f h largo = absurd (omega arith)
guardar-bitmap (b ∷ bs) nombre contenido t f h largo =
    let d = datos-bitmap bs 0 contenido t _ in
    (_, escribir_datos_lem bs 0 contenido t _ largo, d.0, d.1)

pub encontrar_lem :
    (n : ℕ) (f : Filesystem)
    → f.block_count ≤ length f.bitmap
    → ((bloques_libres f < n) × (encontrar_bloques_libres n f ≡ some none))
      ⊎ ((n ≤ bloques_libres f)
          × (encontrar_bloques_libres n f
              ≡ some (some (libres_desde 0 n (take f.block_count f.bitmap)))))
unfolding encontrar_bloques_libres bloques_libres
encontrar_lem n f entero =
    let todos : leb f.block_count (length f.bitmap) ≡ true = ground arith in
    let mide = length-libres 0 n (take f.block_count f.bitmap) in
    elim (Bool-cases (ltb (length (libres_desde 0 n (take f.block_count f.bitmap))) n)) [
      | inl si ↦ inl (ground arith, rw si (rw todos refl))
      | inr ni ↦ inr (ground arith, rw ni refl)
    ]

-- Where BLOCK_SIZE is not 0, the bitmap has a bit for each block and the contents have as many bytes as
-- the dump is said to have, a dump does not fault. It is refused, and nothing changes, exactly if there are fewer free blocks
-- than the ones of its data and one for the index; or it takes the first free blocks, as many as that,
-- keeps every other bit of the bitmap, and the count of free blocks falls by that many.
pub crear_archivo_dump_lem :
    (nombre contenido : List ℕ) (t : ℕ) (f : Filesystem)
    → Montado f
    → t ≤ length contenido
    → ((bloques_libres f < bloques_necesarios t f + 1)
        × (crear_archivo_dump nombre contenido t f ≡ some (false, f)))
      ⊎ ((f' : Filesystem) × (crear_archivo_dump nombre contenido t f ≡ some (true, f'))
          × (f'.bitmap
              ≡ ocupar (bloques_necesarios t f + 1) (take f.block_count f.bitmap)
                ++ drop f.block_count f.bitmap)
          × (bloques_libres f' + (bloques_necesarios t f + 1) ≡ bloques_libres f))
unfolding crear_archivo_dump con_bloques calcular_bloques_necesarios contar_bloques_libres
crear_archivo_dump_lem nombre contenido t f (no_cero, entero) largo =
    let n : ℕ = bloques_necesarios t f + 1 in
    let divide : (f.block_size == 0) ≡ false = ground arith in
    let todos : leb f.block_count (length f.bitmap) ≡ true = ground arith in
    elim (encontrar_lem n f entero) [
      | inl (falta, e) ↦ inl (falta, rw divide (rw e refl))
      | inr (alcanza, e) ↦
          let bits : List Bool = take f.block_count f.bitmap in
          let resto : List Bool = drop f.block_count f.bitmap in
          let mide = length-libres 0 n bits in
          let contados : bloques_libres f ≡ contar bits = unfold bloques_libres in refl in
          let g =
            guardar-bitmap (libres_desde 0 n bits) nombre contenido t f (omega (arith, mide))
              largo in
          let marca = marcar-libres [] bits resto n 0 refl in
          let todo : bits ++ resto ≡ f.bitmap = take-append-drop f.block_count f.bitmap in
          let queda : g.0.bitmap ≡ ocupar n bits ++ resto =
            g.2 ∙ ap (marcar (libres_desde 0 n bits)) (sym todo) ∙ marca in
          let cuenta : bloques_libres g.0 ≡ contar (ocupar n bits) =
            unfold bloques_libres in
            rw (g.3, queda) (ap contar (take-ocupar n f.block_count f.bitmap)) in
          inr (
            g.0,
            rw divide (rw e (rw todos (rw g.1 refl))),
            queda,
            omega (arith, cuenta, contados, contar-ocupar n bits (omega arith)),
          )
    ]
