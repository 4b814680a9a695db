-- ===== src/Memoria/Lineas.antt =====
-- memoria/src/manejo-estructuras.c: the lines of a file of instructions are the instructions read.
use sist_op_tp2c.Base.{
  ℕ, zero, suc, ◌+◌, ◌<◌, ◌≤◌, ◌≡◌, ◌≢◌, refl, ap, ◌∙◌, false, Option, some, List, [], ◌∷◌, ◌++◌,
  ◌==◌, ◌||◌, length, All, arith, length-append,
}
use sist_op_tp2c.Memoria.Archivo.{
  max_line_length, fgets, sin_salto, contar_hasta, contar_lineas, leer_lineas,
  leer_archivo_pseudocodigo, obtener_path_completo,
}

-- A line without its new line: no new line or NUL in it, and room for both in the buffer.
abbrev pub EsLinea : List ℕ → Type 0
EsLinea l = (length l + 1 < max_line_length) × All (λ x. (x ≢ 10) × (x ≢ 0)) l

-- Lines that end in a new line, and a last one that does not.
abbrev pub texto : List (List ℕ) → List ℕ → List ℕ
texto [] fin = fin
texto (l ∷ ls) fin = l ++ 10 ∷ texto ls fin

-- A file that ends in a new line has no further line.
abbrev pub ultima : List ℕ → List (List ℕ)
ultima [] = []
ultima (x ∷ xs) = (x ∷ xs) ∷ []

abbrev Limpia : List ℕ → Type 0
Limpia = All (λ x. (x ≢ 10) × (x ≢ 0))

fgets-linea :
    (n : ℕ) (l r : List ℕ) → Limpia l → length l < n → fgets n (l ++ 10 ∷ r) ≡ (l ++ 10 ∷ [], r)
unfolding fgets
fgets-linea zero l r c h = elim h [ ]
fgets-linea (suc n) [] r c h = refl
fgets-linea (suc n) (x ∷ l) r c h =
    let otro : (x == 10) ≡ false = let p = c.0.0 in ground arith in
    rw otro (rw (fgets-linea n l r c.1 (omega arith)) refl)

fgets-final : (n : ℕ) (l : List ℕ) → Limpia l → length l < n → fgets n l ≡ (l, [])
unfolding fgets
fgets-final zero l c h = elim h [ ]
fgets-final (suc n) [] c h = refl
fgets-final (suc n) (x ∷ l) c h =
    let otro : (x == 10) ≡ false = let p = c.0.0 in ground arith in
    rw otro (rw (fgets-final n l c.1 (omega arith)) refl)

-- The new line and what follows it go.
sin_salto-linea : (l r : List ℕ) → Limpia l → sin_salto (l ++ 10 ∷ r) ≡ l
unfolding sin_salto
sin_salto-linea [] r c = refl
sin_salto-linea (x ∷ l) r c =
    let otro : ((x == 10) || (x == 0)) ≡ false = let p = c.0.0 in let q = c.0.1 in ground arith in
    rw otro (ap (◌∷◌ x) (sin_salto-linea l r c.1))

sin_salto-final : (l : List ℕ) → Limpia l → sin_salto l ≡ l
unfolding sin_salto
sin_salto-final [] c = refl
sin_salto-final (x ∷ l) c =
    let otro : ((x == 10) || (x == 0)) ≡ false = let p = c.0.0 in let q = c.0.1 in ground arith in
    rw otro (ap (◌∷◌ x) (sin_salto-final l c.1))

contar-linea :
    (n : ℕ) (l r : List ℕ) → EsLinea l → contar_hasta (suc n) (l ++ 10 ∷ r) ≡ suc (contar_hasta n r)
unfolding contar_hasta
contar-linea n [] r (h, c) =
    ap (λ x. suc (contar_hasta n x.1)) (fgets-linea 254 [] r c (omega arith))
contar-linea n (x ∷ l) r (h, c) =
    ap (λ x. suc (contar_hasta n x.1)) (fgets-linea 254 (x ∷ l) r c (omega arith))

leer-linea :
    (n : ℕ) (l r : List ℕ) → EsLinea l → leer_lineas (suc n) (l ++ 10 ∷ r) ≡ l ∷ leer_lineas n r
unfolding leer_lineas
leer-linea n [] r (h, c) =
    ap (λ x. sin_salto x.0 ∷ leer_lineas n x.1) (fgets-linea 254 [] r c (omega arith))
    ∙ ap (λ x. x ∷ leer_lineas n r) (sin_salto-linea [] [] c)
leer-linea n (x ∷ l) r (h, c) =
    ap (λ x. sin_salto x.0 ∷ leer_lineas n x.1) (fgets-linea 254 (x ∷ l) r c (omega arith))
    ∙ ap (λ y. y ∷ leer_lineas n r) (sin_salto-linea (x ∷ l) [] c)

contar-final :
    (n : ℕ) (fin : List ℕ) → EsLinea fin → length fin ≤ n → contar_hasta n fin ≡ length (ultima fin)
unfolding contar_hasta
contar-final zero [] h m = refl
contar-final zero (x ∷ l) h m = elim m [ ]
contar-final (suc n) [] h m = refl
contar-final (suc zero) (x ∷ l) (h, c) m = refl
contar-final (suc (suc n)) (x ∷ l) (h, c) m =
    ap (λ x. suc (contar_hasta (suc n) x.1)) (fgets-final 254 (x ∷ l) c (omega arith))

leer-final : (fin : List ℕ) → EsLinea fin → leer_lineas (length (ultima fin)) fin ≡ ultima fin
unfolding leer_lineas
leer-final [] h = refl
leer-final (x ∷ l) (h, c) =
    ap (λ x. sin_salto x.0 ∷ []) (fgets-final 254 (x ∷ l) c (omega arith))
    ∙ ap (λ y. y ∷ []) (sin_salto-final (x ∷ l) c)

contar-texto :
    (n : ℕ) (ls : List (List ℕ)) (fin : List ℕ)
    → All EsLinea ls
    → EsLinea fin
    → length (texto ls fin) ≤ n
    → contar_hasta n (texto ls fin) ≡ length (ls ++ ultima fin)
contar-texto n [] fin hs h m = contar-final n fin h m
contar-texto zero (l ∷ ls) fin hs h m =
    let largo = length-append l (10 ∷ texto ls fin) in absurd (omega arith)
contar-texto (suc n) (l ∷ ls) fin hs h m =
    let largo = length-append l (10 ∷ texto ls fin) in
    contar-linea n l (texto ls fin) hs.0 ∙ ap suc (contar-texto n ls fin hs.1 h (omega arith))

leer-texto :
    (ls : List (List ℕ)) (fin : List ℕ)
    → All EsLinea ls
    → EsLinea fin
    → leer_lineas (length (ls ++ ultima fin)) (texto ls fin) ≡ ls ++ ultima fin
leer-texto [] fin hs h = leer-final fin h
leer-texto (l ∷ ls) fin hs h =
    leer-linea (length (ls ++ ultima fin)) l (texto ls fin) hs.0
    ∙ ap (◌∷◌ l) (leer-texto ls fin hs.1 h)

-- The file of a path holds lines of at most 253 bytes, none with a NUL, and each with its new line but
-- the last, which may be empty. Then the instructions read are these lines, in order, and nothing
-- else: an empty last line is no instruction.
pub leer_archivo_pseudocodigo-texto :
    (fopen : List ℕ → Option (List ℕ)) (path_config nombre : List ℕ) (ls : List (List ℕ))
    (fin : List ℕ)
    → fopen (obtener_path_completo path_config nombre) ≡ some (texto ls fin)
    → All EsLinea ls
    → EsLinea fin
    → leer_archivo_pseudocodigo fopen path_config nombre ≡ some (ls ++ ultima fin)
unfolding leer_archivo_pseudocodigo contar_lineas
leer_archivo_pseudocodigo-texto fopen path_config nombre ls fin abierto hs h = rw abierto (
    ap some (
      ap (λ n. leer_lineas n (texto ls fin))
        (contar-texto (length (texto ls fin)) ls fin hs h (omega arith))
      ∙ leer-texto ls fin hs h))
