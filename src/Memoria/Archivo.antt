-- ===== src/Memoria/Archivo.antt =====
-- memoria/src/manejo-estructuras.c: the files of instructions, read line by line. A file is its
-- bytes, `fopen` an argument that gives the file of a path, and `none` a file that cannot be opened.
use sist_op_tp2c.Base.{
  ℕ, zero, suc, ◌-◌, Option, some, List, [], ◌∷◌, ◌++◌, ◌>>=◌, ◌==◌, ◌||◌, if◌then◌else◌, length,
}

abbrev pub max_line_length : ℕ
max_line_length = 255

-- What `fgets` moves of a file that is not at its end: up to a new line, and `n` bytes at most.
unfoldable pub fgets : ℕ → List ℕ → List ℕ × List ℕ
fgets zero s = ([], s)
fgets (suc n) [] = ([], [])
fgets (suc n) (x ∷ xs) =
    let resto = fgets n xs in if x == 10 then (x ∷ [], xs) else (x ∷ resto.0, resto.1)

-- The bytes of the buffer before its new line, or its NUL.
unfoldable pub sin_salto : List ℕ → List ℕ
sin_salto [] = []
sin_salto (x ∷ xs) = let resto = sin_salto xs in if (x == 10) || (x == 0) then [] else x ∷ resto

unfoldable pub obtener_path_completo : List ℕ → List ℕ → List ℕ
obtener_path_completo path_config nombre = path_config ++ 47 ∷ nombre

-- The first argument is the fuel of the loop: the length of the file is enough.
unfoldable pub contar_hasta : ℕ → List ℕ → ℕ
contar_hasta zero s = 0
contar_hasta (suc n) [] = 0
contar_hasta (suc n) (x ∷ xs) = suc (contar_hasta n (fgets (max_line_length - 1) (x ∷ xs)).1)

unfoldable pub contar_lineas : List ℕ → ℕ
contar_lineas s = contar_hasta (length s) s

-- The lines that are left of `cant_lineas`, and the rest of the file.
unfoldable pub leer_lineas : ℕ → List ℕ → List (List ℕ)
leer_lineas zero s = []
leer_lineas (suc n) [] = []
leer_lineas (suc n) (x ∷ xs) =
    let leida = fgets (max_line_length - 1) (x ∷ xs) in sin_salto leida.0 ∷ leer_lineas n leida.1

unfoldable pub leer_archivo_pseudocodigo :
    (List ℕ → Option (List ℕ)) → List ℕ → List ℕ → Option (List (List ℕ))
leer_archivo_pseudocodigo fopen path_config nombre =
    fopen (obtener_path_completo path_config nombre) >>= λ archivo.
    some (leer_lineas (contar_lineas archivo) archivo)
