-- ===== src/Pruebas/EnArchivo.antt =====
-- A file of two instructions, without a new line at its end.
use sist_op_tp2c.Base.{
  ℕ, ◌≡◌, refl, Option, none, some, List, [], ◌∷◌, ◌++◌, arith, if◌then◌else◌, iguales,
}
use sist_op_tp2c.Memoria.Archivo.{leer_archivo_pseudocodigo, obtener_path_completo}
use sist_op_tp2c.Memoria.Lineas.{EsLinea, leer_archivo_pseudocodigo-texto}

-- LOG AX
abbrev linea_log : List ℕ
linea_log = 76 ∷ 79 ∷ 71 ∷ 32 ∷ 65 ∷ 88 ∷ []

-- IO 5
abbrev linea_io5 : List ℕ
linea_io5 = 73 ∷ 79 ∷ 32 ∷ 53 ∷ []

-- The one file is "d/a".
abbrev un_archivo : List ℕ → Option (List ℕ)
un_archivo path =
    if iguales path (100 ∷ 47 ∷ 97 ∷ []) then some (linea_log ++ 10 ∷ linea_io5) else none

log-EsLinea : EsLinea linea_log
log-EsLinea = (
  omega arith,
  (
    (λ e. omega arith, λ e. omega arith),
    (
      (λ e. omega arith, λ e. omega arith),
      (
        (λ e. omega arith, λ e. omega arith),
        (
          (λ e. omega arith, λ e. omega arith),
          ((λ e. omega arith, λ e. omega arith), ((λ e. omega arith, λ e. omega arith), tt)),
        ),
      ),
    ),
  ),
)

io5-EsLinea : EsLinea linea_io5
io5-EsLinea = (
  omega arith,
  (
    (λ e. omega arith, λ e. omega arith),
    (
      (λ e. omega arith, λ e. omega arith),
      ((λ e. omega arith, λ e. omega arith), ((λ e. omega arith, λ e. omega arith), tt)),
    ),
  ),
)

abre : un_archivo (obtener_path_completo (100 ∷ []) (97 ∷ [])) ≡ some (linea_log ++ 10 ∷ linea_io5)
unfolding obtener_path_completo
abre = refl

leer_archivo_pseudocodigo-texto_example :
    leer_archivo_pseudocodigo un_archivo (100 ∷ []) (97 ∷ []) ≡ some (linea_log ∷ linea_io5 ∷ [])
leer_archivo_pseudocodigo-texto_example =
    leer_archivo_pseudocodigo-texto un_archivo (100 ∷ []) (97 ∷ []) (linea_log ∷ []) linea_io5 abre
      (log-EsLinea, tt) io5-EsLinea
