-- ===== src/Pruebas/EnAtencion.antt =====
-- The loop of a server at two messages.
use sist_op_tp2c.Base.{ℕ, ◌≡◌, some, List, [], ◌∷◌, arith, map}
use sist_op_tp2c.Utils.Mensajes.Atencion.{mensaje, cerrado, atender_peticiones}
use sist_op_tp2c.Utils.Mensajes.Dialogo.{enviados, atender_peticiones-enviados}
use sist_op_tp2c.Pruebas.Datos.{ceros}

-- "hi", and an empty message.
abbrev textos : List (List ℕ)
textos = (104 ∷ 105 ∷ []) ∷ [] ∷ []

atender_peticiones-enviados_example :
    (bs : List ℕ) × (enviados ceros textos ≡ some bs)
    × (atender_peticiones 3 bs ≡ some (map mensaje textos, [], cerrado))
atender_peticiones-enviados_example =
    atender_peticiones-enviados ceros 3 textos
      (omega arith, (λ e. omega arith, (λ e. omega arith, tt)), (omega arith, tt, tt)) (omega arith)
