-- ===== src/Pruebas/EnMensajes.antt =====
-- The theorems of the messages at small ones, with blocks of memory that hold zeros.
use sist_op_tp2c.Base.{
  ℕ, ◌≡◌, refl, some, List, [], ◌∷◌, ◌++◌, arith, replicate, length, length-replicate,
}
use sist_op_tp2c.Utils.Buffer.{Malloc, Buffer}
use sist_op_tp2c.Utils.Buffer.Lectura.{recibido}
use sist_op_tp2c.Utils.Mensajes.{Paquete, serializar_paquete, recibir_operacion, recibir_buffer}
use sist_op_tp2c.Utils.Mensajes.Envio.{paquete_vuelve}

abbrev ceros : Malloc
ceros = record { bloque = λ n. replicate n 0; length-bloque = λ n. length-replicate n 0 }

abbrev paquete : Paquete
paquete = record {
  codigo_operacion = 20;
  buffer = record { size = 3; offset = 3; stream = 1 ∷ 2 ∷ 3 ∷ [] };
}

paquete_vuelve_example :
    (b : Buffer) × (s : List ℕ) × (serializar_paquete ceros paquete ≡ some b)
    × (b.size ≡ length b.stream)
    × (recibir_operacion (b.stream ++ 9 ∷ []) ≡ some (20, s))
    × (recibir_buffer s ≡ some (recibido (1 ∷ 2 ∷ 3 ∷ []), 9 ∷ []))
paquete_vuelve_example = paquete_vuelve ceros paquete (9 ∷ []) (omega arith) refl (omega arith)
