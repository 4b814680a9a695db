-- ===== src/Utils/Mensajes/Atencion.antt =====
-- utils/src/utils/mensajes.c: the loop that attends a client, `atender_peticiones`.
use sist_op_tp2c.Base.{
  ℕ, zero, suc, Option, none, some, List, [], ◌∷◌, ◌++◌, ◌>>=◌, ◌==◌, if◌then◌else◌, uint32_max,
}
use sist_op_tp2c.Utils.Buffer.{Buffer, buffer_read_string}
use sist_op_tp2c.Utils.Mensajes.{
  al_cerrar, codigo, operacion_mensaje, operacion_dump_memory, operacion_confirmar,
  recibir_operacion, recibir_buffer, enviar_codigo,
}

-- `buffer_recibir` of utils/src/utils/buffer.c: a `recv` of no bytes is an error.
unfoldable buffer_recibir : List ℕ → Option (Buffer × List ℕ)
buffer_recibir s = do r ← recibir_buffer s; if r.0.size == 0 then none else some r

-- What a request leaves in the log.
pub data Suceso : Type 0 where
  mensaje : List ℕ → Suceso
  archivo_creado : Suceso
  operacion_desconocida : ℕ → Suceso

-- The result of a request: -1, a fault (also where it goes on with bytes that never arrived), or 0 with the log, the bytes sent and those to be received.
pub data Resultado : Type 0 where
  desconectado falla : Resultado
  respondida : Suceso → List ℕ → List ℕ → Resultado

unfoldable pub recibir_mensaje : List ℕ → Option (List ℕ × List ℕ)
recibir_mensaje s = recibir_buffer s >>= λ r. buffer_read_string r.0 >>= λ q. some (q.0, r.1)

unfoldable pub confirmar_oper : List ℕ
confirmar_oper = enviar_codigo operacion_confirmar

abbrev pub con_mensaje : Option (List ℕ × List ℕ) → Resultado
con_mensaje none = falla
con_mensaje (some (texto, resto)) = respondida (mensaje texto) [] resto

-- The `switch` on the code; UINT32_MAX is the `int` -1.
unfoldable pub segun_codigo : ℕ → List ℕ → Resultado
segun_codigo cod resto =
    if cod == codigo operacion_mensaje
    then con_mensaje (recibir_mensaje resto)
    else if cod == codigo operacion_dump_memory
    then respondida archivo_creado confirmar_oper resto
    else if cod == uint32_max
    then desconectado
    else respondida (operacion_desconocida cod) [] resto

-- `s` is what was there to receive.
abbrev pub con_codigo : List ℕ → Option (ℕ × List ℕ) → Resultado
con_codigo s none = al_cerrar s desconectado falla
con_codigo s (some (cod, resto)) = segun_codigo cod resto

unfoldable pub atender_peticion : List ℕ → Resultado
atender_peticion s = con_codigo s (recibir_operacion s)

-- The log of a client, the bytes sent to it, and whether its connection ends as it should.
pub data Final : Type 0 where
  cerrado fallado : Final

abbrev pub Atencion : Type 0
Atencion = List Suceso × List ℕ × Final

abbrev pub con_suceso : Suceso → List ℕ → Atencion → Atencion
con_suceso e enviado (sucesos, enviados, final) = (e ∷ sucesos, enviado ++ enviados, final)

-- `none` is a loop that has not ended in so many requests.
unfoldable pub atender_peticiones : ℕ → List ℕ → Option Atencion
atender_peticiones zero s = none
atender_peticiones (suc n) s = elim (atender_peticion s) [
  | desconectado ↦ some ([], [], cerrado)
  | falla ↦ some ([], [], fallado)
  | respondida e enviado resto ↦ atender_peticiones n resto >>= λ a. some (con_suceso e enviado a)
]
