-- ===== src/Utils/Mensajes/Envio.antt =====
-- A packet is received as it was sent, also where other bytes follow it in the socket.
use sist_op_tp2c.Base.{
  ℕ, ◌+◌, ◌<◌, ◌≡◌, refl, sym, ap, ◌∙◌, Option, [], append-nil, true, some, List, ◌++◌, arith,
  u32_mod, leb, length, take, drop, length-append, take-append_left, drop-append_left, take-length,
}
use sist_op_tp2c.Utils.Buffer.{Malloc, Buffer, bytes32}
use sist_op_tp2c.Utils.Buffer.Escritura.{buffer_create-Escrito, buffer_add-Escrito, sigue32, lleno}
use sist_op_tp2c.Utils.Buffer.Lectura.{recibido, valor32-bytes32}
use sist_op_tp2c.Utils.Buffer.Vuelta.{Vuelve}
use sist_op_tp2c.Utils.Mensajes.{
  OpCode, codigo, send, enviar_paquete, enviar_codigo, codigo_recibido, Paquete, serializar_paquete,
  recibir_operacion, recibir_buffer,
}

pub recibir_operacion-bytes32 :
    (x : ℕ) (s : List ℕ) → x < u32_mod → recibir_operacion (bytes32 x ++ s) ≡ some (x, s)
unfolding recibir_operacion
recibir_operacion-bytes32 x s h =
    let cabe : leb 4 (length (bytes32 x ++ s)) ≡ true = ground arith in
    rw cabe (ap (λ n. some (n, s)) (valor32-bytes32 x h))

-- A packet whose buffer is full is written without a fault, to a buffer that is full too. Its receiver reads the operation code,
-- then a buffer with the bytes of the packet's and the cursor at the start; what was sent after the
-- packet is still to be received. The code is a `uint32_t`, and so is the size of the packet.
pub paquete_vuelve :
    (m : Malloc) (p : Paquete) (resto : List ℕ)
    → p.codigo_operacion < u32_mod
    → p.buffer.size ≡ length p.buffer.stream
    → 8 + p.buffer.size < u32_mod
    → (b : Buffer) × (s : List ℕ) × (serializar_paquete m p ≡ some b)
      × (b.size ≡ length b.stream)
      × (recibir_operacion (b.stream ++ resto) ≡ some (p.codigo_operacion, s))
      × (recibir_buffer s ≡ some (recibido p.buffer.stream, resto))
unfolding serializar_paquete recibir_buffer
paquete_vuelve m p resto hc lleno_p corto =
    let bs = p.buffer.stream in
    let n = 8 + p.buffer.size in
    let cabe : leb p.buffer.size (length bs) ≡ true = ground arith in
    let todo : take p.buffer.size bs ≡ bs = rw lleno_p (take-length bs) in
    let (b, igual, escrito, tamanio) =
      lleno n (8 + length bs) {bs = (bytes32 p.codigo_operacion ++ bytes32 p.buffer.size) ++ bs}
        (omega arith)
        (sigue32 n 0 p.codigo_operacion (omega arith) (omega arith) (buffer_create-Escrito m n)
          λ b0 e0. sigue32 n 4 p.buffer.size (omega arith) (omega arith) e0 λ b1 e1. rw cabe (
            rw todo (
              buffer_add-Escrito n 8 (bytes32 p.codigo_operacion ++ bytes32 p.buffer.size) bs b1
                (omega arith) (omega arith) e1))) in
    let s = bytes32 p.buffer.size ++ (bs ++ resto) in
    let queda : take (length bs) (bs ++ resto) ≡ bs = take-append_left bs resto in
    let sigue : drop (length bs) (bs ++ resto) ≡ resto = drop-append_left bs resto in
    let entra : leb (length bs) (length (bs ++ resto)) ≡ true =
      ground (arith, length-append bs resto) in
    let medida : n ≡ length ((bytes32 p.codigo_operacion ++ bytes32 p.buffer.size) ++ bs) =
      omega (arith, length-append (bytes32 p.codigo_operacion ++ bytes32 p.buffer.size) bs) in
    (
      b,
      s,
      igual,
      rw escrito (tamanio ∙ medida),
      rw escrito (recibir_operacion-bytes32 p.codigo_operacion s hc),
      rw (recibir_operacion-bytes32 p.buffer.size (bs ++ resto) (omega arith))
          (rw lleno_p (rw entra (rw (queda, sigue) refl))),
    )

codigo-lt : (operacion : OpCode) → codigo operacion < u32_mod
unfolding codigo
codigo-lt op = ground arith

-- A code that is sent by itself is received.
pub recibir-enviar_codigo :
    (operacion : OpCode) (resto : List ℕ)
    → recibir_operacion (enviar_codigo operacion ++ resto) ≡ some (codigo operacion, resto)
unfolding enviar_codigo
recibir-enviar_codigo operacion resto =
    recibir_operacion-bytes32 (codigo operacion) resto (codigo-lt operacion)

pub codigo_recibido-enviar :
    (op : OpCode) → codigo_recibido (enviar_codigo op) ≡ some (some (codigo op))
unfolding codigo_recibido
codigo_recibido-enviar op =
    let junto : enviar_codigo op ++ [] ≡ enviar_codigo op = append-nil (enviar_codigo op) in
    let e : recibir_operacion (enviar_codigo op) ≡ some (codigo op, []) =
      rw junto at (recibir-enviar_codigo op []) in
    rw (e, codigo_recibido)

-- A packet is sent, and what is received of it are its code and a buffer that is read as `d`.
abbrev pub Llega :
    {A : Type 0} → Option (List ℕ) → OpCode → (Buffer → Option A) → A → List ℕ → Type 0
Llega r operacion leer d resto =
    (bs : List ℕ) × (s : List ℕ) × (b : Buffer) × (r ≡ some bs)
    × (recibir_operacion (bs ++ resto) ≡ some (codigo operacion, s))
    × (recibir_buffer s ≡ some (b, resto))
    × (leer b ≡ some d)

pub paquete-Llega :
    {A : Type 0} {r : Option Buffer} (m : Malloc) (operacion : OpCode) (n : ℕ)
    (leer : Buffer → Option A) (d : A) (resto : List ℕ)
    → 8 + n < u32_mod
    → Vuelve n r leer d
    → Llega (enviar_paquete m operacion r) operacion leer d resto
unfolding enviar_paquete send
paquete-Llega {A} {r} m operacion n leer d resto corto (b, igual, mide, largo, lee) =
    let (p, s, escrito, lleno_p, codigo_p, buffer_p) =
      paquete_vuelve m (record { codigo_operacion = codigo operacion; buffer = b }) resto
        (codigo-lt operacion) (mide ∙ sym largo) (rw mide corto) in
    let cabe : leb p.size (length p.stream) ≡ true = ground arith in
    let todo : take p.size p.stream ≡ p.stream = rw lleno_p (take-length p.stream) in
    (
      p.stream,
      s,
      recibido b.stream,
      rw igual (rw escrito (rw cabe (rw todo))),
      codigo_p,
      buffer_p,
      lee,
    )
