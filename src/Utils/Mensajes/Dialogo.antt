-- ===== src/Utils/Mensajes/Dialogo.antt =====
-- The loop that attends a client, on any bytes and on the messages that were sent to it.
use sist_op_tp2c.Base.{
  ℕ, zero, suc, false, ◌+◌, if◌then◌else◌, Cumple->>=_any, Cumple-imp, ◌<◌, ◌≤◌, ◌≡◌, refl, Bool,
  true, Option, none, some, List, [], ◌∷◌, ◌++◌, ◌>>=◌, ◌==◌, arith, >>=-eq-some, inl, inr, u32_mod,
  uint32_max, length, leb, length-drop, map, Bool-cases, Cumple, Cumple->>=, length-append,
  append_assoc, append-nil,
}
use sist_op_tp2c.Utils.Buffer.{
  Malloc, Buffer, bytes32, en_memoria, buffer_create, buffer_read_string, buffer_add_string,
}
use sist_op_tp2c.Utils.Buffer.Escritura.{buffer_create-Escrito, string-Deja}
use sist_op_tp2c.Utils.Buffer.Lectura.{SinNul, lee_string}
use sist_op_tp2c.Utils.Buffer.Vuelta.{Vuelve, Vuelve-como}
use sist_op_tp2c.Utils.Mensajes.{
  codigo, operacion_mensaje, operacion_dump_memory, recibir_operacion, recibir_buffer,
  enviar_mensaje, send, enviar_paquete,
}
use sist_op_tp2c.Utils.Mensajes.Envio.{paquete-Llega}
use sist_op_tp2c.Utils.Mensajes.Atencion.{
  Suceso, mensaje, Resultado, desconectado, falla, respondida, recibir_mensaje, con_mensaje,
  atender_peticion, cerrado, fallado, segun_codigo, con_codigo, archivo_creado,
  operacion_desconocida, confirmar_oper, Atencion, con_suceso, atender_peticiones,
}

-- What is left to be received is not more than there was.
abbrev Queda : {A : Type 0} → ℕ → A × List ℕ → Type 0
Queda n r = length r.1 ≤ n

recibir_operacion-Queda :
    (s : List ℕ) → Cumple (λ (r : ℕ × List ℕ). length r.1 < length s) (recibir_operacion s)
unfolding recibir_operacion
recibir_operacion-Queda s = elim (Bool-cases (leb 4 (length s))) [
  | inl si ↦ rw si (ground (arith, length-drop 4 s))
  | inr ni ↦ rw ni tt
]

recibir_buffer-Queda : (s : List ℕ) → Cumple (Queda (length s)) (recibir_buffer s)
unfolding recibir_buffer
recibir_buffer-Queda s =
    Cumple->>= (λ (r : ℕ × List ℕ). length r.1 < length s) (Queda (length s)) (recibir_operacion s)
      _ (recibir_operacion-Queda s)
      λ (size, resto) h. elim (Bool-cases (leb size (length resto))) [
        | inl si ↦ rw si (omega (arith, length-drop size resto))
        | inr ni ↦ rw ni tt
      ]

recibir_mensaje-Queda : (s : List ℕ) → Cumple (Queda (length s)) (recibir_mensaje s)
unfolding recibir_mensaje
recibir_mensaje-Queda s =
    Cumple->>= (Queda (length s)) (Queda (length s)) (recibir_buffer s) _ (recibir_buffer-Queda s)
      λ r h. Cumple->>=_any (Queda (length s)) (buffer_read_string r.0) _ λ q e. h

-- What the loop does after a request.
abbrev tras : ℕ → Resultado → Option Atencion
tras n desconectado = some ([], [], cerrado)
tras n falla = some ([], [], fallado)
tras n (respondida e enviado resto) =
    atender_peticiones n resto >>= λ a. some (con_suceso e enviado a)

-- An attended request takes a byte or more.
abbrev Consume : ℕ → Resultado → Type 0
Consume n desconectado = Unit {0}
Consume n falla = Unit {0}
Consume n (respondida e enviado resto) = length resto < n

con_mensaje-Consume :
    (n : ℕ) (r : Option (List ℕ × List ℕ))
    → Cumple (λ (q : List ℕ × List ℕ). length q.1 < n) r
    → Consume n (con_mensaje r)
con_mensaje-Consume n none h = tt
con_mensaje-Consume n (some (texto, resto)) h = h

Consume-if :
    (n : ℕ) (b : Bool) (x y : Resultado)
    → Consume n x
    → Consume n y
    → Consume n (if b then x else y)
Consume-if n true x y h g = h
Consume-if n false x y h g = g

segun_codigo-Consume :
    (n cod : ℕ) (resto : List ℕ) → length resto < n → Consume n (segun_codigo cod resto)
unfolding segun_codigo
segun_codigo-Consume n cod resto h =
    Consume-if n (cod == codigo operacion_mensaje) (con_mensaje (recibir_mensaje resto)) _
      (con_mensaje-Consume n (recibir_mensaje resto) (
        Cumple-imp (Queda (length resto)) (λ (q : List ℕ × List ℕ). length q.1 < n)
          (recibir_mensaje resto) (λ q g. omega arith) (recibir_mensaje-Queda resto)))
      (Consume-if n (cod == codigo operacion_dump_memory)
        (respondida archivo_creado confirmar_oper resto) _ h
        (Consume-if n (cod == uint32_max) desconectado
          (respondida (operacion_desconocida cod) [] resto) tt h))

con_codigo-Consume :
    (n : ℕ) (s : List ℕ) (r : Option (ℕ × List ℕ))
    → Cumple (λ (q : ℕ × List ℕ). length q.1 < n) r
    → Consume n (con_codigo s r)
con_codigo-Consume n [] none h = tt
con_codigo-Consume n (b ∷ s) none h = tt
con_codigo-Consume n s (some (cod, resto)) h = segun_codigo-Consume n cod resto h

atender_peticion-Consume : (s : List ℕ) → Consume (length s) (atender_peticion s)
unfolding atender_peticion
atender_peticion-Consume s =
    con_codigo-Consume (length s) s (recibir_operacion s) (recibir_operacion-Queda s)

atender-Termina :
    (n m : ℕ) (r : Resultado)
    → Consume m r
    → m < n + 1
    → ((resto : List ℕ) → length resto < n → (a : Atencion) × (atender_peticiones n resto ≡ some a))
    → (a : Atencion) × (tras n r ≡ some a)
atender-Termina n m desconectado c h f = (([], [], cerrado), refl)
atender-Termina n m falla c h f = (([], [], fallado), refl)
atender-Termina n m (respondida e enviado resto) c h f =
    let (a, igual) = f resto (omega arith) in (con_suceso e enviado a, rw igual refl)

-- With more rounds than bytes to be received, the loop comes to the close of the connection, or to a
-- fault, which a packet cut short is too.
atender_peticiones-Termina :
    (n : ℕ) (s : List ℕ) → length s < n → (a : Atencion) × (atender_peticiones n s ≡ some a)
unfolding atender_peticiones
atender_peticiones-Termina zero s h = absurd (omega arith)
atender_peticiones-Termina (suc n) s h =
    atender-Termina n (length s) (atender_peticion s) (atender_peticion-Consume s) (omega arith)
      (atender_peticiones-Termina n)

-- The messages, one packet after the other.
abbrev pub enviados : Malloc → List (List ℕ) → Option (List ℕ)
enviados m [] = some []
enviados m (x ∷ xs) = do
  bs ← (enviar_mensaje m x >>= send)
  resto ← enviados m xs
  some (bs ++ resto)

abbrev pub Enviable : List (List ℕ) → Type 0
Enviable [] = Unit {0}
Enviable (x ∷ xs) = (length x + 13 < u32_mod) × SinNul x × Enviable xs

leer_mensaje : Buffer → Option (List ℕ)
leer_mensaje b = buffer_read_string b >>= λ q. some q.0

mensaje-Vuelve :
    (m : Malloc) (x : List ℕ)
    → length x + 13 < u32_mod
    → SinNul x
    → Vuelve
        (4 + (length x + 1))
        (buffer_add_string (buffer_create m (4 + (length x + 1))) (length x + 1) (en_memoria x))
        leer_mensaje
        x
unfolding leer_mensaje
mensaje-Vuelve m x corto sin =
    let n = 4 + (length x + 1) in
    let mide = length-append x (0 ∷ []) in
    Vuelve-como n (0 + 4 + length (en_memoria x)) (([] ++ bytes32 (length x + 1)) ++ en_memoria x)
      (bytes32 (length x + 1) ++ (en_memoria x ++ [])) leer_mensaje x (omega (arith, mide))
      (omega arith) (simp (append_assoc, append-nil))
      (string-Deja n 0 [] (buffer_create m n) x (omega arith) (omega (arith, mide))
        (buffer_create-Escrito m n))
      (λ b l. lee_string x [] _ (omega arith) sin l λ b0 l0. refl)

-- One message is sent, and attended.
mensaje-Llega :
    (m : Malloc) (x resto : List ℕ)
    → length x + 13 < u32_mod
    → SinNul x
    → (bs : List ℕ) × ((enviar_mensaje m x >>= send) ≡ some bs)
      × (atender_peticion (bs ++ resto) ≡ respondida (mensaje x) [] resto)
unfolding enviar_mensaje enviar_paquete atender_peticion segun_codigo recibir_mensaje leer_mensaje
    codigo
mensaje-Llega m x resto corto sin =
    let v = mensaje-Vuelve m x corto sin in
    let (bs, s, b, envia, cod, llega, lee) =
      paquete-Llega m operacion_mensaje (4 + (length x + 1)) leer_mensaje x resto (omega arith) v in
    let (b0, igual, _, _, _) = v in
    let (q, leido, texto) = >>=-eq-some (buffer_read_string b) _ lee in
    let mismo : q.0 ≡ x = cc in
    let junto : (enviar_mensaje m x >>= send) ≡ some bs = rw igual (rw igual at envia) in
    let recibe : recibir_mensaje s ≡ some (x, resto) = rw llega (rw leido (rw mismo refl)) in
    (bs, junto, rw cod (rw recibe refl))

callado : (n : ℕ) → atender_peticiones (suc n) [] ≡ some ([], [], cerrado)
unfolding atender_peticiones atender_peticion recibir_operacion
callado n = refl

con_una :
    (n : ℕ) (s : List ℕ) {resto enviado : List ℕ} {e : Suceso} {a : Atencion}
    → atender_peticion s ≡ respondida e enviado resto
    → atender_peticiones n resto ≡ some a
    → atender_peticiones (suc n) s ≡ some (con_suceso e enviado a)
unfolding atender_peticiones
con_una n s {e = e} {a = a} p q =
    let sigue : tras n (atender_peticion s) ≡ some (con_suceso e _ a) = rw p (rw q refl) in sigue

-- The messages that `enviar_mensaje` sends, one after the other, before the client closes the
-- connection: none faults, and the loop logs each of them, in order, sends nothing and ends as it
-- should, with more rounds than messages. No message has a NUL inside, and each is short enough for
-- the size of its packet to be a `uint32_t`.
pub atender_peticiones-enviados :
    (m : Malloc) (n : ℕ) (xs : List (List ℕ))
    → Enviable xs
    → length xs < n
    → (bs : List ℕ) × (enviados m xs ≡ some bs)
      × (atender_peticiones n bs ≡ some (map mensaje xs, [], cerrado))
atender_peticiones-enviados m zero xs h menos = absurd (omega arith)
atender_peticiones-enviados m (suc n) [] h menos = ([], refl, callado n)
atender_peticiones-enviados m (suc n) (x ∷ xs) (corto, sin, h) menos =
    let (resto, manda, atiende) = atender_peticiones-enviados m n xs h (omega arith) in
    let (bs, envia, recibe) = mensaje-Llega m x resto corto sin in
    (bs ++ resto, rw envia (rw manda refl), con_una n (bs ++ resto) recibe atiende)
