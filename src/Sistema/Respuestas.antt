-- ===== src/Sistema/Respuestas.antt =====
-- What a request of the CPU brings back over the socket that the memory attends.
use sist_op_tp2c.Base.{
  ℕ, ◌+◌, ◌<◌, ◌≡◌, refl, true, Option, none, some, List, [], ◌>>=◌, ◌==◌, append-nil,
  if◌then◌else◌, arith, u32_mod, length, Cumple,
}
use sist_op_tp2c.Utils.Buffer.{Malloc, Buffer, bytes32}
use sist_op_tp2c.Utils.Buffer.Lectura.{SinNul}
use sist_op_tp2c.Utils.Buffer.Vuelta.{Vuelve}
use sist_op_tp2c.Utils.Mensajes.{
  OpCode, codigo, recibir_operacion, enviar_paquete, enviar_codigo, operacion_confirmar,
  operacion_devolver_contexto_ejecucion, operacion_devolver_instruccion,
}
use sist_op_tp2c.Utils.Mensajes.Envio.{
  Llega, paquete-Llega, recibir-enviar_codigo, recibir_operacion-bytes32,
}
use sist_op_tp2c.Utils.CpuMemoria.{
  Contexto, DatosDevolverInstruccion, serializar_datos_contexto, deserializar_datos_contexto,
  deserializar_datos_devolver_instruccion,
}
use sist_op_tp2c.Utils.CpuMemoria.IdaYVuelta.{contexto-Vuelve, devolver_instruccion-Vuelve}
use sist_op_tp2c.Memoria.Estructuras.{EstructuraProceso}
use sist_op_tp2c.Memoria.{
  Memoria, PeticionCpu, RespuestaCpu, contexto, instruccion, dato, confirmada, atender_peticion_cpu,
}
use sist_op_tp2c.Memoria.Comunicaciones.{
  leer_datos, leer_buffer_cpu, es_de_cpu, enviar_respuesta_cpu, atender_cpu,
}
use sist_op_tp2c.Cpu.Conexion.{recibir_paquete, enviar_y_recibir}

-- The fields are `uint32_t`.
pub record ContextoValido (c : Contexto) : Type 0 where
  pub v_pid : c.pid < u32_mod
  pub v_tid : c.tid < u32_mod
  pub v_pc : c.pc < u32_mod
  pub v_ax : c.ax < u32_mod
  pub v_bx : c.bx < u32_mod
  pub v_cx : c.cx < u32_mod
  pub v_dx : c.dx < u32_mod
  pub v_ex : c.ex < u32_mod
  pub v_fx : c.fx < u32_mod
  pub v_gx : c.gx < u32_mod
  pub v_hx : c.hx < u32_mod
  pub v_base : c.base < u32_mod
  pub v_limite : c.limite < u32_mod

pub contexto-Vuelve_todo :
    (ml : Malloc) (c : Contexto)
    → ContextoValido c
    → Vuelve 52 (serializar_datos_contexto ml c) deserializar_datos_contexto c
contexto-Vuelve_todo ml c v =
    contexto-Vuelve ml c v.v_pid v.v_tid v.v_pc v.v_ax v.v_bx v.v_cx v.v_dx v.v_ex v.v_fx v.v_gx
      v.v_hx v.v_base v.v_limite

recibir_paquete-Llega :
    {A : Type 0} (r : Option (List ℕ)) (op : OpCode) (leer : Buffer → Option A) (d : A)
    → Llega r op leer d []
    → (bs : List ℕ) × (r ≡ some bs) × (recibir_paquete leer bs ≡ some d)
unfolding recibir_paquete
recibir_paquete-Llega r op leer d (bs, s, b, enviado, recibe, llena, lee) =
    let junto : recibir_operacion bs ≡ some (codigo op, s) = rw append-nil at recibe in
    (bs, enviado, rw junto (rw llena lee))

-- A text with no NUL inside that fits in a packet.
abbrev pub TextoValido : List ℕ → Type 0
TextoValido i = (length i + 13 < u32_mod) × SinNul i

module _ (ml : Malloc) (m : Memoria) where
  abbrev pub socket : List ℕ → Option (List ℕ × Memoria)
  socket s = atender_cpu ml s m

  -- What comes back on the socket.
  abbrev vuelta_de : Option (RespuestaCpu × Memoria) → Option (List ℕ × Memoria)
  vuelta_de r = r >>= λ x. enviar_respuesta_cpu ml x.0 >>= λ bs. some (bs, x.1)

  pub enviar_y_recibir-Llega :
      {A : Type 0} (datos : Option Buffer) (op : OpCode) (leer : Buffer → Option A) (d : A)
      (f : A → PeticionCpu)
      → Llega (enviar_paquete ml op datos) op leer d []
      → es_de_cpu (codigo op) ≡ true
      → ((s : List ℕ) → leer_buffer_cpu (codigo op) s ≡ leer_datos leer f s)
      → enviar_y_recibir ml socket op datos ≡ vuelta_de (atender_peticion_cpu (f d) m)
  unfolding enviar_y_recibir leer_datos atender_cpu
  enviar_y_recibir-Llega datos op leer d f (bs, s, b, enviado, recibe, llena, lee) es caso =
      let junto : recibir_operacion bs ≡ some (codigo op, s) = rw append-nil at recibe in
      let leida : leer_buffer_cpu (codigo op) s ≡ some (f d, []) =
        rw (caso s) (rw llena (rw lee)) in
      rw (enviado, junto, es, leida)

  abbrev con_memoria : {A : Type 0} → Option A → Option (A × Memoria)
  con_memoria o = o >>= λ x. some (x, m)

  abbrev leido_con :
      {A B : Type 0}
      → (List ℕ → Option A)
      → (A → B)
      → Option (List ℕ × Memoria)
      → Option (B × Memoria)
  leido_con leer f r = r >>= λ x. leer x.0 >>= λ a. some (f a, x.1)

  -- What an answer of each kind is read as.
  pub lee_contexto :
      (o : Option Contexto)
      → Cumple ContextoValido o
      → leido_con
          (recibir_paquete deserializar_datos_contexto)
          (λ (c : Contexto). c)
          (vuelta_de (o >>= λ c. some (contexto c, m)))
        ≡ con_memoria o
  unfolding enviar_respuesta_cpu
  lee_contexto none v = refl
  lee_contexto (some c) v =
      let (bs, e, lee) =
        recibir_paquete-Llega _ operacion_devolver_contexto_ejecucion deserializar_datos_contexto c
          (paquete-Llega ml operacion_devolver_contexto_ejecucion 52 _ c [] (omega arith)
            (contexto-Vuelve_todo ml c v)) in
      rw e (rw lee)

  pub lee_instruccion :
      (o : Option (List ℕ))
      → Cumple TextoValido o
      → leido_con
          (recibir_paquete deserializar_datos_devolver_instruccion)
          (λ (i : DatosDevolverInstruccion). i.instruccion)
          (vuelta_de (o >>= λ i. some (instruccion i, m)))
        ≡ con_memoria o
  unfolding enviar_respuesta_cpu
  lee_instruccion none v = refl
  lee_instruccion (some i) v =
      let (bs, e, lee) =
        recibir_paquete-Llega _ operacion_devolver_instruccion
          deserializar_datos_devolver_instruccion (record { instruccion = i })
          (paquete-Llega ml operacion_devolver_instruccion ((length i + 1) + 4) _ _ [] (omega arith)
            (devolver_instruccion-Vuelve ml _ (omega arith) v.1)) in
      rw e (rw lee)

  pub lee_dato :
      (o : Option ℕ)
      → Cumple (λ x. x < u32_mod) o
      → leido_con recibir_operacion
          (λ (x : ℕ × List ℕ). x.0)
          (vuelta_de (o >>= λ x. some (dato x, m)))
        ≡ con_memoria o
  unfolding enviar_respuesta_cpu
  lee_dato none v = refl
  lee_dato (some x) v =
      let e : recibir_operacion (bytes32 x) ≡ some (x, []) = recibir_operacion-bytes32 x [] v in
      rw e

  pub lee_confirmada :
      (o : Option Memoria)
      → (vuelta_de (o >>= λ m1. some (confirmada, m1)) >>= λ r. recibir_operacion r.0 >>= λ op.
          if op.0 == codigo operacion_confirmar then some r.1 else none)
        ≡ o
  unfolding enviar_respuesta_cpu codigo
  lee_confirmada none = refl
  lee_confirmada (some m1) =
      let e : recibir_operacion (enviar_codigo operacion_confirmar)
          ≡ some (codigo operacion_confirmar, []) =
        rw append-nil at (recibir-enviar_codigo operacion_confirmar []) in
      rw e

  -- The answer that is not looked at.
  pub lee_algo :
      (o : Option (List EstructuraProceso))
      → (vuelta_de (o >>= λ ps. some (confirmada, record m { procesos = ps })) >>= λ r. some r.1)
        ≡ (o >>= λ ps. some (record m { procesos = ps }))
  unfolding enviar_respuesta_cpu
  lee_algo none = refl
  lee_algo (some ps) = refl
