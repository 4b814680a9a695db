-- ===== src/Sistema/CpuMemoria.antt =====
-- The requests of the CPU over its socket against the memory's own operations on their data.
use sist_op_tp2c.Base.{◌<◌, ◌≡◌, refl, ◌∙◌, some, [], ◌>>=◌, arith, u32_mod, Cumple}
use sist_op_tp2c.Utils.Buffer.{Malloc, Buffer}
use sist_op_tp2c.Utils.Buffer.Lectura.{recibido}
use sist_op_tp2c.Utils.Buffer.Vuelta.{Vuelve}
use sist_op_tp2c.Utils.Mensajes.{
  codigo, operacion_devolver_contexto_ejecucion, operacion_devolver_instruccion,
  operacion_actualizar_contexto, operacion_leer_memoria, operacion_escribir_memoria,
}
use sist_op_tp2c.Utils.Mensajes.Envio.{paquete-Llega}
use sist_op_tp2c.Utils.CpuMemoria.{
  SolicitarContexto, Contexto, DatosObtenerInstruccion, DatosLeerMemoria, DatosEscribirMemoria,
  deserializar_datos_contexto_memoria, deserializar_datos_solicitar_contexto,
  deserializar_datos_solicitar_instruccion, deserializar_datos_leer_memoria,
  deserializar_datos_escribir_memoria,
}
use sist_op_tp2c.Utils.CpuMemoria.IdaYVuelta.{
  solicitar_instruccion-Vuelve, leer_memoria-Vuelve, escribir_memoria-Vuelve, contexto_memoria-eq,
}
use sist_op_tp2c.Memoria.Estructuras.{
  devolver_contexto_ejecucion, actualizar_contexto_ejecucion, devolver_instruccion,
}
use sist_op_tp2c.Memoria.{
  Memoria, devolver_contexto, actualizar_contexto, devuelve_instruccion, lee_memoria,
  escribe_memoria, atender_peticion_cpu, leer_memoria, escribir_memoria,
}
use sist_op_tp2c.Memoria.Comunicaciones.{leer_buffer_cpu, es_de_cpu}
use sist_op_tp2c.Cpu.Conexion.{
  contexto_por_socket, instruccion_por_socket, lectura_por_socket, escritura_por_socket,
  actualizar_por_socket,
}
use sist_op_tp2c.Sistema.Respuestas.{
  ContextoValido, TextoValido, contexto-Vuelve_todo, socket, enviar_y_recibir-Llega, lee_contexto,
  lee_instruccion, lee_dato, lee_confirmada, lee_algo,
}

module _ (ml : Malloc) (m : Memoria) where
  -- The context that the CPU gets over the socket is the one that the memory keeps.
  pub contexto_por_socket_lem :
      (b : Buffer) (d : SolicitarContexto)
      → Vuelve 8 (some b) deserializar_datos_solicitar_contexto d
      → Cumple ContextoValido (devolver_contexto_ejecucion d m.procesos)
      → contexto_por_socket ml (socket ml m) b
        ≡ (devolver_contexto_ejecucion d m.procesos >>= λ c. some (c, m))
  unfolding contexto_por_socket es_de_cpu leer_buffer_cpu codigo atender_peticion_cpu
  contexto_por_socket_lem b d vuelve v =
      rw
        (enviar_y_recibir-Llega ml m (some b) operacion_devolver_contexto_ejecucion
          deserializar_datos_solicitar_contexto d devolver_contexto
          (paquete-Llega ml operacion_devolver_contexto_ejecucion 8 _ d [] (omega arith) vuelve)
          refl (λ s. refl))
        (lee_contexto ml m (devolver_contexto_ejecucion d m.procesos) v)

  -- The instruction that the CPU gets over the socket is the one that the memory has at that program
  -- counter, the memory stays as it was, and the CPU faults exactly where the memory does. The numbers
  -- are `uint32_t`, and the instruction is a C string that fits in a packet.
  pub instruccion_por_socket_lem :
      (d : DatosObtenerInstruccion)
      → d.pid < u32_mod
      → d.tid < u32_mod
      → d.pc < u32_mod
      → Cumple TextoValido (devolver_instruccion d m.procesos)
      → instruccion_por_socket ml (socket ml m) d
        ≡ (devolver_instruccion d m.procesos >>= λ i. some (i, m))
  unfolding instruccion_por_socket es_de_cpu leer_buffer_cpu codigo atender_peticion_cpu
  instruccion_por_socket_lem d h1 h2 h3 v =
      rw
        (enviar_y_recibir-Llega ml m _ operacion_devolver_instruccion
          deserializar_datos_solicitar_instruccion d devuelve_instruccion
          (paquete-Llega ml operacion_devolver_instruccion 12 _ d [] (omega arith)
            (solicitar_instruccion-Vuelve ml d h1 h2 h3))
          refl (λ s. refl))
        (lee_instruccion ml m (devolver_instruccion d m.procesos) v)

  -- A READ_MEM over the socket gives what `leer_memoria` reads.
  pub lectura_por_socket_lem :
      (d : DatosLeerMemoria)
      → d.pid < u32_mod
      → d.tid < u32_mod
      → d.tamanio < u32_mod
      → d.dir_fisica < u32_mod
      → Cumple (λ x. x < u32_mod) (leer_memoria d m)
      → lectura_por_socket ml (socket ml m) d ≡ (leer_memoria d m >>= λ x. some (x, m))
  unfolding lectura_por_socket es_de_cpu leer_buffer_cpu codigo atender_peticion_cpu
  lectura_por_socket_lem d h1 h2 h3 h4 v =
      rw
        (enviar_y_recibir-Llega ml m _ operacion_leer_memoria deserializar_datos_leer_memoria d
          lee_memoria
          (paquete-Llega ml operacion_leer_memoria 16 _ d [] (omega arith)
            (leer_memoria-Vuelve ml d h1 h2 h3 h4))
          refl (λ s. refl))
        (lee_dato ml m (leer_memoria d m) v)

  -- A WRITE_MEM over the socket, whose numbers are `uint32_t`, leaves the memory as `escribir_memoria`
  -- does: the CPU gets its confirmation, and faults exactly where the memory does.
  pub escritura_por_socket_lem :
      (d : DatosEscribirMemoria)
      → d.pid < u32_mod
      → d.tid < u32_mod
      → d.tamanio < u32_mod
      → d.dir_fisica < u32_mod
      → d.dato_a_escribir < u32_mod
      → escritura_por_socket ml (socket ml m) d ≡ escribir_memoria d m
  unfolding escritura_por_socket es_de_cpu leer_buffer_cpu codigo atender_peticion_cpu
  escritura_por_socket_lem d h1 h2 h3 h4 h5 =
      rw
        (enviar_y_recibir-Llega ml m _ operacion_escribir_memoria
          deserializar_datos_escribir_memoria d escribe_memoria
          (paquete-Llega ml operacion_escribir_memoria 20 _ d [] (omega arith)
            (escribir_memoria-Vuelve ml d h1 h2 h3 h4 h5))
          refl (λ s. refl))
        (lee_confirmada ml m (escribir_memoria d m))

  -- A context of `uint32_t` that the CPU sends over the socket is the one that the memory stores.
  pub actualizar_por_socket_lem :
      (c : Contexto)
      → ContextoValido c
      → actualizar_por_socket ml (socket ml m) c
        ≡ (actualizar_contexto_ejecucion c m.procesos >>= λ ps. some (record m { procesos = ps }))
  unfolding actualizar_por_socket es_de_cpu leer_buffer_cpu codigo atender_peticion_cpu
  actualizar_por_socket_lem c v =
      let (b, e, n, l, lee) = contexto-Vuelve_todo ml c v in
      rw
        (enviar_y_recibir-Llega ml m _ operacion_actualizar_contexto
          deserializar_datos_contexto_memoria c actualizar_contexto
          (paquete-Llega ml operacion_actualizar_contexto 52 _ c [] (omega arith)
            (b, e, n, l, contexto_memoria-eq (recibido b.stream) ∙ lee))
          refl (λ s. refl))
        (lee_algo ml m (actualizar_contexto_ejecucion c m.procesos))
