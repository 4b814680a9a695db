-- ===== src/Sistema/CpuKernel.antt =====
-- The requests of the CPU as the kernel reads them.
use sist_op_tp2c.Base.{ℕ, ◌+◌, ◌<◌, ◌≡◌, refl, Option, some, List, ◌++◌, arith, u32_mod, length}
use sist_op_tp2c.Utils.Buffer.{Malloc, Buffer, bytes32}
use sist_op_tp2c.Utils.Buffer.Escritura.{buffer_create-Escrito, uint32-Deja, lleno}
use sist_op_tp2c.Utils.Buffer.Lectura.{SinNul}
use sist_op_tp2c.Utils.Mensajes.{
  OpCode, codigo, recibir_buffer, send, enviar_codigo, operacion_desalojar_hilo,
  operacion_crear_proceso, operacion_finalizar_proceso, operacion_crear_hilo,
  operacion_finalizar_hilo, operacion_esperar_hilo, operacion_cancelar_hilo, operacion_crear_mutex,
  operacion_bloquear_mutex, operacion_desbloquear_mutex, operacion_dump_memory, operacion_io,
}
use sist_op_tp2c.Utils.Mensajes.Envio.{Llega, paquete-Llega, recibir-enviar_codigo}
use sist_op_tp2c.Utils.KernelCpu.{
  DatosCrearProceso, DatosCrearHilo, DatosOperacionMutex, DatosOperacionIo,
  deserializar_datos_crear_proceso, deserializar_datos_crear_hilo,
  deserializar_datos_operacion_mutex, deserializar_datos_operacion_hilo,
  deserializar_datos_operacion_io,
}
use sist_op_tp2c.Utils.KernelCpu.IdaYVuelta.{
  crear_proceso-Vuelve, crear_hilo-Vuelve, operacion_mutex-Vuelve, operacion_hilo-Vuelve,
  operacion_io-Vuelve,
}
use sist_op_tp2c.Kernel.Instrucciones.{
  Operacion, op_crear_proceso, op_finalizar_proceso, op_crear_hilo, op_finalizar_hilo,
  op_esperar_hilo, op_crear_mutex, op_bloquear_mutex, op_desbloquear_mutex, op_io, op_dump_memory,
  op_desalojar_hilo, op_desconocida,
}
use sist_op_tp2c.Kernel.Recepcion.{con_datos, recibir_con_codigo, recibir_de_cpu}
use sist_op_tp2c.Cpu.Instrucciones.{
  PedidoKernel, p_crear_proceso, p_crear_hilo, p_mutex, p_hilo, p_io, p_operacion,
}
use sist_op_tp2c.Cpu.Envios.{
  ejecutar_instruccion_mutex, ejecutar_instruccion_hilo, enviar_operacion_a_kernel, enviar_pedido,
}

-- A request of the CPU and the operation that it is for the kernel: what the instructions send, but
-- for THREAD_CANCEL. Numbers are `uint32_t`, and texts are C strings that fit in a packet.
pub data Corresponde (respuesta : OpCode) : PedidoKernel → Operacion → Type 0 where
  proceso :
      (d : DatosCrearProceso)
      → length d.archivo_pseudocodigo + 21 < u32_mod
      → SinNul d.archivo_pseudocodigo
      → d.tamanio_proceso < u32_mod
      → d.prioridad < u32_mod
      → Corresponde respuesta
          (p_crear_proceso d)
          (op_crear_proceso d.archivo_pseudocodigo d.tamanio_proceso d.prioridad)
  hilo :
      (d : DatosCrearHilo)
      → length d.archivo_pseudocodigo + 17 < u32_mod
      → SinNul d.archivo_pseudocodigo
      → d.prioridad < u32_mod
      → Corresponde respuesta (p_crear_hilo d) (op_crear_hilo d.archivo_pseudocodigo d.prioridad)
  crea_mutex :
      (d : DatosOperacionMutex)
      → length d.recurso + 13 < u32_mod
      → SinNul d.recurso
      → Corresponde respuesta (p_mutex operacion_crear_mutex d) (op_crear_mutex d.recurso)
  bloquea_mutex :
      (d : DatosOperacionMutex)
      → length d.recurso + 13 < u32_mod
      → SinNul d.recurso
      → Corresponde respuesta (p_mutex operacion_bloquear_mutex d) (op_bloquear_mutex d.recurso)
  desbloquea_mutex :
      (d : DatosOperacionMutex)
      → length d.recurso + 13 < u32_mod
      → SinNul d.recurso
      → Corresponde respuesta
          (p_mutex operacion_desbloquear_mutex d)
          (op_desbloquear_mutex d.recurso)
  espera :
      (tid : ℕ)
      → tid < u32_mod
      → Corresponde respuesta (p_hilo operacion_esperar_hilo tid) (op_esperar_hilo tid)
  entrada_salida :
      (d : DatosOperacionIo) → d.tiempo < u32_mod → Corresponde respuesta (p_io d) (op_io d.tiempo)
  termina_hilo :
      Corresponde respuesta (p_operacion operacion_finalizar_hilo) (op_finalizar_hilo respuesta)
  termina_proceso :
      Corresponde respuesta
        (p_operacion operacion_finalizar_proceso)
        (op_finalizar_proceso respuesta)
  dump : Corresponde respuesta (p_operacion operacion_dump_memory) op_dump_memory
  desalojo : Corresponde respuesta (p_operacion operacion_desalojar_hilo) op_desalojar_hilo

-- What is sent is received as an operation, with the rest of the socket left.
abbrev pub Recibida : OpCode → Option (List ℕ) → List ℕ → Operacion → Type 0
Recibida respuesta r resto op =
    (bs : List ℕ) × (r ≡ some bs) × (recibir_de_cpu respuesta (bs ++ resto) ≡ some (op, resto))

enviar_operacion-codigo :
    (ml : Malloc) (op : OpCode) → enviar_operacion_a_kernel ml op ≡ some (enviar_codigo op)
unfolding enviar_operacion_a_kernel enviar_codigo send
enviar_operacion-codigo ml op =
    let (b, igual, todo, tamanio) =
      lleno 4 4 {bs = bytes32 (codigo op)} refl
        (uint32-Deja 4 0 (codigo op) (omega arith) (omega arith) (buffer_create-Escrito ml 4)) in
    rw igual (rw (tamanio, todo))

module _ (ml : Malloc) (respuesta : OpCode) (resto : List ℕ) where
  con_datos-Recibida :
      {A : Type 0} (r : Option (List ℕ)) (op : OpCode) (leer : Buffer → Option A) (d : A)
      (f : A → Operacion)
      → Llega r op leer d resto
      → ((s : List ℕ) → recibir_con_codigo respuesta (codigo op) s ≡ con_datos leer f s)
      → Recibida respuesta r resto (f d)
  unfolding recibir_de_cpu con_datos
  con_datos-Recibida r op leer d f (bs, s, b, enviado, recibe, llena, lee) caso =
      (bs, enviado, rw recibe (rw (caso s) (rw llena (rw lee))))

  codigo-Recibida :
      (op : OpCode) (o : Operacion)
      → recibir_con_codigo respuesta (codigo op) resto ≡ some (o, resto)
      → Recibida respuesta (enviar_operacion_a_kernel ml op) resto o
  unfolding recibir_de_cpu
  codigo-Recibida op o e =
      (enviar_codigo op, enviar_operacion-codigo ml op, rw (recibir-enviar_codigo op resto) e)

  mutex-Llega :
      (op : OpCode) (d : DatosOperacionMutex)
      → length d.recurso + 13 < u32_mod
      → SinNul d.recurso
      → Llega (ejecutar_instruccion_mutex ml op d) op deserializar_datos_operacion_mutex d resto
  unfolding ejecutar_instruccion_mutex
  mutex-Llega op d h1 h2 =
      paquete-Llega ml op ((length d.recurso + 1) + 4) _ d resto (omega arith)
        (operacion_mutex-Vuelve ml d (omega arith) h2)

  -- Every request that an instruction of the CPU sends, but for THREAD_CANCEL, is written without a
  -- fault, and the kernel reads it as the operation of that request with the same data, and no byte
  -- of what the CPU sends next.
  pub enviar_pedido-Recibida :
      {p : PedidoKernel} {o : Operacion}
      → Corresponde respuesta p o
      → Recibida respuesta (enviar_pedido ml p) resto o
  unfolding enviar_pedido ejecutar_instruccion_mutex ejecutar_instruccion_hilo recibir_con_codigo
      codigo
  enviar_pedido-Recibida (proceso d h1 h2 h3 h4) =
      con_datos-Recibida _ operacion_crear_proceso deserializar_datos_crear_proceso d
        (λ d. op_crear_proceso d.archivo_pseudocodigo d.tamanio_proceso d.prioridad)
        (paquete-Llega ml operacion_crear_proceso (12 + (length d.archivo_pseudocodigo + 1)) _ d
          resto (omega arith) (crear_proceso-Vuelve ml d (omega arith) h2 h3 h4))
        (λ s. refl)
  enviar_pedido-Recibida (hilo d h1 h2 h3) =
      con_datos-Recibida _ operacion_crear_hilo deserializar_datos_crear_hilo d
        (λ d. op_crear_hilo d.archivo_pseudocodigo d.prioridad)
        (paquete-Llega ml operacion_crear_hilo (8 + (length d.archivo_pseudocodigo + 1)) _ d resto
          (omega arith) (crear_hilo-Vuelve ml d (omega arith) h2 h3))
        (λ s. refl)
  enviar_pedido-Recibida (crea_mutex d h1 h2) =
      con_datos-Recibida _ operacion_crear_mutex deserializar_datos_operacion_mutex d
        (λ d. op_crear_mutex d.recurso) (mutex-Llega operacion_crear_mutex d h1 h2) (λ s. refl)
  enviar_pedido-Recibida (bloquea_mutex d h1 h2) =
      con_datos-Recibida _ operacion_bloquear_mutex deserializar_datos_operacion_mutex d
        (λ d. op_bloquear_mutex d.recurso) (mutex-Llega operacion_bloquear_mutex d h1 h2)
        (λ s. refl)
  enviar_pedido-Recibida (desbloquea_mutex d h1 h2) =
      con_datos-Recibida _ operacion_desbloquear_mutex deserializar_datos_operacion_mutex d
        (λ d. op_desbloquear_mutex d.recurso) (mutex-Llega operacion_desbloquear_mutex d h1 h2)
        (λ s. refl)
  enviar_pedido-Recibida (espera tid h) =
      con_datos-Recibida _ operacion_esperar_hilo deserializar_datos_operacion_hilo
        (record { tid = tid }) (λ d. op_esperar_hilo d.tid)
        (paquete-Llega ml operacion_esperar_hilo 4 _ _ resto (omega arith)
          (operacion_hilo-Vuelve ml tid h))
        (λ s. refl)
  enviar_pedido-Recibida (entrada_salida d h) =
      con_datos-Recibida _ operacion_io deserializar_datos_operacion_io d (λ d. op_io d.tiempo)
        (paquete-Llega ml operacion_io 4 _ d resto (omega arith) (operacion_io-Vuelve ml d h))
        (λ s. refl)
  enviar_pedido-Recibida termina_hilo =
      codigo-Recibida operacion_finalizar_hilo (op_finalizar_hilo respuesta) refl
  enviar_pedido-Recibida termina_proceso =
      codigo-Recibida operacion_finalizar_proceso (op_finalizar_proceso respuesta) refl
  enviar_pedido-Recibida dump = codigo-Recibida operacion_dump_memory op_dump_memory refl
  enviar_pedido-Recibida desalojo = codigo-Recibida operacion_desalojar_hilo op_desalojar_hilo refl

  -- THREAD_CANCEL: the kernel has no case for its code, and the buffer of the request stays in the
  -- socket, where the kernel reads it before what the CPU sends next.
  pub cancelar_hilo-desconocida :
      (tid : ℕ)
      → tid < u32_mod
      → (bs : List ℕ) × (s : List ℕ) × (b : Buffer) × (enviar_pedido ml
            (p_hilo operacion_cancelar_hilo tid)
          ≡ some bs)
        × (recibir_de_cpu respuesta (bs ++ resto) ≡ some (op_desconocida 10, s))
        × (recibir_buffer s ≡ some (b, resto))
        × (deserializar_datos_operacion_hilo b ≡ some (record { tid = tid }))
  unfolding enviar_pedido ejecutar_instruccion_hilo recibir_con_codigo codigo recibir_de_cpu
  cancelar_hilo-desconocida tid h =
      let (bs, s, b, enviado, recibe, llena, lee) =
        paquete-Llega ml operacion_cancelar_hilo 4 deserializar_datos_operacion_hilo
          (record { tid = tid }) resto (omega arith) (operacion_hilo-Vuelve ml tid h) in
      (bs, s, b, enviado, rw recibe, llena, lee)
