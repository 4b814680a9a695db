-- ===== src/Sistema/KernelMemoria.antt =====
-- The requests of the kernel over a socket against the memory's own operations on their data.
use sist_op_tp2c.Base.{
  ℕ, ◌+◌, ◌<◌, ◌≡◌, refl, Bool, true, Option, none, some, List, [], ◌>>=◌, append-nil, arith,
  u32_mod, length,
}
use sist_op_tp2c.Utils.Buffer.{Malloc, Buffer}
use sist_op_tp2c.Utils.Buffer.Lectura.{SinNul}
use sist_op_tp2c.Utils.Buffer.Vuelta.{Vuelve}
use sist_op_tp2c.Utils.Mensajes.{
  OpCode, codigo_recibido, codigo, recibir_operacion, enviar_paquete, enviar_codigo,
  operacion_crear_proceso, operacion_finalizar_proceso, operacion_crear_hilo,
  operacion_finalizar_hilo, operacion_dump_memory,
}
use sist_op_tp2c.Utils.Mensajes.Envio.{codigo_recibido-enviar, Llega, paquete-Llega}
use sist_op_tp2c.Utils.KernelMemoria.{
  DatosDumpMemory, deserializar_datos_inicializacion_hilo,
  deserializar_datos_inicializacion_proceso, deserializar_datos_finalizacion_hilo,
  deserializar_datos_finalizacion_proceso, serializar_datos_dump_memory,
}
use sist_op_tp2c.Utils.KernelMemoria.IdaYVuelta.{
  inicializacion_hilo-Vuelve, inicializacion_proceso-Vuelve, finalizacion_hilo-Vuelve,
  finalizacion_proceso-Vuelve, dump_memory-Vuelve, finalizacion_hilo-dump,
}
use sist_op_tp2c.Memoria.{
  Memoria, Respuesta, PeticionKernel, crear_proceso, finaliza_proceso, crear_hilo, finaliza_hilo,
  dump_memory, atender_peticion_kernel,
}
use sist_op_tp2c.Memoria.Comunicaciones.{
  leer_datos, como_dump, leer_buffer_kernel, es_de_kernel, codigo_de_respuesta, atender_kernel,
}
use sist_op_tp2c.Kernel.Estados.{Tcb, Pcb}
use sist_op_tp2c.Kernel.Conexion.{
  consultar, pedir_inicializacion_proceso_a_memoria, pedir_inicializacion_hilo_a_memoria,
  pedir_finalizacion_hilo_a_memoria, pedir_finalizacion_proceso_a_memoria, pedir_dump_memory,
}

-- The requests that wait for an answer, and the request that the memory is to attend.
pub data Pedido : Type 0 where
  inicia_proceso termina_proceso : Pcb → Pedido
  inicia_hilo termina_hilo pide_dump : Tcb → Pedido

unfoldable pub pedir_a_memoria :
    {A : Type 0} → Malloc → (List ℕ → Option (List ℕ × A)) → Pedido → Option (Option ℕ × A)
pedir_a_memoria ml memoria (inicia_proceso p) = pedir_inicializacion_proceso_a_memoria ml memoria p
pedir_a_memoria ml memoria (termina_proceso p) = pedir_finalizacion_proceso_a_memoria ml memoria p
pedir_a_memoria ml memoria (inicia_hilo h) = pedir_inicializacion_hilo_a_memoria ml memoria h
pedir_a_memoria ml memoria (termina_hilo h) = pedir_finalizacion_hilo_a_memoria ml memoria h
pedir_a_memoria ml memoria (pide_dump h) = pedir_dump_memory ml memoria h

unfoldable pub peticion_de : Pedido → PeticionKernel
peticion_de (inicia_proceso p) = crear_proceso (record { pid = p.pid; tamanio = p.tamanio })
peticion_de (termina_proceso p) = finaliza_proceso (record { pid = p.pid })
peticion_de (inicia_hilo h) =
    crear_hilo (record { pid = h.pid_padre; tid = h.tid; archivo_pseudocodigo = h.nombre_archivo })
peticion_de (termina_hilo h) = finaliza_hilo (record { pid = h.pid_padre; tid = h.tid })
peticion_de (pide_dump h) = dump_memory (record { pid = h.pid_padre; tid = h.tid })

-- The numbers are `uint32_t`, and the name of the file is a C string that fits in a packet.
abbrev pub Valido : Pedido → Type 0
Valido (inicia_proceso p) = (p.pid < u32_mod) × (p.tamanio < u32_mod)
Valido (termina_proceso p) = p.pid < u32_mod
Valido (inicia_hilo h) =
    (h.pid_padre < u32_mod)
    × (h.tid < u32_mod)
    × (length h.nombre_archivo + 21 < u32_mod)
    × SinNul h.nombre_archivo
Valido (termina_hilo h) = (h.pid_padre < u32_mod) × (h.tid < u32_mod)
Valido (pide_dump h) = (h.pid_padre < u32_mod) × (h.tid < u32_mod)

-- What the kernel writes for a dump is read as the end of a thread is.
dump-Vuelve :
    (ml : Malloc) (d : DatosDumpMemory)
    → d.pid < u32_mod
    → d.tid < u32_mod
    → Vuelve 8
        (serializar_datos_dump_memory ml d)
        deserializar_datos_finalizacion_hilo
        (record { pid = d.pid; tid = d.tid })
dump-Vuelve ml d h1 h2 =
    let (b, e, n, l, lee) = dump_memory-Vuelve ml d h1 h2 in
    (b, e, n, l, finalizacion_hilo-dump _ d lee)

module _ (archivos : List ℕ → Option (List (List ℕ)))
    (escribe : DatosDumpMemory → List ℕ → Bool) where
  -- What the memory sends back.
  abbrev contestado : Option (Respuesta × Memoria) → Option (List ℕ × Memoria)
  contestado r = r >>= λ x. some (enviar_codigo (codigo_de_respuesta x.0), x.1)

  -- What the kernel reads of that, and what it is to read.
  abbrev leido : Option (List ℕ × Memoria) → Option (Option ℕ × Memoria)
  leido r = r >>= λ x. codigo_recibido x.0 >>= λ cod. some (cod, x.1)

  abbrev respondido : Option (Respuesta × Memoria) → Option (Option ℕ × Memoria)
  respondido r = r >>= λ x. some (some (codigo (codigo_de_respuesta x.0)), x.1)

  contesta : (r : Option (Respuesta × Memoria)) → leido (contestado r) ≡ respondido r
  contesta none = refl
  contesta (some x) = rw (codigo_recibido-enviar (codigo_de_respuesta x.0))

  atender-contestado :
      (op : OpCode) (p : PeticionKernel) (m : Memoria) (bs s resto : List ℕ)
      → recibir_operacion bs ≡ some (codigo op, s)
      → es_de_kernel (codigo op) ≡ true
      → leer_buffer_kernel (codigo op) s ≡ some (p, resto)
      → atender_kernel archivos escribe bs m
        ≡ contestado (atender_peticion_kernel archivos escribe p m)
  unfolding atender_kernel
  atender-contestado op p m bs s resto e1 e2 e3 = rw (e1, e2, e3, atender_kernel)

  -- A packet that arrives, and that is read as the request `p`.
  consultar-directo :
      {A : Type 0} (ml : Malloc) (datos : Option Buffer) (op : OpCode) (leer : Buffer → Option A)
      (d : A) (f : A → PeticionKernel) (m : Memoria)
      → Llega (enviar_paquete ml op datos) op leer d []
      → es_de_kernel (codigo op) ≡ true
      → ((s : List ℕ) → leer_buffer_kernel (codigo op) s ≡ leer_datos leer f s)
      → consultar ml (λ x. atender_kernel archivos escribe x m) op datos
        ≡ respondido (atender_peticion_kernel archivos escribe (f d) m)
  unfolding consultar leer_datos
  consultar-directo ml datos op leer d f m (bs, s, b, enviado, recibe, llena, lee) es caso =
      let junto : recibir_operacion bs ≡ some (codigo op, s) = rw append-nil at recibe in
      let leida : leer_buffer_kernel (codigo op) s ≡ some (f d, []) =
        rw (caso s) (rw llena (rw lee)) in
      rw enviado (
        rw (atender-contestado op (f d) m bs s [] junto es leida)
          (contesta (atender_peticion_kernel archivos escribe (f d) m)))

  -- A request of the kernel over a connection, written, attended and answered, gives what the memory's
  -- operation gives on the same data: its answer arrives as the code that the kernel reads, and its
  -- new state; a fault of the one is a fault of the other. The numbers are `uint32_t` and the name of
  -- the file is a C string that fits in a packet.
  pub pedir_a_memoria-atender_kernel :
      (ml : Malloc) (p : Pedido) (m : Memoria)
      → Valido p
      → pedir_a_memoria ml (λ x. atender_kernel archivos escribe x m) p ≡ (
          atender_peticion_kernel archivos escribe (peticion_de p) m >>= λ r.
          some (some (codigo (codigo_de_respuesta r.0)), r.1))
  unfolding pedir_a_memoria peticion_de pedir_inicializacion_proceso_a_memoria
      pedir_finalizacion_proceso_a_memoria pedir_inicializacion_hilo_a_memoria
      pedir_finalizacion_hilo_a_memoria pedir_dump_memory es_de_kernel codigo leer_buffer_kernel
      como_dump
  pedir_a_memoria-atender_kernel ml (inicia_proceso p) m v =
      consultar-directo ml _ operacion_crear_proceso deserializar_datos_inicializacion_proceso
        (record { pid = p.pid; tamanio = p.tamanio }) crear_proceso m
        (paquete-Llega ml operacion_crear_proceso 8 _ _ [] (omega arith)
          (inicializacion_proceso-Vuelve ml _ v.0 v.1))
        refl (λ s. refl)
  pedir_a_memoria-atender_kernel ml (termina_proceso p) m v =
      consultar-directo ml _ operacion_finalizar_proceso deserializar_datos_finalizacion_proceso
        (record { pid = p.pid }) finaliza_proceso m
        (paquete-Llega ml operacion_finalizar_proceso 4 _ _ [] (omega arith)
          (finalizacion_proceso-Vuelve ml _ v))
        refl (λ s. refl)
  pedir_a_memoria-atender_kernel ml (inicia_hilo h) m v =
      consultar-directo ml _ operacion_crear_hilo deserializar_datos_inicializacion_hilo
        (record { pid = h.pid_padre; tid = h.tid; archivo_pseudocodigo = h.nombre_archivo })
        crear_hilo m
        (paquete-Llega ml operacion_crear_hilo (12 + (length h.nombre_archivo + 1)) _ _ []
          (omega arith) (inicializacion_hilo-Vuelve ml _ (omega arith) v.3 v.0 v.1))
        refl (λ s. refl)
  pedir_a_memoria-atender_kernel ml (termina_hilo h) m v =
      consultar-directo ml _ operacion_finalizar_hilo deserializar_datos_finalizacion_hilo
        (record { pid = h.pid_padre; tid = h.tid }) finaliza_hilo m
        (paquete-Llega ml operacion_finalizar_hilo 8 _ _ [] (omega arith)
          (finalizacion_hilo-Vuelve ml _ v.0 v.1))
        refl (λ s. refl)
  pedir_a_memoria-atender_kernel ml (pide_dump h) m v =
      consultar-directo ml _ operacion_dump_memory deserializar_datos_finalizacion_hilo
        (record { pid = h.pid_padre; tid = h.tid }) (λ d. dump_memory (como_dump d)) m
        (paquete-Llega ml operacion_dump_memory 8 _ _ [] (omega arith)
          (dump-Vuelve ml (record { pid = h.pid_padre; tid = h.tid }) v.0 v.1))
        refl (λ s. refl)
