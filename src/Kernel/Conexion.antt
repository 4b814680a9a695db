-- ===== src/Kernel/Conexion.antt =====
-- kernel/src/kernel-utils: what the kernel asks of the memory, each request over a connection of its
-- own, and the code that it reads as the answer. `memoria` takes the bytes of a connection to the bytes
-- that come back.
use sist_op_tp2c.Base.{ℕ, Option, some, List, ◌>>=◌}
use sist_op_tp2c.Utils.Buffer.{Malloc, Buffer}
use sist_op_tp2c.Utils.Mensajes.{
  OpCode, codigo_recibido, enviar_paquete, operacion_crear_proceso, operacion_finalizar_proceso,
  operacion_crear_hilo, operacion_finalizar_hilo, operacion_dump_memory, operacion_ejecutar_hilo,
}
use sist_op_tp2c.Utils.KernelCpu.{serializar_hilo_a_cpu}
use sist_op_tp2c.Utils.KernelMemoria.{
  serializar_datos_inicializacion_hilo, serializar_datos_inicializacion_proceso,
  serializar_datos_finalizacion_hilo, serializar_datos_finalizacion_proceso,
  serializar_datos_dump_memory,
}
use sist_op_tp2c.Kernel.Estados.{Tcb, Pcb}

module _ {A : Type 0} (ml : Malloc) (memoria : List ℕ → Option (List ℕ × A)) where
  -- The packet is sent, and an answer is awaited.
  unfoldable pub consultar : OpCode → Option Buffer → Option (Option ℕ × A)
  consultar operacion datos = do
    bs ← enviar_paquete ml operacion datos
    r ← memoria bs
    cod ← codigo_recibido r.0
    some (cod, r.1)

  unfoldable pub pedir_inicializacion_proceso_a_memoria : Pcb → Option (Option ℕ × A)
  pedir_inicializacion_proceso_a_memoria p =
      consultar operacion_crear_proceso
        (serializar_datos_inicializacion_proceso ml (record { pid = p.pid; tamanio = p.tamanio }))

  unfoldable pub pedir_inicializacion_hilo_a_memoria : Tcb → Option (Option ℕ × A)
  pedir_inicializacion_hilo_a_memoria h = consultar operacion_crear_hilo (
      serializar_datos_inicializacion_hilo ml
        (record { pid = h.pid_padre; tid = h.tid; archivo_pseudocodigo = h.nombre_archivo }))

  unfoldable pub pedir_finalizacion_hilo_a_memoria : Tcb → Option (Option ℕ × A)
  pedir_finalizacion_hilo_a_memoria h =
      consultar operacion_finalizar_hilo
        (serializar_datos_finalizacion_hilo ml (record { pid = h.pid_padre; tid = h.tid }))

  unfoldable pub pedir_finalizacion_proceso_a_memoria : Pcb → Option (Option ℕ × A)
  pedir_finalizacion_proceso_a_memoria p =
      consultar operacion_finalizar_proceso
        (serializar_datos_finalizacion_proceso ml (record { pid = p.pid }))

  -- The request of `syscall_dump_memory`, and the answer that `esperar_respuesta_dump_memory` reads.
  unfoldable pub pedir_dump_memory : Tcb → Option (Option ℕ × A)
  pedir_dump_memory h =
      consultar operacion_dump_memory
        (serializar_datos_dump_memory ml (record { pid = h.pid_padre; tid = h.tid }))

  -- OPERACION_CREAR_HILO of THREAD_CREATE, whose answer is not read.
  unfoldable pub solicitar_inicializacion_hilo_a_memoria : Tcb → Option A
  solicitar_inicializacion_hilo_a_memoria h = do
    bs ← enviar_paquete ml operacion_crear_hilo (
        serializar_datos_inicializacion_hilo ml
          (record { pid = h.pid_padre; tid = h.tid; archivo_pseudocodigo = h.nombre_archivo }))
    r ← memoria bs
    some r.1

-- The bytes that `enviar_hilo_a_cpu` sends.
unfoldable pub enviar_hilo_a_cpu : Malloc → Tcb → Option (List ℕ)
enviar_hilo_a_cpu ml h =
    enviar_paquete ml operacion_ejecutar_hilo
      (serializar_hilo_a_cpu ml (record { tid = h.tid; pid = h.pid_padre }))
