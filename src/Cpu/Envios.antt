-- ===== src/Cpu/Envios.antt =====
-- cpu/src/main.c: the bytes that the CPU sends to the kernel for each request.
use sist_op_tp2c.Base.{ℕ, Option, List, ◌>>=◌}
use sist_op_tp2c.Utils.Buffer.{Malloc, buffer_create, buffer_add_uint32}
use sist_op_tp2c.Utils.Mensajes.{
  OpCode, codigo, send, enviar_paquete, operacion_crear_proceso, operacion_crear_hilo, operacion_io,
}
use sist_op_tp2c.Utils.KernelCpu.{
  DatosOperacionMutex, serializar_datos_crear_proceso, serializar_datos_crear_hilo,
  serializar_datos_operacion_mutex, serializar_datos_operacion_hilo, serializar_datos_operacion_io,
}
use sist_op_tp2c.Cpu.Instrucciones.{
  PedidoKernel, p_crear_proceso, p_crear_hilo, p_mutex, p_hilo, p_io, p_operacion,
}

module _ (ml : Malloc) where
  unfoldable pub ejecutar_instruccion_mutex : OpCode → DatosOperacionMutex → Option (List ℕ)
  ejecutar_instruccion_mutex op d = enviar_paquete ml op (serializar_datos_operacion_mutex ml d)

  unfoldable pub ejecutar_instruccion_hilo : OpCode → ℕ → Option (List ℕ)
  ejecutar_instruccion_hilo op tid = enviar_paquete ml op (serializar_datos_operacion_hilo ml tid)

  unfoldable pub enviar_operacion_a_kernel : OpCode → Option (List ℕ)
  enviar_operacion_a_kernel op = buffer_add_uint32 (buffer_create ml 4) (codigo op) >>= send

  unfoldable pub enviar_pedido : PedidoKernel → Option (List ℕ)
  enviar_pedido (p_crear_proceso d) =
      enviar_paquete ml operacion_crear_proceso (serializar_datos_crear_proceso ml d)
  enviar_pedido (p_crear_hilo d) =
      enviar_paquete ml operacion_crear_hilo (serializar_datos_crear_hilo ml d)
  enviar_pedido (p_mutex op d) = ejecutar_instruccion_mutex op d
  enviar_pedido (p_hilo op tid) = ejecutar_instruccion_hilo op tid
  enviar_pedido (p_io d) = enviar_paquete ml operacion_io (serializar_datos_operacion_io ml d)
  enviar_pedido (p_operacion op) = enviar_operacion_a_kernel op
