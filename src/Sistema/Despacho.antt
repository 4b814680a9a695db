-- ===== src/Sistema/Despacho.antt =====
-- A thread that the kernel dispatches: the kernel's message, the CPU's request with the same buffer,
-- and the memory's answer.
use sist_op_tp2c.Base.{
  ◌<◌, ◌≡◌, refl, Option, some, [], append-nil, ◌>>=◌, arith, u32_mod, Cumple, none,
}
use sist_op_tp2c.Utils.Buffer.{Malloc}
use sist_op_tp2c.Utils.Buffer.Lectura.{recibido}
use sist_op_tp2c.Utils.Buffer.Vuelta.{Vuelve}
use sist_op_tp2c.Utils.Mensajes.{codigo, recibir_operacion, operacion_ejecutar_hilo}
use sist_op_tp2c.Utils.Mensajes.Envio.{paquete-Llega}
use sist_op_tp2c.Utils.KernelCpu.{HiloACpu}
use sist_op_tp2c.Utils.KernelCpu.IdaYVuelta.{hilo_a_cpu-Vuelve, solicitar_contexto-hilo}
use sist_op_tp2c.Utils.CpuMemoria.{Contexto, deserializar_datos_solicitar_contexto}
use sist_op_tp2c.Memoria.{Memoria}
use sist_op_tp2c.Memoria.Estructuras.{devolver_contexto_ejecucion}
use sist_op_tp2c.Memoria.Comunicaciones.{atender_cpu}
use sist_op_tp2c.Kernel.Estados.{Tcb}
use sist_op_tp2c.Kernel.Conexion.{enviar_hilo_a_cpu}
use sist_op_tp2c.Cpu.Conexion.{despachado_por_socket}
use sist_op_tp2c.Sistema.Respuestas.{ContextoValido}
use sist_op_tp2c.Sistema.CpuMemoria.{contexto_por_socket_lem}

abbrev con_memoria : Memoria → Option Contexto → Option (Contexto × Memoria)
con_memoria m o = o >>= λ c. some (c, m)

abbrev con_hilo : HiloACpu → Option (Contexto × Memoria) → Option (HiloACpu × Contexto × Memoria)
con_hilo h o = o >>= λ c. some (h, c.0, c.1)

ordenar :
    (h : HiloACpu) (m : Memoria) (o : Option Contexto)
    → con_hilo h (con_memoria m o) ≡ (o >>= λ c. some (h, c, m))
ordenar h m none = refl
ordenar h m (some c) = refl

-- The bytes that the kernel sends for a thread make the CPU take that thread, with the context that
-- the memory keeps for it, and leave the memory as it was; the CPU faults exactly where the memory has
-- no such thread. The numbers of the thread and of its context are `uint32_t`.
pub enviar_hilo-despachado :
    (ml : Malloc) (h : Tcb) (m : Memoria)
    → h.pid_padre < u32_mod
    → h.tid < u32_mod
    → Cumple ContextoValido
        (devolver_contexto_ejecucion (record { tid = h.tid; pid = h.pid_padre }) m.procesos)
    → (enviar_hilo_a_cpu ml h >>= despachado_por_socket ml (λ s. atender_cpu ml s m)) ≡ (
        devolver_contexto_ejecucion (record { tid = h.tid; pid = h.pid_padre }) m.procesos >>= λ c.
        some (record { tid = h.tid; pid = h.pid_padre }, c, m))
unfolding enviar_hilo_a_cpu despachado_por_socket codigo
enviar_hilo-despachado ml h m h1 h2 v =
    let reordena = ordenar (record { tid = h.tid; pid = h.pid_padre }) m in
    let hilo : HiloACpu = record { tid = h.tid; pid = h.pid_padre } in
    let (b, e, n, l, lee) = hilo_a_cpu-Vuelve ml hilo h1 h2 in
    let mismo : Vuelve 8 (some (recibido b.stream)) deserializar_datos_solicitar_contexto
        (record { tid = h.tid; pid = h.pid_padre }) =
      (recibido b.stream, refl, l, l, solicitar_contexto-hilo (recibido b.stream) hilo lee) in
    let (bs, s, b1, enviado, recibe, llena, igual) =
      paquete-Llega ml operacion_ejecutar_hilo 8 (λ x. some x) (recibido b.stream) [] (omega arith)
        (b, e, n, l, refl) in
    let junto : recibir_operacion bs ≡ some (codigo operacion_ejecutar_hilo, s) =
      rw append-nil at recibe in
    let b_igual : b1 ≡ recibido b.stream = cc in
    let final =
      contexto_por_socket_lem ml m (recibido b.stream) (record { tid = h.tid; pid = h.pid_padre })
        mismo v in
    rw enviado (
      rw junto (
        rw llena (
          rw b_igual (
            rw lee (
              rw final (
                reordena (
                  devolver_contexto_ejecucion (record { tid = h.tid; pid = h.pid_padre })
                    m.procesos)))))))
