-- ===== src/Pruebas/EnDialogo.antt =====
-- The instruction MUTEX_LOCK of the CPU against a kernel where another thread holds the mutex.
use sist_op_tp2c.Base.{ℕ, ◌≡◌, refl, sym, ap, some, List, [], ◌∷◌, ◌++◌, map, arith}
use sist_op_tp2c.Utils.Mensajes.{
  codigo, operacion_confirmar, operacion_notificar_error, operacion_bloquear_mutex,
}
use sist_op_tp2c.Memoria.Servicio.{servicio_memoria}
use sist_op_tp2c.Kernel.Estados.{buscar_proceso, transicion_exec_a_blocked}
use sist_op_tp2c.Kernel.Syscalls.{en_ejecucion, syscall_bloquear_mutex, buscar_mutex, tomar_mutex}
use sist_op_tp2c.Kernel.Instrucciones.{Atendida, op_bloquear_mutex, atender_operacion}
use sist_op_tp2c.Cpu.Instrucciones.{i_mutex_lock, p_mutex, nombre_instruccion}
use sist_op_tp2c.Cpu.Maquina.{Cpu}
use sist_op_tp2c.Cpu.Ejecucion.{ejecutar}
use sist_op_tp2c.Sistema.CpuKernel.{bloquea_mutex}
use sist_op_tp2c.Sistema.Dialogo.{Ejecutada, sigue_cpu, pide_bloquear_mutex, ejecutar-atender}
use sist_op_tp2c.Pruebas.Datos.{numero, cpu}
use sist_op_tp2c.Pruebas.EnKernel.{kernel_prueba}

abbrev cpu_en_lock : Cpu servicio_memoria
cpu_en_lock = record (cpu 0) { respuestas = codigo operacion_notificar_error ∷ 7 ∷ [] }

abbrev linea_lock : List (List ℕ)
linea_lock = nombre_instruccion i_mutex_lock ∷ (82 ∷ []) ∷ []

rechazo :
    (a : Atendida) × (atender_operacion 3 (op_bloquear_mutex (82 ∷ [])) kernel_prueba ≡ some a)
    × (a.enviado ≡ operacion_notificar_error ∷ [])
unfolding atender_operacion syscall_bloquear_mutex en_ejecucion buscar_proceso buscar_mutex
    tomar_mutex transicion_exec_a_blocked
rechazo = (_, refl, refl)

ejecutar-atender_example :
    Ejecutada numero cpu_en_lock
      (ejecutar numero i_mutex_lock linea_lock cpu_en_lock)
      (p_mutex operacion_bloquear_mutex (record { recurso = 82 ∷ [] }))
      (7 ∷ [])
      (sigue_cpu i_mutex_lock rechazo.0.sigue)
ejecutar-atender_example =
    ejecutar-atender numero cpu_en_lock operacion_confirmar 3 kernel_prueba rechazo.0 linea_lock
      (7 ∷ []) (pide_bloquear_mutex (82 ∷ []) refl)
      (bloquea_mutex (record { recurso = 82 ∷ [] }) (omega arith) (λ e. omega arith, tt)) rechazo.1
      (ap (λ x. map codigo x ++ 7 ∷ []) (sym rechazo.2))
