-- ===== src/Pruebas/EnSistema.antt =====
-- The theorems of the modules together at a process of one thread.
use sist_op_tp2c.Base.{Option, ℕ, ◌≡◌, Bool, true, some, List, [], ◌∷◌, ◌++◌, ◌>>=◌, arith, Cumple}
use sist_op_tp2c.Utils.Buffer.{Buffer}
use sist_op_tp2c.Utils.Mensajes.{
  codigo, operacion_confirmar, recibir_buffer, operacion_cancelar_hilo, operacion_crear_mutex,
}
use sist_op_tp2c.Utils.CpuMemoria.{DatosEscribirMemoria}
use sist_op_tp2c.Utils.KernelMemoria.{DatosDumpMemory}
use sist_op_tp2c.Memoria.Estructuras.{
  devolver_contexto_ejecucion, buscar_proceso_por_pid, buscar_hilo,
}
use sist_op_tp2c.Memoria.{atender_peticion_kernel, escribir_memoria}
use sist_op_tp2c.Memoria.Comunicaciones.{atender_kernel, atender_cpu, codigo_de_respuesta}
use sist_op_tp2c.Kernel.Estados.{Tcb, Pcb}
use sist_op_tp2c.Kernel.Instrucciones.{op_crear_mutex, op_desconocida}
use sist_op_tp2c.Kernel.Conexion.{enviar_hilo_a_cpu}
use sist_op_tp2c.Kernel.Recepcion.{recibir_de_cpu}
use sist_op_tp2c.Cpu.Instrucciones.{p_mutex, p_hilo}
use sist_op_tp2c.Cpu.Conexion.{escritura_por_socket, despachado_por_socket}
use sist_op_tp2c.Cpu.Envios.{enviar_pedido}
use sist_op_tp2c.Utils.KernelCpu.{deserializar_datos_operacion_hilo}
use sist_op_tp2c.Sistema.KernelMemoria.{
  pedir_a_memoria, inicia_proceso, peticion_de, pedir_a_memoria-atender_kernel,
}
use sist_op_tp2c.Sistema.Respuestas.{ContextoValido}
use sist_op_tp2c.Sistema.CpuMemoria.{escritura_por_socket_lem}
use sist_op_tp2c.Sistema.Despacho.{enviar_hilo-despachado}
use sist_op_tp2c.Sistema.CpuKernel.{
  Recibida, crea_mutex, enviar_pedido-Recibida, cancelar_hilo-desconocida,
}
use sist_op_tp2c.Pruebas.Datos.{ceros, memoria_prueba, en_linea, memoria_despues}

abbrev pcb : Pcb
pcb = record {
  pid = 7;
  tids = [];
  mutex = [];
  tamanio = 20;
  ultimo_tid = 0;
  prioridad = 0;
  nombre_archivo = [];
}

abbrev tcb : Tcb
tcb = record { tid = 0; prioridad = 0; pid_padre = 3; nombre_archivo = []; hilos_bloqueados = [] }

abbrev sin_archivos : List ℕ → Option (List (List ℕ))
sin_archivos _ = some []

abbrev siempre : DatosDumpMemory → List ℕ → Bool
siempre _ _ = true

pedir_a_memoria-atender_kernel_example :
    pedir_a_memoria ceros
      (λ x. atender_kernel sin_archivos siempre x memoria_prueba)
      (inicia_proceso pcb)
    ≡ (atender_peticion_kernel sin_archivos siempre
          (peticion_de (inicia_proceso pcb))
          memoria_prueba
        >>= λ r. some (some (codigo (codigo_de_respuesta r.0)), r.1))
pedir_a_memoria-atender_kernel_example =
    pedir_a_memoria-atender_kernel sin_archivos siempre ceros (inicia_proceso pcb) memoria_prueba
      (omega arith, omega arith)

abbrev escritura : DatosEscribirMemoria
escritura = record { pid = 3; tid = 0; tamanio = 4; dir_fisica = 8; dato_a_escribir = 70000 }

escritura_por_socket_lem_example :
    escritura_por_socket ceros (λ s. atender_cpu ceros s memoria_prueba) escritura
    ≡ escribir_memoria escritura memoria_prueba
escritura_por_socket_lem_example =
    escritura_por_socket_lem ceros memoria_prueba escritura (omega arith) (omega arith)
      (omega arith) (omega arith) (omega arith)

linea-ContextoValido : ContextoValido (en_linea 1)
linea-ContextoValido = record {
  v_pid = omega arith;
  v_tid = omega arith;
  v_pc = omega arith;
  v_ax = omega arith;
  v_bx = omega arith;
  v_cx = omega arith;
  v_dx = omega arith;
  v_ex = omega arith;
  v_fx = omega arith;
  v_gx = omega arith;
  v_hx = omega arith;
  v_base = omega arith;
  v_limite = omega arith;
}

despues-ContextoValido :
    Cumple ContextoValido
      (devolver_contexto_ejecucion (record { tid = 0; pid = 3 }) memoria_despues.procesos)
unfolding devolver_contexto_ejecucion buscar_proceso_por_pid buscar_hilo
despues-ContextoValido = linea-ContextoValido

enviar_hilo-despachado_example :
    (enviar_hilo_a_cpu ceros tcb
      >>= despachado_por_socket ceros (λ s. atender_cpu ceros s memoria_despues))
    ≡ (devolver_contexto_ejecucion (record { tid = 0; pid = 3 }) memoria_despues.procesos >>= λ c.
        some (record { tid = 0; pid = 3 }, c, memoria_despues))
enviar_hilo-despachado_example =
    enviar_hilo-despachado ceros tcb memoria_despues (omega arith) (omega arith)
      despues-ContextoValido

enviar_pedido-Recibida_example :
    Recibida operacion_confirmar
      (enviar_pedido ceros (p_mutex operacion_crear_mutex (record { recurso = 82 ∷ [] })))
      (9 ∷ [])
      (op_crear_mutex (82 ∷ []))
enviar_pedido-Recibida_example =
    enviar_pedido-Recibida ceros operacion_confirmar (9 ∷ [])
      (crea_mutex (record { recurso = 82 ∷ [] }) (omega arith) (λ e. omega arith, tt))

cancelar_hilo-desconocida_example :
    (bs : List ℕ) × (s : List ℕ) × (b : Buffer) × (enviar_pedido ceros
        (p_hilo operacion_cancelar_hilo 2)
      ≡ some bs)
    × (recibir_de_cpu operacion_confirmar (bs ++ 9 ∷ []) ≡ some (op_desconocida 10, s))
    × (recibir_buffer s ≡ some (b, 9 ∷ []))
    × (deserializar_datos_operacion_hilo b ≡ some (record { tid = 2 }))
cancelar_hilo-desconocida_example =
    cancelar_hilo-desconocida ceros operacion_confirmar (9 ∷ []) 2 (omega arith)
