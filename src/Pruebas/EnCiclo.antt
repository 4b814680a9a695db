-- ===== src/Pruebas/EnCiclo.antt =====
-- The theorems of the instruction cycle at a process of one thread.
use sist_op_tp2c.Base.{ℕ, ◌≡◌, ◌≢◌, refl, true, false, some, [], ◌∷◌, ◌>>=◌}
use sist_op_tp2c.Utils.Mensajes.{operacion_finalizar_proceso}
use sist_op_tp2c.Memoria.Estructuras.{
  devolver_instruccion, actualizar_contexto_ejecucion, buscar_proceso_por_pid, buscar_hilo,
  cambiar_hilos, cambiar_hilo,
}
use sist_op_tp2c.Memoria.{atender_peticion_cpu, actualizar_contexto}
use sist_op_tp2c.Memoria.Servicio.{servicio_memoria}
use sist_op_tp2c.Cpu.{
  obtener_registro, mmu, registro_de, buscar_registro, nombre_de, leer, incrementar_pc,
}
use sist_op_tp2c.Cpu.Instrucciones.{
  i_io, i_write_mem, instruccion_de, buscar_instruccion, nombre_instruccion, p_operacion, p_io,
}
use sist_op_tp2c.Cpu.Maquina.{Cpu, actualizar, enviar}
use sist_op_tp2c.Cpu.Ejecucion.{ejecutar, ejecutar_si, decodificar_y_ejecutar, avanzar}
use sist_op_tp2c.Cpu.Ciclo.{
  falta, pedir_proxima_instruccion, texto_de, fin_de_ciclo, ciclo, ciclo_de_instruccion,
  pedir_contexto,
}
use sist_op_tp2c.Cpu.Cambio.{ciclo-pedir_contexto}
use sist_op_tp2c.Cpu.Termina.{ciclo_de_instruccion-Termina}
use sist_op_tp2c.Cpu.Falta.{ciclo-segmentation_fault}
use sist_op_tp2c.Pruebas.Datos.{
  separar, numero, linea_io, linea_write, memoria_prueba, en_linea, cpu, memoria_despues,
}

pide_io : pedir_proxima_instruccion {s = servicio_memoria} (cpu 0) ≡ some (linea_io, cpu 0)
unfolding pedir_proxima_instruccion texto_de atender_peticion_cpu devolver_instruccion
    buscar_proceso_por_pid buscar_hilo
pide_io = refl

es_io : instruccion_de (73 ∷ 79 ∷ []) ≡ some i_io
unfolding instruccion_de buscar_instruccion nombre_instruccion
es_io = refl

abbrev cpu_despues : Cpu servicio_memoria
cpu_despues = record (cpu 1) {
  memoria = memoria_despues;
  enviados = p_io (record { tiempo = 5 }) ∷ [];
}

corre_io : ciclo {s = servicio_memoria} numero separar false (cpu 0) ≡ some (false, cpu_despues)
unfolding ciclo pedir_proxima_instruccion texto_de atender_peticion_cpu devolver_instruccion
    buscar_proceso_por_pid buscar_hilo decodificar_y_ejecutar ejecutar_si ejecutar instruccion_de
    buscar_instruccion nombre_instruccion avanzar incrementar_pc enviar fin_de_ciclo actualizar
    actualizar_contexto_ejecucion cambiar_hilos cambiar_hilo
corre_io = refl

ciclo-pedir_contexto_example :
    (base : ℕ) × (limite : ℕ) × (pedir_contexto
        (record { tid = 0; pid = 3 })
        (record (cpu 0) { memoria = memoria_despues })
      ≡ some (record (cpu 0) {
        registros = record (en_linea 1) { base = base; limite = limite };
        memoria = memoria_despues;
      }))
ciclo-pedir_contexto_example =
    ciclo-pedir_contexto numero separar false (cpu 0) (cpu 0) cpu_despues
      (record (cpu 0) { memoria = memoria_despues }) linea_io (73 ∷ 79 ∷ []) i_io pide_io tt refl
      es_io (λ e. cc) (λ e. cc) corre_io refl refl

ciclo_de_instruccion-Termina_example :
    (ciclo_de_instruccion {s = servicio_memoria} numero separar (false ∷ true ∷ false ∷ []) (cpu 0)
      ≡ ciclo_de_instruccion numero separar (false ∷ true ∷ []) (cpu 0))
    × ((c1 : Cpu servicio_memoria)
        → ciclo_de_instruccion numero separar (false ∷ true ∷ false ∷ []) (cpu 0) ≢ falta c1)
ciclo_de_instruccion-Termina_example =
    ciclo_de_instruccion-Termina numero separar (false ∷ []) (false ∷ []) (cpu 0)

pide_write : pedir_proxima_instruccion {s = servicio_memoria} (cpu 1) ≡ some (linea_write, cpu 1)
unfolding pedir_proxima_instruccion texto_de atender_peticion_cpu devolver_instruccion
    buscar_proceso_por_pid buscar_hilo
pide_write = refl

es_write : instruccion_de (87 ∷ 82 ∷ 73 ∷ 84 ∷ 69 ∷ 95 ∷ 77 ∷ 69 ∷ 77 ∷ []) ≡ some i_write_mem
unfolding instruccion_de buscar_instruccion nombre_instruccion
es_write = refl

lee_ax : obtener_registro (65 ∷ 88 ∷ []) (en_linea 1) ≡ some 40
unfolding obtener_registro registro_de buscar_registro nombre_de leer
lee_ax = refl

fuera : mmu 40 (en_linea 1) ≡ false
unfolding mmu
fuera = refl

ciclo-segmentation_fault_example : ciclo {s = servicio_memoria} numero separar true (cpu 1) ≡ (
    atender_peticion_cpu (actualizar_contexto (en_linea 1)) memoria_prueba >>= λ r. some (
      false,
      avanzar (
          enviar
            (p_operacion operacion_finalizar_proceso)
            (record (cpu 1) { seg_fault = true; memoria = r.1 })),
    ))
ciclo-segmentation_fault_example =
    ciclo-segmentation_fault numero separar true true (cpu 1) (cpu 1) linea_write
      (87 ∷ 82 ∷ 73 ∷ 84 ∷ 69 ∷ 95 ∷ 77 ∷ 69 ∷ 77 ∷ []) (65 ∷ 88 ∷ []) (66 ∷ 88 ∷ []) 40 pide_write
      refl es_write refl refl lee_ax fuera
