-- ===== src/Cpu/Falta.antt =====
-- cpu/src/main.c: a READ_MEM or a WRITE_MEM outside the partition of its process.
use sist_op_tp2c.Base.{
  ℕ, ◌≡◌, refl, Bool, true, false, Option, none, some, List, ◌>>=◌, if◌then◌else◌, get_elem?,
}
use sist_op_tp2c.Utils.Mensajes.{operacion_finalizar_proceso}
use sist_op_tp2c.Memoria.{RespuestaCpu, actualizar_contexto}
use sist_op_tp2c.Cpu.{obtener_registro, mmu}
use sist_op_tp2c.Cpu.Servicio.{ServicioMemoria}
use sist_op_tp2c.Cpu.Instrucciones.{Marcas, i_read_mem, i_write_mem, instruccion_de, p_operacion}
use sist_op_tp2c.Cpu.Maquina.{Cpu, enviar, actualizar, segmentation_fault, read_mem, write_mem}
use sist_op_tp2c.Cpu.Ejecucion.{sigue, avanzar, ejecutar}
use sist_op_tp2c.Cpu.Ciclo.{pedir_proxima_instruccion, fin_de_ciclo, ciclo}
use sist_op_tp2c.Cpu.Cambio.{ciclo_conocido}

module _ {s : ServicioMemoria} where
  -- A cycle that ends with the process to be finished.
  abbrev terminada : Cpu s → Cpu s
  terminada c = avanzar (enviar (p_operacion operacion_finalizar_proceso) c)

  -- The states of the CPU after the answer `r` of the memory to the context.
  abbrev con_falta : Cpu s → Option (RespuestaCpu × s.Estado) → Option (Cpu s)
  con_falta c r = r >>= λ x. some (record c { seg_fault = true; memoria = x.1 })

  abbrev se_termina : Cpu s → Option (RespuestaCpu × s.Estado) → Option (Bool × Cpu s)
  se_termina c r = r >>= λ x. some (false, terminada (record c { seg_fault = true; memoria = x.1 }))

  abbrev marcada : Option (Cpu s) → Option (Marcas × Cpu s)
  marcada o = o >>= λ c1. some (sigue, avanzar c1)

  fin-terminada :
      (interrumpe : Bool) (c : Cpu s) (r : Option (RespuestaCpu × s.Estado))
      → (marcada
            (con_falta c r >>= λ c1. some (enviar (p_operacion operacion_finalizar_proceso) c1))
          >>= λ h. fin_de_ciclo interrumpe h.0 h.1)
        ≡ se_termina c r
  unfolding fin_de_ciclo avanzar enviar
  fin-terminada interrumpe c none = refl
  fin-terminada true c (some x) = refl
  fin-terminada false c (some x) = refl

  module _ (atoi : List ℕ → ℕ) (string_split : List ℕ → List (List ℕ)) where
    -- A READ_MEM (whose address is in its second register) or a WRITE_MEM (whose address is in its
    -- first) that the check of addresses refuses, with an interruption or without: no access is asked
    -- of the memory; the CPU stores the context, asks the kernel to finish the process, with no other
    -- request, and no cycle follows. It fails only where the memory fails to store the context.
    pub ciclo-segmentation_fault :
        (escribe interrumpe : Bool) (c c0 : Cpu s) (texto nombre registro1 registro2 : List ℕ)
        (dir : ℕ)
        → pedir_proxima_instruccion (record c { seg_fault = false }) ≡ some (texto, c0)
        → get_elem? (string_split texto) 0 ≡ some nombre
        → instruccion_de nombre ≡ some (if escribe then i_write_mem else i_read_mem)
        → get_elem? (string_split texto) 1 ≡ some registro1
        → get_elem? (string_split texto) 2 ≡ some registro2
        → obtener_registro (if escribe then registro1 else registro2) c0.registros ≡ some dir
        → mmu dir c0.registros ≡ false
        → ciclo atoi string_split interrumpe c ≡ (
            s.pedir (actualizar_contexto c0.registros) c0.memoria >>= λ r. some (
              false,
              avanzar (
                  enviar
                    (p_operacion operacion_finalizar_proceso)
                    (record c0 { seg_fault = true; memoria = r.1 })),
            ))
    unfolding ejecutar read_mem write_mem segmentation_fault actualizar
    ciclo-segmentation_fault true interrumpe c c0 texto nombre registro1 registro2 dir pedida e0 i
          e1 e2 lee fuera =
        rw
          (
            ciclo_conocido atoi string_split interrumpe c c0 texto nombre i_write_mem pedida e0 i,
            e1,
            e2,
            lee,
            fuera,
          )
          (fin-terminada interrumpe c0 (s.pedir (actualizar_contexto c0.registros) c0.memoria))
    ciclo-segmentation_fault false interrumpe c c0 texto nombre registro1 registro2 dir pedida e0 i
          e1 e2 lee fuera =
        rw
          (
            ciclo_conocido atoi string_split interrumpe c c0 texto nombre i_read_mem pedida e0 i,
            e1,
            e2,
            lee,
            fuera,
          )
          (fin-terminada interrumpe c0 (s.pedir (actualizar_contexto c0.registros) c0.memoria))
