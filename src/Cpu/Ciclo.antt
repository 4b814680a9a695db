-- ===== src/Cpu/Ciclo.antt =====
-- cpu/src/main.c: the instruction cycle, and the dispatch of a thread by `escuchar_dispatch`.
-- `string_split` at spaces and `atoi` are arguments, and so is, for each cycle, the value that
-- `hay_interrupcion` has when the cycle looks at it.
use sist_op_tp2c.Base.{
  ℕ, Bool, true, false, not, ◌&&◌, ◌||◌, Option, none, some, List, [], ◌∷◌, ◌>>=◌, if◌then◌else◌,
}
use sist_op_tp2c.Utils.Mensajes.{operacion_desalojar_hilo}
use sist_op_tp2c.Utils.KernelCpu.{HiloACpu}
use sist_op_tp2c.Utils.CpuMemoria.{Contexto}
use sist_op_tp2c.Memoria.{
  RespuestaCpu, devolver_contexto, devuelve_instruccion, contexto, instruccion, dato, confirmada,
}
use sist_op_tp2c.Cpu.Servicio.{ServicioMemoria}
use sist_op_tp2c.Cpu.Instrucciones.{p_operacion, Marcas}
use sist_op_tp2c.Cpu.Maquina.{Cpu, enviar, actualizar}
use sist_op_tp2c.Cpu.Ejecucion.{decodificar_y_ejecutar}

unfoldable pub texto_de : RespuestaCpu → Option (List ℕ)
texto_de (contexto c) = none
texto_de (instruccion i) = some i
texto_de (dato x) = none
texto_de confirmada = none

unfoldable pub contexto_de : RespuestaCpu → Option Contexto
contexto_de (contexto c) = some c
contexto_de (instruccion i) = none
contexto_de (dato x) = none
contexto_de confirmada = none

-- How the recursion of `ciclo_de_instruccion` goes on: it ends, the program fails, or another cycle
-- starts for which no interruption flag is given.
pub data Corrida {ℓ} (A : Type ℓ) : Type ℓ where
  termina : A → Corrida A
  falla : Corrida A
  falta : A → Corrida A

module _ {s : ServicioMemoria} where
  unfoldable pub pedir_proxima_instruccion : Cpu s → Option (List ℕ × Cpu s)
  pedir_proxima_instruccion c = do
    r ←
        s.pedir
          (devuelve_instruccion
            (record { pc = c.registros.pc; pid = c.registros.pid; tid = c.registros.tid }))
          c.memoria
    texto ← texto_de r.0
    some (texto, record c { memoria = r.1 })

  -- From the check of the interruption on; the Boolean of the result is whether a cycle follows.
  unfoldable pub fin_de_ciclo : Bool → Marcas → Cpu s → Option (Bool × Cpu s)
  fin_de_ciclo interrumpe marcas c = do
    c1 ←
        if (not interrumpe || marcas.omitir_interrupcion) && marcas.debe_actualizar_contexto
        then actualizar c
        else some c
    if c1.seg_fault
        then some (false, c1)
        else if interrumpe && not marcas.omitir_interrupcion
        then (actualizar c1 >>= λ c2.
            some (false, enviar (p_operacion operacion_desalojar_hilo) c2))
        else some (marcas.siguiente_ciclo, c1)

  module _ (atoi : List ℕ → ℕ) (string_split : List ℕ → List (List ℕ)) where
    -- One cycle.
    unfoldable pub ciclo : Bool → Cpu s → Option (Bool × Cpu s)
    ciclo interrumpe c = do
      pedida ← pedir_proxima_instruccion (record c { seg_fault = false })
      hecha ← decodificar_y_ejecutar atoi (string_split pedida.0) pedida.1
      fin_de_ciclo interrumpe hecha.0 hecha.1

    unfoldable pub ciclo_de_instruccion : List Bool → Cpu s → Corrida (Cpu s)
    ciclo_de_instruccion [] c = falta c
    ciclo_de_instruccion (interrumpe ∷ resto) c = elim (ciclo interrumpe c) [
      | none ↦ falla
      | some (true, c1) ↦ ciclo_de_instruccion resto c1
      | some (false, c1) ↦ termina c1
    ]

  -- OPERACION_EJECUTAR_HILO: the context of the thread, before its cycle.
  unfoldable pub pedir_contexto : HiloACpu → Cpu s → Option (Cpu s)
  pedir_contexto h c = do
    r ← s.pedir (devolver_contexto (record { tid = h.tid; pid = h.pid })) c.memoria
    registros ← contexto_de r.0
    some (record c { registros = registros; memoria = r.1 })
