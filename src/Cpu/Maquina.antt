-- ===== src/Cpu/Maquina.antt =====
-- cpu/src/main.c: the state of the CPU, and what it exchanges with the memory and the kernel. `none`
-- is an `abort`, a wait for a code that the kernel does not send, or a fault of the memory.
use sist_op_tp2c.Base.{
  ℕ, Bool, true, false, Option, none, some, List, [], ◌∷◌, ◌++◌, ◌>>=◌, ◌==◌, if◌then◌else◌,
}
use sist_op_tp2c.Utils.Mensajes.{codigo, operacion_confirmar, operacion_finalizar_proceso}
use sist_op_tp2c.Utils.CpuMemoria.{Contexto}
use sist_op_tp2c.Memoria.{
  RespuestaCpu, lee_memoria, escribe_memoria, actualizar_contexto, contexto, instruccion, dato,
  confirmada,
}
use sist_op_tp2c.Cpu.{obtener_registro, setear_registro, mmu, mmu_dir_log_dirfis}
use sist_op_tp2c.Cpu.Servicio.{ServicioMemoria}
use sist_op_tp2c.Cpu.Instrucciones.{PedidoKernel, p_operacion}

-- The globals, with the state of the memory, the codes that the kernel's socket still gives, and what
-- was sent to the kernel, in order.
pub record Cpu (s : ServicioMemoria) : Type 0 where
  pub registros : Contexto
  pub seg_fault : Bool
  pub memoria : s.Estado
  pub respuestas : List ℕ
  pub enviados : List PedidoKernel

-- The number in the answer to a read.
unfoldable pub dato_leido : RespuestaCpu → Option ℕ
dato_leido (contexto c) = none
dato_leido (instruccion i) = none
dato_leido (dato x) = some x
dato_leido confirmada = none

unfoldable pub confirma : RespuestaCpu → Bool
confirma (contexto c) = false
confirma (instruccion i) = false
confirma (dato x) = false
confirma confirmada = true

module _ {s : ServicioMemoria} where
  unfoldable pub enviar : PedidoKernel → Cpu s → Cpu s
  enviar p c = record c { enviados = c.enviados ++ p ∷ [] }

  unfoldable pub recibir : List ℕ → Cpu s → Option (ℕ × Cpu s)
  recibir [] c = none
  recibir (x ∷ xs) c = some (x, record c { respuestas = xs })

  unfoldable pub esperar_confirmacion : Cpu s → Option (Cpu s)
  esperar_confirmacion c =
      recibir c.respuestas c >>= λ r. if r.0 == codigo operacion_confirmar then some r.1 else none

  -- The answer of the memory is not looked at.
  unfoldable pub actualizar : Cpu s → Option (Cpu s)
  actualizar c =
      s.pedir (actualizar_contexto c.registros) c.memoria >>= λ r. some (record c { memoria = r.1 })

  unfoldable pub segmentation_fault : Cpu s → Option (Cpu s)
  segmentation_fault c = actualizar (record c { seg_fault = true }) >>= λ c1.
      some (enviar (p_operacion operacion_finalizar_proceso) c1)

  unfoldable pub lectura_memoria : ℕ → Cpu s → Option (ℕ × Cpu s)
  lectura_memoria dir c = do
    r ←
        s.pedir
          (lee_memoria (record {
            pid = c.registros.pid;
            tid = c.registros.tid;
            dir_fisica = dir;
            tamanio = 4;
          }))
          c.memoria
    x ← dato_leido r.0
    some (x, record c { memoria = r.1 })

  unfoldable pub read_mem : List ℕ → List ℕ → Cpu s → Option (Cpu s)
  read_mem registro1 registro2 c = do
    dir ← obtener_registro registro2 c.registros
    if mmu dir c.registros
        then (lectura_memoria (mmu_dir_log_dirfis dir c.registros) c >>= λ x.
            some (record x.1 { registros = setear_registro registro1 x.0 x.1.registros }))
        else segmentation_fault c

  unfoldable pub escritura_memoria : ℕ → ℕ → Cpu s → Option (Cpu s)
  escritura_memoria dir valor c = do
    r ←
        s.pedir
          (escribe_memoria (record {
            pid = c.registros.pid;
            tid = c.registros.tid;
            dir_fisica = dir;
            tamanio = 4;
            dato_a_escribir = valor;
          }))
          c.memoria
    if confirma r.0 then some (record c { memoria = r.1 }) else none

  unfoldable pub write_mem : List ℕ → List ℕ → Cpu s → Option (Cpu s)
  write_mem registro1 registro2 c = do
    dir ← obtener_registro registro1 c.registros
    if mmu dir c.registros
        then (obtener_registro registro2 c.registros >>= λ valor.
            escritura_memoria (mmu_dir_log_dirfis dir c.registros) valor c)
        else segmentation_fault c
