-- ===== src/Cpu/Servicio.antt =====
-- What the CPU uses of the memory module: an answer to each request, and contexts that stay stored.
use sist_op_tp2c.Base.{ℕ, ◌≡◌, Option, some}
use sist_op_tp2c.Utils.CpuMemoria.{Contexto}
use sist_op_tp2c.Memoria.{
  PeticionCpu, RespuestaCpu, devolver_contexto, actualizar_contexto, contexto,
}

pub record ServicioMemoria : Type 1 where
  pub Estado : Type 0
  pub pedir : PeticionCpu → Estado → Option (RespuestaCpu × Estado)
  pub guarda :
      (c : Contexto) (m m' : Estado) (r : RespuestaCpu)
      → pedir (actualizar_contexto c) m ≡ some (r, m')
      → (base : ℕ) × (limite : ℕ) × (pedir
            (devolver_contexto (record { tid = c.tid; pid = c.pid }))
            m'
          ≡ some (contexto (record c { base = base; limite = limite }), m'))
