-- ===== src/Cpu/Aritmetica.antt =====
-- What the registers hold after SUM and SUB, and which addresses the check accepts.
use sist_op_tp2c.Base.{ℕ, ◌+◌, ◌≤◌, ◌<◌, ◌≡◌, ◌↔◌, true, ◌%◌, add32, sub32, u32_mod, arith}
use sist_op_tp2c.Cpu.Instrucciones.{Instruccion, i_sum, i_sub}
use sist_op_tp2c.Cpu.Maquina.{Cpu}
use sist_op_tp2c.Utils.CpuMemoria.{Contexto}
use sist_op_tp2c.Cpu.{Registro, leer, escribir, mmu, mmu_dir_log_dirfis}

pub leer-escribir_mismo : (r : Registro) (v : ℕ) (c : Contexto) → leer r (escribir r v c) ≡ v
unfolding leer escribir
leer-escribir_mismo r v c = ground arith

-- What SUM and SUB are to leave in their first register, of the values of both.
pub data Operador : Type 0 where
  suma resta : Operador

abbrev pub instruccion : Operador → Instruccion
instruccion suma = i_sum
instruccion resta = i_sub

abbrev pub Calculado : Operador → ℕ → ℕ → ℕ → Type 0
Calculado suma a b v = v ≡ (a + b) % u32_mod
Calculado resta a b v = (v < u32_mod) × ((v + b) % u32_mod ≡ a)

calculo : Operador → ℕ → ℕ → ℕ
calculo suma a b = add32 a b
calculo resta a b = sub32 a b

-- For a partition of `t` bytes from `base` to `limite`, where `limite` is `base` + `t` as the memory
-- sends it, and a logical address whose sum with `base` is a `uint32_t`: the check accepts the address
-- if and only if it is at most `t`, and then it is translated to `base` plus the address.
pub mmu_lem :
    (t dir : ℕ) (c : Contexto)
    → c.limite ≡ c.base + t
    → dir + c.base < u32_mod
    → ((mmu dir c ≡ true) ↔ (dir ≤ t)) × (mmu_dir_log_dirfis dir c ≡ c.base + dir)
unfolding mmu mmu_dir_log_dirfis
mmu_lem t dir c e h =
    let suma : add32 dir c.base ≡ c.base + dir = omega arith in
    ((λ m. ground arith, λ m. ground arith), suma)
