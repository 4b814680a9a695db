-- ===== src/Pruebas/EnCpu.antt =====
-- The theorems of the CPU at a context whose partition has 16 bytes.
use sist_op_tp2c.Base.{ℕ, List, ◌≤◌, ◌≡◌, ◌↔◌, refl, true, some, [], ◌∷◌, arith}
use sist_op_tp2c.Utils.CpuMemoria.{Contexto}
use sist_op_tp2c.Cpu.{r_ax, r_bx, nombre_de, buscar_registro, registro_de, mmu, mmu_dir_log_dirfis}
use sist_op_tp2c.Cpu.Aritmetica.{mmu_lem}
use sist_op_tp2c.Cpu.Maquina.{Cpu}
use sist_op_tp2c.Memoria.Servicio.{servicio_memoria}
use sist_op_tp2c.Pruebas.Datos.{cpu}

abbrev contexto : Contexto
contexto = record {
  pid = 1;
  tid = 0;
  pc = 3;
  ax = 4294967295;
  bx = 5;
  cx = 0;
  dx = 0;
  ex = 0;
  fx = 0;
  gx = 0;
  hx = 0;
  base = 32;
  limite = 48;
}

ax : registro_de (65 ∷ 88 ∷ []) ≡ some r_ax
unfolding registro_de buscar_registro nombre_de
ax = refl

bx : registro_de (66 ∷ 88 ∷ []) ≡ some r_bx
unfolding registro_de buscar_registro nombre_de
bx = refl

-- "SUM AX BX" and "SUB AX BX", of which the first wraps.
abbrev palabras : List (List ℕ)
palabras = (83 ∷ 85 ∷ 77 ∷ []) ∷ (65 ∷ 88 ∷ []) ∷ (66 ∷ 88 ∷ []) ∷ []

abbrev cpu_prueba : Cpu servicio_memoria
cpu_prueba = record (cpu 0) { registros = contexto }

mmu_example : ((mmu 8 contexto ≡ true) ↔ (8 ≤ 16)) × (mmu_dir_log_dirfis 8 contexto ≡ 40)
mmu_example = mmu_lem 16 8 contexto refl (omega arith)
