-- ===== src/Cpu.antt =====
-- cpu/src/main.c: the registers by their names, the arithmetic, the jump, and the translation of
-- addresses. `none` is the end of `obtener_registro` without a `return`, at a name of no register.
pub mod Aritmetica
pub mod Servicio
pub mod Instrucciones
pub mod Maquina
pub mod Ejecucion
pub mod Ciclo
pub mod Salidas
pub mod Cambio
pub mod Termina
pub mod Falta
pub mod Conexion
pub mod Envios
use sist_op_tp2c.Base.{
  ℕ, zero, suc, ◌+◌, Bool, true, false, Option, none, some, List, [], ◌∷◌, ◌>>=◌, leb, ◌==◌,
  if◌then◌else◌, iguales, add32, sub32,
}
use sist_op_tp2c.Utils.CpuMemoria.{Contexto, DatosEscribirMemoria}

pub data Registro : Type 0 where
  r_pc r_ax r_bx r_cx r_dx r_ex r_fx r_gx r_hx r_base r_limite : Registro

-- "PC", "AX", ..., "HX", "Base" and "Limite".
unfoldable pub nombre_de : Registro → List ℕ
nombre_de r_pc = 80 ∷ 67 ∷ []
nombre_de r_ax = 65 ∷ 88 ∷ []
nombre_de r_bx = 66 ∷ 88 ∷ []
nombre_de r_cx = 67 ∷ 88 ∷ []
nombre_de r_dx = 68 ∷ 88 ∷ []
nombre_de r_ex = 69 ∷ 88 ∷ []
nombre_de r_fx = 70 ∷ 88 ∷ []
nombre_de r_gx = 71 ∷ 88 ∷ []
nombre_de r_hx = 72 ∷ 88 ∷ []
nombre_de r_base = 66 ∷ 97 ∷ 115 ∷ 101 ∷ []
nombre_de r_limite = 76 ∷ 105 ∷ 109 ∷ 105 ∷ 116 ∷ 101 ∷ []

-- The chain of comparisons.
unfoldable pub buscar_registro : List Registro → List ℕ → Option Registro
buscar_registro [] nombre = none
buscar_registro (r ∷ rs) nombre =
    let resto = buscar_registro rs nombre in if iguales nombre (nombre_de r) then some r else resto

unfoldable pub registro_de : List ℕ → Option Registro
registro_de =
    buscar_registro
      (r_pc ∷ r_ax ∷ r_bx ∷ r_cx ∷ r_dx ∷ r_ex ∷ r_fx ∷ r_gx ∷ r_hx ∷ r_base ∷ r_limite ∷ [])

unfoldable pub leer : Registro → Contexto → ℕ
leer r_pc c = c.pc
leer r_ax c = c.ax
leer r_bx c = c.bx
leer r_cx c = c.cx
leer r_dx c = c.dx
leer r_ex c = c.ex
leer r_fx c = c.fx
leer r_gx c = c.gx
leer r_hx c = c.hx
leer r_base c = c.base
leer r_limite c = c.limite

unfoldable pub escribir : Registro → ℕ → Contexto → Contexto
escribir r_pc v c = record c { pc = v }
escribir r_ax v c = record c { ax = v }
escribir r_bx v c = record c { bx = v }
escribir r_cx v c = record c { cx = v }
escribir r_dx v c = record c { dx = v }
escribir r_ex v c = record c { ex = v }
escribir r_fx v c = record c { fx = v }
escribir r_gx v c = record c { gx = v }
escribir r_hx v c = record c { hx = v }
escribir r_base v c = record c { base = v }
escribir r_limite v c = record c { limite = v }

unfoldable pub obtener_registro : List ℕ → Contexto → Option ℕ
obtener_registro nombre c = registro_de nombre >>= λ r. some (leer r c)

-- A name of no register changes nothing.
unfoldable pub escribir_si : Option Registro → ℕ → Contexto → Contexto
escribir_si none v c = c
escribir_si (some r) v c = escribir r v c

unfoldable pub setear_registro : List ℕ → ℕ → Contexto → Contexto
setear_registro nombre v c = escribir_si (registro_de nombre) v c

unfoldable pub sum_registro : List ℕ → List ℕ → Contexto → Option Contexto
sum_registro registro1 registro2 c = do
  v1 ← obtener_registro registro1 c
  v2 ← obtener_registro registro2 c
  some (setear_registro registro1 (add32 v1 v2) c)

unfoldable pub sub_registro : List ℕ → List ℕ → Contexto → Option Contexto
sub_registro registro1 registro2 c = do
  v1 ← obtener_registro registro1 c
  v2 ← obtener_registro registro2 c
  some (setear_registro registro1 (sub32 v1 v2) c)

unfoldable pub incrementar_pc : Contexto → Contexto
incrementar_pc c = record c { pc = add32 c.pc 1 }

-- `valor` is the result of `atoi`, as a `uint32_t`.
unfoldable pub jnz_pc : List ℕ → ℕ → Contexto → Option Contexto
jnz_pc registro valor c = obtener_registro registro c >>= λ v.
    some (if v == 0 then incrementar_pc c else record c { pc = valor })

unfoldable pub mmu : ℕ → Contexto → Bool
mmu dir_logica c = leb (add32 dir_logica c.base) c.limite

unfoldable pub mmu_dir_log_dirfis : ℕ → Contexto → ℕ
mmu_dir_log_dirfis dir_logica c = add32 dir_logica c.base
