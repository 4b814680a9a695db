-- ===== src/Cpu/Instrucciones.antt =====
-- cpu/src/main.h and main.c: the instructions by their names, what the CPU sends to the kernel for
-- them, and the marks that an instruction leaves for the end of its cycle.
use sist_op_tp2c.Base.{ℕ, Bool, Option, none, some, List, [], ◌∷◌, if◌then◌else◌, iguales}
use sist_op_tp2c.Utils.Mensajes.{OpCode}
use sist_op_tp2c.Utils.KernelCpu.{
  DatosCrearHilo, DatosCrearProceso, DatosOperacionMutex, DatosOperacionIo,
}

pub data Instruccion : Type 0 where
  i_set i_read_mem i_write_mem i_sum i_sub i_jnz i_log i_dump_memory i_io i_process_create
        i_thread_create i_thread_join i_thread_cancel i_mutex_create i_mutex_lock i_mutex_unlock
        i_thread_exit i_process_exit :
      Instruccion

-- The names, in capital letters.
unfoldable pub nombre_instruccion : Instruccion → List ℕ
nombre_instruccion i_set = 83 ∷ 69 ∷ 84 ∷ []
nombre_instruccion i_read_mem = 82 ∷ 69 ∷ 65 ∷ 68 ∷ 95 ∷ 77 ∷ 69 ∷ 77 ∷ []
nombre_instruccion i_write_mem = 87 ∷ 82 ∷ 73 ∷ 84 ∷ 69 ∷ 95 ∷ 77 ∷ 69 ∷ 77 ∷ []
nombre_instruccion i_sum = 83 ∷ 85 ∷ 77 ∷ []
nombre_instruccion i_sub = 83 ∷ 85 ∷ 66 ∷ []
nombre_instruccion i_jnz = 74 ∷ 78 ∷ 90 ∷ []
nombre_instruccion i_log = 76 ∷ 79 ∷ 71 ∷ []
nombre_instruccion i_dump_memory = 68 ∷ 85 ∷ 77 ∷ 80 ∷ 95 ∷ 77 ∷ 69 ∷ 77 ∷ 79 ∷ 82 ∷ 89 ∷ []
nombre_instruccion i_io = 73 ∷ 79 ∷ []
nombre_instruccion i_process_create =
    80 ∷ 82 ∷ 79 ∷ 67 ∷ 69 ∷ 83 ∷ 83 ∷ 95 ∷ 67 ∷ 82 ∷ 69 ∷ 65 ∷ 84 ∷ 69 ∷ []
nombre_instruccion i_thread_create =
    84 ∷ 72 ∷ 82 ∷ 69 ∷ 65 ∷ 68 ∷ 95 ∷ 67 ∷ 82 ∷ 69 ∷ 65 ∷ 84 ∷ 69 ∷ []
nombre_instruccion i_thread_join = 84 ∷ 72 ∷ 82 ∷ 69 ∷ 65 ∷ 68 ∷ 95 ∷ 74 ∷ 79 ∷ 73 ∷ 78 ∷ []
nombre_instruccion i_thread_cancel =
    84 ∷ 72 ∷ 82 ∷ 69 ∷ 65 ∷ 68 ∷ 95 ∷ 67 ∷ 65 ∷ 78 ∷ 67 ∷ 69 ∷ 76 ∷ []
nombre_instruccion i_mutex_create = 77 ∷ 85 ∷ 84 ∷ 69 ∷ 88 ∷ 95 ∷ 67 ∷ 82 ∷ 69 ∷ 65 ∷ 84 ∷ 69 ∷ []
nombre_instruccion i_mutex_lock = 77 ∷ 85 ∷ 84 ∷ 69 ∷ 88 ∷ 95 ∷ 76 ∷ 79 ∷ 67 ∷ 75 ∷ []
nombre_instruccion i_mutex_unlock = 77 ∷ 85 ∷ 84 ∷ 69 ∷ 88 ∷ 95 ∷ 85 ∷ 78 ∷ 76 ∷ 79 ∷ 67 ∷ 75 ∷ []
nombre_instruccion i_thread_exit = 84 ∷ 72 ∷ 82 ∷ 69 ∷ 65 ∷ 68 ∷ 95 ∷ 69 ∷ 88 ∷ 73 ∷ 84 ∷ []
nombre_instruccion i_process_exit = 80 ∷ 82 ∷ 79 ∷ 67 ∷ 69 ∷ 83 ∷ 83 ∷ 95 ∷ 69 ∷ 88 ∷ 73 ∷ 84 ∷ []

-- The chain of comparisons of the first word.
unfoldable pub buscar_instruccion : List Instruccion → List ℕ → Option Instruccion
buscar_instruccion [] nombre = none
buscar_instruccion (i ∷ is) nombre =
    let resto = buscar_instruccion is nombre in
    if iguales nombre (nombre_instruccion i) then some i else resto

unfoldable pub instruccion_de : List ℕ → Option Instruccion
instruccion_de = buscar_instruccion (
    i_set ∷ i_sum ∷ i_sub ∷ i_read_mem ∷ i_write_mem ∷ i_jnz ∷ i_log ∷ i_mutex_create ∷ i_mutex_lock
    ∷ i_mutex_unlock ∷ i_dump_memory ∷ i_io ∷ i_process_create ∷ i_thread_create ∷ i_thread_cancel
    ∷ i_thread_join ∷ i_thread_exit ∷ i_process_exit ∷ [])

-- What the CPU sends to the kernel.
pub data PedidoKernel : Type 0 where
  p_crear_proceso : DatosCrearProceso → PedidoKernel
  p_crear_hilo : DatosCrearHilo → PedidoKernel
  p_mutex : OpCode → DatosOperacionMutex → PedidoKernel
  p_hilo : OpCode → ℕ → PedidoKernel
  p_io : DatosOperacionIo → PedidoKernel
  p_operacion : OpCode → PedidoKernel

-- `siguiente_ciclo`, `omitir_interrupcion` and `debe_actualizar_contexto`
pub record Marcas : Type 0 where
  pub siguiente_ciclo : Bool
  pub omitir_interrupcion : Bool
  pub debe_actualizar_contexto : Bool
