-- ===== src/Utils/KernelMemoria.antt =====
-- utils/src/utils/comunicacion_kernel_memoria.c: the messages between the kernel and the memory.
pub mod IdaYVuelta
use sist_op_tp2c.Base.{
  ℕ, ◌+◌, ◌*◌, ◌<◌, ◌≡◌, refl, Option, some, List, [], ◌∷◌, ◌++◌, ◌>>=◌, arith, u32_mod, length,
  length-append, append_assoc, append-nil,
}
use sist_op_tp2c.Utils.Buffer.{
  Malloc, Buffer, bytes32, en_memoria, buffer_create, buffer_add_uint32, buffer_read_uint32,
  buffer_add_string, buffer_read_string,
}

pub record DatosInicializacionHilo : Type 0 where
  pub pid : ℕ
  pub tid : ℕ
  pub archivo_pseudocodigo : List ℕ

pub serializar_datos_inicializacion_hilo : Malloc → DatosInicializacionHilo → Option Buffer
serializar_datos_inicializacion_hilo m d = do
  b0 ← buffer_add_uint32 (buffer_create m (3 * 4 + (length d.archivo_pseudocodigo + 1))) d.pid
  b1 ← buffer_add_uint32 b0 d.tid
  buffer_add_string b1 (length d.archivo_pseudocodigo + 1) (en_memoria d.archivo_pseudocodigo)

pub deserializar_datos_inicializacion_hilo : Buffer → Option DatosInicializacionHilo
deserializar_datos_inicializacion_hilo b = do
  x_pid ← buffer_read_uint32 b
  x_tid ← buffer_read_uint32 x_pid.1
  x_archivo_pseudocodigo ← buffer_read_string x_tid.1
  some (record { pid = x_pid.0; tid = x_tid.0; archivo_pseudocodigo = x_archivo_pseudocodigo.0 })

pub record DatosFinalizacionHilo : Type 0 where
  pub pid : ℕ
  pub tid : ℕ

pub serializar_datos_finalizacion_hilo : Malloc → DatosFinalizacionHilo → Option Buffer
serializar_datos_finalizacion_hilo m d = do
  b0 ← buffer_add_uint32 (buffer_create m (2 * 4)) d.pid
  buffer_add_uint32 b0 d.tid

pub deserializar_datos_finalizacion_hilo : Buffer → Option DatosFinalizacionHilo
deserializar_datos_finalizacion_hilo b = do
  x_pid ← buffer_read_uint32 b
  x_tid ← buffer_read_uint32 x_pid.1
  some (record { pid = x_pid.0; tid = x_tid.0 })

pub record DatosInicializacionProceso : Type 0 where
  pub pid : ℕ
  pub tamanio : ℕ

pub serializar_datos_inicializacion_proceso : Malloc → DatosInicializacionProceso → Option Buffer
serializar_datos_inicializacion_proceso m d = do
  b0 ← buffer_add_uint32 (buffer_create m (2 * 4)) d.pid
  buffer_add_uint32 b0 d.tamanio

pub deserializar_datos_inicializacion_proceso : Buffer → Option DatosInicializacionProceso
deserializar_datos_inicializacion_proceso b = do
  x_pid ← buffer_read_uint32 b
  x_tamanio ← buffer_read_uint32 x_pid.1
  some (record { pid = x_pid.0; tamanio = x_tamanio.0 })

pub record DatosFinalizacionProceso : Type 0 where
  pub pid : ℕ

pub serializar_datos_finalizacion_proceso : Malloc → DatosFinalizacionProceso → Option Buffer
serializar_datos_finalizacion_proceso m d = buffer_add_uint32 (buffer_create m 4) d.pid

pub deserializar_datos_finalizacion_proceso : Buffer → Option DatosFinalizacionProceso
deserializar_datos_finalizacion_proceso b = do
  x_pid ← buffer_read_uint32 b
  some (record { pid = x_pid.0 })

pub record DatosDumpMemory : Type 0 where
  pub pid : ℕ
  pub tid : ℕ

pub serializar_datos_dump_memory : Malloc → DatosDumpMemory → Option Buffer
serializar_datos_dump_memory m d = do
  b0 ← buffer_add_uint32 (buffer_create m (2 * 4)) d.pid
  buffer_add_uint32 b0 d.tid

pub deserializar_datos_dump_memory : Buffer → Option DatosDumpMemory
deserializar_datos_dump_memory b = do
  x_pid ← buffer_read_uint32 b
  x_tid ← buffer_read_uint32 x_pid.1
  some (record { pid = x_pid.0; tid = x_tid.0 })
