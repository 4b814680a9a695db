-- ===== src/Utils/KernelCpu.antt =====
-- utils/src/utils/comunicacion_kernel_cpu.c: the messages between the kernel and the CPU.
pub mod IdaYVuelta
use sist_op_tp2c.Base.{ℕ, ◌+◌, ◌*◌, Option, some, List, ◌>>=◌, length}
use sist_op_tp2c.Utils.Buffer.{
  Malloc, Buffer, en_memoria, buffer_create, buffer_add_uint32, buffer_read_uint32,
  buffer_add_string, buffer_read_string,
}

-- `t_hilo_a_cpu`
pub record HiloACpu : Type 0 where
  pub tid : ℕ
  pub pid : ℕ

pub record DatosCrearHilo : Type 0 where
  pub archivo_pseudocodigo : List ℕ
  pub prioridad : ℕ

pub record DatosCrearProceso : Type 0 where
  pub archivo_pseudocodigo : List ℕ
  pub tamanio_proceso : ℕ
  pub prioridad : ℕ

pub record DatosOperacionMutex : Type 0 where
  pub recurso : List ℕ

pub record DatosOperacionHilo : Type 0 where
  pub tid : ℕ

pub record DatosOperacionIo : Type 0 where
  pub tiempo : ℕ

pub serializar_hilo_a_cpu : Malloc → HiloACpu → Option Buffer
serializar_hilo_a_cpu m hilo = do
  b ← buffer_add_uint32 (buffer_create m (2 * 4)) hilo.pid
  buffer_add_uint32 b hilo.tid

pub deserializar_hilo_a_cpu : Buffer → Option HiloACpu
deserializar_hilo_a_cpu b = do
  pid ← buffer_read_uint32 b
  tid ← buffer_read_uint32 pid.1
  some (record { tid = tid.0; pid = pid.0 })

pub serializar_datos_crear_hilo : Malloc → DatosCrearHilo → Option Buffer
serializar_datos_crear_hilo m d = do
  b ←
      buffer_add_string (buffer_create m (2 * 4 + (length d.archivo_pseudocodigo + 1)))
        (length d.archivo_pseudocodigo + 1) (en_memoria d.archivo_pseudocodigo)
  buffer_add_uint32 b d.prioridad

pub deserializar_datos_crear_hilo : Buffer → Option DatosCrearHilo
deserializar_datos_crear_hilo b = do
  archivo ← buffer_read_string b
  prioridad ← buffer_read_uint32 archivo.1
  some (record { archivo_pseudocodigo = archivo.0; prioridad = prioridad.0 })

pub serializar_datos_crear_proceso : Malloc → DatosCrearProceso → Option Buffer
serializar_datos_crear_proceso m d = do
  b ←
      buffer_add_string (buffer_create m (3 * 4 + (length d.archivo_pseudocodigo + 1)))
        (length d.archivo_pseudocodigo + 1) (en_memoria d.archivo_pseudocodigo)
  b' ← buffer_add_uint32 b d.tamanio_proceso
  buffer_add_uint32 b' d.prioridad

pub deserializar_datos_crear_proceso : Buffer → Option DatosCrearProceso
deserializar_datos_crear_proceso b = do
  archivo ← buffer_read_string b
  tamanio ← buffer_read_uint32 archivo.1
  prioridad ← buffer_read_uint32 tamanio.1
  some (record {
    archivo_pseudocodigo = archivo.0;
    tamanio_proceso = tamanio.0;
    prioridad = prioridad.0;
  })

pub serializar_datos_operacion_mutex : Malloc → DatosOperacionMutex → Option Buffer
serializar_datos_operacion_mutex m d =
    buffer_add_string (buffer_create m ((length d.recurso + 1) + 4)) (length d.recurso + 1)
      (en_memoria d.recurso)

pub deserializar_datos_operacion_mutex : Buffer → Option DatosOperacionMutex
deserializar_datos_operacion_mutex b = do
  recurso ← buffer_read_string b
  some (record { recurso = recurso.0 })

-- The function takes the thread id and not the structure.
unfoldable pub serializar_datos_operacion_hilo : Malloc → ℕ → Option Buffer
serializar_datos_operacion_hilo m tid = buffer_add_uint32 (buffer_create m 4) tid

unfoldable pub deserializar_datos_operacion_hilo : Buffer → Option DatosOperacionHilo
deserializar_datos_operacion_hilo b = do tid ← buffer_read_uint32 b; some (record { tid = tid.0 })

pub serializar_datos_operacion_io : Malloc → DatosOperacionIo → Option Buffer
serializar_datos_operacion_io m d = buffer_add_uint32 (buffer_create m 4) d.tiempo

pub deserializar_datos_operacion_io : Buffer → Option DatosOperacionIo
deserializar_datos_operacion_io b = do
  tiempo ← buffer_read_uint32 b
  some (record { tiempo = tiempo.0 })
