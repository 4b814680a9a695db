-- ===== src/Utils/CpuMemoria.antt =====
-- utils/src/utils/comunicacion_cpu_memoria.c: the messages between the CPU and the memory. The
-- registers `PC`, `AX`, ... are the fields `pc`, `ax`, ... here.
pub mod IdaYVuelta
use sist_op_tp2c.Base.{
  ℕ, ◌+◌, ◌*◌, ◌<◌, ◌≡◌, refl, Option, some, List, [], ◌∷◌, ◌++◌, ◌>>=◌, arith, u32_mod, length,
  length-append, append_assoc, append-nil,
}
use sist_op_tp2c.Utils.Buffer.{
  Malloc, Buffer, bytes32, en_memoria, buffer_create, buffer_add_uint32, buffer_read_uint32,
  buffer_add_string, buffer_read_string,
}

pub record SolicitarContexto : Type 0 where
  pub tid : ℕ
  pub pid : ℕ

pub seralizar_datos_solicitar_contexto : Malloc → SolicitarContexto → Option Buffer
seralizar_datos_solicitar_contexto m d = do
  b0 ← buffer_add_uint32 (buffer_create m (2 * 4)) d.pid
  buffer_add_uint32 b0 d.tid

unfoldable pub deserializar_datos_solicitar_contexto : Buffer → Option SolicitarContexto
deserializar_datos_solicitar_contexto b = do
  x_pid ← buffer_read_uint32 b
  x_tid ← buffer_read_uint32 x_pid.1
  some (record { tid = x_tid.0; pid = x_pid.0 })

pub record Contexto : Type 0 where
  pub pid : ℕ
  pub tid : ℕ
  pub pc : ℕ
  pub ax : ℕ
  pub bx : ℕ
  pub cx : ℕ
  pub dx : ℕ
  pub ex : ℕ
  pub fx : ℕ
  pub gx : ℕ
  pub hx : ℕ
  pub base : ℕ
  pub limite : ℕ

pub serializar_datos_contexto : Malloc → Contexto → Option Buffer
serializar_datos_contexto m d = do
  b0 ← buffer_add_uint32 (buffer_create m (13 * 4)) d.pid
  b1 ← buffer_add_uint32 b0 d.tid
  b2 ← buffer_add_uint32 b1 d.pc
  b3 ← buffer_add_uint32 b2 d.ax
  b4 ← buffer_add_uint32 b3 d.bx
  b5 ← buffer_add_uint32 b4 d.cx
  b6 ← buffer_add_uint32 b5 d.dx
  b7 ← buffer_add_uint32 b6 d.ex
  b8 ← buffer_add_uint32 b7 d.fx
  b9 ← buffer_add_uint32 b8 d.gx
  b10 ← buffer_add_uint32 b9 d.hx
  b11 ← buffer_add_uint32 b10 d.base
  buffer_add_uint32 b11 d.limite

pub deserializar_datos_contexto : Buffer → Option Contexto
deserializar_datos_contexto b = do
  x_pid ← buffer_read_uint32 b
  x_tid ← buffer_read_uint32 x_pid.1
  x_pc ← buffer_read_uint32 x_tid.1
  x_ax ← buffer_read_uint32 x_pc.1
  x_bx ← buffer_read_uint32 x_ax.1
  x_cx ← buffer_read_uint32 x_bx.1
  x_dx ← buffer_read_uint32 x_cx.1
  x_ex ← buffer_read_uint32 x_dx.1
  x_fx ← buffer_read_uint32 x_ex.1
  x_gx ← buffer_read_uint32 x_fx.1
  x_hx ← buffer_read_uint32 x_gx.1
  x_base ← buffer_read_uint32 x_hx.1
  x_limite ← buffer_read_uint32 x_base.1
  some (record {
    pid = x_pid.0;
    tid = x_tid.0;
    pc = x_pc.0;
    ax = x_ax.0;
    bx = x_bx.0;
    cx = x_cx.0;
    dx = x_dx.0;
    ex = x_ex.0;
    fx = x_fx.0;
    gx = x_gx.0;
    hx = x_hx.0;
    base = x_base.0;
    limite = x_limite.0;
  })

pub record DatosObtenerInstruccion : Type 0 where
  pub pid : ℕ
  pub tid : ℕ
  pub pc : ℕ

pub serializar_datos_solicitar_instruccion : Malloc → DatosObtenerInstruccion → Option Buffer
serializar_datos_solicitar_instruccion m d = do
  b0 ← buffer_add_uint32 (buffer_create m (3 * 4)) d.pid
  b1 ← buffer_add_uint32 b0 d.tid
  buffer_add_uint32 b1 d.pc

pub deserializar_datos_solicitar_instruccion : Buffer → Option DatosObtenerInstruccion
deserializar_datos_solicitar_instruccion b = do
  x_pid ← buffer_read_uint32 b
  x_tid ← buffer_read_uint32 x_pid.1
  x_pc ← buffer_read_uint32 x_tid.1
  some (record { pid = x_pid.0; tid = x_tid.0; pc = x_pc.0 })

pub record DatosDevolverInstruccion : Type 0 where
  pub instruccion : List ℕ

pub serializar_datos_devolver_instruccion : Malloc → DatosDevolverInstruccion → Option Buffer
serializar_datos_devolver_instruccion m d =
    buffer_add_string (buffer_create m ((length d.instruccion + 1) + 4)) (length d.instruccion + 1)
      (en_memoria d.instruccion)

pub deserializar_datos_devolver_instruccion : Buffer → Option DatosDevolverInstruccion
deserializar_datos_devolver_instruccion b = do
  x_instruccion ← buffer_read_string b
  some (record { instruccion = x_instruccion.0 })

pub record DatosLeerMemoria : Type 0 where
  pub pid : ℕ
  pub tid : ℕ
  pub dir_fisica : ℕ
  pub tamanio : ℕ

pub serializar_datos_leer_memoria : Malloc → DatosLeerMemoria → Option Buffer
serializar_datos_leer_memoria m d = do
  b0 ← buffer_add_uint32 (buffer_create m (4 * 4)) d.pid
  b1 ← buffer_add_uint32 b0 d.tid
  b2 ← buffer_add_uint32 b1 d.tamanio
  buffer_add_uint32 b2 d.dir_fisica

pub deserializar_datos_leer_memoria : Buffer → Option DatosLeerMemoria
deserializar_datos_leer_memoria b = do
  x_pid ← buffer_read_uint32 b
  x_tid ← buffer_read_uint32 x_pid.1
  x_tamanio ← buffer_read_uint32 x_tid.1
  x_dir_fisica ← buffer_read_uint32 x_tamanio.1
  some (record { pid = x_pid.0; tid = x_tid.0; dir_fisica = x_dir_fisica.0; tamanio = x_tamanio.0 })

pub record DatosEscribirMemoria : Type 0 where
  pub pid : ℕ
  pub tid : ℕ
  pub dir_fisica : ℕ
  pub tamanio : ℕ
  pub dato_a_escribir : ℕ

pub serializar_datos_escribir_memoria : Malloc → DatosEscribirMemoria → Option Buffer
serializar_datos_escribir_memoria m d = do
  b0 ← buffer_add_uint32 (buffer_create m (5 * 4)) d.pid
  b1 ← buffer_add_uint32 b0 d.tid
  b2 ← buffer_add_uint32 b1 d.tamanio
  b3 ← buffer_add_uint32 b2 d.dir_fisica
  buffer_add_uint32 b3 d.dato_a_escribir

pub deserializar_datos_escribir_memoria : Buffer → Option DatosEscribirMemoria
deserializar_datos_escribir_memoria b = do
  x_pid ← buffer_read_uint32 b
  x_tid ← buffer_read_uint32 x_pid.1
  x_tamanio ← buffer_read_uint32 x_tid.1
  x_dir_fisica ← buffer_read_uint32 x_tamanio.1
  x_dato_a_escribir ← buffer_read_uint32 x_dir_fisica.1
  some (record {
    pid = x_pid.0;
    tid = x_tid.0;
    dir_fisica = x_dir_fisica.0;
    tamanio = x_tamanio.0;
    dato_a_escribir = x_dato_a_escribir.0;
  })

-- The same reads, into a block that `malloc` gives.
unfoldable pub deserializar_datos_contexto_memoria : Buffer → Option Contexto
deserializar_datos_contexto_memoria b = do
  x_pid ← buffer_read_uint32 b
  x_tid ← buffer_read_uint32 x_pid.1
  x_pc ← buffer_read_uint32 x_tid.1
  x_ax ← buffer_read_uint32 x_pc.1
  x_bx ← buffer_read_uint32 x_ax.1
  x_cx ← buffer_read_uint32 x_bx.1
  x_dx ← buffer_read_uint32 x_cx.1
  x_ex ← buffer_read_uint32 x_dx.1
  x_fx ← buffer_read_uint32 x_ex.1
  x_gx ← buffer_read_uint32 x_fx.1
  x_hx ← buffer_read_uint32 x_gx.1
  x_base ← buffer_read_uint32 x_hx.1
  x_limite ← buffer_read_uint32 x_base.1
  some (record {
    pid = x_pid.0;
    tid = x_tid.0;
    pc = x_pc.0;
    ax = x_ax.0;
    bx = x_bx.0;
    cx = x_cx.0;
    dx = x_dx.0;
    ex = x_ex.0;
    fx = x_fx.0;
    gx = x_gx.0;
    hx = x_hx.0;
    base = x_base.0;
    limite = x_limite.0;
  })
