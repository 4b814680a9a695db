-- ===== src/Utils/KernelMemoria/IdaYVuelta.antt =====
-- Each message between the kernel and the memory is read back as it was sent.
use sist_op_tp2c.Base.{
  ◌+◌, ◌<◌, ◌≡◌, some, refl, [], ◌∷◌, ◌++◌, arith, u32_mod, length, length-append, append_assoc,
  append-nil,
}
use sist_op_tp2c.Utils.Buffer.{Malloc, Buffer, bytes32, en_memoria}
use sist_op_tp2c.Utils.Buffer.Escritura.{buffer_create-Escrito, uint32-Deja, sigue32, string-Deja}
use sist_op_tp2c.Utils.Buffer.Lectura.{SinNul, lee32, lee_string}
use sist_op_tp2c.Utils.Buffer.Vuelta.{Vuelve, vuelve, Vuelve-como}
use sist_op_tp2c.Utils.KernelMemoria.{
  DatosInicializacionHilo, serializar_datos_inicializacion_hilo,
  deserializar_datos_inicializacion_hilo, DatosFinalizacionHilo, serializar_datos_finalizacion_hilo,
  deserializar_datos_finalizacion_hilo, DatosInicializacionProceso,
  serializar_datos_inicializacion_proceso, deserializar_datos_inicializacion_proceso,
  DatosFinalizacionProceso, serializar_datos_finalizacion_proceso,
  deserializar_datos_finalizacion_proceso, DatosDumpMemory, serializar_datos_dump_memory,
  deserializar_datos_dump_memory,
}

-- `DatosInicializacionHilo` is read back as it was sent, if its numbers are `uint32_t`, its string has no
-- NUL inside, and the buffer is shorter than 2 ^ 32 bytes.
pub inicializacion_hilo-Vuelve :
    (m : Malloc) (d : DatosInicializacionHilo)
    → length d.archivo_pseudocodigo + 13 < u32_mod
    → SinNul d.archivo_pseudocodigo
    → d.pid < u32_mod
    → d.tid < u32_mod
    → Vuelve
        (12 + (length d.archivo_pseudocodigo + 1))
        (serializar_datos_inicializacion_hilo m d)
        deserializar_datos_inicializacion_hilo
        d
unfolding serializar_datos_inicializacion_hilo deserializar_datos_inicializacion_hilo
inicializacion_hilo-Vuelve m d corto sin h_pid h_tid =
    let s = d.archivo_pseudocodigo in
    let n = 12 + (length s + 1) in
    let mide = length-append s (0 ∷ []) in
    Vuelve-como n (((0 + 4) + 4) + 4 + length (en_memoria s))
      (((([] ++ bytes32 d.pid) ++ bytes32 d.tid) ++ bytes32 (length s + 1)) ++ en_memoria s)
      (bytes32 d.pid ++ (bytes32 d.tid ++ (bytes32 (length s + 1) ++ (en_memoria s ++ []))))
      deserializar_datos_inicializacion_hilo d (omega (arith, mide)) (omega arith)
      (simp (append_assoc, append-nil))
      (sigue32 n 0 d.pid (omega arith) (omega (arith, mide)) (buffer_create-Escrito m n) λ b0 e0.
        sigue32 n (0 + 4) d.tid (omega arith) (omega (arith, mide)) e0
          λ b1 e1. string-Deja n ((0 + 4) + 4) _ b1 s (omega arith) (omega (arith, mide)) e1)
      (λ b l.
        lee32 d.pid (bytes32 d.tid ++ (bytes32 (length s + 1) ++ (en_memoria s ++ []))) _ h_pid l
          λ b0 l0.
            lee32 d.tid (bytes32 (length s + 1) ++ (en_memoria s ++ [])) _ h_tid l0
              λ b1 l1. lee_string s ([]) _ (omega arith) sin l1 λ b2 l2. refl)

-- `DatosFinalizacionHilo` is written to a full buffer, of 8 bytes,
-- and read back as it was sent, if its numbers are `uint32_t`.
pub finalizacion_hilo-Vuelve :
    (m : Malloc) (d : DatosFinalizacionHilo)
    → d.pid < u32_mod
    → d.tid < u32_mod
    → Vuelve 8 (serializar_datos_finalizacion_hilo m d) deserializar_datos_finalizacion_hilo d
unfolding serializar_datos_finalizacion_hilo deserializar_datos_finalizacion_hilo
finalizacion_hilo-Vuelve m d h_pid h_tid =
    vuelve 8 8 (bytes32 d.pid ++ (bytes32 d.tid)) deserializar_datos_finalizacion_hilo d refl
      (omega arith)
      (sigue32 8 0 d.pid (omega arith) (omega arith) (buffer_create-Escrito m 8)
        λ b0 e0. uint32-Deja 8 4 d.tid (omega arith) (omega arith) e0)
      (λ b l.
        lee32 d.pid (bytes32 d.tid) _ h_pid l λ b0 l0. lee32 d.tid ([]) _ h_tid l0 λ b1 l1. refl)

-- `DatosInicializacionProceso` is written to a full buffer, of 8 bytes,
-- and read back as it was sent, if its numbers are `uint32_t`.
pub inicializacion_proceso-Vuelve :
    (m : Malloc) (d : DatosInicializacionProceso)
    → d.pid < u32_mod
    → d.tamanio < u32_mod
    → Vuelve 8
        (serializar_datos_inicializacion_proceso m d)
        deserializar_datos_inicializacion_proceso
        d
unfolding serializar_datos_inicializacion_proceso deserializar_datos_inicializacion_proceso
inicializacion_proceso-Vuelve m d h_pid h_tamanio =
    vuelve 8 8 (bytes32 d.pid ++ (bytes32 d.tamanio)) deserializar_datos_inicializacion_proceso d
      refl (omega arith)
      (sigue32 8 0 d.pid (omega arith) (omega arith) (buffer_create-Escrito m 8)
        λ b0 e0. uint32-Deja 8 4 d.tamanio (omega arith) (omega arith) e0)
      (λ b l.
        lee32 d.pid (bytes32 d.tamanio) _ h_pid l
          λ b0 l0. lee32 d.tamanio ([]) _ h_tamanio l0 λ b1 l1. refl)

-- `DatosFinalizacionProceso` is written to a full buffer, of 4 bytes,
-- and read back as it was sent, if its numbers are `uint32_t`.
pub finalizacion_proceso-Vuelve :
    (m : Malloc) (d : DatosFinalizacionProceso)
    → d.pid < u32_mod
    → Vuelve 4 (serializar_datos_finalizacion_proceso m d) deserializar_datos_finalizacion_proceso d
unfolding serializar_datos_finalizacion_proceso deserializar_datos_finalizacion_proceso
finalizacion_proceso-Vuelve m d h_pid =
    vuelve 4 4 (bytes32 d.pid) deserializar_datos_finalizacion_proceso d refl (omega arith)
      (uint32-Deja 4 0 d.pid (omega arith) (omega arith) (buffer_create-Escrito m 4))
      (λ b l. lee32 d.pid ([]) _ h_pid l λ b0 l0. refl)

-- `DatosDumpMemory` is written to a full buffer, of 8 bytes,
-- and read back as it was sent, if its numbers are `uint32_t`.
pub dump_memory-Vuelve :
    (m : Malloc) (d : DatosDumpMemory)
    → d.pid < u32_mod
    → d.tid < u32_mod
    → Vuelve 8 (serializar_datos_dump_memory m d) deserializar_datos_dump_memory d
unfolding serializar_datos_dump_memory deserializar_datos_dump_memory
dump_memory-Vuelve m d h_pid h_tid =
    vuelve 8 8 (bytes32 d.pid ++ (bytes32 d.tid)) deserializar_datos_dump_memory d refl
      (omega arith)
      (sigue32 8 0 d.pid (omega arith) (omega arith) (buffer_create-Escrito m 8)
        λ b0 e0. uint32-Deja 8 4 d.tid (omega arith) (omega arith) e0)
      (λ b l.
        lee32 d.pid (bytes32 d.tid) _ h_pid l λ b0 l0. lee32 d.tid ([]) _ h_tid l0 λ b1 l1. refl)

-- The memory reads a dump's request as that of a thread's end: the two have the same fields.
pub finalizacion_hilo-dump :
    (b : Buffer) (d : DatosDumpMemory)
    → deserializar_datos_dump_memory b ≡ some d
    → deserializar_datos_finalizacion_hilo b ≡ some (record { pid = d.pid; tid = d.tid })
unfolding deserializar_datos_dump_memory deserializar_datos_finalizacion_hilo
finalizacion_hilo-dump b d e = ground arith
