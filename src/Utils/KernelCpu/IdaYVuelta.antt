-- ===== src/Utils/KernelCpu/IdaYVuelta.antt =====
-- Each message between the kernel and the CPU is read back as it was sent.
use sist_op_tp2c.Base.{
  ℕ, ◌+◌, ◌<◌, ◌≡◌, some, refl, [], ◌∷◌, ◌++◌, arith, u32_mod, length, length-append, append_assoc,
  append-nil,
}
use sist_op_tp2c.Utils.Buffer.{Malloc, Buffer, bytes32, en_memoria, buffer_create}
use sist_op_tp2c.Utils.Buffer.Escritura.{
  buffer_create-Escrito, uint32-Deja, sigue32, string-Deja, sigue_string,
}
use sist_op_tp2c.Utils.Buffer.Lectura.{SinNul, lee32, lee_string}
use sist_op_tp2c.Utils.Buffer.Vuelta.{Vuelve, vuelve, Vuelve-como}
use sist_op_tp2c.Utils.CpuMemoria.{deserializar_datos_solicitar_contexto}
use sist_op_tp2c.Utils.KernelCpu.{
  HiloACpu, serializar_hilo_a_cpu, deserializar_hilo_a_cpu, DatosCrearHilo,
  serializar_datos_crear_hilo, deserializar_datos_crear_hilo, DatosCrearProceso,
  serializar_datos_crear_proceso, deserializar_datos_crear_proceso, DatosOperacionMutex,
  serializar_datos_operacion_mutex, deserializar_datos_operacion_mutex, DatosOperacionIo,
  serializar_datos_operacion_io, deserializar_datos_operacion_io, serializar_datos_operacion_hilo,
  deserializar_datos_operacion_hilo,
}

-- `HiloACpu` is written to a full buffer, of 8 bytes,
-- and read back as it was sent, if its numbers are `uint32_t`.
pub hilo_a_cpu-Vuelve :
    (m : Malloc) (d : HiloACpu)
    → d.pid < u32_mod
    → d.tid < u32_mod
    → Vuelve 8 (serializar_hilo_a_cpu m d) deserializar_hilo_a_cpu d
unfolding serializar_hilo_a_cpu deserializar_hilo_a_cpu
hilo_a_cpu-Vuelve m d h_pid h_tid =
    vuelve 8 8 (bytes32 d.pid ++ (bytes32 d.tid)) deserializar_hilo_a_cpu d refl (omega arith)
      (sigue32 8 0 d.pid (omega arith) (omega arith) (buffer_create-Escrito m 8)
        λ b0 e0. uint32-Deja 8 4 d.tid (omega arith) (omega arith) e0)
      (λ b l.
        lee32 d.pid (bytes32 d.tid) _ h_pid l λ b0 l0. lee32 d.tid ([]) _ h_tid l0 λ b1 l1. refl)

-- `DatosCrearHilo` is read back as it was sent, if its numbers are `uint32_t`, its string has no
-- NUL inside, and the buffer is shorter than 2 ^ 32 bytes.
pub crear_hilo-Vuelve :
    (m : Malloc) (d : DatosCrearHilo)
    → length d.archivo_pseudocodigo + 9 < u32_mod
    → SinNul d.archivo_pseudocodigo
    → d.prioridad < u32_mod
    → Vuelve
        (8 + (length d.archivo_pseudocodigo + 1))
        (serializar_datos_crear_hilo m d)
        deserializar_datos_crear_hilo
        d
unfolding serializar_datos_crear_hilo deserializar_datos_crear_hilo
crear_hilo-Vuelve m d corto sin h_prioridad =
    let s = d.archivo_pseudocodigo in
    let n = 8 + (length s + 1) in
    let mide = length-append s (0 ∷ []) in
    Vuelve-como n ((0 + 4 + length (en_memoria s)) + 4)
      ((([] ++ bytes32 (length s + 1)) ++ en_memoria s) ++ bytes32 d.prioridad)
      (bytes32 (length s + 1) ++ (en_memoria s ++ (bytes32 d.prioridad)))
      deserializar_datos_crear_hilo d (omega (arith, mide)) (omega arith) (simp append_assoc)
      (sigue_string n 0 [] (buffer_create m n) s _ ((0 + 4 + length (en_memoria s)) + 4) _
        (omega arith) (omega (arith, mide)) (buffer_create-Escrito m n)
        λ b0 e0.
          uint32-Deja n (0 + 4 + length (en_memoria s)) d.prioridad (omega arith)
            (omega (arith, mide)) e0)
      (λ b l.
        lee_string s (bytes32 d.prioridad) _ (omega arith) sin l
          λ b0 l0. lee32 d.prioridad ([]) _ h_prioridad l0 λ b1 l1. refl)

-- `DatosCrearProceso` is read back as it was sent, if its numbers are `uint32_t`, its string has no
-- NUL inside, and the buffer is shorter than 2 ^ 32 bytes.
pub crear_proceso-Vuelve :
    (m : Malloc) (d : DatosCrearProceso)
    → length d.archivo_pseudocodigo + 13 < u32_mod
    → SinNul d.archivo_pseudocodigo
    → d.tamanio_proceso < u32_mod
    → d.prioridad < u32_mod
    → Vuelve
        (12 + (length d.archivo_pseudocodigo + 1))
        (serializar_datos_crear_proceso m d)
        deserializar_datos_crear_proceso
        d
unfolding serializar_datos_crear_proceso deserializar_datos_crear_proceso
crear_proceso-Vuelve m d corto sin h_tamanio_proceso h_prioridad =
    let s = d.archivo_pseudocodigo in
    let n = 12 + (length s + 1) in
    let mide = length-append s (0 ∷ []) in
    Vuelve-como n (((0 + 4 + length (en_memoria s)) + 4) + 4)
      (((([] ++ bytes32 (length s + 1)) ++ en_memoria s) ++ bytes32 d.tamanio_proceso)
        ++ bytes32 d.prioridad)
      (bytes32 (length s + 1)
        ++ (en_memoria s ++ (bytes32 d.tamanio_proceso ++ (bytes32 d.prioridad))))
      deserializar_datos_crear_proceso d (omega (arith, mide)) (omega arith) (simp append_assoc)
      (sigue_string n 0 [] (buffer_create m n) s _ (((0 + 4 + length (en_memoria s)) + 4) + 4) _
        (omega arith) (omega (arith, mide)) (buffer_create-Escrito m n)
        λ b0 e0.
          sigue32 n (0 + 4 + length (en_memoria s)) d.tamanio_proceso (omega arith)
            (omega (arith, mide)) e0
            λ b1 e1.
              uint32-Deja n ((0 + 4 + length (en_memoria s)) + 4) d.prioridad (omega arith)
                (omega (arith, mide)) e1)
      (λ b l.
        lee_string s (bytes32 d.tamanio_proceso ++ (bytes32 d.prioridad)) _ (omega arith) sin l
          λ b0 l0.
            lee32 d.tamanio_proceso (bytes32 d.prioridad) _ h_tamanio_proceso l0
              λ b1 l1. lee32 d.prioridad ([]) _ h_prioridad l1 λ b2 l2. refl)

-- `DatosOperacionMutex` is read back as it was sent, if its numbers are `uint32_t`, its string has no
-- NUL inside, and the buffer is shorter than 2 ^ 32 bytes.
pub operacion_mutex-Vuelve :
    (m : Malloc) (d : DatosOperacionMutex)
    → length d.recurso + 5 < u32_mod
    → SinNul d.recurso
    → Vuelve
        ((length d.recurso + 1) + 4)
        (serializar_datos_operacion_mutex m d)
        deserializar_datos_operacion_mutex
        d
unfolding serializar_datos_operacion_mutex deserializar_datos_operacion_mutex
operacion_mutex-Vuelve m d corto sin =
    let s = d.recurso in
    let n = (length s + 1) + 4 in
    let mide = length-append s (0 ∷ []) in
    Vuelve-como n (0 + 4 + length (en_memoria s)) (([] ++ bytes32 (length s + 1)) ++ en_memoria s)
      (bytes32 (length s + 1) ++ (en_memoria s ++ [])) deserializar_datos_operacion_mutex d
      (omega (arith, mide)) (omega arith) (simp (append_assoc, append-nil))
      (string-Deja n 0 [] (buffer_create m n) s (omega arith) (omega (arith, mide))
        (buffer_create-Escrito m n))
      (λ b l. lee_string s ([]) _ (omega arith) sin l λ b0 l0. refl)

-- `DatosOperacionIo` is written to a full buffer, of 4 bytes,
-- and read back as it was sent, if its numbers are `uint32_t`.
pub operacion_io-Vuelve :
    (m : Malloc) (d : DatosOperacionIo)
    → d.tiempo < u32_mod
    → Vuelve 4 (serializar_datos_operacion_io m d) deserializar_datos_operacion_io d
unfolding serializar_datos_operacion_io deserializar_datos_operacion_io
operacion_io-Vuelve m d h_tiempo =
    vuelve 4 4 (bytes32 d.tiempo) deserializar_datos_operacion_io d refl (omega arith)
      (uint32-Deja 4 0 d.tiempo (omega arith) (omega arith) (buffer_create-Escrito m 4))
      (λ b l. lee32 d.tiempo ([]) _ h_tiempo l λ b0 l0. refl)

-- A thread id is written to a full buffer, of 4 bytes, and read back as it was sent, if it is a
-- `uint32_t`.
pub operacion_hilo-Vuelve :
    (m : Malloc) (tid : ℕ)
    → tid < u32_mod
    → Vuelve 4
        (serializar_datos_operacion_hilo m tid)
        deserializar_datos_operacion_hilo
        (record { tid = tid })
unfolding serializar_datos_operacion_hilo deserializar_datos_operacion_hilo
operacion_hilo-Vuelve m tid h =
    vuelve 4 4 (bytes32 tid) deserializar_datos_operacion_hilo (record { tid = tid }) refl
      (omega arith) (uint32-Deja 4 0 tid (omega arith) (omega arith) (buffer_create-Escrito m 4))
      (λ b l. lee32 tid ([]) _ h l λ b0 l0. refl)

-- What the kernel sends with a thread is also what the memory reads as the request of its context.
pub solicitar_contexto-hilo :
    (b : Buffer) (h : HiloACpu)
    → deserializar_hilo_a_cpu b ≡ some h
    → deserializar_datos_solicitar_contexto b ≡ some (record { tid = h.tid; pid = h.pid })
unfolding deserializar_hilo_a_cpu deserializar_datos_solicitar_contexto
solicitar_contexto-hilo b h e = ground arith
