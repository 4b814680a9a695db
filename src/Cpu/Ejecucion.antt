-- ===== src/Cpu/Ejecucion.antt =====
-- cpu/src/main.c: the decode and execute stages of `ciclo_de_instruccion`, one handler for each
-- instruction. `atoi` is an argument, as a `uint32_t`; a missing word is a null pointer.
use sist_op_tp2c.Base.{
  ℕ, Bool, true, false, Option, none, some, List, ◌>>=◌, ◌==◌, if◌then◌else◌, get_elem?,
}
use sist_op_tp2c.Utils.Mensajes.{
  codigo, operacion_confirmar, operacion_notificar_error, operacion_crear_mutex,
  operacion_bloquear_mutex, operacion_desbloquear_mutex, operacion_dump_memory,
  operacion_cancelar_hilo, operacion_esperar_hilo, operacion_finalizar_hilo,
  operacion_finalizar_proceso,
}
use sist_op_tp2c.Utils.CpuMemoria.{Contexto}
use sist_op_tp2c.Cpu.{
  obtener_registro, setear_registro, sum_registro, sub_registro, incrementar_pc, jnz_pc,
}
use sist_op_tp2c.Cpu.Servicio.{ServicioMemoria}
use sist_op_tp2c.Cpu.Instrucciones.{
  Instruccion, i_set, i_read_mem, i_write_mem, i_sum, i_sub, i_jnz, i_log, i_dump_memory, i_io,
  i_process_create, i_thread_create, i_thread_join, i_thread_cancel, i_mutex_create, i_mutex_lock,
  i_mutex_unlock, i_thread_exit, i_process_exit, instruccion_de, p_crear_proceso, p_crear_hilo,
  p_mutex, p_hilo, p_io, p_operacion, Marcas,
}
use sist_op_tp2c.Cpu.Maquina.{
  Cpu, enviar, recibir, esperar_confirmacion, actualizar, read_mem, write_mem,
}

-- The marks: the next cycle follows; the thread leaves, and its context is stored at the end or not.
abbrev pub sigue : Marcas
sigue = record {
  siguiente_ciclo = true;
  omitir_interrupcion = false;
  debe_actualizar_contexto = false;
}

abbrev pub se_va : Bool → Marcas
se_va actualiza = record {
  siguiente_ciclo = false;
  omitir_interrupcion = true;
  debe_actualizar_contexto = actualiza;
}

-- No mark: an unknown instruction, or an unknown answer to MUTEX_LOCK.
abbrev pub nada : Marcas
nada = record {
  siguiente_ciclo = false;
  omitir_interrupcion = false;
  debe_actualizar_contexto = false;
}

-- The marks that the answer to MUTEX_LOCK leaves.
unfoldable pub marcas_de_lock : ℕ → Marcas
marcas_de_lock respuesta =
    if respuesta == codigo operacion_confirmar
    then sigue
    else if respuesta == codigo operacion_notificar_error
    then se_va true
    else nada

module _ {s : ServicioMemoria} where
  abbrev pub con_registros : Contexto → Cpu s → Cpu s
  con_registros r c = record c { registros = r }

  unfoldable pub avanzar : Cpu s → Cpu s
  avanzar c = record c { registros = incrementar_pc c.registros }

  unfoldable pub ejecutar :
      (List ℕ → ℕ) → Instruccion → List (List ℕ) → Cpu s → Option (Marcas × Cpu s)
  ejecutar atoi i_set palabras c = do
    registro ← get_elem? palabras 1
    valor ← get_elem? palabras 2
    some (sigue, avanzar (con_registros (setear_registro registro (atoi valor) c.registros) c))
  ejecutar atoi i_sum palabras c = do
    registro1 ← get_elem? palabras 1
    registro2 ← get_elem? palabras 2
    r ← sum_registro registro1 registro2 c.registros
    some (sigue, avanzar (con_registros r c))
  ejecutar atoi i_sub palabras c = do
    registro1 ← get_elem? palabras 1
    registro2 ← get_elem? palabras 2
    r ← sub_registro registro1 registro2 c.registros
    some (sigue, avanzar (con_registros r c))
  ejecutar atoi i_read_mem palabras c = do
    registro1 ← get_elem? palabras 1
    registro2 ← get_elem? palabras 2
    c1 ← read_mem registro1 registro2 c
    some (sigue, avanzar c1)
  ejecutar atoi i_write_mem palabras c = do
    registro1 ← get_elem? palabras 1
    registro2 ← get_elem? palabras 2
    c1 ← write_mem registro1 registro2 c
    some (sigue, avanzar c1)
  ejecutar atoi i_jnz palabras c = do
    registro ← get_elem? palabras 1
    valor ← get_elem? palabras 2
    r ← jnz_pc registro (atoi valor) c.registros
    some (sigue, con_registros r c)
  ejecutar atoi i_log palabras c = do
    registro ← get_elem? palabras 1
    valor ← obtener_registro registro c.registros
    some (sigue, avanzar c)
  ejecutar atoi i_mutex_create palabras c = do
    recurso ← get_elem? palabras 1
    c1 ←
        esperar_confirmacion
          (enviar (p_mutex operacion_crear_mutex (record { recurso = recurso })) (avanzar c))
    some (sigue, c1)
  ejecutar atoi i_mutex_lock palabras c = do
    recurso ← get_elem? palabras 1
    let c1 : Cpu s =
        enviar (p_mutex operacion_bloquear_mutex (record { recurso = recurso })) (avanzar c)
    r ← recibir c1.respuestas c1
    some (marcas_de_lock r.0, r.1)
  ejecutar atoi i_mutex_unlock palabras c = do
    recurso ← get_elem? palabras 1
    c1 ←
        esperar_confirmacion
          (enviar (p_mutex operacion_desbloquear_mutex (record { recurso = recurso })) (avanzar c))
    some (sigue, c1)
  ejecutar atoi i_dump_memory palabras c = do
    c1 ← actualizar (avanzar c)
    c2 ← esperar_confirmacion (enviar (p_operacion operacion_dump_memory) c1)
    some (se_va false, c2)
  ejecutar atoi i_io palabras c = do
    tiempo ← get_elem? palabras 1
    some (se_va true, enviar (p_io (record { tiempo = atoi tiempo })) (avanzar c))
  ejecutar atoi i_process_create palabras c = do
    archivo ← get_elem? palabras 1
    tamanio ← get_elem? palabras 2
    prioridad ← get_elem? palabras 3
    some (
      sigue,
      enviar
          (p_crear_proceso (record {
            archivo_pseudocodigo = archivo;
            tamanio_proceso = atoi tamanio;
            prioridad = atoi prioridad;
          }))
          (avanzar c),
    )
  ejecutar atoi i_thread_create palabras c = do
    archivo ← get_elem? palabras 1
    prioridad ← get_elem? palabras 2
    c1 ← esperar_confirmacion (
        enviar
          (p_crear_hilo (record { archivo_pseudocodigo = archivo; prioridad = atoi prioridad }))
          (avanzar c))
    some (sigue, c1)
  ejecutar atoi i_thread_cancel palabras c = do
    tid ← get_elem? palabras 1
    some (sigue, enviar (p_hilo operacion_cancelar_hilo (atoi tid)) (avanzar c))
  ejecutar atoi i_thread_join palabras c = do
    tid ← get_elem? palabras 1
    c1 ← esperar_confirmacion (enviar (p_hilo operacion_esperar_hilo (atoi tid)) (avanzar c))
    some (se_va true, c1)
  ejecutar atoi i_thread_exit palabras c = do
    c1 ← esperar_confirmacion (enviar (p_operacion operacion_finalizar_hilo) (avanzar c))
    some (se_va false, c1)
  ejecutar atoi i_process_exit palabras c =
      some (se_va false, enviar (p_operacion operacion_finalizar_proceso) (avanzar c))

  -- An unknown instruction does nothing.
  unfoldable pub ejecutar_si :
      (List ℕ → ℕ) → Option Instruccion → List (List ℕ) → Cpu s → Option (Marcas × Cpu s)
  ejecutar_si atoi none palabras c = some (nada, c)
  ejecutar_si atoi (some i) palabras c = ejecutar atoi i palabras c

  unfoldable pub decodificar_y_ejecutar :
      (List ℕ → ℕ) → List (List ℕ) → Cpu s → Option (Marcas × Cpu s)
  decodificar_y_ejecutar atoi palabras c = do
    nombre ← get_elem? palabras 0
    ejecutar_si atoi (instruccion_de nombre) palabras c
