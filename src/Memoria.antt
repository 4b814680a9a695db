-- ===== src/Memoria.antt =====
-- memoria/src/main.c: the state of the memory module and the requests of the kernel and the CPU.
pub mod Particiones
pub mod Estructuras
pub mod Acceso
pub mod Procesos
pub mod Invariante
pub mod Servicio
pub mod Comunicaciones
pub mod Archivo
pub mod Lineas
pub mod Validez
pub mod Alcanzable
pub mod Dump
use sist_op_tp2c.Base.{
  ℕ, zero, suc, ◌+◌, Bool, true, false, Option, none, some, List, [], ◌∷◌, ◌++◌, ◌>>=◌, leb, ◌==◌,
  if◌then◌else◌, length, get_elem?, take, drop,
}
use sist_op_tp2c.Utils.Buffer.{Malloc, bytes32, valor32}
use sist_op_tp2c.Utils.CpuMemoria.{
  Contexto, SolicitarContexto, DatosObtenerInstruccion, DatosLeerMemoria, DatosEscribirMemoria,
}
use sist_op_tp2c.Utils.KernelMemoria.{
  DatosInicializacionHilo, DatosInicializacionProceso, DatosFinalizacionHilo,
  DatosFinalizacionProceso, DatosDumpMemory,
}
use Particiones.{
  Config, Particion, inicializar_particiones, buscar_particion_libre, buscar_particion_por_pid,
  asignar_particion, desasignar_particion,
}
use Estructuras.{
  EstructuraProceso, buscar_proceso_por_pid, buscar_hilo_por_tid, quitar_proceso, nuevo_proceso,
  iniciar_hilo, finalizar_hilo, finalizar_hilos, devolver_contexto_ejecucion,
  actualizar_contexto_ejecucion, devolver_instruccion,
}

-- The globals: the partitions, the processes, and the bytes of the user memory.
pub record Memoria : Type 0 where
  pub config : Config
  pub particiones : List Particion
  pub procesos : List EstructuraProceso
  pub memoria : List ℕ

-- The state when the module starts to listen.
unfoldable pub iniciar_memoria : Malloc → Config → Memoria
iniciar_memoria ml c = record {
  config = c;
  particiones = inicializar_particiones c;
  procesos = [];
  memoria = ml.bloque c.tam_memoria;
}

unfoldable pub iniciar_proceso : DatosInicializacionProceso → ℕ → Memoria → Option Memoria
iniciar_proceso d i m = get_elem? m.particiones i >>= λ particion.
    asignar_particion i d.pid m.particiones >>= λ particiones. some (record m {
      particiones = particiones;
      procesos = m.procesos ++ nuevo_proceso d particion ∷ [];
    })

-- The result is the size of the process.
unfoldable pub finalizar_proceso : DatosFinalizacionProceso → Memoria → Option (ℕ × Memoria)
finalizar_proceso d m = buscar_proceso_por_pid d.pid m.procesos >>= λ proceso.
    finalizar_hilos d.pid proceso.lista_hilos m.procesos >>= λ procesos.
    buscar_particion_por_pid d.pid m.particiones >>= λ i.
    desasignar_particion m.config i m.particiones >>= λ particiones. some (
      proceso.tamanio,
      record m { particiones = particiones; procesos = quitar_proceso d.pid procesos },
    )

unfoldable pub leer_memoria : DatosLeerMemoria → Memoria → Option ℕ
leer_memoria d m =
    if leb (d.dir_fisica + 4) (length m.memoria)
    then some (valor32 (take 4 (drop d.dir_fisica m.memoria)))
    else none

-- `memcpy` of `tamanio` of the four bytes of the number.
unfoldable pub escribir_memoria : DatosEscribirMemoria → Memoria → Option Memoria
escribir_memoria d m =
    if leb d.tamanio 4
    then (if leb (d.dir_fisica + d.tamanio) (length m.memoria)
        then some (record m {
          memoria =
              take d.dir_fisica m.memoria
              ++ (take d.tamanio (bytes32 d.dato_a_escribir)
                  ++ drop (d.dir_fisica + d.tamanio) m.memoria);
        })
        else none)
    else none

-- The answer to the kernel: OPERACION_CONFIRMAR or OPERACION_NOTIFICAR_ERROR.
pub data Respuesta : Type 0 where
  confirmar notificar_error : Respuesta

-- The requests of the kernel, as `leer_buffer_kernel` reads them.
pub data PeticionKernel : Type 0 where
  crear_proceso : DatosInicializacionProceso → PeticionKernel
  finaliza_proceso : DatosFinalizacionProceso → PeticionKernel
  crear_hilo : DatosInicializacionHilo → PeticionKernel
  finaliza_hilo : DatosFinalizacionHilo → PeticionKernel
  dump_memory : DatosDumpMemory → PeticionKernel

-- What `enviar_dump_memory` copies from the user memory: the bytes of the process.
unfoldable pub contenido_dump : DatosDumpMemory → Memoria → Option (List ℕ)
contenido_dump d m = buscar_proceso_por_pid d.pid m.procesos >>= λ p.
    if leb (p.base + p.tamanio) (length m.memoria)
    then some (take p.tamanio (drop p.base m.memoria))
    else none

-- OPERACION_CREAR_PROCESO of `atender_peticion_kernel`.
unfoldable pub atender_crear_proceso :
    DatosInicializacionProceso → Memoria → Option (Respuesta × Memoria)
atender_crear_proceso d m = buscar_particion_libre m.config d.tamanio m.particiones >>= λ r.
    elim r.0 [
      | none ↦ some (notificar_error, record m { particiones = r.1 })
      | some i ↦ iniciar_proceso d i (record m { particiones = r.1 }) >>= λ m'. some (confirmar, m')
    ]

-- `archivos` reads a file of pseudocode, as `leer_archivo_pseudocodigo` does, and is `none` where it cannot
-- be opened; `escribe` is the answer of the file system to a dump.
unfoldable pub atender_peticion_kernel :
    (List ℕ → Option (List (List ℕ)))
    → (DatosDumpMemory → List ℕ → Bool)
    → PeticionKernel
    → Memoria
    → Option (Respuesta × Memoria)
unfolding atender_crear_proceso
atender_peticion_kernel archivos escribe (crear_proceso d) m = atender_crear_proceso d m
atender_peticion_kernel archivos escribe (finaliza_proceso d) m =
    finalizar_proceso d m >>= λ r. some (confirmar, r.1)
atender_peticion_kernel archivos escribe (crear_hilo d) m =
    iniciar_hilo archivos d m.procesos >>= λ procesos.
    some (confirmar, record m { procesos = procesos })
atender_peticion_kernel archivos escribe (finaliza_hilo d) m =
    finalizar_hilo d m.procesos >>= λ procesos. some (confirmar, record m { procesos = procesos })
atender_peticion_kernel archivos escribe (dump_memory d) m = contenido_dump d m >>= λ contenido.
    some (if escribe d contenido then confirmar else notificar_error, m)

-- The requests of the CPU, as `leer_buffer_cpu` reads them, and the answers to them.
pub data PeticionCpu : Type 0 where
  devolver_contexto : SolicitarContexto → PeticionCpu
  actualizar_contexto : Contexto → PeticionCpu
  devuelve_instruccion : DatosObtenerInstruccion → PeticionCpu
  lee_memoria : DatosLeerMemoria → PeticionCpu
  escribe_memoria : DatosEscribirMemoria → PeticionCpu

pub data RespuestaCpu : Type 0 where
  contexto : Contexto → RespuestaCpu
  instruccion : List ℕ → RespuestaCpu
  dato : ℕ → RespuestaCpu
  confirmada : RespuestaCpu

unfoldable pub atender_peticion_cpu : PeticionCpu → Memoria → Option (RespuestaCpu × Memoria)
atender_peticion_cpu (devolver_contexto d) m =
    devolver_contexto_ejecucion d m.procesos >>= λ c. some (contexto c, m)
atender_peticion_cpu (actualizar_contexto c) m =
    actualizar_contexto_ejecucion c m.procesos >>= λ procesos.
    some (confirmada, record m { procesos = procesos })
atender_peticion_cpu (devuelve_instruccion d) m =
    devolver_instruccion d m.procesos >>= λ i. some (instruccion i, m)
atender_peticion_cpu (lee_memoria d) m = leer_memoria d m >>= λ x. some (dato x, m)
atender_peticion_cpu (escribe_memoria d) m = escribir_memoria d m >>= λ m'. some (confirmada, m')
