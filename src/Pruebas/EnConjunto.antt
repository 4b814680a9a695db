-- ===== src/Pruebas/EnConjunto.antt =====
-- The memory after its start and two requests.
use sist_op_tp2c.Base.{
  Option, ℕ, ◌+◌, ◌≤◌, ◌≡◌, ◌⊎◌, refl, Bool, true, false, some, List, [], ◌∷◌, arith, length,
  replicate, uint32_max,
}
use sist_op_tp2c.Utils.KernelMemoria.{DatosDumpMemory}
use sist_op_tp2c.Memoria.Particiones.{
  Config, dinamicas, first, buscar_particion_libre, seleccionar, buscar_first, es_apta,
  crear_particion_en_indice, limite_de, add_in_index, particion_nueva, particion_recortada,
  asignar_particion, inicializar_particiones, crear_particion, buscar_particion_por_pid,
}
use sist_op_tp2c.Memoria.Particiones.Asignacion.{ConfigDinamica}
use sist_op_tp2c.Memoria.Estructuras.{EstructuraProceso, buscar_proceso_por_pid, nuevo_proceso}
use sist_op_tp2c.Memoria.Procesos.{SinPid}
use sist_op_tp2c.Memoria.{
  Memoria, iniciar_memoria, contenido_dump, crear_proceso, confirmar, atender_peticion_kernel,
  atender_crear_proceso, iniciar_proceso,
}
use sist_op_tp2c.Memoria.Validez.{EstadoValido}
use sist_op_tp2c.Memoria.Alcanzable.{
  Alcanzable, del_kernel, inicio, tras, Alcanzable-EstadoValido, Alcanzable-contenido_dump,
  Alcanzable-aislados,
}
use sist_op_tp2c.Pruebas.Datos.{ceros}

abbrev config : Config
config = record { esquema = dinamicas; algoritmo = first; tam_memoria = 64; particiones_fijas = [] }

config-ConfigDinamica : ConfigDinamica config
config-ConfigDinamica = record {
  dinamica = refl;
  algoritmo_valido = λ e. cc;
  cabe_en_int = omega arith;
}

abbrev sin_archivos : List ℕ → Option (List (List ℕ))
sin_archivos _ = some []

abbrev siempre : DatosDumpMemory → List ℕ → Bool
siempre _ _ = true

abbrev proceso : ℕ → ℕ → ℕ → EstructuraProceso
proceso pid base tamanio = record {
  pid = pid;
  tamanio = tamanio;
  base = base;
  limite = base + tamanio;
  lista_hilos = [];
}

-- Process 7 has the first 20 bytes, and process 9 the next 30.
abbrev una : Memoria
una = record {
  config = config;
  particiones =
      record { base = 0; limite = 19; tamanio = 20; pid = 7; esta_libre = false }
      ∷ record { base = 20; limite = 63; tamanio = 44; pid = uint32_max; esta_libre = true }
      ∷ [];
  procesos = proceso 7 0 20 ∷ [];
  memoria = replicate 64 0;
}

abbrev dos : Memoria
dos = record una {
  particiones =
      record { base = 0; limite = 19; tamanio = 20; pid = 7; esta_libre = false }
      ∷ record { base = 20; limite = 49; tamanio = 30; pid = 9; esta_libre = false }
      ∷ record { base = 50; limite = 63; tamanio = 14; pid = uint32_max; esta_libre = true }
      ∷ [];
  procesos = proceso 7 0 20 ∷ proceso 9 20 30 ∷ [];
}

pide_una :
    atender_peticion_kernel sin_archivos siempre
      (crear_proceso (record { pid = 7; tamanio = 20 }))
      (iniciar_memoria ceros config)
    ≡ some (confirmar, una)
unfolding atender_peticion_kernel atender_crear_proceso buscar_particion_libre seleccionar
    buscar_first es_apta crear_particion_en_indice add_in_index limite_de particion_nueva
    particion_recortada asignar_particion buscar_particion_por_pid iniciar_proceso nuevo_proceso
    iniciar_memoria inicializar_particiones crear_particion
pide_una = refl

pide_dos :
    atender_peticion_kernel sin_archivos siempre
      (crear_proceso (record { pid = 9; tamanio = 30 }))
      una
    ≡ some (confirmar, dos)
unfolding atender_peticion_kernel atender_crear_proceso buscar_particion_libre seleccionar
    buscar_first es_apta crear_particion_en_indice add_in_index limite_de particion_nueva
    particion_recortada asignar_particion buscar_particion_por_pid iniciar_proceso nuevo_proceso
pide_dos = refl

sin_nueve : SinPid 9 (proceso 7 0 20 ∷ [])
sin_nueve = (λ e. omega arith, tt)

dos-Alcanzable : Alcanzable sin_archivos siempre ceros config dos
unfolding iniciar_memoria
dos-Alcanzable =
    tras
      (tras inicio
        (del_kernel (crear_proceso (record { pid = 7; tamanio = 20 })) confirmar tt pide_una))
      (del_kernel (crear_proceso (record { pid = 9; tamanio = 30 })) confirmar sin_nueve pide_dos)

hay_siete : buscar_proceso_por_pid 7 (proceso 7 0 20 ∷ proceso 9 20 30 ∷ []) ≡ some (proceso 7 0 20)
unfolding buscar_proceso_por_pid
hay_siete = refl

hay_nueve :
    buscar_proceso_por_pid 9 (proceso 7 0 20 ∷ proceso 9 20 30 ∷ []) ≡ some (proceso 9 20 30)
unfolding buscar_proceso_por_pid
hay_nueve = refl

Alcanzable-EstadoValido_example : EstadoValido dos
Alcanzable-EstadoValido_example =
    Alcanzable-EstadoValido sin_archivos siempre ceros config config-ConfigDinamica dos-Alcanzable

Alcanzable-contenido_dump_example :
    (bs : List ℕ) × (contenido_dump (record { pid = 9; tid = 0 }) dos ≡ some bs) × (length bs ≡ 30)
Alcanzable-contenido_dump_example =
    Alcanzable-contenido_dump sin_archivos siempre ceros config (record { pid = 9; tid = 0 })
      (proceso 9 20 30) config-ConfigDinamica dos-Alcanzable (omega arith) hay_nueve

Alcanzable-aislados_example : (0 + 20 ≤ 20) ⊎ (20 + 30 ≤ 0)
Alcanzable-aislados_example =
    Alcanzable-aislados sin_archivos siempre ceros config 7 9 (proceso 7 0 20) (proceso 9 20 30)
      config-ConfigDinamica dos-Alcanzable (omega arith) (omega arith) (λ e. omega arith) hay_siete
      hay_nueve
