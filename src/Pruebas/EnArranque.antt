-- ===== src/Pruebas/EnArranque.antt =====
-- The kernel and the memory together, once a process was created.
use sist_op_tp2c.Base.{Option, ℕ, ◌<◌, ◌≡◌, refl, Bool, true, some, List, [], ◌∷◌, arith, u32_mod}
use sist_op_tp2c.Utils.KernelMemoria.{DatosDumpMemory}
use sist_op_tp2c.Memoria.Particiones.{Config, dinamicas, first}
use sist_op_tp2c.Memoria.Particiones.Asignacion.{ConfigDinamica}
use sist_op_tp2c.Memoria.{Memoria, iniciar_memoria}
use sist_op_tp2c.Kernel.Estados.{
  Kernel, Pcb, inicializar_estados, crear_proceso, primero, buscar_proceso,
}
use sist_op_tp2c.Kernel.Alcanzable.{creado}
use sist_op_tp2c.Sistema.Conjunto.{
  Conjunto, iniciar_siguiente, del_kernel, encendido, sigue, rondas,
}
use sist_op_tp2c.Sistema.Pasos.{InvSistema}
use sist_op_tp2c.Sistema.Arranque.{Conjunto-InvSistema, Conjunto-arranca}
use sist_op_tp2c.Pruebas.Datos.{ceros}

abbrev config : Config
config = record { esquema = dinamicas; algoritmo = first; tam_memoria = 64; particiones_fijas = [] }

config-ConfigDinamica : ConfigDinamica config
config-ConfigDinamica = record {
  dinamica = refl;
  algoritmo_valido = λ e. cc;
  cabe_en_int = omega arith;
}

abbrev sin_archivos : List ℕ → Option (List (List ℕ))
sin_archivos _ = some []

abbrev siempre : DatosDumpMemory → List ℕ → Bool
siempre _ _ = true

-- The kernel's first process, at the head of NEW.
abbrev creada : Kernel
creada = crear_proceso (105 ∷ []) 16 0 inicializar_estados

abbrev primer_pcb : Pcb
primer_pcb = record {
  pid = 0;
  tids = [];
  mutex = [];
  tamanio = 16;
  ultimo_tid = 0;
  prioridad = 0;
  nombre_archivo = 105 ∷ [];
}

abbrev corrida : Conjunto sin_archivos siempre ceros config creada (iniciar_memoria ceros config)
corrida = sigue encendido (del_kernel (creado (105 ∷ []) 16 0) tt)

una_ronda : rondas sin_archivos siempre corrida < u32_mod
unfolding rondas
una_ronda = omega arith

es_primero : primero creada.estado_new ≡ some 0
unfolding primero crear_proceso inicializar_estados
es_primero = refl

es_suyo : buscar_proceso 0 creada.lista_procesos ≡ some primer_pcb
unfolding buscar_proceso crear_proceso inicializar_estados
es_suyo = refl

hay_new : 0 < creada.semaforo_estado_new
unfolding crear_proceso inicializar_estados
hay_new = omega arith

hay_memoria : 0 < creada.semaforo_memoria_suficiente
unfolding crear_proceso inicializar_estados
hay_memoria = omega arith

Conjunto-InvSistema_example :
    InvSistema creada (iniciar_memoria ceros config) (rondas sin_archivos siempre corrida)
Conjunto-InvSistema_example =
    Conjunto-InvSistema sin_archivos siempre ceros config config-ConfigDinamica corrida una_ronda

Conjunto-arranca_example :
    (k1 : Kernel) × (m1 : Memoria) × (iniciar_siguiente sin_archivos siempre creada
        (iniciar_memoria ceros config)
      ≡ some (k1, m1))
Conjunto-arranca_example =
    Conjunto-arranca sin_archivos siempre ceros config config-ConfigDinamica corrida 0 primer_pcb []
      una_ronda es_primero es_suyo refl hay_new hay_memoria
