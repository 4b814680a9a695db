-- ===== src/Pruebas/EnMemoria.antt =====
-- The theorems of the memory module at a memory of 64 bytes.
use mathlib.Core.List.Perm
use sist_op_tp2c.Base.{
  ℕ, ◌≡◌, refl, ◌⊎◌, inl, inr, true, false, none, some, List, [], ◌∷◌, arith, uint32_max, replicate,
  get_elem?,
}
use sist_op_tp2c.Utils.CpuMemoria.{Contexto, DatosLeerMemoria, DatosEscribirMemoria}
use sist_op_tp2c.Utils.KernelMemoria.{DatosInicializacionProceso, DatosFinalizacionProceso}
use sist_op_tp2c.Memoria.Particiones.{
  Config, Particion, dinamicas, best, es_apta, seleccionar, buscar_particion_libre,
  desasignar_particion,
}
use sist_op_tp2c.Memoria.Particiones.Busqueda.{Optima, criterio, seleccionar-Optima}
use sist_op_tp2c.Memoria.Particiones.Asignacion.{
  MapaValido, ConfigDinamica, Reservada, reservar_lem, desasignar-MapaValido,
}
use sist_op_tp2c.Memoria.Particiones.Ocupadas.{ocupadas, bloque_de, ocupadas-desasignar}
use sist_op_tp2c.Memoria.Estructuras.{
  EstructuraHilo, EstructuraProceso, buscar_proceso_por_pid, buscar_hilo, quitar_proceso,
  actualizar_contexto_ejecucion, devolver_contexto_ejecucion,
}
use sist_op_tp2c.Memoria.Estructuras.Registros.{devolver-actualizar_self}
use sist_op_tp2c.Memoria.{
  Memoria, notificar_error, finalizar_proceso, atender_crear_proceso, leer_memoria,
  escribir_memoria,
}
use sist_op_tp2c.Memoria.Acceso.{leer-escribir_self, leer-escribir_ne}
use sist_op_tp2c.Memoria.Invariante.{
  InvMemoria, Creado, crear_proceso-InvMemoria, finalizar_proceso-InvMemoria,
}
use mathlib.Core.List.{Perm}

abbrev config_prueba : Config
config_prueba = record {
  esquema = dinamicas;
  algoritmo = best;
  tam_memoria = 64;
  particiones_fijas = [];
}

abbrev usada : Particion
usada = record { base = 0; limite = 15; tamanio = 16; pid = 3; esta_libre = false }

abbrev libre : Particion
libre = record { base = 16; limite = 63; tamanio = 48; pid = uint32_max; esta_libre = true }

abbrev mapa : List Particion
mapa = usada ∷ libre ∷ []

abbrev hilo : ℕ → EstructuraHilo
hilo tid = record {
  tid = tid;
  pc = 0;
  ax = 0;
  bx = 0;
  cx = 0;
  dx = 0;
  ex = 0;
  fx = 0;
  gx = 0;
  hx = 0;
  archivo_pseudocodigo = [];
  instrucciones = [];
}

abbrev proceso : EstructuraProceso
proceso = record {
  pid = 3;
  tamanio = 16;
  base = 0;
  limite = 16;
  lista_hilos = hilo 0 ∷ hilo 1 ∷ [];
}

abbrev memoria_prueba : Memoria
memoria_prueba = record {
  config = config_prueba;
  particiones = mapa;
  procesos = proceso ∷ [];
  memoria = replicate 64 0;
}

config_prueba-ConfigDinamica : ConfigDinamica config_prueba
config_prueba-ConfigDinamica = record {
  dinamica = refl;
  algoritmo_valido = λ e. cc;
  cabe_en_int = omega arith;
}

mapa-MapaValido : MapaValido config_prueba mapa
mapa-MapaValido = record { contiguas = (refl, (refl, refl)); separadas = (refl, (refl, tt)) }

memoria_prueba-InvMemoria : InvMemoria memoria_prueba
unfolding ocupadas
memoria_prueba-InvMemoria = record {
  config = config_prueba-ConfigDinamica;
  mapa = mapa-MapaValido;
  sin_pid = (inl refl, (inr refl, tt));
  distintos = (tt, refl, tt);
  coinciden = Perm.refl _;
}

abbrev pedido : DatosInicializacionProceso
pedido = record { pid = 7; tamanio = 20 }

crear_proceso-InvMemoria_example :
    ((atender_crear_proceso pedido memoria_prueba ≡ some (notificar_error, memoria_prueba))
      × ((j : ℕ) (q : Particion)
          → get_elem? memoria_prueba.particiones j ≡ some q
          → es_apta pedido.tamanio q ≡ false))
    ⊎ Creado pedido memoria_prueba
crear_proceso-InvMemoria_example =
    crear_proceso-InvMemoria pedido memoria_prueba memoria_prueba-InvMemoria (ground arith, tt)

esta_proceso : buscar_proceso_por_pid 3 (proceso ∷ []) ≡ some proceso
unfolding buscar_proceso_por_pid
esta_proceso = refl

abbrev fin : DatosFinalizacionProceso
fin = record { pid = 3 }

finalizar_proceso-InvMemoria_example :
    (m' : Memoria) × (finalizar_proceso fin memoria_prueba ≡ some (16, m'))
    × InvMemoria m'
    × (m'.procesos ≡ quitar_proceso 3 (proceso ∷ []))
    × (m'.memoria ≡ replicate 64 0)
finalizar_proceso-InvMemoria_example =
    finalizar_proceso-InvMemoria fin memoria_prueba proceso memoria_prueba-InvMemoria (omega arith)
      esta_proceso

seleccionar-Optima_example : Optima (criterio best) 20 mapa (seleccionar best 20 mapa)
seleccionar-Optima_example = seleccionar-Optima best 20 mapa (λ e. cc)

reservar_example :
    ((buscar_particion_libre config_prueba 20 mapa ≡ some (none, mapa))
      × ((j : ℕ) (q : Particion) → get_elem? mapa j ≡ some q → es_apta 20 q ≡ false))
    ⊎ Reservada config_prueba 20 7 mapa
reservar_example = reservar_lem config_prueba 20 7 mapa config_prueba-ConfigDinamica mapa-MapaValido

desasignar-MapaValido_example :
    (despues : List Particion) × (desasignar_particion config_prueba 0 mapa ≡ some despues)
    × MapaValido config_prueba despues
desasignar-MapaValido_example =
    desasignar-MapaValido config_prueba mapa 0 usada config_prueba-ConfigDinamica mapa-MapaValido
      refl

ocupadas-desasignar_example :
    (despues : List Particion) × (desasignar_particion config_prueba 0 mapa ≡ some despues)
    × Perm (ocupadas mapa) (bloque_de usada ∷ ocupadas despues)
ocupadas-desasignar_example = ocupadas-desasignar config_prueba mapa 0 usada refl refl

abbrev escritura : DatosEscribirMemoria
escritura = record { pid = 3; tid = 0; tamanio = 4; dir_fisica = 8; dato_a_escribir = 70000 }

abbrev lectura : ℕ → DatosLeerMemoria
lectura dir = record { pid = 3; tid = 0; dir_fisica = dir; tamanio = 4 }

leer-escribir_self_example :
    (m' : Memoria) × (escribir_memoria escritura memoria_prueba ≡ some m')
    × (leer_memoria (lectura 8) m' ≡ some 70000)
leer-escribir_self_example =
    leer-escribir_self escritura (lectura 8) memoria_prueba refl (omega arith) (omega arith) refl

leer-escribir_ne_example :
    (m' : Memoria) × (escribir_memoria escritura memoria_prueba ≡ some m')
    × (leer_memoria (lectura 12) m' ≡ leer_memoria (lectura 12) memoria_prueba)
leer-escribir_ne_example =
    leer-escribir_ne escritura (lectura 12) memoria_prueba refl (omega arith) (omega arith)
      (inr (omega arith))

abbrev contexto_nuevo : Contexto
contexto_nuevo = record {
  pid = 3;
  tid = 1;
  pc = 9;
  ax = 1;
  bx = 2;
  cx = 3;
  dx = 4;
  ex = 5;
  fx = 6;
  gx = 7;
  hx = 8;
  base = 0;
  limite = 0;
}

esta_hilo : buscar_hilo 1 proceso.lista_hilos ≡ some (hilo 1)
unfolding buscar_hilo
esta_hilo = refl

devolver-actualizar_self_example :
    (ps' : List EstructuraProceso) × (actualizar_contexto_ejecucion contexto_nuevo (proceso ∷ [])
      ≡ some ps')
    × (devolver_contexto_ejecucion (record { tid = 1; pid = 3 }) ps'
        ≡ some (record contexto_nuevo { base = 0; limite = 16 }))
devolver-actualizar_self_example =
    devolver-actualizar_self contexto_nuevo (proceso ∷ []) proceso (hilo 1) esta_proceso esta_hilo
