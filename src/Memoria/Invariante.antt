-- ===== src/Memoria/Invariante.antt =====
-- The invariant of the memory module under dynamic partitions, and the requests that change it.
use mathlib.Core.List.{Perm, mem-cons_self, map-append, perm_middle}
use mathlib.Core.List.Perm
use sist_op_tp2c.Base.{
  ℕ, ◌<◌, ◌≡◌, refl, subst, ◌⊎◌, inl, inr, false, some, [], ◌∷◌, ◌++◌, append-nil, arith,
  uint32_max, get_elem?, Option-cases,
}
use sist_op_tp2c.Utils.KernelMemoria.{DatosInicializacionProceso, DatosFinalizacionProceso}
use sist_op_tp2c.Memoria.Particiones.{
  Particion, buscar_particion_por_pid, es_apta, particion_nueva, particion_recortada,
}
use sist_op_tp2c.Memoria.Particiones.Asignacion.{
  MapaValido, ConfigDinamica, Reservada, reservar_lem, asignada, desasignar-MapaValido,
}
use sist_op_tp2c.Memoria.Particiones.Ocupadas.{
  bloque_de, ocupadas, ocupadas-reservar, ocupadas-desasignar,
}
use sist_op_tp2c.Memoria.Particiones.Duenios.{
  LibresSinPid, por_pid-get, libre-pid, nadie-bloque, get-bloque, partir-SinPid, get-SinPid,
  desasignar-SinPid,
}
use sist_op_tp2c.Memoria.Estructuras.{
  EstructuraProceso, buscar_proceso_por_pid, quitar_proceso, nuevo_proceso,
}
use sist_op_tp2c.Memoria.Estructuras.Registros.{buscar_proceso-pid}
use sist_op_tp2c.Memoria.Procesos.{
  bloque_de_proceso, bloques, SinPid, Distintos, Distintos-snoc, Distintos-quitar, bloques-quitar,
  bloque_unico, finalizar_hilos_lem,
}
use sist_op_tp2c.Memoria.{
  Memoria, confirmar, notificar_error, iniciar_proceso, finalizar_proceso, atender_crear_proceso,
}

-- The partitions in use are exactly the blocks of the processes, each with its own id; the map of
-- the memory is valid.
pub record InvMemoria (m : Memoria) : Type 0 where
  pub config : ConfigDinamica m.config
  pub mapa : MapaValido m.config m.particiones
  pub sin_pid : LibresSinPid m.particiones
  pub distintos : Distintos m.procesos
  pub coinciden : Perm (ocupadas m.particiones) (bloques m.procesos)

-- A process is created: what the memory answers, and the state that it leaves.
pub record Creado (d : DatosInicializacionProceso) (m : Memoria) : Type 0 where
  pub despues : Memoria
  pub responde : atender_crear_proceso d m ≡ some (confirmar, despues)
  pub valida : InvMemoria despues
  pub proceso : EstructuraProceso
  pub agrega : despues.procesos ≡ m.procesos ++ proceso ∷ []
  pub suyo : (proceso.pid ≡ d.pid) × (proceso.tamanio ≡ d.tamanio)
  pub misma_memoria : despues.memoria ≡ m.memoria

Reservada-Creado :
    (d : DatosInicializacionProceso) (m : Memoria)
    → InvMemoria m
    → SinPid d.pid m.procesos
    → Reservada m.config d.tamanio d.pid m.particiones
    → Creado d m
unfolding atender_crear_proceso iniciar_proceso nuevo_proceso particion_nueva particion_recortada
Reservada-Creado d m v fresco r =
    let p = asignada r.elegida d.tamanio d.pid in
    let n = nuevo_proceso d (particion_nueva r.elegida d.tamanio) in
    record {
      despues = record m { particiones = r.despues; procesos = m.procesos ++ n ∷ [] };
      responde = let b = r.busca in let c = r.creada in let a = r.asigna in ground arith;
      valida = record {
        config = v.config;
        mapa = r.valido;
        sin_pid = rw r.forma (
            partir-SinPid m.particiones r.indice (particion_nueva r.elegida d.tamanio)
              (particion_recortada r.elegida d.tamanio) p refl
              (get-SinPid m.particiones r.indice r.elegida r.era v.sin_pid) v.sin_pid);
        distintos = Distintos-snoc m.procesos n fresco refl v.distintos;
        coinciden = Perm.trans (ocupadas-reservar m.config d.tamanio d.pid m.particiones r) (
            Perm.trans (Perm.cons _ v.coinciden) (
              rw (map-append bloque_de_proceso m.procesos (n ∷ [])) (
                Perm.symm (
                  subst
                    (λ l.
                      Perm (bloques m.procesos ++ bloque_de_proceso n ∷ [])
                        (bloque_de_proceso n ∷ l))
                    (append-nil (bloques m.procesos)) (perm_middle (bloques m.procesos) [])))));
      };
      proceso = n;
      agrega = refl;
      suyo = (refl, refl);
      misma_memoria = refl;
    }

-- Under dynamic partitions, a request to create a process with a fresh id is answered without a
-- fault. Either no free partition has room and the answer is an error and nothing changes; or the
-- answer is a confirmation, the process is the last of the list, and the invariant holds.
pub crear_proceso-InvMemoria :
    (d : DatosInicializacionProceso) (m : Memoria)
    → InvMemoria m
    → SinPid d.pid m.procesos
    → ((atender_crear_proceso d m ≡ some (notificar_error, m))
        × ((j : ℕ) (q : Particion)
            → get_elem? m.particiones j ≡ some q
            → es_apta d.tamanio q ≡ false))
      ⊎ Creado d m
unfolding atender_crear_proceso
crear_proceso-InvMemoria d m v fresco =
    elim (reservar_lem m.config d.tamanio d.pid m.particiones v.config v.mapa) [
      | inl (nada, no_cabe) ↦ inl (ground arith, no_cabe)
      | inr r ↦ inr (Reservada-Creado d m v fresco r)
    ]

-- The partition that the search by id finds is the one of the process, and is in use.
pub record Particionado (pid : ℕ) (p : EstructuraProceso) (m : Memoria) : Type 0 where
  pub indice : ℕ
  pub suya : Particion
  pub busca : buscar_particion_por_pid pid m.particiones ≡ some indice
  pub esta : get_elem? m.particiones indice ≡ some suya
  pub en_uso : suya.esta_libre ≡ false
  pub bloque : bloque_de suya ≡ bloque_de_proceso p

pub proceso-Particionado :
    (pid : ℕ) (m : Memoria) (p : EstructuraProceso)
    → InvMemoria m
    → pid < uint32_max
    → buscar_proceso_por_pid pid m.procesos ≡ some p
    → Particionado pid p m
proceso-Particionado pid m p v corto hay =
    let suyo = (Perm.mem_iff (bloques-quitar pid m.procesos p hay)).1 mem-cons_self in
    elim (Option-cases (buscar_particion_por_pid pid m.particiones)) [
      | inl nada ↦ absurd (
          nadie-bloque pid m.particiones (bloque_de_proceso p) nada
            (buscar_proceso-pid pid m.procesos p hay) ((Perm.mem_iff v.coinciden).1 suyo))
      | inr (i, e) ↦
          let (q, g, h) = por_pid-get pid m.particiones i e in
          let usada = libre-pid m.particiones i q v.sin_pid g (λ k. omega arith) in
          record {
            indice = i;
            suya = q;
            busca = e;
            esta = g;
            en_uso = usada;
            bloque =
                bloque_unico pid m.procesos p (bloque_de q) v.distintos hay h
                  ((Perm.mem_iff v.coinciden).0 (get-bloque m.particiones i q g usada));
          }
    ]

-- Under dynamic partitions, the end of a process that exists, whose id is not UINT32_MAX, does not
-- fault and returns its size: its threads end, its partition is freed and merged with its free neighbours, the process leaves
-- the list and no other does, and the invariant holds.
pub finalizar_proceso-InvMemoria :
    (d : DatosFinalizacionProceso) (m : Memoria) (p : EstructuraProceso)
    → InvMemoria m
    → d.pid < uint32_max
    → buscar_proceso_por_pid d.pid m.procesos ≡ some p
    → (m' : Memoria) × (finalizar_proceso d m ≡ some (p.tamanio, m'))
      × InvMemoria m'
      × (m'.procesos ≡ quitar_proceso d.pid m.procesos)
      × (m'.memoria ≡ m.memoria)
unfolding finalizar_proceso
finalizar_proceso-InvMemoria d m p v corto hay =
    let q = proceso-Particionado d.pid m p v corto hay in
    let (ps, fin, quitado) = finalizar_hilos_lem d.pid p.lista_hilos m.procesos p hay refl in
    let (libres, suelta, menos) =
      ocupadas-desasignar m.config m.particiones q.indice q.suya q.esta q.en_uso in
    let (libres', suelta', mapa) =
      desasignar-MapaValido m.config m.particiones q.indice q.suya v.config v.mapa q.esta in
    let iguales : libres' ≡ libres = cc in
    let resto : Perm (bloque_de q.suya ∷ ocupadas libres)
        (bloque_de_proceso p ∷ bloques (quitar_proceso d.pid m.procesos)) =
      Perm.trans (Perm.symm menos)
        (Perm.trans v.coinciden (bloques-quitar d.pid m.procesos p hay)) in
    (
      record m { particiones = libres; procesos = quitar_proceso d.pid ps },
      rw hay (rw fin (rw q.busca (rw suelta refl))),
      record {
        config = v.config;
        mapa = subst (MapaValido m.config) iguales mapa;
        sin_pid = desasignar-SinPid m.config q.indice m.particiones libres suelta v.sin_pid;
        distintos = rw quitado (Distintos-quitar d.pid m.procesos v.distintos);
        coinciden = rw quitado (Perm.cons_inv (rw q.bloque at resto));
      },
      quitado,
      refl,
    )
