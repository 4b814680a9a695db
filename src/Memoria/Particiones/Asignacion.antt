-- ===== src/Memoria/Particiones/Asignacion.antt =====
-- Allocation and release of a partition under dynamic partitions, as OPERACION_CREAR_PROCESO and
-- OPERACION_FINALIZAR_PROCESO make them.
use sist_op_tp2c.Base.{
  ℕ, zero, suc, ◌^◌, ◌≤◌, ◌<◌, ◌≡◌, refl, subst, ◌≢◌, ◌⊎◌, inl, inr, true, false, none, some, List,
  [], ◌∷◌, arith, get_elem?, set, ltb, ◌==◌, Bool-cases, Option-cases, get_elem?-set_self,
  get_elem?-lt,
}
use sist_op_tp2c.Memoria.Particiones.{
  Config, dinamicas, otro_algoritmo, Particion, particion_nueva, particion_recortada, add_in_index,
  es_apta, crear_particion_en_indice, seleccionar, buscar_particion_libre, buscar_particion_por_pid,
  asignar_particion, liberar, desasignar_particion, consolidar_dos_veces, crear_particion,
  inicializar_particiones,
}
use sist_op_tp2c.Memoria.Particiones.Mapa.{
  Contiguas, Contiguas-get, nueva_campos, partir-Contiguas, set-Contiguas, dos_veces-Contiguas,
}
use sist_op_tp2c.Memoria.Particiones.Libres.{
  SinLibresContiguas, dos_veces-SinLibres, partir-SinLibres,
}
use sist_op_tp2c.Memoria.Particiones.Busqueda.{Optima, criterio, seleccionar-Optima}

-- The partitions cover the memory of `c` without gap or overlap, and no two neighbours are free.
pub record MapaValido (c : Config) (ps : List Particion) : Type 0 where
  pub contiguas : Contiguas 0 ps c.tam_memoria
  pub separadas : SinLibresContiguas ps

-- A configuration of dynamic partitions; `TAM_MEMORIA` is read as an `int`.
pub record ConfigDinamica (c : Config) : Type 0 where
  pub dinamica : c.esquema ≡ dinamicas
  pub algoritmo_valido : c.algoritmo ≢ otro_algoritmo
  pub cabe_en_int : c.tam_memoria < 2 ^ 31

pub inicializar-MapaValido :
    (c : Config) → ConfigDinamica c → MapaValido c (inicializar_particiones c)
unfolding inicializar_particiones crear_particion
inicializar-MapaValido c h =
    rw h.dinamica (record { contiguas = ground arith; separadas = ground arith })

pub por_pid-existe :
    (pid : ℕ) (ps : List Particion) (i : ℕ) (p : Particion)
    → get_elem? ps i ≡ some p
    → p.pid ≡ pid
    → (k : ℕ) × (buscar_particion_por_pid pid ps ≡ some k)
unfolding buscar_particion_por_pid
por_pid-existe pid [] i p e h = cc
por_pid-existe pid (q ∷ ps) zero p e h = (0, ground arith)
por_pid-existe pid (q ∷ ps) (suc i) p e h = elim (Bool-cases (q.pid == pid)) [
  | inl si ↦ (0, rw si)
  | inr ni ↦ let (k, hk) = por_pid-existe pid ps i p e h in (suc k, rw (ni, hk))
]

-- `asignar_particion` marks the partition and stops: its loop finds the partition.
pub asignar_lem :
    (i pid : ℕ) (ps : List Particion) (p : Particion)
    → get_elem? ps i ≡ some p
    → asignar_particion i pid ps ≡ some (set ps i (record p { pid = pid; esta_libre = false }))
unfolding asignar_particion
asignar_lem i pid ps p e =
    let a : Particion = record p { pid = pid; esta_libre = false } in
    let (k, hk) =
      por_pid-existe pid (set ps i a) i a (get_elem?-set_self ps i a (get_elem?-lt ps i p e))
        refl in
    ground (arith, hk)

get_elem?-add_in_index {ℓ} :
    {A : Type ℓ} (xs : List A) (i : ℕ) (a r : A) (p : A)
    → get_elem? xs i ≡ some p
    → get_elem? (add_in_index i a (set xs i r)) i ≡ some a
unfolding add_in_index
get_elem?-add_in_index [] i a r p e = cc
get_elem?-add_in_index (x ∷ xs) zero a r p e = refl
get_elem?-add_in_index (x ∷ xs) (suc i) a r p e = get_elem?-add_in_index xs i a r p e

abbrev pub cortar : ℕ → Particion → ℕ → List Particion → List Particion
cortar i p t ps = add_in_index i (particion_nueva p t) (set ps i (particion_recortada p t))

-- In a valid map the check of the limit never fails.
pub crear_en_indice_lem :
    (c : Config) (t i : ℕ) (ps : List Particion) (p : Particion)
    → ConfigDinamica c
    → MapaValido c ps
    → get_elem? ps i ≡ some p
    → t ≤ p.tamanio
    → crear_particion_en_indice c t i ps ≡ some (some i, cortar i p t ps)
unfolding crear_particion_en_indice
crear_en_indice_lem c t i ps p hc v e ht =
    let dentro = Contiguas-get 0 ps c.tam_memoria i p v.contiguas e in
    let campos = nueva_campos p t (omega (arith, hc.cabe_en_int)) ht in
    let no_supera : ltb c.tam_memoria (particion_nueva p t).limite ≡ false = grind arith in
    rw e (rw no_supera)

-- The partition that a process gets.
abbrev pub asignada : Particion → ℕ → ℕ → Particion
asignada p t pid = record (particion_nueva p t) { pid = pid; esta_libre = false }

cortar-MapaValido :
    (c : Config) (t i pid : ℕ) (ps : List Particion) (p : Particion)
    → ConfigDinamica c
    → MapaValido c ps
    → get_elem? ps i ≡ some p
    → es_apta t p ≡ true
    → MapaValido c (set (cortar i p t ps) i (asignada p t pid))
unfolding es_apta
cortar-MapaValido c t i pid ps p hc v e apta = record {
  contiguas =
      set-Contiguas 0 (cortar i p t ps) c.tam_memoria i (particion_nueva p t) (asignada p t pid)
        refl refl (get_elem?-add_in_index ps i (particion_nueva p t) (particion_recortada p t) p e)
        (partir-Contiguas 0 ps c.tam_memoria i p t (omega (arith, hc.cabe_en_int)) (ground arith) e
          v.contiguas);
  separadas =
      partir-SinLibres ps i p (particion_nueva p t) (particion_recortada p t) (asignada p t pid)
        refl (recortada-libre p t) e v.separadas;
}
  where
    recortada-libre : (p : Particion) (t : ℕ) → (particion_recortada p t).esta_libre ≡ p.esta_libre
    recortada-libre p t = unfold particion_recortada in refl

-- What the search and the assignment to a process do together.
pub record Reservada (c : Config) (t pid : ℕ) (ps : List Particion) : Type 0 where
  pub indice : ℕ
  pub elegida : Particion
  pub cortadas : List Particion
  pub despues : List Particion
  pub busca : buscar_particion_libre c t ps ≡ some (some indice, cortadas)
  pub creada : get_elem? cortadas indice ≡ some (particion_nueva elegida t)
  pub asigna : asignar_particion indice pid cortadas ≡ some despues
  pub valido : MapaValido c despues
  pub era : get_elem? ps indice ≡ some elegida
  pub servia : es_apta t elegida ≡ true
  pub forma : despues ≡ set (cortar indice elegida t ps) indice (asignada elegida t pid)
  pub queda : get_elem? despues indice ≡ some (asignada elegida t pid)

reservar_elegida :
    (c : Config) (t pid : ℕ) (ps : List Particion) (i : ℕ) (p : Particion)
    → ConfigDinamica c
    → MapaValido c ps
    → seleccionar c.algoritmo t ps ≡ some (i, p)
    → Optima (criterio c.algoritmo) t ps (some (i, p))
    → Reservada c t pid ps
unfolding buscar_particion_libre es_apta
reservar_elegida c t pid ps i p hc v si optima =
    let nueva = particion_nueva p t in
    let hecha = get_elem?-add_in_index ps i nueva (particion_recortada p t) p optima.0 in
    record {
      indice = i;
      elegida = p;
      cortadas = cortar i p t ps;
      despues = set (cortar i p t ps) i (asignada p t pid);
      busca =
          rw (si, buscar_particion_libre)
            (simp hc.dinamica (crear_en_indice_lem c t i ps p hc v optima.0 (ground arith)));
      creada = hecha;
      asigna = asignar_lem i pid (cortar i p t ps) nueva hecha;
      valido = cortar-MapaValido c t i pid ps p hc v optima.0 optima.1;
      era = optima.0;
      servia = optima.1;
      forma = refl;
      queda =
          get_elem?-set_self (cortar i p t ps) i (asignada p t pid)
            (get_elem?-lt (cortar i p t ps) i nueva hecha);
    }

-- Under dynamic partitions, in a valid map, the search for `t` bytes never faults. Either no free
-- partition has `t` bytes, and it returns `NULL` and changes nothing; or it cuts a partition of
-- exactly `t` bytes off the front of a free one, and after its assignment to `pid` the partition is
-- not free, belongs to `pid`, and the map is valid.
pub reservar_lem :
    (c : Config) (t pid : ℕ) (ps : List Particion)
    → ConfigDinamica c
    → MapaValido c ps
    → ((buscar_particion_libre c t ps ≡ some (none, ps))
        × ((j : ℕ) (q : Particion) → get_elem? ps j ≡ some q → es_apta t q ≡ false))
      ⊎ Reservada c t pid ps
unfolding buscar_particion_libre
reservar_lem c t pid ps hc v =
    let optima = seleccionar-Optima c.algoritmo t ps hc.algoritmo_valido in
    elim (Option-cases (seleccionar c.algoritmo t ps)) [
      | inl nada ↦ inl (
        rw (nada, buscar_particion_libre) refl,
        subst (Optima (criterio c.algoritmo) t ps) nada optima,
      )
      | inr ((i, p), si) ↦ inr (
          reservar_elegida c t pid ps i p hc v si
            (subst (Optima (criterio c.algoritmo) t ps) si optima))
    ]

-- Under dynamic partitions, `desasignar_particion` of any partition of a valid map does not fault
-- and leaves a valid map: what it frees is merged with its free neighbours.
pub desasignar-MapaValido :
    (c : Config) (ps : List Particion) (i : ℕ) (p : Particion)
    → ConfigDinamica c
    → MapaValido c ps
    → get_elem? ps i ≡ some p
    → (despues : List Particion) × (desasignar_particion c i ps ≡ some despues)
      × MapaValido c despues
unfolding desasignar_particion
desasignar-MapaValido c ps i p hc v e =
    let (k, hk) = por_pid-existe p.pid ps i p e refl in
    (
      consolidar_dos_veces (set ps i (liberar p)),
      rw e (rw hk (rw hc.dinamica refl)),
      record {
        contiguas =
            dos_veces-Contiguas 0 (set ps i (liberar p)) c.tam_memoria
              (omega (arith, hc.cabe_en_int))
              (set-Contiguas 0 ps c.tam_memoria i p (liberar p) refl refl e v.contiguas);
        separadas = dos_veces-SinLibres ps i (liberar p) refl v.separadas;
      },
    )
