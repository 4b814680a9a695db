-- ===== src/Memoria/Particiones.antt =====
-- memoria/src/particiones.c: the list of partitions of the user memory. A pointer to a partition is
-- its place in the list; `t_list` is a sequence. The outer `Option` is `none` for a null pointer
-- that the C code follows, the inner one for the `NULL` that a function returns.
pub mod Mapa
pub mod Libres
pub mod Busqueda
pub mod Asignacion
pub mod Ocupadas
pub mod Duenios
use sist_op_tp2c.Base.{
  ℕ, zero, suc, Bool, true, false, ◌&&◌, Option, none, some, List, [], ◌∷◌, ◌++◌, add32, sub32,
  uint32_max, uint16_max, ltb, leb, ◌==◌, if◌then◌else◌, ◌>>=◌, length, get_elem?, set,
}

-- ESQUEMA of memoria.config.
pub data Esquema : Type 0 where
  fijas dinamicas otro_esquema : Esquema

-- ALGORITMO_BUSQUEDA of memoria.config.
pub data Algoritmo : Type 0 where
  first best worst otro_algoritmo : Algoritmo

pub record Config : Type 0 where
  pub esquema : Esquema
  pub algoritmo : Algoritmo
  pub tam_memoria : ℕ
  pub particiones_fijas : List ℕ

-- `t_particion`
pub record Particion : Type 0 where
  pub base : ℕ
  pub limite : ℕ
  pub tamanio : ℕ
  pub pid : ℕ
  pub esta_libre : Bool

abbrev pub es_dinamicas : Esquema → Bool
es_dinamicas dinamicas = true
es_dinamicas fijas = false
es_dinamicas otro_esquema = false

-- The last address of a partition; one of size 0 takes its base.
unfoldable pub limite_de : ℕ → ℕ → ℕ
limite_de base tamanio = if ltb 0 tamanio then sub32 (add32 base tamanio) 1 else base

-- Where `crear_particion` starts: after the last partition.
unfoldable pub base_siguiente : List Particion → ℕ
base_siguiente [] = 0
base_siguiente (p ∷ []) = add32 p.limite 1
base_siguiente (p ∷ q ∷ ps) = base_siguiente (q ∷ ps)

unfoldable pub crear_particion : ℕ → List Particion → List Particion
unfolding limite_de base_siguiente
crear_particion tamanio ps =
    ps
    ++ (record {
      base = base_siguiente ps;
      limite = limite_de (base_siguiente ps) tamanio;
      tamanio = tamanio;
      pid = uint32_max;
      esta_libre = true;
    }
        ∷ [])

unfoldable pub crear_particiones : List ℕ → List Particion → List Particion
crear_particiones [] ps = ps
crear_particiones (t ∷ ts) ps = crear_particiones ts (crear_particion t ps)

unfoldable pub inicializar_particiones : Config → List Particion
inicializar_particiones c = elim c.esquema [
  | fijas ↦ crear_particiones c.particiones_fijas []
  | dinamicas ↦ crear_particion c.tam_memoria []
  | otro_esquema ↦ []
]

-- `list_add_in_index`
unfoldable pub add_in_index {ℓ} : {A : Type ℓ} → ℕ → A → List A → List A
add_in_index zero a xs = a ∷ xs
add_in_index (suc i) a [] = []
add_in_index (suc i) a (x ∷ xs) = x ∷ add_in_index i a xs

-- The partition that `crear_particion_en_indice` cuts off the front of `original` ...
unfoldable pub particion_nueva : Particion → ℕ → Particion
unfolding limite_de
particion_nueva original tamanio = record {
  base = original.base;
  limite = limite_de original.base tamanio;
  tamanio = tamanio;
  pid = uint16_max;
  esta_libre = true;
}

-- ... and what is left of `original`.
unfoldable pub particion_recortada : Particion → ℕ → Particion
unfolding limite_de
particion_recortada original tamanio =
    let limite = limite_de original.base tamanio in
    record original {
      base = if tamanio == 0 then limite else add32 limite 1;
      tamanio = sub32 original.tamanio tamanio;
    }

unfoldable pub crear_particion_en_indice :
    Config → ℕ → ℕ → List Particion → Option (Option ℕ × List Particion)
unfolding particion_nueva particion_recortada
crear_particion_en_indice c tamanio indice ps = get_elem? ps indice >>= λ original.
    if ltb c.tam_memoria (particion_nueva original tamanio).limite
    then some (none, ps)
    else some (
      some indice,
      add_in_index indice (particion_nueva original tamanio)
          (set ps indice (particion_recortada original tamanio)),
    )

-- A partition that the search may select.
unfoldable pub es_apta : ℕ → Particion → Bool
es_apta tamanio p = p.esta_libre && leb tamanio p.tamanio

unfoldable pub buscar_first : ℕ → ℕ → List Particion → Option (ℕ × Particion)
unfolding es_apta
buscar_first tamanio i [] = none
buscar_first tamanio i (p ∷ ps) =
    let resto = buscar_first tamanio (suc i) ps in if es_apta tamanio p then some (i, p) else resto

-- One round of the loop of BEST (`ltb` is `<`) and of WORST (`ltb` is `>`).
unfoldable pub reemplaza :
    (ℕ → ℕ → Bool) → ℕ → ℕ → Particion → Option (ℕ × Particion) → Option (ℕ × Particion)
unfolding es_apta
reemplaza mejor tamanio i p none = if es_apta tamanio p then some (i, p) else none
reemplaza mejor tamanio i p (some (j, q)) =
    if es_apta tamanio p && mejor p.tamanio q.tamanio then some (i, p) else some (j, q)

unfoldable pub buscar_extremo :
    (ℕ → ℕ → Bool) → ℕ → ℕ → Option (ℕ × Particion) → List Particion → Option (ℕ × Particion)
buscar_extremo mejor tamanio i seleccionada [] = seleccionada
buscar_extremo mejor tamanio i seleccionada (p ∷ ps) =
    buscar_extremo mejor tamanio (suc i) (reemplaza mejor tamanio i p seleccionada) ps

abbrev pub mayor : ℕ → ℕ → Bool
mayor a b = ltb b a

-- The three loops of `buscar_particion_libre`.
unfoldable pub seleccionar : Algoritmo → ℕ → List Particion → Option (ℕ × Particion)
seleccionar first tamanio ps = buscar_first tamanio 0 ps
seleccionar best tamanio ps = buscar_extremo ltb tamanio 0 none ps
seleccionar worst tamanio ps = buscar_extremo mayor tamanio 0 none ps
seleccionar otro_algoritmo tamanio ps = none

unfoldable pub buscar_particion_libre :
    Config → ℕ → List Particion → Option (Option ℕ × List Particion)
buscar_particion_libre c tamanio ps = elim (seleccionar c.algoritmo tamanio ps) [
  | none ↦ some (none, ps)
  | some (i, p) ↦
      if es_dinamicas c.esquema then crear_particion_en_indice c tamanio i ps else some (some i, ps)
]

-- `list_find` by `tiene_pid_auxiliar`; also the loop that only logs in `asignar_particion` and in
-- `desasignar_particion`, which follows a null pointer where this is `none`.
unfoldable pub buscar_particion_por_pid : ℕ → List Particion → Option ℕ
buscar_particion_por_pid pid [] = none
buscar_particion_por_pid pid (p ∷ ps) =
    let resto = buscar_particion_por_pid pid ps in
    if p.pid == pid then some 0 else resto >>= λ i. some (suc i)

unfoldable pub asignar_particion : ℕ → ℕ → List Particion → Option (List Particion)
asignar_particion i pid ps = get_elem? ps i >>= λ p.
    let asignadas = set ps i (record p { pid = pid; esta_libre = false }) in
    buscar_particion_por_pid pid asignadas >>= λ _. some asignadas

-- Two free neighbours made one, in the first.
unfoldable pub fusionar : Particion → Particion → Particion
fusionar actual siguiente = record actual {
  tamanio = add32 actual.tamanio siguiente.tamanio;
  limite = add32 actual.base (add32 actual.tamanio siguiente.tamanio);
}

-- The loop stops after the first pair that it merges.
unfoldable pub consolidar_particiones_libres : List Particion → List Particion
unfolding fusionar
consolidar_particiones_libres [] = []
consolidar_particiones_libres (p ∷ []) = p ∷ []
consolidar_particiones_libres (p ∷ q ∷ ps) =
    let resto = consolidar_particiones_libres (q ∷ ps) in
    if p.esta_libre && q.esta_libre then fusionar p q ∷ ps else p ∷ resto

abbrev pub liberar : Particion → Particion
liberar p = record p { pid = uint32_max; esta_libre = true }

unfoldable pub consolidar_dos_veces : List Particion → List Particion
consolidar_dos_veces ps =
    let una = consolidar_particiones_libres ps in
    if ltb 1 (length una) then consolidar_particiones_libres una else una

unfoldable pub desasignar_particion : Config → ℕ → List Particion → Option (List Particion)
desasignar_particion c i ps = get_elem? ps i >>= λ p. buscar_particion_por_pid p.pid ps >>= λ _.
    let liberadas = set ps i (liberar p) in
    some (if es_dinamicas c.esquema then consolidar_dos_veces liberadas else liberadas)
