-- ===== src/Memoria/Particiones/Ocupadas.antt =====
-- The abstract view of the memory: which block of addresses each process holds.
use mathlib.Core.List.{Perm}
use mathlib.Core.List.Perm
use sist_op_tp2c.Base.{
  ℕ, zero, suc, ◌+◌, ◌≤◌, ◌<◌, ◌≡◌, refl, inl, inr, true, false, some, List, [], ◌∷◌, arith,
  get_elem?, set, Bool-cases, if◌then◌else◌,
}
use sist_op_tp2c.Memoria.Particiones.{
  Config, Particion, particion_nueva, particion_recortada, add_in_index, es_apta,
  consolidar_particiones_libres, consolidar_dos_veces, desasignar_particion, liberar, es_dinamicas,
}
use sist_op_tp2c.Memoria.Particiones.Mapa.{Contiguas, Contiguas-get}
use sist_op_tp2c.Memoria.Particiones.Asignacion.{por_pid-existe, Reservada, asignada}

pub record Bloque : Type 0 where
  pub duenio : ℕ
  pub desde : ℕ
  pub largo : ℕ

abbrev pub bloque_de : Particion → Bloque
bloque_de p = record { duenio = p.pid; desde = p.base; largo = p.tamanio }

-- The blocks that processes hold, by address.
unfoldable pub ocupadas : List Particion → List Bloque
ocupadas [] = []
ocupadas (p ∷ ps) = if p.esta_libre then ocupadas ps else bloque_de p ∷ ocupadas ps

-- Merging free partitions moves no block of a process.
ocupadas-consolidar :
    (ps : List Particion) → ocupadas (consolidar_particiones_libres ps) ≡ ocupadas ps
unfolding ocupadas consolidar_particiones_libres
ocupadas-consolidar [] = refl
ocupadas-consolidar (p ∷ []) = refl
ocupadas-consolidar (p ∷ q ∷ ps) = ground (arith, ocupadas-consolidar (q ∷ ps))

ocupadas-dos_veces : (ps : List Particion) → ocupadas (consolidar_dos_veces ps) ≡ ocupadas ps
unfolding consolidar_dos_veces
ocupadas-dos_veces ps =
    ground (arith, ocupadas-consolidar ps, ocupadas-consolidar (consolidar_particiones_libres ps))

pub ocupadas-liberar :
    (ps : List Particion) (i : ℕ) (p : Particion)
    → get_elem? ps i ≡ some p
    → p.esta_libre ≡ false
    → Perm (ocupadas ps) (bloque_de p ∷ ocupadas (set ps i (liberar p)))
unfolding ocupadas
ocupadas-liberar [] i p e h = cc
ocupadas-liberar (q ∷ ps) zero p e h = let igual : q ≡ p = cc in rw (igual, h) (Perm.refl _)
ocupadas-liberar (q ∷ ps) (suc i) p e h = elim (Bool-cases q.esta_libre) [
  | inl si ↦ rw si (ocupadas-liberar ps i p e h)
  | inr no_libre ↦ rw no_libre (
      Perm.trans (Perm.cons (bloque_de q) (ocupadas-liberar ps i p e h))
        (Perm.swap (bloque_de p) (bloque_de q) _))
]

ocupadas-cortar :
    (ps : List Particion) (i : ℕ) (p n r a : Particion)
    → a.esta_libre ≡ false
    → r.esta_libre ≡ true
    → p.esta_libre ≡ true
    → get_elem? ps i ≡ some p
    → Perm (ocupadas (set (add_in_index i n (set ps i r)) i a)) (bloque_de a ∷ ocupadas ps)
unfolding ocupadas add_in_index
ocupadas-cortar [] i p n r a ha hr hp e = cc
ocupadas-cortar (q ∷ ps) zero p n r a ha hr hp e =
    let igual : q ≡ p = cc in rw (igual, ha, hr, hp) (Perm.refl _)
ocupadas-cortar (q ∷ ps) (suc i) p n r a ha hr hp e = elim (Bool-cases q.esta_libre) [
  | inl si ↦ rw si (ocupadas-cortar ps i p n r a ha hr hp e)
  | inr no_libre ↦ rw no_libre (
      Perm.trans (Perm.cons (bloque_de q) (ocupadas-cortar ps i p n r a ha hr hp e))
        (Perm.swap (bloque_de a) (bloque_de q) _))
]

-- An allocation adds to the blocks in use one block, of the asked size, for the process, and moves
-- no other.
pub ocupadas-reservar :
    (c : Config) (t pid : ℕ) (ps : List Particion) (r : Reservada c t pid ps)
    → Perm
        (ocupadas r.despues)
        (record { duenio = pid; desde = r.elegida.base; largo = t } ∷ ocupadas ps)
unfolding es_apta particion_nueva particion_recortada
ocupadas-reservar c t pid ps r =
    let libre : r.elegida.esta_libre ≡ true = let s = r.servia in ground arith in
    rw r.forma (
      ocupadas-cortar ps r.indice r.elegida (particion_nueva r.elegida t)
        (particion_recortada r.elegida t) (asignada r.elegida t pid) refl libre libre r.era)

-- The release of a partition in use does not fault under any scheme, takes away exactly its block,
-- and leaves the blocks of the other processes where they were.
pub ocupadas-desasignar :
    (c : Config) (ps : List Particion) (i : ℕ) (p : Particion)
    → get_elem? ps i ≡ some p
    → p.esta_libre ≡ false
    → (despues : List Particion) × (desasignar_particion c i ps ≡ some despues)
      × Perm (ocupadas ps) (bloque_de p ∷ ocupadas despues)
unfolding desasignar_particion
ocupadas-desasignar c ps i p e h =
    let (k, hk) = por_pid-existe p.pid ps i p e refl in
    let libres = set ps i (liberar p) in
    elim (Bool-cases (es_dinamicas c.esquema)) [
      | inl si ↦ (
        consolidar_dos_veces libres,
        rw e (rw hk (rw si refl)),
        rw (ocupadas-dos_veces libres) (ocupadas-liberar ps i p e h),
      )
      | inr no_din ↦ (libres, rw e (rw hk (rw no_din refl)), ocupadas-liberar ps i p e h)
    ]

-- In a contiguous map a partition ends before every later one starts.
pub disjuntas :
    (b : ℕ) (ps : List Particion) (f i j : ℕ) (p q : Particion)
    → Contiguas b ps f
    → get_elem? ps i ≡ some p
    → get_elem? ps j ≡ some q
    → i < j
    → p.base + p.tamanio ≤ q.base
disjuntas b [] f i j p q h e d k = cc
disjuntas b (x ∷ ps) f zero zero p q h e d k = absurd (omega arith)
disjuntas b (x ∷ ps) f zero (suc j) p q h e d k =
    let igual : x ≡ p = cc in
    let lejos = Contiguas-get (b + x.tamanio) ps f j q h.1 d in ground arith
disjuntas b (x ∷ ps) f (suc i) zero p q h e d k = absurd (omega arith)
disjuntas b (x ∷ ps) f (suc i) (suc j) p q h e d k =
    disjuntas (b + x.tamanio) ps f i j p q h.1 e d (omega arith)
