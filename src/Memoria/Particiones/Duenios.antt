-- ===== src/Memoria/Particiones/Duenios.antt =====
-- Which partition a process id finds: a free partition keeps the id that stands for none.
use mathlib.Core.List.{Mem, mem-cons, not-mem-nil, mem-cons_self}
use mathlib.Core.List.Perm
use mathlib.Core.Logic.Or
use sist_op_tp2c.Base.{
  ℕ, zero, suc, ◌≡◌, ◌≢◌, refl, ap, subst, false, none, some, List, [], ◌∷◌, arith, ◌==◌,
  Bool-cases, Option-cases, inl, inr, uint32_max, get_elem?, set, ◌⊎◌,
}
use sist_op_tp2c.Memoria.Particiones.{
  Config, Particion, desasignar_particion, liberar, add_in_index, buscar_particion_por_pid,
  consolidar_particiones_libres, consolidar_dos_veces,
}
use sist_op_tp2c.Memoria.Particiones.Ocupadas.{Bloque, bloque_de, ocupadas, ocupadas-liberar}

-- Every free partition has the id UINT32_MAX.
abbrev pub LibresSinPid : List Particion → Type 0
LibresSinPid [] = Unit {0}
LibresSinPid (p ∷ ps) = ((p.esta_libre ≡ false) ⊎ (p.pid ≡ uint32_max)) × LibresSinPid ps

pub por_pid-get :
    (pid : ℕ) (ps : List Particion) (i : ℕ)
    → buscar_particion_por_pid pid ps ≡ some i
    → (p : Particion) × (get_elem? ps i ≡ some p) × (p.pid ≡ pid)
unfolding buscar_particion_por_pid
por_pid-get pid [] i e = cc
por_pid-get pid (p ∷ ps) i e = elim (Bool-cases (p.pid == pid)) [
  | inl si ↦ let cero : i ≡ 0 = ground arith in (p, rw cero refl, ground arith)
  | inr ni ↦ elim (Option-cases (buscar_particion_por_pid pid ps)) [
    | inl nada ↦ absurd (ground arith)
    | inr (j, hay) ↦
        let sigue : i ≡ suc j = ground arith in
        let (q, g, h) = por_pid-get pid ps j hay in (q, rw sigue g, h)
  ]
]

pub libre-pid :
    (ps : List Particion) (i : ℕ) (p : Particion)
    → LibresSinPid ps
    → get_elem? ps i ≡ some p
    → p.pid ≢ uint32_max
    → p.esta_libre ≡ false
libre-pid [] i p s e h = cc
libre-pid (q ∷ ps) zero p s e h = ground arith
libre-pid (q ∷ ps) (suc i) p s e h = libre-pid ps i p s.1 e h

pub nadie-bloque :
    (pid : ℕ) (ps : List Particion) (b : Bloque)
    → buscar_particion_por_pid pid ps ≡ none
    → b.duenio ≡ pid
    → Mem b (ocupadas ps)
    → ⊥
unfolding buscar_particion_por_pid ocupadas
nadie-bloque pid [] b e h m = not-mem-nil m
nadie-bloque pid (p ∷ ps) b e h m =
    let otro : (p.pid == pid) ≡ false = ground arith in
    let resto : buscar_particion_por_pid pid ps ≡ none = ground arith in
    elim (Bool-cases p.esta_libre) [
      | inl si ↦ nadie-bloque pid ps b resto h (rw si at m)
      | inr ni ↦
          Or.elim (λ x y. absurd x) (mem-cons.0 (rw ni at m))
            (λ i. let d = ap (λ (c : Bloque). c.duenio) i in ground arith)
            (nadie-bloque pid ps b resto h)
    ]

pub get-bloque :
    (ps : List Particion) (i : ℕ) (p : Particion)
    → get_elem? ps i ≡ some p
    → p.esta_libre ≡ false
    → Mem (bloque_de p) (ocupadas ps)
get-bloque ps i p e h = (Perm.mem_iff (ocupadas-liberar ps i p e h)).1 mem-cons_self

consolidar-SinPid :
    (ps : List Particion) → LibresSinPid ps → LibresSinPid (consolidar_particiones_libres ps)
unfolding consolidar_particiones_libres
consolidar-SinPid [] s = tt
consolidar-SinPid (p ∷ []) s = s
consolidar-SinPid (p ∷ q ∷ ps) s = ground (arith, consolidar-SinPid (q ∷ ps) s.1)

pub dos_veces-SinPid :
    (ps : List Particion) → LibresSinPid ps → LibresSinPid (consolidar_dos_veces ps)
unfolding consolidar_dos_veces
dos_veces-SinPid ps s =
    let una = consolidar-SinPid ps s in
    ground (arith, consolidar-SinPid (consolidar_particiones_libres ps) una)

pub set-SinPid :
    (ps : List Particion) (i : ℕ) (q : Particion)
    → (q.esta_libre ≡ false) ⊎ (q.pid ≡ uint32_max)
    → LibresSinPid ps
    → LibresSinPid (set ps i q)
set-SinPid [] i q h s = tt
set-SinPid (p ∷ ps) zero q h s = (h, s.1)
set-SinPid (p ∷ ps) (suc i) q h s = (s.0, set-SinPid ps i q h s.1)

pub partir-SinPid :
    (ps : List Particion) (i : ℕ) (n r a : Particion)
    → a.esta_libre ≡ false
    → (r.esta_libre ≡ false) ⊎ (r.pid ≡ uint32_max)
    → LibresSinPid ps
    → LibresSinPid (set (add_in_index i n (set ps i r)) i a)
unfolding add_in_index
partir-SinPid [] zero n r a ha hr s = (inl ha, tt)
partir-SinPid [] (suc i) n r a ha hr s = tt
partir-SinPid (p ∷ ps) zero n r a ha hr s = (inl ha, (hr, s.1))
partir-SinPid (p ∷ ps) (suc i) n r a ha hr s = (s.0, partir-SinPid ps i n r a ha hr s.1)

pub get-SinPid :
    (ps : List Particion) (i : ℕ) (p : Particion)
    → get_elem? ps i ≡ some p
    → LibresSinPid ps
    → (p.esta_libre ≡ false) ⊎ (p.pid ≡ uint32_max)
get-SinPid [] i p e s = cc
get-SinPid (q ∷ ps) zero p e s =
    let igual : q ≡ p = cc in
    subst (λ (x : Particion). (x.esta_libre ≡ false) ⊎ (x.pid ≡ uint32_max)) igual s.0
get-SinPid (q ∷ ps) (suc i) p e s = get-SinPid ps i p e s.1

-- The release of a partition keeps it so.
pub desasignar-SinPid :
    (c : Config) (i : ℕ) (ps ps' : List Particion)
    → desasignar_particion c i ps ≡ some ps'
    → LibresSinPid ps
    → LibresSinPid ps'
unfolding desasignar_particion
desasignar-SinPid c i ps ps' e s = elim (Option-cases (get_elem? ps i)) [
  | inl nada ↦ absurd (ground arith)
  | inr (p, hay) ↦
      let libres = set-SinPid ps i (liberar p) (inr refl) s in
      let juntas = dos_veces-SinPid (set ps i (liberar p)) libres in ground arith
]
