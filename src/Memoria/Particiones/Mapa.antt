-- ===== src/Memoria/Particiones/Mapa.antt =====
-- The map of the user memory: the partitions lie one after the other, from address 0 to the end of
-- the memory.
use sist_op_tp2c.Base.{
  ℕ, zero, suc, ◌+◌, ◌-◌, ◌≤◌, ◌<◌, ◌≡◌, ◌≢◌, ◌⊎◌, sym, subst, ap, ◌∙◌, inl, inr, ◌&&◌, some, List,
  [], ◌∷◌, u32_mod, arith, length, get_elem?, set, Bool-cases, ltb,
}
use sist_op_tp2c.Memoria.Particiones.{
  Particion, limite_de, particion_nueva, particion_recortada, add_in_index,
  consolidar_particiones_libres, consolidar_dos_veces,
}

-- Each partition starts where the one before it ends; the first starts at `b`, the last ends at `f`.
abbrev pub Contiguas : ℕ → List Particion → ℕ → Type 0
Contiguas b [] f = b ≡ f
Contiguas b (p ∷ ps) f = (p.base ≡ b) × Contiguas (b + p.tamanio) ps f

pub Contiguas-le : (b : ℕ) (ps : List Particion) (f : ℕ) → Contiguas b ps f → b ≤ f
Contiguas-le b [] f h = omega arith
Contiguas-le b (p ∷ ps) f h = omega (arith, Contiguas-le (b + p.tamanio) ps f h.1)

-- A partition of the map lies inside it.
pub Contiguas-get :
    (b : ℕ) (ps : List Particion) (f i : ℕ) (p : Particion)
    → Contiguas b ps f
    → get_elem? ps i ≡ some p
    → (b ≤ p.base) × (p.base + p.tamanio ≤ f)
Contiguas-get b [] f i p h e = cc
Contiguas-get b (q ∷ ps) f zero p h e = ground (arith, Contiguas-le (b + q.tamanio) ps f h.1)
Contiguas-get b (q ∷ ps) f (suc i) p h e =
    omega (arith, Contiguas-get (b + q.tamanio) ps f i p h.1 e)

-- Two partitions of the map with different owners do not overlap.
pub Contiguas-separadas :
    (b : ℕ) (ps : List Particion) (f i j : ℕ) (p q : Particion)
    → Contiguas b ps f
    → p.pid ≢ q.pid
    → get_elem? ps i ≡ some p
    → get_elem? ps j ≡ some q
    → (p.base + p.tamanio ≤ q.base) ⊎ (q.base + q.tamanio ≤ p.base)
Contiguas-separadas b [] f i j p q h d ep eq = cc
Contiguas-separadas b (x ∷ ps) f zero zero p q h d ep eq = absurd (d (ground arith))
Contiguas-separadas b (x ∷ ps) f zero (suc j) p q h d ep eq =
    ground (arith, Contiguas-get (b + x.tamanio) ps f j q h.1 eq)
Contiguas-separadas b (x ∷ ps) f (suc i) zero p q h d ep eq =
    ground (arith, Contiguas-get (b + x.tamanio) ps f i p h.1 ep)
Contiguas-separadas b (x ∷ ps) f (suc i) (suc j) p q h d ep eq =
    Contiguas-separadas (b + x.tamanio) ps f i j p q h.1 d ep eq

pub nueva_campos :
    (p : Particion) (t : ℕ)
    → p.base + p.tamanio < u32_mod
    → t ≤ p.tamanio
    → ((particion_nueva p t).limite ≤ p.base + t)
      × ((particion_recortada p t).base ≡ p.base + t)
      × ((particion_recortada p t).tamanio ≡ p.tamanio - t)
unfolding particion_nueva particion_recortada limite_de
nueva_campos p t h k = ground arith

partir_primera-Contiguas :
    (b : ℕ) (q : Particion) (ps : List Particion) (f t : ℕ)
    → f < u32_mod
    → t ≤ q.tamanio
    → Contiguas b (q ∷ ps) f
    → Contiguas b (particion_nueva q t ∷ particion_recortada q t ∷ ps) f
unfolding particion_nueva
partir_primera-Contiguas b q ps f t hf ht h =
    let le = Contiguas-le (b + q.tamanio) ps f h.1 in
    let campos = nueva_campos q t (omega arith) ht in
    (h.0, (omega arith, subst (λ s. Contiguas s ps f) (omega arith) h.1))

-- Cutting a partition keeps the map.
pub partir-Contiguas :
    (b : ℕ) (ps : List Particion) (f i : ℕ) (p : Particion) (t : ℕ)
    → f < u32_mod
    → t ≤ p.tamanio
    → get_elem? ps i ≡ some p
    → Contiguas b ps f
    → Contiguas b (add_in_index i (particion_nueva p t) (set ps i (particion_recortada p t))) f
unfolding add_in_index
partir-Contiguas b [] f i p t hf ht e h = cc
partir-Contiguas b (q ∷ ps) f zero p t hf ht e h =
    let primera : q ≡ p = cc in
    subst (λ x. Contiguas b (particion_nueva x t ∷ particion_recortada x t ∷ ps) f) primera
      (partir_primera-Contiguas b q ps f t hf (rw primera ht) h)
partir-Contiguas b (q ∷ ps) f (suc i) p t hf ht e h =
    (h.0, partir-Contiguas (b + q.tamanio) ps f i p t hf ht e h.1)

-- A change of owner keeps the map.
pub set-Contiguas :
    (b : ℕ) (ps : List Particion) (f i : ℕ) (p q : Particion)
    → q.base ≡ p.base
    → q.tamanio ≡ p.tamanio
    → get_elem? ps i ≡ some p
    → Contiguas b ps f
    → Contiguas b (set ps i q) f
set-Contiguas b [] f i p q hb ht e h = cc
set-Contiguas b (x ∷ ps) f zero p q hb ht e h =
    let primera : x ≡ p = cc in
    (
      omega (arith, ap (λ (y : Particion). y.base) primera, h.0),
      subst (λ n. Contiguas (b + n) ps f) (ap (λ (y : Particion). y.tamanio) primera ∙ sym ht) h.1,
    )
set-Contiguas b (x ∷ ps) f (suc i) p q hb ht e h =
    (h.0, set-Contiguas (b + x.tamanio) ps f i p q hb ht e h.1)

-- Merging two free neighbours keeps the map.
pub consolidar-Contiguas :
    (b : ℕ) (ps : List Particion) (f : ℕ)
    → f < u32_mod
    → Contiguas b ps f
    → Contiguas b (consolidar_particiones_libres ps) f
unfolding consolidar_particiones_libres
consolidar-Contiguas b [] f hf h = h
consolidar-Contiguas b (p ∷ []) f hf h = h
consolidar-Contiguas b (p ∷ q ∷ ps) f hf h = elim (Bool-cases (p.esta_libre && q.esta_libre)) [
  | inl si ↦
      let le = Contiguas-le (b + p.tamanio + q.tamanio) ps f h.1.1 in
      rw si (h.0, subst (λ n. Contiguas n ps f) (omega arith) h.1.1)
  | inr ni ↦ rw ni (h.0, consolidar-Contiguas (b + p.tamanio) (q ∷ ps) f hf h.1)
]

pub dos_veces-Contiguas :
    (b : ℕ) (ps : List Particion) (f : ℕ)
    → f < u32_mod
    → Contiguas b ps f
    → Contiguas b (consolidar_dos_veces ps) f
unfolding consolidar_dos_veces
dos_veces-Contiguas b ps f hf h =
    let una = consolidar-Contiguas b ps f hf h in
    elim (Bool-cases (ltb 1 (length (consolidar_particiones_libres ps)))) [
      | inl si ↦ rw si (consolidar-Contiguas b (consolidar_particiones_libres ps) f hf una)
      | inr ni ↦ rw ni una
    ]
