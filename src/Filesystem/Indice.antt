-- ===== src/Filesystem/Indice.antt =====
-- filesystem/src/main.c: the free blocks that a dump takes, and the numbers in its index block.
use native.Mathlib.Nat.{div-add-mod', mod-lt}
use sist_op_tp2c.Base.{
  ℕ, zero, suc, ◌+◌, ◌-◌, ◌*◌, ◌/◌, ◌≤◌, ◌<◌, ◌≡◌, ◌≢◌, refl, ap, ◌∙◌, Bool, true, false, List, [],
  ◌∷◌, length, take, drop, arith, All, u32_mod,
}
use sist_op_tp2c.Utils.Buffer.{bytes32, valor32}
use sist_op_tp2c.Utils.Buffer.Lectura.{valor32-bytes32}
use sist_op_tp2c.Filesystem.{libres_desde, indices}
use sist_op_tp2c.Filesystem.Lectura.{leer_indices}

pub mul_paso : (q b s : ℕ) → q < b → q * s + s ≤ b * s
mul_paso q b s h = grind arith

pub All-map : {P Q : ℕ → Type 0} → ((b : ℕ) → P b → Q b) → (bs : List ℕ) → All P bs → All Q bs
All-map f [] h = tt
All-map f (b ∷ bs) h = (f b h.0, All-map f bs h.1)

-- Every block of a list lies in the file of blocks.
abbrev pub Caben : ℕ → ℕ → List ℕ → Type 0
Caben s largo = All (λ b. b * s + s ≤ largo)

abbrev pub Separados : List ℕ → Type 0
Separados [] = Unit
Separados (b ∷ bs) = All (λ x. x ≢ b) bs × Separados bs

pub length-indices : (ds : List ℕ) → length (indices ds) ≡ 4 * length ds
unfolding indices
length-indices [] = omega arith
length-indices (d ∷ ds) = omega (arith, length-indices ds)

-- The numbers of the index block.
pub leer-indices :
    (ds bytes : List ℕ)
    → All (λ d. d < u32_mod) ds
    → take (length (indices ds)) bytes ≡ indices ds
    → leer_indices (length ds) bytes ≡ ds
unfolding leer_indices indices
leer-indices [] bytes h e = refl
leer-indices (d ∷ ds) [] h e = cc
leer-indices (d ∷ ds) (a ∷ []) h e = cc
leer-indices (d ∷ ds) (a ∷ b ∷ []) h e = cc
leer-indices (d ∷ ds) (a ∷ b ∷ c ∷ []) h e = cc
leer-indices (d ∷ ds) (a ∷ b ∷ c ∷ x ∷ bytes) h e =
    let cuatro : a ∷ b ∷ c ∷ x ∷ [] ≡ bytes32 d = ap (take 4) e in
    let resto : take (length (indices ds)) bytes ≡ indices ds = ap (drop 4) e in
    let uno : valor32 (a ∷ b ∷ c ∷ x ∷ []) ≡ d = ap valor32 cuatro ∙ valor32-bytes32 d h.0 in
    let sigue = leer-indices ds bytes h.1 resto in
    ap (λ v. v ∷ leer_indices (length ds) bytes) uno ∙ ap (◌∷◌ d) sigue

-- The free blocks that are found: in order, inside the bitmap.
pub libres-desde :
    (i n : ℕ) (bits : List Bool)
    → All (λ b. (i ≤ b) × (b < i + length bits)) (libres_desde i n bits)
unfolding libres_desde
libres-desde i zero bits = tt
libres-desde i (suc n) [] = tt
libres-desde i (suc n) (true ∷ bits) =
    All-map (λ b h. (omega arith, omega arith)) (libres_desde (suc i) (suc n) bits)
      (libres-desde (suc i) (suc n) bits)
libres-desde i (suc n) (false ∷ bits) = (
  (omega arith, omega arith),
  All-map (λ b h. (omega arith, omega arith)) (libres_desde (suc i) n bits)
      (libres-desde (suc i) n bits),
)

pub libres-Separados : (i n : ℕ) (bits : List Bool) → Separados (libres_desde i n bits)
unfolding libres_desde
libres-Separados i zero bits = tt
libres-Separados i (suc n) [] = tt
libres-Separados i (suc n) (true ∷ bits) = libres-Separados (suc i) (suc n) bits
libres-Separados i (suc n) (false ∷ bits) = (
  All-map (λ b h e. omega arith) (libres_desde (suc i) n bits) (libres-desde (suc i) n bits),
  libres-Separados (suc i) n bits,
)

-- The blocks that a contents of `t` bytes needs hold it.
pub bloques-alcanzan : (t s : ℕ) → 0 < s → t ≤ (t + s - 1) / s * s
bloques-alcanzan t s h = omega (arith, div-add-mod' (t + s - 1) s, mod-lt (t + s - 1) h)
