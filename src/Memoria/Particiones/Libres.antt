-- ===== src/Memoria/Particiones/Libres.antt =====
-- Free neighbours: allocation never makes two, and freeing a partition merges those that it makes.
use sist_op_tp2c.Base.{
  ℕ, zero, suc, ◌≡◌, refl, ap, ◌∙◌, inl, inr, Bool, true, false, ◌&&◌, some, List, [], ◌∷◌,
  if◌then◌else◌, arith, length, get_elem?, set, Bool-cases, ltb,
}
use sist_op_tp2c.Memoria.Particiones.{
  Particion, add_in_index, fusionar, consolidar_particiones_libres, consolidar_dos_veces,
}

abbrev pub cabeza_libre : List Particion → Bool
cabeza_libre [] = false
cabeza_libre (p ∷ ps) = p.esta_libre

-- No two neighbours are free.
abbrev pub SinLibresContiguas : List Particion → Type 0
SinLibresContiguas [] = Unit {0}
SinLibresContiguas (p ∷ ps) = ((p.esta_libre && cabeza_libre ps) ≡ false) × SinLibresContiguas ps

consolidar-cabeza :
    (ps : List Particion) → cabeza_libre (consolidar_particiones_libres ps) ≡ cabeza_libre ps
unfolding consolidar_particiones_libres
consolidar-cabeza [] = refl
consolidar-cabeza (p ∷ []) = refl
consolidar-cabeza (p ∷ q ∷ ps) = ground arith

consolidar-paso :
    (p : Particion) (ps : List Particion)
    → (p.esta_libre && cabeza_libre ps) ≡ false
    → consolidar_particiones_libres (p ∷ ps) ≡ p ∷ consolidar_particiones_libres ps
unfolding consolidar_particiones_libres
consolidar-paso p [] h = refl
consolidar-paso p (q ∷ ps) h = rw h

consolidar-fijo :
    (ps : List Particion) → SinLibresContiguas ps → consolidar_particiones_libres ps ≡ ps
unfolding consolidar_particiones_libres
consolidar-fijo [] h = refl
consolidar-fijo (p ∷ ps) h = consolidar-paso p ps h.0 ∙ ap (◌∷◌ p) (consolidar-fijo ps h.1)

-- A free partition in front of a merged map: one pass merges the whole.
consolidar_cabeza-SinLibres :
    (l : Particion) (ps : List Particion)
    → l.esta_libre ≡ true
    → SinLibresContiguas ps
    → SinLibresContiguas (consolidar_particiones_libres (l ∷ ps))
unfolding consolidar_particiones_libres
consolidar_cabeza-SinLibres l [] hl h = ground arith
consolidar_cabeza-SinLibres l (q ∷ ps) hl h = ground (arith, consolidar-fijo (q ∷ ps) h)

-- After one partition of a merged map turns free, two passes merge the map again.
pub dos_pasadas-SinLibres :
    (ps : List Particion) (i : ℕ) (l : Particion)
    → l.esta_libre ≡ true
    → SinLibresContiguas ps
    → SinLibresContiguas
        (consolidar_particiones_libres (consolidar_particiones_libres (set ps i l)))
unfolding consolidar_particiones_libres
dos_pasadas-SinLibres [] i l hl h = tt
dos_pasadas-SinLibres (p ∷ ps) zero l hl h =
    let una = consolidar_cabeza-SinLibres l ps hl h.1 in
    rw (consolidar-fijo (consolidar_particiones_libres (l ∷ ps)) una) una
dos_pasadas-SinLibres (p ∷ ps) (suc i) l hl h =
    elim (Bool-cases (p.esta_libre && cabeza_libre (set ps i l))) [
      | inl si ↦ juntas p ps i l hl h si
      | inr ni ↦
          let w = set ps i l in
          let igual = consolidar-cabeza w in
          let segunda : (p.esta_libre && cabeza_libre (consolidar_particiones_libres w)) ≡ false =
            rw igual ni in
          rw (consolidar-paso p w ni) (
            rw (consolidar-paso p (consolidar_particiones_libres w) segunda) (
              rw (consolidar-cabeza (consolidar_particiones_libres w)) segunda,
              dos_pasadas-SinLibres ps i l hl h.1,
            ))
    ]
  where
    juntas :
        (p : Particion) (ps : List Particion) (i : ℕ) (l : Particion)
        → l.esta_libre ≡ true
        → SinLibresContiguas (p ∷ ps)
        → (p.esta_libre && cabeza_libre (set ps i l)) ≡ true
        → SinLibresContiguas
            (consolidar_particiones_libres (consolidar_particiones_libres (p ∷ set ps i l)))
    juntas p [] i l hl h si = ground arith
    juntas p (q ∷ ps) zero l hl h si =
        rw si
          (consolidar_cabeza-SinLibres (fusionar p l) ps (unfold fusionar in ground arith) h.1.1)
    juntas p (q ∷ ps) (suc i) l hl h si = ground arith

segunda_pasada :
    (una : List Particion)
    → (if ltb 1 (length una) then consolidar_particiones_libres una else una)
      ≡ consolidar_particiones_libres una
unfolding consolidar_particiones_libres
segunda_pasada [] = refl
segunda_pasada (p ∷ []) = refl
segunda_pasada (p ∷ q ∷ ps) = ground arith

pub dos_veces-SinLibres :
    (ps : List Particion) (i : ℕ) (l : Particion)
    → l.esta_libre ≡ true
    → SinLibresContiguas ps
    → SinLibresContiguas (consolidar_dos_veces (set ps i l))
unfolding consolidar_dos_veces
dos_veces-SinLibres ps i l hl h =
    rw (segunda_pasada (consolidar_particiones_libres (set ps i l)))
      (dos_pasadas-SinLibres ps i l hl h)

cabeza-partir :
    (x : Particion) (ps : List Particion) (i : ℕ) (n r a : Particion)
    → a.esta_libre ≡ false
    → (x.esta_libre && cabeza_libre ps) ≡ false
    → (x.esta_libre && cabeza_libre (set (add_in_index i n (set ps i r)) i a)) ≡ false
unfolding add_in_index
cabeza-partir x [] zero n r a ha h = ground arith
cabeza-partir x [] (suc i) n r a ha h = h
cabeza-partir x (q ∷ ps) zero n r a ha h = ground arith
cabeza-partir x (q ∷ ps) (suc i) n r a ha h = h

-- An assigned partition cut off a free one makes no free neighbours.
pub partir-SinLibres :
    (ps : List Particion) (i : ℕ) (p n r a : Particion)
    → a.esta_libre ≡ false
    → r.esta_libre ≡ p.esta_libre
    → get_elem? ps i ≡ some p
    → SinLibresContiguas ps
    → SinLibresContiguas (set (add_in_index i n (set ps i r)) i a)
unfolding add_in_index
partir-SinLibres [] i p n r a ha hr e h = cc
partir-SinLibres (x ∷ ps) zero p n r a ha hr e h = ground arith
partir-SinLibres (x ∷ ps) (suc i) p n r a ha hr e h =
    (cabeza-partir x ps i n r a ha h.0, partir-SinLibres ps i p n r a ha hr e h.1)
