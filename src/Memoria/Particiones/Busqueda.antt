-- ===== src/Memoria/Particiones/Busqueda.antt =====
-- What the search of a free partition selects, for each value of ALGORITMO_BUSQUEDA.
use mathlib.Core.Bool.{false≢true}
use sist_op_tp2c.Base.{
  ℕ, suc, ◌<◌, ◌≡◌, refl, sym, subst, ◌∙◌, ◌≢◌, inl, inr, Bool, true, false, ◌&&◌, Option, none,
  some, List, [], ◌∷◌, ◌++◌, append_assoc, append-nil, arith, length, get_elem?, length-append,
  get_elem?-snoc, get_elem?-append_left, get_elem?-last, get_elem?-middle, get_elem?-prefix,
  get_elem?-lt, Bool-cases, ltb,
}
use sist_op_tp2c.Memoria.Particiones.{
  Particion, Algoritmo, first, best, worst, otro_algoritmo, es_apta, buscar_first, reemplaza,
  buscar_extremo, mayor, seleccionar,
}

-- What `vistas` holds is a fit that none of the fits beats, and that beats each fit before it.
abbrev pub Optima : (ℕ → ℕ → Bool) → ℕ → List Particion → Option (ℕ × Particion) → Type 0
Optima mejor t vistas none =
    (j : ℕ) (q : Particion) → get_elem? vistas j ≡ some q → es_apta t q ≡ false
Optima mejor t vistas (some (i, p)) =
    (get_elem? vistas i ≡ some p)
    × (es_apta t p ≡ true)
    × ((j : ℕ) (q : Particion)
        → get_elem? vistas j ≡ some q
        → es_apta t q ≡ true
        → (mejor q.tamanio p.tamanio ≡ false) × (j < i → mejor p.tamanio q.tamanio ≡ true))

-- FIRST beats nothing by size, so what beats each fit before it has no fit before it.
abbrev pub criterio : Algoritmo → ℕ → ℕ → Bool
criterio first a b = false
criterio best a b = ltb a b
criterio worst a b = mayor a b
criterio otro_algoritmo a b = false

module _ (mejor : ℕ → ℕ → Bool) (asim : (a b : ℕ) → mejor a b ≡ true → mejor b a ≡ false)
    (trans : (a b c : ℕ) → mejor a b ≡ true → mejor c b ≡ false → mejor c a ≡ false)
    (mantiene : (a b c : ℕ) → mejor a b ≡ true → mejor c b ≡ false → mejor a c ≡ true) (t : ℕ) where
  irrefl : (a : ℕ) → mejor a a ≡ false
  irrefl a = elim (Bool-cases (mejor a a)) [ inl si ↦ asim a a si | inr ni ↦ ni ]

  -- One round of the loop keeps the selection optimal.
  reemplaza-Optima :
      (vistas : List Particion) (p : Particion) (sel : Option (ℕ × Particion))
      → Optima mejor t vistas sel
      → Optima mejor t (vistas ++ p ∷ []) (reemplaza mejor t (length vistas) p sel)
  unfolding reemplaza
  reemplaza-Optima vistas p none h = elim (Bool-cases (es_apta t p)) [
    | inl si ↦ rw si (
      get_elem?-last vistas p,
      si,
      λ j q e a. elim (get_elem?-snoc vistas p j q e) [
        | inl (_, v) ↦ absurd (false≢true (sym (h j q v) ∙ a))
        | inr (v, w) ↦ (
          subst (λ (y : Particion). mejor y.tamanio p.tamanio ≡ false) w (irrefl p.tamanio),
          λ k. absurd (omega arith),
        )
      ],
    )
    | inr ni ↦ rw ni (λ j q e. elim (get_elem?-snoc vistas p j q e) [
      | inl (_, v) ↦ h j q v
      | inr (_, w) ↦ subst (λ y. es_apta t y ≡ false) w ni
    ])
  ]
  reemplaza-Optima vistas p (some (i, s)) h =
      elim (Bool-cases (es_apta t p && mejor p.tamanio s.tamanio)) [
        | inl si ↦ rw si (
          get_elem?-last vistas p,
          ground arith,
          λ j q e a. elim (get_elem?-snoc vistas p j q e) [
            | inl (_, v) ↦
                let peor = (h.2 j q v a).0 in
                (
                  trans p.tamanio s.tamanio q.tamanio (ground arith) peor,
                  λ _. mantiene p.tamanio s.tamanio q.tamanio (ground arith) peor,
                )
            | inr (v, w) ↦ (
              subst (λ (y : Particion). mejor y.tamanio p.tamanio ≡ false) w (irrefl p.tamanio),
              λ k. absurd (omega arith),
            )
          ],
        )
        | inr ni ↦ rw ni (
          get_elem?-append_left vistas (p ∷ []) i s h.0,
          h.1,
          λ j q e a. elim (get_elem?-snoc vistas p j q e) [
            | inl (_, v) ↦ h.2 j q v a
            | inr (v, w) ↦
                let apta : es_apta t p ≡ true = subst (λ y. es_apta t y ≡ true) (sym w) a in
                (
                  subst (λ (y : Particion). mejor y.tamanio s.tamanio ≡ false) w (ground arith),
                  λ k. absurd (omega (arith, get_elem?-lt vistas i s h.0)),
                )
          ],
        )
      ]

  pub buscar_extremo-Optima :
      (vistas ps : List Particion) (sel : Option (ℕ × Particion))
      → Optima mejor t vistas sel
      → Optima mejor t (vistas ++ ps) (buscar_extremo mejor t (length vistas) sel ps)
  unfolding buscar_extremo
  buscar_extremo-Optima vistas [] sel h = rw append-nil h
  buscar_extremo-Optima vistas (p ∷ ps) sel h =
      let w = vistas ++ p ∷ [] in
      let largo : length w ≡ suc (length vistas) = omega (arith, length-append vistas (p ∷ [])) in
      subst
        (λ n.
          Optima mejor t (vistas ++ p ∷ ps)
            (buscar_extremo mejor t n (reemplaza mejor t (length vistas) p sel) ps))
        largo
        (subst
          (λ l.
            Optima mejor t l
              (buscar_extremo mejor t (length w) (reemplaza mejor t (length vistas) p sel) ps))
          (append_assoc vistas (p ∷ []) ps)
          (buscar_extremo-Optima w ps (reemplaza mejor t (length vistas) p sel)
            (reemplaza-Optima vistas p sel h)))

-- FIRST selects the first fit.
buscar_first-Optima :
    (t : ℕ) (vistas ps : List Particion)
    → ((j : ℕ) (q : Particion) → get_elem? vistas j ≡ some q → es_apta t q ≡ false)
    → Optima (criterio first) t (vistas ++ ps) (buscar_first t (length vistas) ps)
unfolding buscar_first
buscar_first-Optima t vistas [] h = rw append-nil h
buscar_first-Optima t vistas (p ∷ ps) h = elim (Bool-cases (es_apta t p)) [
  | inl si ↦ rw si (
    get_elem?-middle vistas p ps,
    si,
    λ j q e a. (
      refl,
      λ k. absurd (false≢true (sym (h j q (get_elem?-prefix vistas (p ∷ ps) j q k e)) ∙ a)),
    ),
  )
  | inr ni ↦
      let w = vistas ++ p ∷ [] in
      let largo : length w ≡ suc (length vistas) = omega (arith, length-append vistas (p ∷ [])) in
      rw ni (
        subst (λ n. Optima (criterio first) t (vistas ++ p ∷ ps) (buscar_first t n ps)) largo
          (subst (λ l. Optima (criterio first) t l (buscar_first t (length w) ps))
            (append_assoc vistas (p ∷ []) ps)
            (buscar_first-Optima t w ps (λ j q e. elim (get_elem?-snoc vistas p j q e) [
              | inl (_, v) ↦ h j q v
              | inr (_, v) ↦ subst (λ y. es_apta t y ≡ false) v ni
            ]))))
]

-- The search selects a free partition at least as large as asked whenever there is one; FIRST takes
-- the first of them, BEST the first of the smallest and WORST the first of the largest.
pub seleccionar-Optima :
    (a : Algoritmo) (t : ℕ) (ps : List Particion)
    → a ≢ otro_algoritmo
    → Optima (criterio a) t ps (seleccionar a t ps)
unfolding seleccionar
seleccionar-Optima first t ps h = buscar_first-Optima t [] ps (λ j q e. cc)
seleccionar-Optima best t ps h =
    buscar_extremo-Optima ltb (λ a b e. ground arith) (λ a b c e f. ground arith)
      (λ a b c e f. ground arith) t [] ps none (λ j q e. cc)
seleccionar-Optima worst t ps h =
    buscar_extremo-Optima mayor (λ a b e. ground arith) (λ a b c e f. ground arith)
      (λ a b c e f. ground arith) t [] ps none (λ j q e. cc)
seleccionar-Optima otro_algoritmo t ps h = absurd (h refl)
