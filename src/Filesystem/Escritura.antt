-- ===== src/Filesystem/Escritura.antt =====
-- filesystem/src/main.c: the bytes of a dump in its blocks.
use sist_op_tp2c.Base.{
  min, leb, true, some, ℕ, zero, suc, ◌+◌, ◌-◌, ◌*◌, ◌≤◌, ◌<◌, ◌≡◌, ◌≢◌, refl, sym, ap, ◌∙◌, ◌⊎◌,
  inl, inr, subst, List, [], ◌∷◌, ◌++◌, ltb, if◌then◌else◌, length, take, drop, arith, append-nil,
  length-append, length-take, length-drop, take-append_left, take-append-drop, drop-take_append,
  vista_antes, vista_despues, All, Bool-cases,
}
use sist_op_tp2c.Filesystem.{Filesystem, escribir_bloque, escribir_datos}
use sist_op_tp2c.Filesystem.Lectura.{leer_bloques}
use sist_op_tp2c.Filesystem.Indice.{mul_paso, Caben, Separados}

-- Bytes written at an offset.
abbrev pub escrito : ℕ → List ℕ → List ℕ → List ℕ
escrito d xs ms = take d ms ++ (xs ++ drop (d + length xs) ms)

pub length-escrito :
    (d : ℕ) (xs ms : List ℕ) → d + length xs ≤ length ms → length (escrito d xs ms) ≡ length ms
length-escrito d xs ms h = omega (
  arith,
  length-append (take d ms) (xs ++ drop (d + length xs) ms),
  length-append xs (drop (d + length xs) ms),
  length-take d ms,
  length-drop (d + length xs) ms,
)

pub escrito_self :
    (d : ℕ) (xs ms : List ℕ)
    → d + length xs ≤ length ms
    → take (length xs) (drop d (escrito d xs ms)) ≡ xs
escrito_self d xs ms h =
    ap (take (length xs)) (drop-take_append d ms (xs ++ drop (d + length xs) ms) (omega arith))
    ∙ take-append_left xs (drop (d + length xs) ms)

escrito_ne :
    (n e d : ℕ) (xs ms : List ℕ)
    → d + length xs ≤ length ms
    → (e + n ≤ d) ⊎ (d + length xs ≤ e)
    → take n (drop e (escrito d xs ms)) ≡ take n (drop e ms)
escrito_ne n e d xs ms h (inl antes) =
    vista_antes n e d ms (xs ++ drop (d + length xs) ms) antes (omega arith)
escrito_ne n e d xs ms h (inr despues) = ap (take n) (vista_despues d e xs ms despues h)

-- The windows of two different blocks do not meet.
bloques_lejos : (q b s n k : ℕ) → b ≢ q → n ≤ s → k ≤ s → (q * s + n ≤ b * s) ⊎ (b * s + k ≤ q * s)
bloques_lejos q b s n k ne hn hk = elim (Bool-cases (ltb q b)) [
  | inl si ↦ let h : q < b = ground arith in inl (omega (arith, mul_paso q b s h))
  | inr no_ ↦ let h : b < q = ground arith in inr (omega (arith, mul_paso b q s h))
]

-- The state of the filesystem after a write inside the file of blocks.
pub escribir_bloque_lem :
    (b : ℕ) (xs : List ℕ) (f : Filesystem)
    → b * f.block_size ≤ length f.bloques
    → escribir_bloque b xs f ≡ record f { bloques = escrito (b * f.block_size) xs f.bloques }
unfolding escribir_bloque
escribir_bloque_lem b xs f h =
    let take_vacio : b * f.block_size - length f.bloques ≡ 0 = omega arith in rw take_vacio refl

-- What the loop over the data blocks leaves, where the contents are long enough.
unfoldable pub datos_escritos : List ℕ → ℕ → List ℕ → ℕ → Filesystem → Filesystem
datos_escritos [] offset contenido tamanio f = f
datos_escritos (b ∷ bs) offset contenido tamanio f =
    let size = if ltb tamanio (offset + f.block_size) then tamanio - offset else f.block_size in
    datos_escritos bs (offset + f.block_size) contenido tamanio
      (escribir_bloque b (take size (drop offset contenido)) f)

pub escribir_datos_lem :
    (bs : List ℕ) (off : ℕ) (c : List ℕ) (t : ℕ) (f : Filesystem)
    → t ≤ length c
    → escribir_datos bs off c t f ≡ some (datos_escritos bs off c t f)
unfolding escribir_datos datos_escritos
escribir_datos_lem [] off c t f h = refl
escribir_datos_lem (b ∷ bs) off c t f h =
    let entra : leb (min t (off + f.block_size)) (length c) ≡ true = ground arith in
    rw entra (escribir_datos_lem bs (off + f.block_size) c t _ h)

-- `g` has the blocks of `f`, but for those of `bs`.
abbrev pub Marco : List ℕ → Filesystem → Filesystem → Type 0
Marco bs f g =
    (g.block_size ≡ f.block_size)
    × (length g.bloques ≡ length f.bloques)
    × ((q n : ℕ)
        → All (λ b. b ≢ q) bs
        → n ≤ f.block_size
        → take n (drop (q * f.block_size) g.bloques) ≡ take n (drop (q * f.block_size) f.bloques))

-- What the loop over the data blocks leaves of the rest of the filesystem.
pub datos-Marco :
    (bs : List ℕ) (off : ℕ) (c : List ℕ) (t : ℕ) (f : Filesystem)
    → Caben f.block_size (length f.bloques) bs
    → Marco bs f (datos_escritos bs off c t f)
unfolding datos_escritos
datos-Marco [] off c t f h = (refl, refl, λ q n _ _. refl)
datos-Marco (b ∷ bs) off c t f h =
    let s : ℕ = f.block_size in
    let size : ℕ = if ltb t (off + s) then t - off else s in
    let xs : List ℕ = take size (drop off c) in
    let corto : length xs ≤ s = ground (arith, length-take size (drop off c)) in
    let cabe : b * s + length xs ≤ length f.bloques = omega (arith, h.0) in
    let f1 : Filesystem = record f { bloques = escrito (b * s) xs f.bloques } in
    let e : escribir_bloque b xs f ≡ f1 = escribir_bloque_lem b xs f (omega arith) in
    let mide : length f1.bloques ≡ length f.bloques = length-escrito (b * s) xs f.bloques cabe in
    let h1 : Caben f1.block_size (length f1.bloques) bs = rw mide h.1 in
    let (r0, r1, r2) = datos-Marco bs (off + s) c t f1 h1 in
    subst (λ g. Marco (b ∷ bs) f (datos_escritos bs (off + s) c t g)) (sym e)
      (
        r0,
        r1 ∙ mide,
        λ q n ne hn.
            r2 q n ne.1 hn
            ∙ escrito_ne n (q * s) (b * s) xs f.bloques cabe
                (bloques_lejos q b s n (length xs) ne.0 hn corto),
      )

pub zero_mas : (n : ℕ) → 0 + n ≡ n
zero_mas n = omega arith

pub menos_cero : (n : ℕ) → n - 0 ≡ n
menos_cero n = omega arith

suc_mas : (off n : ℕ) → suc off + n ≡ suc (off + n)
suc_mas off n = omega arith

take_vacio : (n : ℕ) → take {A = ℕ} n [] ≡ []
take_vacio zero = refl
take_vacio (suc n) = refl

drop_todo : (n : ℕ) (xs : List ℕ) → length xs ≤ n → drop n xs ≡ []
drop_todo zero [] h = refl
drop_todo zero (x ∷ xs) h = absurd (omega arith)
drop_todo (suc n) [] h = refl
drop_todo (suc n) (x ∷ xs) h = drop_todo n xs (omega arith)

take_todo : (n : ℕ) (xs : List ℕ) → length xs ≤ n → take n xs ≡ xs
take_todo zero [] h = refl
take_todo zero (x ∷ xs) h = absurd (omega arith)
take_todo (suc n) [] h = refl
take_todo (suc n) (x ∷ xs) h = ap (◌∷◌ x) (take_todo n xs (omega arith))

pegar : (n off : ℕ) (c : List ℕ) → take n (drop off c) ++ drop (off + n) c ≡ drop off c
pegar n zero c = rw (zero_mas n) (take-append-drop n c)
pegar n (suc off) [] = rw (take_vacio n) (drop_todo (suc off + n) [] (omega arith))
pegar n (suc off) (x ∷ c) = rw (suc_mas off n) (pegar n off c)

-- One block of the contents and what follows it.
pegar_bloque :
    (s t off : ℕ) (c : List ℕ)
    → length c ≡ t
    → take (if ltb t (off + s) then t - off else s) (drop off c) ++ drop (off + s) c ≡ drop off c
pegar_bloque s t off c mide = elim (Bool-cases (ltb t (off + s))) [
  | inl si ↦
      let corto : t < off + s = ground arith in
      let largo : length (drop off c) ≤ t - off = omega (arith, length-drop off c) in
      rw si (
        rw (take_todo (t - off) (drop off c) largo)
          (rw (drop_todo (off + s) c (omega arith)) (append-nil (drop off c))))
  | inr no_ ↦ rw no_ (pegar s off c)
]

-- The data blocks, read back after the loop has written them.
pub datos-leidos :
    (bs : List ℕ) (off : ℕ) (c : List ℕ) (t : ℕ) (f : Filesystem)
    → Separados bs
    → Caben f.block_size (length f.bloques) bs
    → length c ≡ t
    → t ≤ off + length bs * f.block_size
    → leer_bloques bs f.block_size (t - off) (datos_escritos bs off c t f).bloques ≡ drop off c
unfolding datos_escritos leer_bloques
datos-leidos [] off c t f sep h mide todo = sym (drop_todo off c (omega arith))
datos-leidos (b ∷ bs) off c t f sep h mide todo =
    let s : ℕ = f.block_size in
    let size : ℕ = if ltb t (off + s) then t - off else s in
    let xs : List ℕ = take size (drop off c) in
    let justo : length xs ≡ size =
      ground (arith, length-take size (drop off c), length-drop off c) in
    let corto : size ≤ s = ground arith in
    let cabe : b * s + length xs ≤ length f.bloques = omega (arith, h.0) in
    let f1 : Filesystem = record f { bloques = escrito (b * s) xs f.bloques } in
    let e : escribir_bloque b xs f ≡ f1 = escribir_bloque_lem b xs f (omega arith) in
    let largo : length f1.bloques ≡ length f.bloques = length-escrito (b * s) xs f.bloques cabe in
    let h1 : Caben f1.block_size (length f1.bloques) bs = rw largo h.1 in
    let (r0, r1, r2) = datos-Marco bs (off + s) c t f1 h1 in
    let f2 : Filesystem = datos_escritos bs (off + s) c t f1 in
    let primero : take size (drop (b * s) f2.bloques) ≡ xs =
      r2 b size sep.0 corto
      ∙ subst (λ n. take n (drop (b * s) (escrito (b * s) xs f.bloques)) ≡ xs) justo
          (escrito_self (b * s) xs f.bloques cabe) in
    let sigue : leer_bloques bs s (t - (off + s)) f2.bloques ≡ drop (off + s) c =
      datos-leidos bs (off + s) c t f1 sep.1 h1 mide (grind arith) in
    let resta : t - off - s ≡ t - (off + s) = omega arith in
    let mismo : (if ltb (t - off) s then t - off else s) ≡ size = ground arith in
    let final : (take size (drop (b * s) f2.bloques)
          ++ leer_bloques bs s (t - (off + s)) f2.bloques)
        ≡ drop off c =
      rw (primero, sigue) (pegar_bloque s t off c mide) in
    subst
      (λ g.
        leer_bloques (b ∷ bs) s (t - off) (datos_escritos bs (off + s) c t g).bloques ≡ drop off c)
      (sym e) (rw (mismo, resta) final)

pub datos-files :
    (bs : List ℕ) (off : ℕ) (c : List ℕ) (t : ℕ) (f : Filesystem)
    → (datos_escritos bs off c t f).files ≡ f.files
unfolding datos_escritos escribir_bloque
datos-files [] off c t f = refl
datos-files (b ∷ bs) off c t f = datos-files bs (off + f.block_size) c t _
