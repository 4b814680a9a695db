-- ===== src/Utils/Buffer/Lectura.antt =====
-- What a run of `buffer_read` calls returns from a block that was received.
use sist_op_tp2c.Base.{
  ℕ, ◌+◌, ◌<◌, ◌≡◌, refl, sym, ap, ◌∙◌, ◌≢◌, Option, some, List, [], ◌∷◌, ◌++◌, append_assoc,
  u32_mod, arith, ◌>>=◌, length, take, drop, length-append, take-append_left, drop-append_left, leb,
  add32, ◌==◌, true, false,
}
use sist_op_tp2c.Utils.Buffer.{
  Buffer, bytes32, valor32, en_memoria, leer_cadena, buffer_read, buffer_read_uint32,
  buffer_read_string,
}

pub valor32-bytes32 : (x : ℕ) → x < u32_mod → valor32 (bytes32 x) ≡ x
valor32-bytes32 x h = omega arith

-- A buffer just received: the cursor stands at the start.
abbrev pub recibido : List ℕ → Buffer
recibido bs = record { size = length bs; offset = 0; stream = bs }

-- The bytes from the cursor on.
pub record PorLeer (bs : List ℕ) (b : Buffer) : Type 0 where
  pub vistos : List ℕ
  pub bloque : b.stream ≡ vistos ++ bs
  pub cursor : b.offset ≡ length vistos
  pub corto : length b.stream < u32_mod

pub recibido-PorLeer : (bs : List ℕ) → length bs < u32_mod → PorLeer bs (recibido bs)
recibido-PorLeer bs h = record { vistos = []; bloque = refl; cursor = refl; corto = h }

pub buffer_read-PorLeer :
    (xs bs : List ℕ) (b : Buffer)
    → PorLeer (xs ++ bs) b
    → (b' : Buffer) × (buffer_read b (length xs) ≡ some (xs, b')) × PorLeer bs b'
unfolding buffer_read
buffer_read-PorLeer xs bs b l =
    let mide : length b.stream ≡ length l.vistos + (length xs + length bs) =
      omega (arith, ap length l.bloque, length-append l.vistos (xs ++ bs), length-append xs bs) in
    let corta = l.corto in
    let lee : take (length xs) (drop b.offset b.stream) ≡ xs =
      rw (l.bloque, l.cursor, drop-append_left l.vistos (xs ++ bs)) (take-append_left xs bs) in
    let donde = l.cursor in
    let cabe : leb (b.offset + length xs) (length b.stream) ≡ true = ground arith in
    (
      record b { offset = add32 b.offset (length xs) },
      rw cabe (rw lee refl),
      record {
        vistos = l.vistos ++ xs;
        bloque = l.bloque ∙ sym (append_assoc l.vistos xs bs);
        cursor = omega (arith, length-append l.vistos xs);
        corto = l.corto;
      },
    )

pub uint32-PorLeer :
    (x : ℕ) (bs : List ℕ) (b : Buffer)
    → x < u32_mod
    → PorLeer (bytes32 x ++ bs) b
    → (b' : Buffer) × (buffer_read_uint32 b ≡ some (x, b')) × PorLeer bs b'
unfolding buffer_read_uint32
uint32-PorLeer x bs b h l =
    let (b', igual, l') = buffer_read-PorLeer (bytes32 x) bs b l in
    (b', rw igual (ap (λ n. some (n, b')) (valor32-bytes32 x h)), l')

-- No byte of a C string is its NUL.
abbrev pub SinNul : List ℕ → Type 0
SinNul [] = Unit {0}
SinNul (c ∷ cs) = (c ≢ 0) × SinNul cs

leer_cadena-en_memoria : (s : List ℕ) → SinNul s → leer_cadena (en_memoria s) ≡ some s
unfolding leer_cadena
leer_cadena-en_memoria [] h = refl
leer_cadena-en_memoria (c ∷ s) h =
    let otra : (c == 0) ≡ false = let p = h.0 in ground arith in
    rw otra (rw (leer_cadena-en_memoria s h.1) refl)

pub string-PorLeer :
    (s bs : List ℕ) (b : Buffer)
    → length s + 1 < u32_mod
    → SinNul s
    → PorLeer (bytes32 (length s + 1) ++ (en_memoria s ++ bs)) b
    → (b' : Buffer) × (buffer_read_string b ≡ some (s, b')) × PorLeer bs b'
unfolding buffer_read_string
string-PorLeer s bs b h sin l =
    let (b1, e1, l1) = uint32-PorLeer (length s + 1) (en_memoria s ++ bs) b h l in
    let (b2, e2, l2) = buffer_read-PorLeer (en_memoria s) bs b1 l1 in
    let mide : length s + 1 ≡ length (en_memoria s) = omega (arith, length-append s (0 ∷ [])) in
    (b2, rw e1 (rw mide (rw e2 (rw (leer_cadena-en_memoria s sin) refl))), l2)

-- The rules for a read that others follow.
pub lee32 {ℓ} :
    {A : Type ℓ} (x : ℕ) (bs : List ℕ) {b : Buffer} (cont : ℕ × Buffer → Option A) {v : Option A}
    → x < u32_mod
    → PorLeer (bytes32 x ++ bs) b
    → ((b' : Buffer) → PorLeer bs b' → cont (x, b') ≡ v)
    → (buffer_read_uint32 b >>= cont) ≡ v
lee32 x bs {b} cont h l f = let (b', igual, l') = uint32-PorLeer x bs b h l in rw igual (f b' l')

pub lee_string {ℓ} :
    {A : Type ℓ} (s bs : List ℕ) {b : Buffer} (cont : List ℕ × Buffer → Option A) {v : Option A}
    → length s + 1 < u32_mod
    → SinNul s
    → PorLeer (bytes32 (length s + 1) ++ (en_memoria s ++ bs)) b
    → ((b' : Buffer) → PorLeer bs b' → cont (s, b') ≡ v)
    → (buffer_read_string b >>= cont) ≡ v
lee_string s bs {b} cont h sin l f =
    let (b', igual, l') = string-PorLeer s bs b h sin l in rw igual (f b' l')
