-- ===== src/Utils/Buffer/Vuelta.antt =====
-- A message that is written and received is read back as it was sent.
use sist_op_tp2c.Base.{ℕ, ◌<◌, ◌≡◌, Option, some, List, arith, u32_mod, length}
use sist_op_tp2c.Utils.Buffer.{Buffer}
use sist_op_tp2c.Utils.Buffer.Escritura.{Deja, lleno}
use sist_op_tp2c.Utils.Buffer.Lectura.{recibido, recibido-PorLeer, PorLeer}

-- What is sent is written without a fault and fills its buffer of `n` bytes, and what is read from
-- it is `d`.
abbrev pub Vuelve : {A : Type 0} → ℕ → Option Buffer → (Buffer → Option A) → A → Type 0
Vuelve n r leer d =
    (b : Buffer) × (r ≡ some b)
    × (b.size ≡ n)
    × (length b.stream ≡ n)
    × (leer (recibido b.stream) ≡ some d)

pub vuelve :
    {A : Type 0} {r : Option Buffer} (n k : ℕ) (bs : List ℕ) (leer : Buffer → Option A) (d : A)
    → k ≡ n
    → n < u32_mod
    → Deja r n k bs
    → ((b : Buffer) → PorLeer bs b → leer b ≡ some d)
    → Vuelve n r leer d
vuelve n k bs leer d justo corto w f =
    let (b, igual, todo, tamanio) = lleno n k justo w in
    let (_, _, e) = w in
    let mide : length bs ≡ n = omega (arith, e.largo) in
    let corta : length bs < u32_mod = omega arith in
    (b, igual, tamanio, rw todo mide, rw todo (f (recibido bs) (recibido-PorLeer bs corta)))

-- The same, where the bytes are grouped another way for the reader.
pub Vuelve-como :
    {A : Type 0} {r : Option Buffer} (n k : ℕ) (out bs : List ℕ) (leer : Buffer → Option A) (d : A)
    → k ≡ n
    → n < u32_mod
    → out ≡ bs
    → Deja r n k out
    → ((b : Buffer) → PorLeer bs b → leer b ≡ some d)
    → Vuelve n r leer d
Vuelve-como n k out bs leer d justo corto igual w f =
    vuelve n k out leer d justo corto w (rw igual f)
