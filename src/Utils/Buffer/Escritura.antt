-- ===== src/Utils/Buffer/Escritura.antt =====
-- What a run of `buffer_add` calls leaves in the buffer, whatever `malloc` left in it.
use sist_op_tp2c.Base.{
  add32, ◌-◌, ℕ, ◌+◌, ◌≤◌, ◌<◌, ◌≡◌, refl, sym, ap, ◌∙◌, Option, some, List, [], ◌∷◌, ◌++◌,
  append_assoc, u32_mod, arith, ◌>>=◌, length, take, drop, length-append, length-drop,
  take-append_left, take-length, leb, true,
}
use sist_op_tp2c.Utils.Buffer.{
  Malloc, Buffer, bytes32, en_memoria, buffer_create, buffer_add, buffer_add_uint32,
  buffer_add_string,
}

-- The first `k` bytes of the `n` of the block are `bs`, and the cursor stands behind them.
pub record Escrito (n k : ℕ) (bs : List ℕ) (b : Buffer) : Type 0 where
  pub cursor : b.offset ≡ k
  pub largo : length bs ≡ k
  pub bloque : length b.stream ≡ n
  pub escritos : take k b.stream ≡ bs
  pub tamanio : b.size ≡ n

-- A run of calls that does not fault.
abbrev pub Deja : Option Buffer → ℕ → ℕ → List ℕ → Type 0
Deja r n k bs = (b : Buffer) × (r ≡ some b) × Escrito n k bs b

pub buffer_create-Escrito : (m : Malloc) (n : ℕ) → Escrito n 0 [] (buffer_create m n)
unfolding buffer_create
buffer_create-Escrito m n = record {
  cursor = refl;
  largo = refl;
  bloque = m.length-bloque n;
  escritos = refl;
  tamanio = refl;
}

pub buffer_add-Escrito :
    (n k : ℕ) (bs xs : List ℕ) (b : Buffer)
    → n < u32_mod
    → k + length xs ≤ n
    → Escrito n k bs b
    → Deja (buffer_add b xs) n (k + length xs) (bs ++ xs)
unfolding buffer_add
buffer_add-Escrito n k bs xs b hn h e =
    let resto = drop (b.offset + length xs) b.stream in
    let previos : take b.offset b.stream ≡ bs = rw e.cursor e.escritos in
    let todo : take b.offset b.stream ++ (xs ++ resto) ≡ (bs ++ xs) ++ resto =
      ap (λ l. l ++ (xs ++ resto)) previos ∙ sym (append_assoc bs xs resto) in
    let largo : k + length xs ≡ length (bs ++ xs) = omega (arith, length-append bs xs, e.largo) in
    let tope = e.bloque in
    let mide : length resto ≡ n - (k + length xs) =
      omega (arith, length-drop (b.offset + length xs) b.stream) in
    (
      record b {
        offset = add32 b.offset (length xs);
        stream = take b.offset b.stream ++ (xs ++ resto);
      },
      ground arith,
      record {
        cursor = omega arith;
        largo = sym largo;
        bloque = ap length todo ∙ omega (arith, length-append (bs ++ xs) resto);
        escritos = rw (todo, largo) (take-append_left (bs ++ xs) resto);
        tamanio = e.tamanio;
      },
    )

-- The rules for a call that others follow.
pub sigue_add :
    (n k : ℕ) (bs xs : List ℕ) (b : Buffer) (cont : Buffer → Option Buffer) (j : ℕ) (out : List ℕ)
    → n < u32_mod
    → k + length xs ≤ n
    → Escrito n k bs b
    → ((b' : Buffer) → Escrito n (k + length xs) (bs ++ xs) b' → Deja (cont b') n j out)
    → Deja (buffer_add b xs >>= cont) n j out
sigue_add n k bs xs b cont j out hn h e f =
    let (b', igual, e') = buffer_add-Escrito n k bs xs b hn h e in rw igual (f b' e')

module _ (n k : ℕ) {bs : List ℕ} {b : Buffer} (x : ℕ) (hn : n < u32_mod) where
  pub uint32-Deja :
      k + 4 ≤ n → Escrito n k bs b → Deja (buffer_add_uint32 b x) n (k + 4) (bs ++ bytes32 x)
  unfolding buffer_add_uint32
  uint32-Deja h e = buffer_add-Escrito n k bs (bytes32 x) b hn h e

  pub sigue32 :
      {cont : Buffer → Option Buffer} {j : ℕ} {out : List ℕ}
      → k + 4 ≤ n
      → Escrito n k bs b
      → ((b' : Buffer) → Escrito n (k + 4) (bs ++ bytes32 x) b' → Deja (cont b') n j out)
      → Deja (buffer_add_uint32 b x >>= cont) n j out
  unfolding buffer_add_uint32
  sigue32 {cont} {j} {out} h e f = sigue_add n k bs (bytes32 x) b cont j out hn h e f

-- A string goes behind its length, with its NUL.
pub string-Deja :
    (n k : ℕ) (bs : List ℕ) (b : Buffer) (s : List ℕ)
    → n < u32_mod
    → k + 4 + length (en_memoria s) ≤ n
    → Escrito n k bs b
    → Deja
        (buffer_add_string b (length s + 1) (en_memoria s))
        n
        (k + 4 + length (en_memoria s))
        ((bs ++ bytes32 (length s + 1)) ++ en_memoria s)
unfolding buffer_add_string
string-Deja n k bs b s hn h e = sigue32 n k (length s + 1) hn (omega arith) e λ b' e'.
    let mide : length s + 1 ≡ length (en_memoria s) = omega (arith, length-append s (0 ∷ [])) in
    let cabe : leb (length s + 1) (length (en_memoria s)) ≡ true = ground arith in
    let todo : take (length s + 1) (en_memoria s) ≡ en_memoria s =
      rw mide (take-length (en_memoria s)) in
    rw cabe (
      rw todo
        (buffer_add-Escrito n (k + 4) (bs ++ bytes32 (length s + 1)) (en_memoria s) b' hn h e'))

pub sigue_string :
    (n k : ℕ) (bs : List ℕ) (b : Buffer) (s : List ℕ) (cont : Buffer → Option Buffer) (j : ℕ)
    (out : List ℕ)
    → n < u32_mod
    → k + 4 + length (en_memoria s) ≤ n
    → Escrito n k bs b
    → ((b' : Buffer)
        → Escrito n
            (k + 4 + length (en_memoria s))
            ((bs ++ bytes32 (length s + 1)) ++ en_memoria s)
            b'
        → Deja (cont b') n j out)
    → Deja (buffer_add_string b (length s + 1) (en_memoria s) >>= cont) n j out
sigue_string n k bs b s cont j out hn h e f =
    let (b', igual, e') = string-Deja n k bs b s hn h e in rw igual (f b' e')

-- A buffer whose whole block was written holds what was written.
pub lleno :
    {r : Option Buffer} (n k : ℕ) {bs : List ℕ}
    → k ≡ n
    → Deja r n k bs
    → (b : Buffer) × (r ≡ some b) × (b.stream ≡ bs) × (b.size ≡ n)
lleno n k justo (b, igual, e) =
    let todo : take k b.stream ≡ b.stream = rw (justo, ← e.bloque) (take-length b.stream) in
    (b, igual, sym todo ∙ e.escritos, e.tamanio)
