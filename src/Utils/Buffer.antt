-- ===== src/Utils/Buffer.antt =====
-- utils/src/utils/buffer.c: a block of bytes with a cursor. A number is copied by `memcpy` in the
-- byte order of the machine, little-endian here. `none` is a copy past the end of a block.
pub mod Escritura
pub mod Lectura
pub mod Vuelta
use sist_op_tp2c.Base.{
  ℕ, zero, suc, ◌+◌, ◌*◌, ◌/◌, ◌%◌, ◌≡◌, Option, none, some, List, [], ◌∷◌, ◌++◌, add32, leb, ◌==◌,
  if◌then◌else◌, ◌>>=◌, length, take, drop, arith,
}

-- `malloc`: a block of the asked size, with any contents.
pub record Malloc : Type 0 where
  pub bloque : ℕ → List ℕ
  pub length-bloque : (n : ℕ) → length (bloque n) ≡ n

-- `t_buffer`
pub record Buffer : Type 0 where
  pub size : ℕ
  pub offset : ℕ
  pub stream : List ℕ

-- The four bytes of a `uint32_t` in memory, and the number that four bytes are.
abbrev pub bytes32 : ℕ → List ℕ
bytes32 x = (x % 256) ∷ (x / 256 % 256) ∷ (x / 65536 % 256) ∷ (x / 16777216 % 256) ∷ []

abbrev pub valor32 : List ℕ → ℕ
valor32 [] = 0
valor32 (b ∷ bs) = b + 256 * valor32 bs

-- A C string in memory, and the string that starts a block of memory (none without a NUL).
abbrev pub en_memoria : List ℕ → List ℕ
en_memoria s = s ++ 0 ∷ []

unfoldable pub leer_cadena : List ℕ → Option (List ℕ)
leer_cadena [] = none
leer_cadena (c ∷ cs) =
    let resto = leer_cadena cs in if c == 0 then some [] else resto >>= λ s. some (c ∷ s)

unfoldable pub buffer_create : Malloc → ℕ → Buffer
buffer_create m size = record { size = size; offset = 0; stream = m.bloque size }

unfoldable pub buffer_add : Buffer → List ℕ → Option Buffer
buffer_add b bytes =
    if leb (b.offset + length bytes) (length b.stream)
    then some (record b {
      offset = add32 b.offset (length bytes);
      stream = take b.offset b.stream ++ (bytes ++ drop (b.offset + length bytes) b.stream);
    })
    else none

unfoldable pub buffer_read : Buffer → ℕ → Option (List ℕ × Buffer)
buffer_read b n =
    if leb (b.offset + n) (length b.stream)
    then some (take n (drop b.offset b.stream), record b { offset = add32 b.offset n })
    else none

unfoldable pub buffer_add_uint32 : Buffer → ℕ → Option Buffer
buffer_add_uint32 b x = buffer_add b (bytes32 x)

unfoldable pub buffer_read_uint32 : Buffer → Option (ℕ × Buffer)
unfolding buffer_read
buffer_read_uint32 b = buffer_read b 4 >>= λ r. some (valor32 r.0, r.1)

-- `cadena` is the memory that the pointer points to.
unfoldable pub buffer_add_string : Buffer → ℕ → List ℕ → Option Buffer
buffer_add_string b largo cadena = buffer_add_uint32 b largo >>= λ b'.
    if leb largo (length cadena) then buffer_add b' (take largo cadena) else none

-- The block that the function allocates and fills, as a C string.
unfoldable pub buffer_read_string : Buffer → Option (List ℕ × Buffer)
buffer_read_string b = buffer_read_uint32 b >>= λ r.
    buffer_read r.1 r.0 >>= λ q. leer_cadena q.0 >>= λ s. some (s, q.1)
