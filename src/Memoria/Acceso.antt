-- ===== src/Memoria/Acceso.antt =====
-- Reads and writes of the user memory by the CPU.
use sist_op_tp2c.Base.{
  ℕ, ◌+◌, ◌≤◌, ◌<◌, ◌≡◌, refl, sym, ap, ◌∙◌, ◌⊎◌, inl, inr, some, List, ◌++◌, arith, u32_mod,
  length, take, drop, length-append, length-take, length-drop, true, leb, drop-take_append,
  vista_antes, vista_despues,
}
use sist_op_tp2c.Utils.Buffer.{bytes32, valor32}
use sist_op_tp2c.Utils.Buffer.Lectura.{valor32-bytes32}
use sist_op_tp2c.Utils.CpuMemoria.{DatosLeerMemoria, DatosEscribirMemoria}
use sist_op_tp2c.Memoria.{Memoria, leer_memoria, escribir_memoria}

-- The memory after a write of the CPU, which always has the size of a `uint32_t`.
abbrev pub escrita : ℕ → ℕ → List ℕ → List ℕ
escrita dir x ms = take dir ms ++ (bytes32 x ++ drop (dir + 4) ms)

escribir_lem :
    (d : DatosEscribirMemoria) (m : Memoria)
    → d.tamanio ≡ 4
    → d.dir_fisica + 4 ≤ length m.memoria
    → escribir_memoria d m
      ≡ some (record m { memoria = escrita d.dir_fisica d.dato_a_escribir m.memoria })
unfolding escribir_memoria
escribir_lem d m h k =
    let cabe : leb (d.dir_fisica + 4) (length m.memoria) ≡ true = ground arith in
    rw h (rw cabe refl)

leer_lem :
    (d : DatosLeerMemoria) (m : Memoria)
    → d.dir_fisica + 4 ≤ length m.memoria
    → leer_memoria d m ≡ some (valor32 (take 4 (drop d.dir_fisica m.memoria)))
unfolding leer_memoria
leer_lem d m h =
    let cabe : leb (d.dir_fisica + 4) (length m.memoria) ≡ true = ground arith in rw cabe refl

length-escrita :
    (dir x : ℕ) (ms : List ℕ) → dir + 4 ≤ length ms → length (escrita dir x ms) ≡ length ms
length-escrita dir x ms h = omega (
  arith,
  length-append (take dir ms) (bytes32 x ++ drop (dir + 4) ms),
  length-append (bytes32 x) (drop (dir + 4) ms),
  length-take dir ms,
  length-drop (dir + 4) ms,
)

-- A write of four bytes inside the memory does not fault, and a later read of the same address
-- returns the number written.
pub leer-escribir_self :
    (e : DatosEscribirMemoria) (d : DatosLeerMemoria) (m : Memoria)
    → e.tamanio ≡ 4
    → e.dato_a_escribir < u32_mod
    → e.dir_fisica + 4 ≤ length m.memoria
    → d.dir_fisica ≡ e.dir_fisica
    → (m' : Memoria) × (escribir_memoria e m ≡ some m')
      × (leer_memoria d m' ≡ some e.dato_a_escribir)
leer-escribir_self e d m h hx ke igual =
    let x = e.dato_a_escribir in
    let ms = m.memoria in
    let dir = e.dir_fisica in
    let resto = bytes32 x ++ drop (dir + 4) ms in
    let m' : Memoria = record m { memoria = escrita dir x ms } in
    let cabe : d.dir_fisica + 4 ≤ length (escrita dir x ms) =
      omega (arith, length-escrita dir x ms ke) in
    (
      m',
      escribir_lem e m h ke,
      leer_lem d m' cabe
          ∙ ap some
              (rw (igual, drop-take_append dir ms resto (omega arith)) (valor32-bytes32 x hx)),
    )

-- A write of four bytes inside the memory does not change what a read of four bytes that lie all
-- before or all behind them returns.
pub leer-escribir_ne :
    (e : DatosEscribirMemoria) (d : DatosLeerMemoria) (m : Memoria)
    → e.tamanio ≡ 4
    → e.dir_fisica + 4 ≤ length m.memoria
    → d.dir_fisica + 4 ≤ length m.memoria
    → (d.dir_fisica + 4 ≤ e.dir_fisica) ⊎ (e.dir_fisica + 4 ≤ d.dir_fisica)
    → (m' : Memoria) × (escribir_memoria e m ≡ some m') × (leer_memoria d m' ≡ leer_memoria d m)
leer-escribir_ne e d m h ke kd lejos =
    let x = e.dato_a_escribir in
    let m' : Memoria = record m { memoria = escrita e.dir_fisica x m.memoria } in
    let cabe : d.dir_fisica + 4 ≤ length m'.memoria =
      omega (arith, length-escrita e.dir_fisica x m.memoria ke) in
    (
      m',
      escribir_lem e m h ke,
      leer_lem d m' cabe ∙ (ap (λ l. some (valor32 l)) (lados lejos) ∙ sym (leer_lem d m kd)),
    )
  where
    lados :
        (d.dir_fisica + 4 ≤ e.dir_fisica) ⊎ (e.dir_fisica + 4 ≤ d.dir_fisica)
        → take 4 (drop d.dir_fisica (escrita e.dir_fisica e.dato_a_escribir m.memoria))
          ≡ take 4 (drop d.dir_fisica m.memoria)
    lados (inl antes) =
        vista_antes 4 d.dir_fisica e.dir_fisica m.memoria
          (bytes32 e.dato_a_escribir ++ drop (e.dir_fisica + 4) m.memoria) antes (omega arith)
    lados (inr despues) =
        ap (take 4)
          (vista_despues e.dir_fisica d.dir_fisica (bytes32 e.dato_a_escribir) m.memoria despues ke)
