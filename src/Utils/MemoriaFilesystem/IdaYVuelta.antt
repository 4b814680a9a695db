-- ===== src/Utils/MemoriaFilesystem/IdaYVuelta.antt =====
-- A memory dump is read back as it was sent.
use sist_op_tp2c.Base.{
  ◌+◌, ◌<◌, ◌≡◌, refl, true, [], ◌∷◌, ◌++◌, append_assoc, append-nil, arith, u32_mod, leb, length,
  take, length-append, take-length,
}
use sist_op_tp2c.Utils.Buffer.{Malloc, bytes32, en_memoria, buffer_create}
use sist_op_tp2c.Utils.Buffer.Escritura.{
  buffer_create-Escrito, buffer_add-Escrito, sigue32, sigue_string,
}
use sist_op_tp2c.Utils.Buffer.Lectura.{SinNul, lee32, lee_string, buffer_read-PorLeer}
use sist_op_tp2c.Utils.Buffer.Vuelta.{Vuelve, Vuelve-como}
use sist_op_tp2c.Utils.MemoriaFilesystem.{
  DatosDumpMemoryFs, serializar_datos_dump_memory_fs, deserializar_datos_dump_memory_fs,
}

-- A dump is read back as it was sent, name, size and contents, if its contents have the size that it
-- gives, its name has no NUL inside, and the buffer is shorter than 2 ^ 32 bytes.
pub dump_memory_fs-Vuelve :
    (m : Malloc) (d : DatosDumpMemoryFs)
    → length d.nombre_archivo + d.tamanio + 9 < u32_mod
    → SinNul d.nombre_archivo
    → length d.contenido ≡ d.tamanio
    → Vuelve
        (4 + (length d.nombre_archivo + 1) + 4 + d.tamanio)
        (serializar_datos_dump_memory_fs m d)
        deserializar_datos_dump_memory_fs
        d
unfolding serializar_datos_dump_memory_fs deserializar_datos_dump_memory_fs
dump_memory_fs-Vuelve m d corto sin justo =
    let s = d.nombre_archivo in
    let c = d.contenido in
    let n = 4 + (length s + 1) + 4 + d.tamanio in
    let mide = length-append s (0 ∷ []) in
    let k = 0 + 4 + length (en_memoria s) in
    let cabe : leb d.tamanio (length c) ≡ true = ground arith in
    let todo : take d.tamanio c ≡ c = rw (← justo) (take-length c) in
    Vuelve-como n (k + 4 + length c)
      (((bytes32 (length s + 1) ++ en_memoria s) ++ bytes32 d.tamanio) ++ c)
      (bytes32 (length s + 1) ++ (en_memoria s ++ (bytes32 d.tamanio ++ (c ++ []))))
      deserializar_datos_dump_memory_fs d (omega (arith, mide)) (omega arith)
      (simp (append_assoc, append-nil))
      (sigue_string n 0 [] (buffer_create m n) s _ (k + 4 + length c) _ (omega arith)
        (omega (arith, mide)) (buffer_create-Escrito m n)
        λ b e. sigue32 n k d.tamanio (omega arith) (omega (arith, mide)) e λ b1 e1. rw cabe (
          rw todo (
            buffer_add-Escrito n (k + 4)
              ((bytes32 (length s + 1) ++ en_memoria s) ++ bytes32 d.tamanio) c b1 (omega arith)
              (omega (arith, mide)) e1)))
      (λ b l. lee_string s (bytes32 d.tamanio ++ (c ++ [])) _ (omega arith) sin l λ b1 l1.
        lee32 d.tamanio (c ++ []) _ (omega arith) l1 λ b2 l2.
          let (b3, e3, l3) = buffer_read-PorLeer c [] b2 l2 in rw (← justo) (rw e3 (rw justo refl)))
