-- ===== src/Sistema/Dump.antt =====
-- A dump of the memory of a process, from the memory module to the blocks of the filesystem.
use sist_op_tp2c.Base.{ℕ, Bool, Option, some, List, ◌>>=◌, take, drop}
use sist_op_tp2c.Utils.Buffer.{bytes32}
use sist_op_tp2c.Utils.Mensajes.{codigo_recibido}
use sist_op_tp2c.Utils.MemoriaFilesystem.{enviar_respuesta_operacion}
use sist_op_tp2c.Memoria.Estructuras.{EstructuraProceso}
use sist_op_tp2c.Memoria.{Memoria}
use sist_op_tp2c.Filesystem.{Filesystem}

-- The bytes of a process in the user memory.
abbrev pub bytes_de : EstructuraProceso → Memoria → List ℕ
bytes_de p m = take p.tamanio (drop p.base m.memoria)

-- The answer of the filesystem, as the memory reads it.
abbrev respondido : Option (Bool × Filesystem) → Option (Option ℕ × Filesystem)
respondido r = r >>= λ x. some (some (enviar_respuesta_operacion x.0), x.1)

abbrev contestado : Option (Bool × Filesystem) → Option (List ℕ × Filesystem)
contestado r = r >>= λ x. some (bytes32 (enviar_respuesta_operacion x.0), x.1)

abbrev leido : Option (List ℕ × Filesystem) → Option (Option ℕ × Filesystem)
leido r = r >>= λ x. codigo_recibido x.0 >>= λ cod. some (cod, x.1)
