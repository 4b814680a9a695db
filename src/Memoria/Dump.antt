-- ===== src/Memoria/Dump.antt =====
-- memoria/src/comunicaciones.c: a dump is sent to the filesystem. `formato` is `snprintf` of the name
-- with the time, and `filesystem` takes the bytes of the connection to the bytes that come back.
use sist_op_tp2c.Base.{ℕ, Option, some, List, ◌>>=◌}
use sist_op_tp2c.Utils.Buffer.{Malloc}
use sist_op_tp2c.Utils.Mensajes.{enviar_paquete, codigo_recibido, operacion_dump_memory}
use sist_op_tp2c.Utils.KernelMemoria.{DatosDumpMemory}
use sist_op_tp2c.Utils.MemoriaFilesystem.{serializar_datos_dump_memory_fs}
use sist_op_tp2c.Memoria.Estructuras.{buscar_proceso_por_pid}
use sist_op_tp2c.Memoria.{Memoria, contenido_dump}

module _ {A : Type 0} (ml : Malloc) (formato : ℕ → ℕ → List ℕ)
    (filesystem : List ℕ → Option (List ℕ × A)) where
  unfoldable pub enviar_dump_memory : DatosDumpMemory → Memoria → Option (Option ℕ × A)
  enviar_dump_memory d m = do
    p ← buscar_proceso_por_pid d.pid m.procesos
    contenido ← contenido_dump d m
    bs ← enviar_paquete ml operacion_dump_memory (
        serializar_datos_dump_memory_fs ml (record {
          nombre_archivo = formato d.pid d.tid;
          tamanio = p.tamanio;
          contenido = contenido;
        }))
    r ← filesystem bs
    cod ← codigo_recibido r.0
    some (cod, r.1)
