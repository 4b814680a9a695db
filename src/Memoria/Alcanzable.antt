-- ===== src/Memoria/Alcanzable.antt =====
-- memoria/src/main.c: the states that the memory module reaches from its start, by requests of the
-- kernel and of the CPU in any order.
use sist_op_tp2c.Base.{
  Option, ℕ, ◌+◌, ◌<◌, ◌≤◌, ◌≡◌, ◌≢◌, refl, sym, ap, ◌∙◌, ◌⊎◌, Bool, true, some, List, arith,
  uint32_max, length, take, drop, leb, length-take, length-drop, Cumple-some,
}
use sist_op_tp2c.Utils.Buffer.{Malloc}
use sist_op_tp2c.Utils.KernelMemoria.{DatosDumpMemory}
use sist_op_tp2c.Memoria.Particiones.{Config}
use sist_op_tp2c.Memoria.Particiones.Mapa.{Contiguas-get, Contiguas-separadas}
use sist_op_tp2c.Memoria.Particiones.Asignacion.{ConfigDinamica}
use sist_op_tp2c.Memoria.Particiones.Ocupadas.{Bloque}
use sist_op_tp2c.Memoria.Estructuras.{EstructuraProceso, buscar_proceso_por_pid}
use sist_op_tp2c.Memoria.Estructuras.Registros.{buscar_proceso-pid}
use sist_op_tp2c.Memoria.Invariante.{proceso-Particionado}
use sist_op_tp2c.Memoria.{
  Memoria, iniciar_memoria, Respuesta, PeticionKernel, PeticionCpu, RespuestaCpu, contenido_dump,
  atender_peticion_kernel, atender_peticion_cpu,
}
use sist_op_tp2c.Memoria.Validez.{
  Admitida, EstadoValido, iniciar-EstadoValido, kernel-EstadoValido, cpu-EstadoValido,
}

module _ (archivos : List ℕ → Option (List (List ℕ)))
    (escribe : DatosDumpMemory → List ℕ → Bool) where
  pub data Peticion : Memoria → Memoria → Type 0 where
    del_kernel :
        (p : PeticionKernel) (r : Respuesta) {m m1 : Memoria}
        → Admitida p m
        → atender_peticion_kernel archivos escribe p m ≡ some (r, m1)
        → Peticion m m1
    de_la_cpu :
        (p : PeticionCpu) (r : RespuestaCpu) {m m1 : Memoria}
        → atender_peticion_cpu p m ≡ some (r, m1)
        → Peticion m m1

  pub data Alcanzable (ml : Malloc) (c : Config) : Memoria → Type 0 where
    inicio : Alcanzable ml c (iniciar_memoria ml c)
    tras : {m m1 : Memoria} → Alcanzable ml c m → Peticion m m1 → Alcanzable ml c m1

  Peticion-EstadoValido : {m m1 : Memoria} → Peticion m m1 → EstadoValido m → EstadoValido m1
  Peticion-EstadoValido {m = m} (del_kernel p r a e) v =
      Cumple-some (λ (r : Respuesta × Memoria). EstadoValido r.1) _
        (kernel-EstadoValido archivos escribe p m v a) e
  Peticion-EstadoValido {m = m} (de_la_cpu p r e) v =
      Cumple-some (λ (r : RespuestaCpu × Memoria). EstadoValido r.1) _ (cpu-EstadoValido p m v) e

  -- Under dynamic partitions, in each state that the memory reaches from its start, by requests of
  -- the kernel and of the CPU in any order, where each new process has a fresh id and UINT32_MAX is
  -- no id: the partitions cover the memory, no two neighbours are free, the partitions in use are
  -- exactly the blocks of the processes, and the user memory has TAM_MEMORIA bytes.
  pub Alcanzable-EstadoValido :
      (ml : Malloc) (c : Config) {m : Memoria}
      → ConfigDinamica c
      → Alcanzable ml c m
      → EstadoValido m
  Alcanzable-EstadoValido ml c h inicio = iniciar-EstadoValido ml c h
  Alcanzable-EstadoValido ml c h (tras a p) =
      Peticion-EstadoValido p (Alcanzable-EstadoValido ml c h a)

  -- Under dynamic partitions, in each state that the memory reaches from its start: the dump of a
  -- process that exists, whose id is not UINT32_MAX, does not fault, and has as many bytes as the
  -- process.
  pub Alcanzable-contenido_dump :
      (ml : Malloc) (c : Config) (d : DatosDumpMemory) {m : Memoria} (p : EstructuraProceso)
      → ConfigDinamica c
      → Alcanzable ml c m
      → d.pid < uint32_max
      → buscar_proceso_por_pid d.pid m.procesos ≡ some p
      → (bs : List ℕ) × (contenido_dump d m ≡ some bs) × (length bs ≡ p.tamanio)
  unfolding contenido_dump
  Alcanzable-contenido_dump ml c d {m} p h a corto hay =
      let (v, largo) = Alcanzable-EstadoValido ml c h a in
      let q = proceso-Particionado d.pid m p v corto hay in
      let dentro =
        Contiguas-get 0 m.particiones m.config.tam_memoria q.indice q.suya v.mapa.contiguas
          q.esta in
      let desde : q.suya.base ≡ p.base = ap (λ (b : Bloque). b.desde) q.bloque in
      let mide : q.suya.tamanio ≡ p.tamanio = ap (λ (b : Bloque). b.largo) q.bloque in
      let cabe : leb (p.base + p.tamanio) (length m.memoria) ≡ true = ground arith in
      (
        take p.tamanio (drop p.base m.memoria),
        rw (hay, cabe) refl,
        omega (arith, length-take p.tamanio (drop p.base m.memoria), length-drop p.base m.memoria),
      )

  -- Under dynamic partitions, in each state that the memory reaches from its start: two processes with
  -- different ids, neither of them UINT32_MAX, have blocks of memory that do not overlap.
  pub Alcanzable-aislados :
      (ml : Malloc) (c : Config) (i j : ℕ) {m : Memoria} (p q : EstructuraProceso)
      → ConfigDinamica c
      → Alcanzable ml c m
      → i < uint32_max
      → j < uint32_max
      → i ≢ j
      → buscar_proceso_por_pid i m.procesos ≡ some p
      → buscar_proceso_por_pid j m.procesos ≡ some q
      → (p.base + p.tamanio ≤ q.base) ⊎ (q.base + q.tamanio ≤ p.base)
  Alcanzable-aislados ml c i j {m} p q h a hi hj otro ep eq =
      let v = (Alcanzable-EstadoValido ml c h a).0 in
      let a1 = proceso-Particionado i m p v hi ep in
      let a2 = proceso-Particionado j m q v hj eq in
      let pid1 : a1.suya.pid ≡ i =
        ap (λ (b : Bloque). b.duenio) a1.bloque ∙ buscar_proceso-pid i m.procesos p ep in
      let pid2 : a2.suya.pid ≡ j =
        ap (λ (b : Bloque). b.duenio) a2.bloque ∙ buscar_proceso-pid j m.procesos q eq in
      let base1 : a1.suya.base ≡ p.base = ap (λ (b : Bloque). b.desde) a1.bloque in
      let mide1 : a1.suya.tamanio ≡ p.tamanio = ap (λ (b : Bloque). b.largo) a1.bloque in
      let base2 : a2.suya.base ≡ q.base = ap (λ (b : Bloque). b.desde) a2.bloque in
      let mide2 : a2.suya.tamanio ≡ q.tamanio = ap (λ (b : Bloque). b.largo) a2.bloque in
      let orden =
        Contiguas-separadas 0 m.particiones m.config.tam_memoria a1.indice a2.indice a1.suya a2.suya
          v.mapa.contiguas (λ e. otro (sym pid1 ∙ (e ∙ pid2))) a1.esta a2.esta in
      ground arith
