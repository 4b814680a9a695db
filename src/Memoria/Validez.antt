-- ===== src/Memoria/Validez.antt =====
-- The invariant of the whole state of the memory, through each request of the kernel and of the CPU.
use mathlib.Core.List.Perm
use sist_op_tp2c.Base.{
  ℕ, ◌+◌, ◌<◌, ◌≤◌, ◌≡◌, refl, sym, ap, ◌∙◌, subst, inl, inr, Bool, List, ◌++◌, arith, uint32_max,
  length, get_elem?, take, drop, leb, length-take, length-drop, length-append, Bool-cases, Option,
  Option-cases, Cumple, Cumple->>=, Cumple->>=_any, Cumple-some,
}
use sist_op_tp2c.Utils.Buffer.{Malloc, bytes32}
use sist_op_tp2c.Utils.CpuMemoria.{DatosEscribirMemoria}
use sist_op_tp2c.Utils.KernelMemoria.{
  DatosInicializacionProceso, DatosFinalizacionProceso, DatosDumpMemory,
}
use sist_op_tp2c.Memoria.Particiones.{
  Config, buscar_particion_libre, buscar_particion_por_pid, desasignar_particion, asignar_particion,
  inicializar_particiones, crear_particion,
}
use sist_op_tp2c.Memoria.Particiones.Asignacion.{ConfigDinamica, inicializar-MapaValido}
use sist_op_tp2c.Memoria.Particiones.Ocupadas.{ocupadas}
use sist_op_tp2c.Memoria.Estructuras.{
  EstructuraHilo, buscar_proceso_por_pid, buscar_hilo, cambiar_hilos, finalizar_hilos, iniciar_hilo,
  finalizar_hilo, actualizar_contexto_ejecucion, devolver_contexto_ejecucion, devolver_instruccion,
}
use sist_op_tp2c.Memoria.Procesos.{SinPid, bloques-cambiar, Distintos-cambiar}
use sist_op_tp2c.Memoria.Invariante.{
  InvMemoria, crear_proceso-InvMemoria, finalizar_proceso-InvMemoria,
}
use sist_op_tp2c.Memoria.{
  Memoria, iniciar_memoria, Respuesta, PeticionKernel, crear_proceso, finaliza_proceso, crear_hilo,
  finaliza_hilo, dump_memory, PeticionCpu, RespuestaCpu, devolver_contexto, actualizar_contexto,
  devuelve_instruccion, lee_memoria, escribe_memoria, iniciar_proceso, finalizar_proceso,
  leer_memoria, escribir_memoria, contenido_dump, atender_crear_proceso, atender_peticion_kernel,
  atender_peticion_cpu,
}

-- What the kernel owes: a new process has a fresh id, and no id is the mark of a free partition.
abbrev pub Admitida : PeticionKernel → Memoria → Type 0
Admitida (crear_proceso d) m = SinPid d.pid m.procesos
Admitida (finaliza_proceso d) m = d.pid < uint32_max
Admitida p m = Unit {0}

-- The user memory and the processes' blocks agree with the configuration.
abbrev pub EstadoValido : Memoria → Type 0
EstadoValido m = InvMemoria m × (length m.memoria ≡ m.config.tam_memoria)

pub cambiar-EstadoValido :
    (pid : ℕ) (f : List EstructuraHilo → List EstructuraHilo) (m : Memoria)
    → EstadoValido m
    → EstadoValido (record m { procesos = cambiar_hilos pid f m.procesos })
cambiar-EstadoValido pid f m (v, largo) = (
  record {
    config = v.config;
    mapa = v.mapa;
    sin_pid = v.sin_pid;
    distintos = Distintos-cambiar pid f m.procesos v.distintos;
    coinciden = rw (bloques-cambiar pid f m.procesos) v.coinciden;
  },
  largo,
)

length-escrita :
    (a t : ℕ) (bs ms : List ℕ)
    → t ≤ length bs
    → a + t ≤ length ms
    → length (take a ms ++ (take t bs ++ drop (a + t) ms)) ≡ length ms
length-escrita a t bs ms corto cabe = omega (
  arith,
  length-append (take a ms) (take t bs ++ drop (a + t) ms),
  length-append (take t bs) (drop (a + t) ms),
  length-take a ms,
  length-take t bs,
  length-drop (a + t) ms,
)

escribir-EstadoValido :
    (d : DatosEscribirMemoria) (m : Memoria)
    → EstadoValido m
    → Cumple EstadoValido (escribir_memoria d m)
unfolding escribir_memoria
escribir-EstadoValido d m (v, largo) = elim (Bool-cases (leb d.tamanio 4)) [
  | inr ni ↦ rw ni tt
  | inl corto ↦ rw corto (elim (Bool-cases (leb (d.dir_fisica + d.tamanio) (length m.memoria))) [
    | inr ni ↦ rw ni tt
    | inl cabe ↦ rw cabe (
      record {
        config = v.config;
        mapa = v.mapa;
        sin_pid = v.sin_pid;
        distintos = v.distintos;
        coinciden = v.coinciden;
      },
      length-escrita d.dir_fisica d.tamanio (bytes32 d.dato_a_escribir) m.memoria (ground arith)
            (ground arith)
          ∙ largo,
    )
  ])
]

-- The start and the end of a process leave the configuration as it is.
crear-config :
    (d : DatosInicializacionProceso) (m : Memoria)
    → Cumple (λ (r : Respuesta × Memoria). r.1.config ≡ m.config) (atender_crear_proceso d m)
unfolding atender_crear_proceso iniciar_proceso
crear-config d m =
    Cumple->>=_any _ (buscar_particion_libre m.config d.tamanio m.particiones) _ (λ r _.
      elim (Option-cases r.0) [
        | inl nada ↦ rw nada refl
        | inr (i, esta) ↦ rw esta (
            Cumple->>= (λ (m1 : Memoria). m1.config ≡ m.config) _
              (iniciar_proceso d i (record m { particiones = r.1 })) _
              (Cumple->>=_any _ (get_elem? r.1 i) _
                (λ q _. Cumple->>=_any _ (asignar_particion i d.pid r.1) _ (λ ps _. refl)))
              (λ m1 h. h))
      ])

finalizar-config :
    (d : DatosFinalizacionProceso) (m : Memoria)
    → Cumple (λ (r : ℕ × Memoria). r.1.config ≡ m.config) (finalizar_proceso d m)
unfolding finalizar_proceso
finalizar-config d m = Cumple->>=_any _ (buscar_proceso_por_pid d.pid m.procesos) _ (λ p _.
    Cumple->>=_any _ (finalizar_hilos d.pid p.lista_hilos m.procesos) _ (λ ps _.
      Cumple->>=_any _ (buscar_particion_por_pid d.pid m.particiones) _
        (λ i _. Cumple->>=_any _ (desasignar_particion m.config i m.particiones) _ (λ qs _. refl))))

-- The user memory keeps its length where it keeps its bytes and its configuration.
mismo_largo :
    (m m1 : Memoria)
    → m1.memoria ≡ m.memoria
    → m1.config ≡ m.config
    → length m.memoria ≡ m.config.tam_memoria
    → length m1.memoria ≡ m1.config.tam_memoria
mismo_largo m m1 igual config largo =
    ap length igual ∙ (largo ∙ sym (ap (λ (c : Config). c.tam_memoria) config))

pub iniciar-EstadoValido :
    (ml : Malloc) (c : Config) → ConfigDinamica c → EstadoValido (iniciar_memoria ml c)
unfolding iniciar_memoria inicializar_particiones crear_particion ocupadas
iniciar-EstadoValido ml c h = (
  record {
    config = h;
    mapa = inicializar-MapaValido c h;
    sin_pid = rw h.dinamica (inr refl, tt);
    distintos = tt;
    coinciden = rw h.dinamica (Perm.refl _);
  },
  ml.length-bloque c.tam_memoria,
)

pub crear-EstadoValido :
    (d : DatosInicializacionProceso) (m : Memoria)
    → EstadoValido m
    → SinPid d.pid m.procesos
    → Cumple (λ (r : Respuesta × Memoria). EstadoValido r.1) (atender_crear_proceso d m)
crear-EstadoValido d m (v, largo) fresco = elim (crear_proceso-InvMemoria d m v fresco) [
  | inl (e, falta) ↦ rw e (v, largo)
  | inr c ↦
      let config = Cumple-some _ _ (crear-config d m) c.responde in
      let r = c.responde in rw r (c.valida, mismo_largo m c.despues c.misma_memoria config largo)
]

pub finalizar-EstadoValido :
    (d : DatosFinalizacionProceso) (m : Memoria)
    → EstadoValido m
    → d.pid < uint32_max
    → Cumple (λ (r : ℕ × Memoria). EstadoValido r.1) (finalizar_proceso d m)
unfolding finalizar_proceso
finalizar-EstadoValido d m (v, largo) corto =
    elim (Option-cases (buscar_proceso_por_pid d.pid m.procesos)) [
      | inl nada ↦ rw nada tt
      | inr (p, hay) ↦
          let (m1, e, v1, q, misma) = finalizar_proceso-InvMemoria d m p v corto hay in
          let config = Cumple-some _ _ (finalizar-config d m) e in
          subst (Cumple (λ (r : ℕ × Memoria). EstadoValido r.1)) (sym e)
            (v1, mismo_largo m m1 misma config largo)
    ]

pub kernel-EstadoValido :
    (archivos : List ℕ → Option (List (List ℕ))) (escribe : DatosDumpMemory → List ℕ → Bool)
    (p : PeticionKernel) (m : Memoria)
    → EstadoValido m
    → Admitida p m
    → Cumple
        (λ (r : Respuesta × Memoria). EstadoValido r.1)
        (atender_peticion_kernel archivos escribe p m)
unfolding atender_peticion_kernel iniciar_hilo finalizar_hilo
kernel-EstadoValido archivos escribe (crear_proceso d) m v a = crear-EstadoValido d m v a
kernel-EstadoValido archivos escribe (finaliza_proceso d) m v a =
    Cumple->>= (λ (r : ℕ × Memoria). EstadoValido r.1) _ (finalizar_proceso d m) _
      (finalizar-EstadoValido d m v a) (λ r h. h)
kernel-EstadoValido archivos escribe (crear_hilo d) m v a =
    Cumple->>= (λ ps. EstadoValido (record m { procesos = ps })) _
      (iniciar_hilo archivos d m.procesos) _
      (Cumple->>=_any _ (buscar_proceso_por_pid d.pid m.procesos) _ (λ p _.
        Cumple->>=_any _ (archivos d.archivo_pseudocodigo) _
          (λ is _. cambiar-EstadoValido d.pid _ m v)))
      (λ ps h. h)
kernel-EstadoValido archivos escribe (finaliza_hilo d) m v a =
    Cumple->>= (λ ps. EstadoValido (record m { procesos = ps })) _ (finalizar_hilo d m.procesos) _
      (Cumple->>=_any _ (buscar_proceso_por_pid d.pid m.procesos) _ (λ p _.
        Cumple->>=_any _ (buscar_hilo d.tid p.lista_hilos) _
          (λ h _. cambiar-EstadoValido d.pid _ m v)))
      (λ ps h. h)
kernel-EstadoValido archivos escribe (dump_memory d) m v a =
    Cumple->>=_any _ (contenido_dump d m) _ (λ bs _. v)

pub cpu-EstadoValido :
    (p : PeticionCpu) (m : Memoria)
    → EstadoValido m
    → Cumple (λ (r : RespuestaCpu × Memoria). EstadoValido r.1) (atender_peticion_cpu p m)
unfolding atender_peticion_cpu actualizar_contexto_ejecucion
cpu-EstadoValido (devolver_contexto d) m v =
    Cumple->>=_any _ (devolver_contexto_ejecucion d m.procesos) _ (λ c _. v)
cpu-EstadoValido (actualizar_contexto c) m v =
    Cumple->>= (λ ps. EstadoValido (record m { procesos = ps })) _
      (actualizar_contexto_ejecucion c m.procesos) _
      (Cumple->>=_any _ (buscar_proceso_por_pid c.pid m.procesos) _ (λ p _.
        Cumple->>=_any _ (buscar_hilo c.tid p.lista_hilos) _
          (λ h _. cambiar-EstadoValido c.pid _ m v)))
      (λ ps h. h)
cpu-EstadoValido (devuelve_instruccion d) m v =
    Cumple->>=_any _ (devolver_instruccion d m.procesos) _ (λ i _. v)
cpu-EstadoValido (lee_memoria d) m v = Cumple->>=_any _ (leer_memoria d m) _ (λ x _. v)
cpu-EstadoValido (escribe_memoria d) m v =
    Cumple->>= EstadoValido _ (escribir_memoria d m) _ (escribir-EstadoValido d m v) (λ m1 h. h)
