-- ===== src/Sistema/Ids.antt =====
-- The ids of the processes of the memory, through each request.
use sist_op_tp2c.Base.{
  ℕ, ◌+◌, ◌<◌, ◌≡◌, refl, sym, ap, ◌∙◌, subst, Bool, List, [], ◌∷◌, ◌==◌, map, uint32_max, arith,
  Bool-cases, Option, Option-cases, inl, inr, Cumple, Cumple->>=, Cumple->>=_any, Cumple-imp, leb,
  length, Cumple-if,
}
use sist_op_tp2c.Utils.KernelMemoria.{
  DatosDumpMemory, DatosInicializacionHilo, DatosFinalizacionProceso,
}
use sist_op_tp2c.Memoria.Estructuras.{
  buscar_proceso_por_pid, buscar_hilo, iniciar_hilo, finalizar_hilo, EstructuraHilo,
  EstructuraProceso, cambiar_hilos, quitar_proceso, actualizar_contexto_ejecucion,
  devolver_contexto_ejecucion, devolver_instruccion,
}
use sist_op_tp2c.Memoria.Invariante.{finalizar_proceso-InvMemoria}
use sist_op_tp2c.Memoria.{
  Memoria, Respuesta, confirmar, PeticionKernel, crear_hilo, RespuestaCpu, contenido_dump,
  finalizar_proceso, atender_peticion_kernel, PeticionCpu, devolver_contexto, actualizar_contexto,
  devuelve_instruccion, lee_memoria, escribe_memoria, leer_memoria, escribir_memoria,
  atender_peticion_cpu,
}
use sist_op_tp2c.Memoria.Validez.{EstadoValido, cambiar-EstadoValido}
use sist_op_tp2c.Kernel.Estados.{quitar}
use sist_op_tp2c.Sistema.Conjunto.{DeHilos, pide_hilo, fin_de_hilo, pide_dump}

abbrev pub ids : List EstructuraProceso → List ℕ
ids = map (λ (p : EstructuraProceso). p.pid)

pub ids-cambiar :
    (pid : ℕ) (f : List EstructuraHilo → List EstructuraHilo) (ps : List EstructuraProceso)
    → ids (cambiar_hilos pid f ps) ≡ ids ps
unfolding cambiar_hilos
ids-cambiar pid f [] = refl
ids-cambiar pid f (p ∷ ps) = ground (arith, ids-cambiar pid f ps)

pub ids-quitar :
    (pid : ℕ) (ps : List EstructuraProceso) → ids (quitar_proceso pid ps) ≡ quitar pid (ids ps)
unfolding quitar_proceso quitar
ids-quitar pid [] = refl
ids-quitar pid (p ∷ ps) = elim (Bool-cases (p.pid == pid)) [
  | inl si ↦ rw si refl
  | inr ni ↦ rw ni (ap (◌∷◌ p.pid) (ids-quitar pid ps))
]

-- A request of the CPU neither starts nor ends a process.
pub cpu-ids :
    (p : PeticionCpu) (m : Memoria)
    → Cumple
        (λ (r : RespuestaCpu × Memoria). ids r.1.procesos ≡ ids m.procesos)
        (atender_peticion_cpu p m)
unfolding atender_peticion_cpu actualizar_contexto_ejecucion escribir_memoria
cpu-ids (devolver_contexto d) m =
    Cumple->>=_any _ (devolver_contexto_ejecucion d m.procesos) _ (λ c _. refl)
cpu-ids (actualizar_contexto c) m =
    Cumple->>= (λ ps. ids ps ≡ ids m.procesos) _ (actualizar_contexto_ejecucion c m.procesos) _
      (Cumple->>=_any _ (buscar_proceso_por_pid c.pid m.procesos) _ (λ p _.
        Cumple->>=_any _ (buscar_hilo c.tid p.lista_hilos) _
          (λ h _. ids-cambiar c.pid _ m.procesos)))
      (λ ps h. h)
cpu-ids (devuelve_instruccion d) m =
    Cumple->>=_any _ (devolver_instruccion d m.procesos) _ (λ i _. refl)
cpu-ids (lee_memoria d) m = Cumple->>=_any _ (leer_memoria d m) _ (λ x _. refl)
cpu-ids (escribe_memoria d) m =
    Cumple->>= (λ (m1 : Memoria). ids m1.procesos ≡ ids m.procesos) _ (escribir_memoria d m) _
      (Cumple-if _ (leb d.tamanio 4) _ _
        (Cumple-if _ (leb (d.dir_fisica + d.tamanio) (length m.memoria)) _ _ refl tt) tt)
      (λ m1 h. h)

-- What is known of the memory after a request.
abbrev pub ConIds : List ℕ → Respuesta × Memoria → Type 0
ConIds xs r = EstadoValido r.1 × (ids r.1.procesos ≡ xs)

abbrev pub Confirmada : List ℕ → Respuesta × Memoria → Type 0
Confirmada xs r = (r.0 ≡ confirmar) × EstadoValido r.1 × (ids r.1.procesos ≡ xs)

pub fin-ids :
    (d : DatosFinalizacionProceso) (m : Memoria)
    → EstadoValido m
    → d.pid < uint32_max
    → Cumple
        (λ (r : ℕ × Memoria). ids r.1.procesos ≡ quitar d.pid (ids m.procesos))
        (finalizar_proceso d m)
unfolding finalizar_proceso
fin-ids d m v corto = elim (Option-cases (buscar_proceso_por_pid d.pid m.procesos)) [
  | inl nada ↦ rw nada tt
  | inr (p, hay) ↦
      let (m1, e, v1, q, misma) = finalizar_proceso-InvMemoria d m p v.0 corto hay in
      subst (Cumple (λ (r : ℕ × Memoria). ids r.1.procesos ≡ quitar d.pid (ids m.procesos))) (sym e)
        (ap ids q ∙ ids-quitar d.pid m.procesos)
]

module _ (archivos : List ℕ → Option (List (List ℕ)))
    (escribe : DatosDumpMemory → List ℕ → Bool) where
  pub pide_hilo-ids :
      (d : DatosInicializacionHilo) (m : Memoria)
      → EstadoValido m
      → Cumple
          (Confirmada (ids m.procesos))
          (atender_peticion_kernel archivos escribe (crear_hilo d) m)
  unfolding atender_peticion_kernel iniciar_hilo
  pide_hilo-ids d m v =
      Cumple->>= (λ ps. EstadoValido (record m { procesos = ps }) × (ids ps ≡ ids m.procesos)) _
        (iniciar_hilo archivos d m.procesos) _
        (Cumple->>=_any _ (buscar_proceso_por_pid d.pid m.procesos) _ (λ p _.
          Cumple->>=_any _ (archivos d.archivo_pseudocodigo) _
            (λ is _. (cambiar-EstadoValido d.pid _ m v, ids-cambiar d.pid _ m.procesos))))
        (λ ps h. (refl, h.0, h.1))

  pub hilos-ids :
      {p : PeticionKernel} (m : Memoria)
      → DeHilos archivos escribe p
      → EstadoValido m
      → Cumple (ConIds (ids m.procesos)) (atender_peticion_kernel archivos escribe p m)
  unfolding atender_peticion_kernel finalizar_hilo
  hilos-ids m (pide_hilo d) v =
      Cumple-imp (Confirmada (ids m.procesos)) _ _ (λ r h. (h.1, h.2)) (pide_hilo-ids d m v)
  hilos-ids m (fin_de_hilo d) v =
      Cumple->>= (λ ps. EstadoValido (record m { procesos = ps }) × (ids ps ≡ ids m.procesos)) _
        (finalizar_hilo d m.procesos) _
        (Cumple->>=_any _ (buscar_proceso_por_pid d.pid m.procesos) _ (λ p _.
          Cumple->>=_any _ (buscar_hilo d.tid p.lista_hilos) _
            (λ h _. (cambiar-EstadoValido d.pid _ m v, ids-cambiar d.pid _ m.procesos))))
        (λ ps h. h)
  hilos-ids m (pide_dump d) v = Cumple->>=_any _ (contenido_dump d m) _ (λ bs _. (v, refl))
