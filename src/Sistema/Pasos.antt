-- ===== src/Sistema/Pasos.antt =====
-- The invariant of the kernel and the memory together, through each of their steps.
use mathlib.Core.List.{map-append}
use sist_op_tp2c.Base.{
  Option, ℕ, ◌+◌, ◌<◌, ◌≤◌, ◌≡◌, sym, ap, ◌∙◌, subst, Bool, some, List, [], ◌∷◌, ◌++◌, ◌==◌, map,
  u32_mod, uint32_max, arith, Bool-cases, inl, inr, Cumple, Cumple->>=, Cumple->>=_any, Cumple-y,
  Cumple-some,
}
use sist_op_tp2c.Utils.KernelMemoria.{
  DatosDumpMemory, DatosInicializacionHilo, DatosInicializacionProceso, DatosFinalizacionProceso,
}
use sist_op_tp2c.Utils.Mensajes.{operacion_confirmar, operacion_notificar_error}
use sist_op_tp2c.Memoria.Procesos.{SinPid}
use sist_op_tp2c.Memoria.Invariante.{crear_proceso-InvMemoria}
use sist_op_tp2c.Memoria.{
  Memoria, Respuesta, confirmar, finaliza_proceso, crear_hilo, RespuestaCpu, finalizar_proceso,
  atender_peticion_kernel,
}
use sist_op_tp2c.Memoria.Comunicaciones.{codigo_de_respuesta}
use sist_op_tp2c.Memoria.Validez.{
  EstadoValido, crear-EstadoValido, finalizar-EstadoValido, cpu-EstadoValido,
}
use sist_op_tp2c.Kernel.Estados.{Kernel, Pcb, primero, buscar_proceso, quitar}
use sist_op_tp2c.Kernel.LargoPlazo.{planificador_largo_plazo}
use sist_op_tp2c.Kernel.Finalizar.{finalizar_proceso_por_pid}
use sist_op_tp2c.Kernel.Identidades.{Pids, pids, SinEse, finalizar_pid-SinEse}
use sist_op_tp2c.Kernel.Cambios.{
  Cambio, mismos, sin, iniciado, CambiaA, largo_plazo-CambiaA, Paso-CambiaA,
}
use sist_op_tp2c.Kernel.Unicos.{PidsUnicos, UnicosBajo, Cambio-PidsUnicos, quitar-All}
use sist_op_tp2c.Sistema.KernelMemoria.{peticion_de}
use sist_op_tp2c.Sistema.Ids.{ids, cpu-ids, ConIds, Confirmada, pide_hilo-ids, hilos-ids, fin-ids}
use sist_op_tp2c.Sistema.Ajenos.{
  Ajenos, Cambio-Ajenos, primero-SinPid, iniciar-pids, sin_primero, iniciado-Ajenos,
}
use sist_op_tp2c.Sistema.Conjunto.{
  iniciar_con_respuesta, iniciar_siguiente, terminar_proceso, PasoSistema, del_kernel, arranque,
  fin_de_proceso, de_hilos, de_la_cpu,
}

-- The memory is valid, the ids of the kernel are unique, and the processes of the memory have ids that
-- were given and do not wait in NEW.
pub record InvSistema (k : Kernel) (m : Memoria) (n : ℕ) : Type 0 where
  pub valida : EstadoValido m
  pub unicos : PidsUnicos (pids k)
  pub cuenta : k.siguiente_pid ≤ n
  pub ajenos : Ajenos (pids k) (ids m.procesos)

-- A memory that changes, then a kernel that does.
con_memoria :
    {k : Kernel} {m : Memoria} {n : ℕ}
    → InvSistema k m n
    → {m1 : Memoria} → EstadoValido m1
    → Ajenos (pids k) (ids m1.procesos)
    → InvSistema k m1 n
con_memoria i v a = record { valida = v; unicos = i.unicos; cuenta = i.cuenta; ajenos = a }

con_kernel :
    {k k1 : Kernel} {m : Memoria} {n : ℕ}
    → InvSistema k m n
    → n + 1 < u32_mod
    → CambiaA k k1
    → InvSistema k1 m (n + 1)
con_kernel {k} {k1} {m} i h c =
    let menor = i.cuenta in
    let (u, alto) = Cambio-PidsUnicos k c (omega arith) i.unicos in
    record {
      valida = i.valida;
      unicos = u;
      cuenta = omega arith;
      ajenos = Cambio-Ajenos k (ids m.procesos) c (omega arith) i.ajenos;
    }

pub buscar-bajo :
    (n pid : ℕ) (ps : List Pcb) (p : Pcb)
    → UnicosBajo n (map (λ (q : Pcb). q.pid) ps)
    → buscar_proceso pid ps ≡ some p
    → (p.pid ≡ pid) × (pid < n)
unfolding buscar_proceso
buscar-bajo n pid [] p u e = cc
buscar-bajo n pid (q ∷ ps) p u e = elim (Bool-cases (q.pid == pid)) [
  | inl si ↦
      let igual : q ≡ p = ground arith in
      let mismo : q.pid ≡ p.pid = ap (λ (x : Pcb). x.pid) igual in
      let menor = u.0 in (ground arith, ground arith)
  | inr ni ↦ buscar-bajo n pid ps p u.2 (ground arith)
]

abbrev Despues : ℕ → Kernel × Memoria → Type 0
Despues n s = InvSistema s.0 s.1 n

module _ (archivos : List ℕ → Option (List (List ℕ)))
    (escribe : DatosDumpMemory → List ℕ → Bool) where
  module _ {k : Kernel} {m : Memoria} {n : ℕ} (i : InvSistema k m n) (h : n + 1 < u32_mod) where
    -- The process at the head of NEW, once the memory has it.
    confirmado-InvSistema :
        (p : Pcb) (pid : ℕ) (m1 : Memoria)
        → primero k.estado_new ≡ some pid
        → EstadoValido m1
        → ids m1.procesos ≡ ids m.procesos ++ pid ∷ []
        → Cumple (Despues (n + 1)) (iniciar_con_respuesta archivos escribe p k confirmar m1)
    unfolding iniciar_con_respuesta peticion_de codigo_de_respuesta
    confirmado-InvSistema p pid m1 e1 v agrega =
        let d : DatosInicializacionHilo = record {
          pid = p.pid;
          tid = 0;
          archivo_pseudocodigo = p.nombre_archivo;
        } in
        Cumple->>= (Confirmada (ids m1.procesos)) (Despues (n + 1))
          (atender_peticion_kernel archivos escribe (crear_hilo d) m1) _
          (pide_hilo-ids archivos escribe d m1 v)
          (λ r (si, v2, mismos_ids). rw si (
            Cumple->>= (λ k1. pids k1 ≡ sin_primero pid k) (Despues (n + 1))
              (planificador_largo_plazo operacion_confirmar operacion_confirmar k) _
              (iniciar-pids k pid e1)
              (λ k1 e.
                let (u, alto) =
                  Cambio-PidsUnicos k (iniciado pid) (let menor = i.cuenta in omega arith)
                    i.unicos in
                record {
                  valida = v2;
                  unicos = subst PidsUnicos (sym e) u;
                  cuenta =
                      let menor = i.cuenta in let igual = ap (λ (q : Pids). q.2) e in omega arith;
                  ajenos =
                      subst (λ q. Ajenos q (ids r.1.procesos)) (sym e)
                        (subst (Ajenos (sin_primero pid k)) (sym (mismos_ids ∙ agrega))
                          (iniciado-Ajenos k pid (ids m.procesos) e1 i.unicos.1 i.ajenos));
                })))

    inicio-InvSistema : Cumple (Despues (n + 1)) (iniciar_siguiente archivos escribe k m)
    unfolding iniciar_siguiente atender_peticion_kernel peticion_de iniciar_con_respuesta
    inicio-InvSistema = Cumple->>=_any _ (primero k.estado_new) _ (λ pid e1.
        Cumple->>=_any _ (buscar_proceso pid k.lista_procesos) _ (λ p e2.
          let (mismo, bajo) = buscar-bajo k.siguiente_pid pid k.lista_procesos p i.unicos.0 e2 in
          let fresco : SinPid p.pid m.procesos =
            rw mismo (primero-SinPid k pid m.procesos e1 i.ajenos) in
          let d : DatosInicializacionProceso = record { pid = p.pid; tamanio = p.tamanio } in
          elim (crear_proceso-InvMemoria d m i.valida.0 fresco) [
            | inl (e, falta) ↦ rw e (
                Cumple->>= (CambiaA k) _ _ _
                  (largo_plazo-CambiaA k operacion_notificar_error operacion_notificar_error)
                  (λ k1 c. con_kernel i h c))
            | inr c ↦
                let r = c.responde in
                let v =
                  Cumple-some (λ (r : Respuesta × Memoria). EstadoValido r.1) _
                    (crear-EstadoValido d m i.valida fresco) c.responde in
                rw r (
                  confirmado-InvSistema p pid c.despues e1 v (
                    ap ids c.agrega
                    ∙ (map-append _ m.procesos _
                        ∙ ap (λ x. ids m.procesos ++ x ∷ []) (c.suyo.0 ∙ mismo))))
          ]))

    fin-InvSistema :
        (pid : ℕ) → Cumple (Despues (n + 1)) (terminar_proceso archivos escribe pid k m)
    unfolding terminar_proceso atender_peticion_kernel
    fin-InvSistema pid = Cumple->>=_any _ (buscar_proceso pid k.lista_procesos) _ (λ p e.
        let (mismo, bajo) = buscar-bajo k.siguiente_pid pid k.lista_procesos p i.unicos.0 e in
        let corto : pid < uint32_max = let menor = i.cuenta in omega arith in
        let d : DatosFinalizacionProceso = record { pid = pid } in
        Cumple->>= (ConIds (quitar pid (ids m.procesos))) (Despues (n + 1))
          (atender_peticion_kernel archivos escribe (finaliza_proceso d) m) _
          (Cumple->>=
            (λ (r : ℕ × Memoria).
              EstadoValido r.1 × (ids r.1.procesos ≡ quitar pid (ids m.procesos)))
            (ConIds (quitar pid (ids m.procesos))) (finalizar_proceso d m) _
            (Cumple-y _ _ _ (finalizar-EstadoValido d m i.valida corto)
              (fin-ids d m i.valida corto))
            (λ r b. b))
          (λ r (v, menos).
            Cumple->>= (SinEse pid k) (Despues (n + 1))
              (finalizar_proceso_por_pid (codigo_de_respuesta r.0) pid k) _
              (finalizar_pid-SinEse _ pid k)
              (λ k1 q.
                con_kernel
                  (con_memoria i v
                    (subst (Ajenos (pids k)) (sym menos) (quitar-All _ pid _ i.ajenos)))
                  h (subst (Cambio k) (sym q) (sin pid)))))

  pub paso-InvSistema :
      {k k1 : Kernel} {m m1 : Memoria} {n : ℕ}
      → PasoSistema archivos escribe k m k1 m1
      → n + 1 < u32_mod
      → InvSistema k m n
      → InvSistema k1 m1 (n + 1)
  paso-InvSistema (del_kernel p s) h i = con_kernel i h (Paso-CambiaA p)
  paso-InvSistema {n = n} (arranque e) h i =
      Cumple-some (Despues (n + 1)) _ (inicio-InvSistema i h) e
  paso-InvSistema {n = n} (fin_de_proceso pid e) h i =
      Cumple-some (Despues (n + 1)) _ (fin-InvSistema i h pid) e
  paso-InvSistema {k = k} {m = m} (de_hilos d r e) h i =
      let (v, mismos_ids) =
        Cumple-some (ConIds (ids m.procesos)) _ (hilos-ids archivos escribe m d i.valida) e in
      con_kernel (con_memoria i v (subst (Ajenos (pids k)) (sym mismos_ids) i.ajenos)) h mismos
  paso-InvSistema {k = k} {m = m} (de_la_cpu p r e) h i =
      let v =
        Cumple-some (λ (x : RespuestaCpu × Memoria). EstadoValido x.1) _
          (cpu-EstadoValido p m i.valida) e in
      let mismos_ids =
        Cumple-some (λ (x : RespuestaCpu × Memoria). ids x.1.procesos ≡ ids m.procesos) _
          (cpu-ids p m) e in
      con_kernel (con_memoria i v (subst (Ajenos (pids k)) (sym mismos_ids) i.ajenos)) h mismos
