-- ===== src/Sistema/Arranque.antt =====
-- What holds of the kernel and the memory together, in every state that they reach.
use sist_op_tp2c.Base.{
  Option, ℕ, ◌<◌, ◌≡◌, refl, Bool, false, some, List, [], ◌∷◌, ◌++◌, ◌==◌, u32_mod, arith,
  Bool-cases, inl, inr,
}
use sist_op_tp2c.Utils.Buffer.{Malloc}
use sist_op_tp2c.Utils.KernelMemoria.{DatosDumpMemory, DatosInicializacionProceso}
use sist_op_tp2c.Utils.Mensajes.{OpCode, codigo, operacion_confirmar, operacion_notificar_error}
use sist_op_tp2c.Memoria.Particiones.{Config}
use sist_op_tp2c.Memoria.Particiones.Asignacion.{ConfigDinamica}
use sist_op_tp2c.Memoria.Estructuras.{buscar_proceso_por_pid, iniciar_hilo, EstructuraProceso}
use sist_op_tp2c.Memoria.Procesos.{SinPid}
use sist_op_tp2c.Memoria.Invariante.{crear_proceso-InvMemoria}
use sist_op_tp2c.Memoria.{Memoria, iniciar_memoria, atender_peticion_kernel}
use sist_op_tp2c.Memoria.Comunicaciones.{codigo_de_respuesta}
use sist_op_tp2c.Memoria.Validez.{iniciar-EstadoValido}
use sist_op_tp2c.Kernel.Estados.{Kernel, Pcb, primero, buscar_proceso, inicializar_estados}
use sist_op_tp2c.Kernel.LargoPlazo.{inicializar_proceso, planificador_largo_plazo}
use sist_op_tp2c.Sistema.KernelMemoria.{peticion_de}
use sist_op_tp2c.Sistema.Ajenos.{primero-SinPid}
use sist_op_tp2c.Sistema.Conjunto.{
  iniciar_con_respuesta, iniciar_siguiente, Conjunto, encendido, sigue, rondas,
}
use sist_op_tp2c.Sistema.Pasos.{InvSistema, buscar-bajo, paso-InvSistema}

-- A round of the long-term scheduler whose waits are over.
planificador-total :
    (r1 r2 : OpCode) (k : Kernel) (pid : ℕ) (p : Pcb)
    → primero k.estado_new ≡ some pid
    → buscar_proceso pid k.lista_procesos ≡ some p
    → 0 < k.semaforo_estado_new
    → 0 < k.semaforo_memoria_suficiente
    → (k1 : Kernel) × (planificador_largo_plazo r1 r2 k ≡ some k1)
unfolding planificador_largo_plazo inicializar_proceso
planificador-total r1 r2 k pid p e1 e2 hn hm =
    let n : (k.semaforo_estado_new == 0) ≡ false = ground arith in
    let m : (k.semaforo_memoria_suficiente == 0) ≡ false = ground arith in
    rw m (
      rw n (
        rw e1 (elim (Bool-cases (codigo r1 == codigo operacion_notificar_error)) [
          | inl si ↦ rw si (_, refl)
          | inr no_hay ↦ rw no_hay (
              rw e2 (elim (Bool-cases (codigo r2 == codigo operacion_confirmar)) [
                | inl bien ↦ rw bien (_, refl)
                | inr mal ↦ rw mal (_, refl)
              ]))
        ])))

buscar-agregado :
    (pid : ℕ) (ps : List EstructuraProceso) (p : EstructuraProceso)
    → p.pid ≡ pid
    → (q : EstructuraProceso) × (buscar_proceso_por_pid pid (ps ++ p ∷ []) ≡ some q)
unfolding buscar_proceso_por_pid
buscar-agregado pid [] p e = (p, ground arith)
buscar-agregado pid (x ∷ ps) p e = elim (Bool-cases (x.pid == pid)) [
  | inl si ↦ rw si (x, refl)
  | inr ni ↦ rw ni (buscar-agregado pid ps p e)
]

module _ (archivos : List ℕ → Option (List (List ℕ)))
    (escribe : DatosDumpMemory → List ℕ → Bool) where
  module _ (ml : Malloc) (c : Config) (dinamica : ConfigDinamica c) where
    -- Under dynamic partitions, in each state that the kernel and the memory reach together from their
    -- start, by fewer than 2 ^ 32 rounds in any order: the memory is valid, the kernel's processes have
    -- different ids, no more were given than the rounds gone, and each process of the memory has an id
    -- that was given and does not wait in NEW.
    pub Conjunto-InvSistema :
        {k : Kernel} {m : Memoria} (s : Conjunto archivos escribe ml c k m)
        → rondas archivos escribe s < u32_mod
        → InvSistema k m (rondas archivos escribe s)
    unfolding rondas inicializar_estados iniciar_memoria
    Conjunto-InvSistema encendido h = record {
      valida = iniciar-EstadoValido ml c dinamica;
      unicos = (tt, tt);
      cuenta = omega arith;
      ajenos = tt;
    }
    Conjunto-InvSistema (sigue s p) h =
        paso-InvSistema archivos escribe p (omega arith) (Conjunto-InvSistema s (omega arith))

    -- Under dynamic partitions, in each state that the kernel and the memory reach together from their
    -- start by fewer than 2 ^ 32 rounds: where a process stands at the head of NEW, its file of
    -- pseudocode can be opened, and both semaphores of the long-term scheduler are positive, its round
    -- with the memory's true answers comes to an end, and neither module faults.
    pub Conjunto-arranca :
        {k : Kernel} {m : Memoria} (s : Conjunto archivos escribe ml c k m) (pid : ℕ) (p : Pcb)
        (instrucciones : List (List ℕ))
        → rondas archivos escribe s < u32_mod
        → primero k.estado_new ≡ some pid
        → buscar_proceso pid k.lista_procesos ≡ some p
        → archivos p.nombre_archivo ≡ some instrucciones
        → 0 < k.semaforo_estado_new
        → 0 < k.semaforo_memoria_suficiente
        → (k1 : Kernel) × (m1 : Memoria) × (iniciar_siguiente archivos escribe k m ≡ some (k1, m1))
    unfolding iniciar_siguiente atender_peticion_kernel peticion_de iniciar_con_respuesta
        iniciar_hilo codigo_de_respuesta
    Conjunto-arranca {k} {m} s pid p instrucciones h e1 e2 abre hay_new hay_memoria =
        let i = Conjunto-InvSistema s h in
        let (mismo, bajo) = buscar-bajo k.siguiente_pid pid k.lista_procesos p i.unicos.0 e2 in
        let fresco : SinPid p.pid m.procesos =
          rw mismo (primero-SinPid k pid m.procesos e1 i.ajenos) in
        let d : DatosInicializacionProceso = record { pid = p.pid; tamanio = p.tamanio } in
        let (k0, mal) =
          planificador-total operacion_notificar_error operacion_notificar_error k pid p e1 e2
            hay_new hay_memoria in
        let (k1, bien) =
          planificador-total operacion_confirmar operacion_confirmar k pid p e1 e2 hay_new
            hay_memoria in
        rw e1 (
          rw e2 (elim (crear_proceso-InvMemoria d m i.valida.0 fresco) [
            | inl (e, falta) ↦ rw e (rw mal (k0, m, refl))
            | inr c ↦
                let r = c.responde in
                let (q, esta) = buscar-agregado p.pid m.procesos c.proceso c.suyo.0 in
                let agrega = c.agrega in
                let hay : buscar_proceso_por_pid p.pid c.despues.procesos ≡ some q =
                  rw agrega esta in
                rw r (rw hay (rw abre (rw bien (_, _, refl))))
          ]))
