-- ===== src/Kernel/Cambios.antt =====
-- What each step of the kernel does to the ids of the processes.
use mathlib.Core.List.{map-append}
use sist_op_tp2c.Base.{
  ℕ, sym, ap, subst, Bool, Option, List, [], ◌∷◌, ◌++◌, ◌>>=◌, ◌==◌, add32, Cumple, Cumple->>=,
  Cumple->>=_any, Cumple-if, Cumple-imp, Cumple-some,
}
use sist_op_tp2c.Utils.Mensajes.{OpCode, codigo, operacion_confirmar, operacion_notificar_error}
use sist_op_tp2c.Kernel.Estados.{
  Kernel, Pcb, SolicitudIo, buscar_proceso, guardar_proceso, crear_proceso, con_tcb, quitar,
  primero, transicion_ready_a_exec, transicion_exec_a_ready, transicion_blocked_a_ready,
  atender_solicitudes, dispositivo_io,
}
use sist_op_tp2c.Kernel.CortoPlazo.{
  obtener_siguiente_a_exec, planificar, ListGetMinimum, AlgoritmoPlanificacion,
}
use sist_op_tp2c.Kernel.LargoPlazo.{
  crear_hilo_principal, transicion_new_a_ready, inicializar_proceso, planificador_largo_plazo,
}
use sist_op_tp2c.Kernel.Syscalls.{en_ejecucion}
use sist_op_tp2c.Kernel.Finalizar.{syscall_finalizar_proceso, esperar_respuesta_dump_memory}
use sist_op_tp2c.Kernel.Instrucciones.{
  Atendida, Operacion, op_crear_proceso, op_finalizar_proceso, op_crear_hilo, op_finalizar_hilo,
  op_esperar_hilo, op_crear_mutex, op_bloquear_mutex, op_desbloquear_mutex, op_io, op_dump_memory,
  op_desalojar_hilo, op_desconocida, atender_operacion,
}
use sist_op_tp2c.Kernel.Alcanzable.{
  Paso, creado, despachado, operado, inicializado, con_io, con_dump,
}
use sist_op_tp2c.Kernel.Identidades.{
  Pids, pids, MismosPids, SinEse, guardar-MismosPids, finalizar_pid-SinEse, crear_hilo-MismosPids,
  esperar_hilo-MismosPids, crear_mutex-MismosPids, bloquear_mutex-MismosPids,
  desbloquear_mutex-MismosPids, io-MismosPids, dump_memory-MismosPids, finalizar_hilo-MismosPids,
}

-- What a step does to the ids: nothing, the end of a process, a new process, or the start of the
-- process at the head of NEW.
pub data Cambio (k : Kernel) : Pids → Type 0 where
  mismos : Cambio k (pids k)
  sin : (pid : ℕ) → Cambio k (quitar pid (pids k).0, k.estado_new, k.siguiente_pid)
  nuevo : Cambio k (
    (pids k).0 ++ k.siguiente_pid ∷ [],
    k.estado_new ++ k.siguiente_pid ∷ [],
    add32 k.siguiente_pid 1,
  )
  iniciado : (pid : ℕ) → Cambio k ((pids k).0, quitar pid k.estado_new, k.siguiente_pid)

abbrev pub CambiaA : Kernel → Kernel → Type 0
CambiaA k k1 = Cambio k (pids k1)

mismos-CambiaA : (k k1 : Kernel) → MismosPids k k1 → CambiaA k k1
mismos-CambiaA k k1 e = subst (Cambio k) (sym e) mismos

crear_proceso-CambiaA :
    (archivo : List ℕ) (tamanio prioridad : ℕ) (k : Kernel)
    → CambiaA k (crear_proceso archivo tamanio prioridad k)
unfolding crear_proceso
crear_proceso-CambiaA archivo tamanio prioridad k =
    subst (λ l. Cambio k (l, k.estado_new ++ k.siguiente_pid ∷ [], add32 k.siguiente_pid 1))
      (sym (map-append (λ (p : Pcb). p.pid) k.lista_procesos _)) nuevo

module _ (k : Kernel) where
  -- A system call that keeps the ids, and the answer that follows it.
  igual {ℓ} :
      {A : Type ℓ} (de : A → Kernel) (m : Option A) (f : A → Option Atendida)
      → Cumple (λ a. MismosPids k (de a)) m
      → ((a : A) → CambiaA k (de a) → Cumple (λ (r : Atendida). CambiaA k r.kernel) (f a))
      → Cumple (λ (r : Atendida). CambiaA k r.kernel) (m >>= f)
  igual de m f h g =
      Cumple->>= (λ a. MismosPids k (de a)) _ m f h (λ a e. g a (mismos-CambiaA k (de a) e))

  operacion-CambiaA :
      (h : ℕ) (op : Operacion)
      → Cumple (λ (r : Atendida). CambiaA k r.kernel) (atender_operacion h op k)
  unfolding atender_operacion syscall_finalizar_proceso transicion_exec_a_ready
  operacion-CambiaA h (op_crear_proceso archivo tamanio prioridad) =
      crear_proceso-CambiaA archivo tamanio prioridad k
  operacion-CambiaA h (op_finalizar_proceso r) =
      Cumple->>= (CambiaA k) _ (syscall_finalizar_proceso r k) _
        (Cumple->>=_any _ (en_ejecucion k) _ (λ e _.
          Cumple-imp (SinEse e.1.pid_padre k) _ _
            (λ k1 q. subst (Cambio k) (sym q) (sin e.1.pid_padre))
            (finalizar_pid-SinEse r e.1.pid_padre k)))
        (λ k1 q. q)
  operacion-CambiaA h (op_crear_hilo archivo prioridad) =
      igual (λ k1. k1) _ _ (crear_hilo-MismosPids k archivo prioridad) (λ k1 q. q)
  operacion-CambiaA h (op_finalizar_hilo r) =
      igual (λ k1. k1) _ _ (finalizar_hilo-MismosPids k r) (λ k1 q. q)
  operacion-CambiaA h (op_esperar_hilo tid) =
      igual (λ (r : Bool × Kernel). r.1) _ _ (esperar_hilo-MismosPids k tid) (λ r q. q)
  operacion-CambiaA h (op_crear_mutex recurso) =
      igual (λ k1. k1) _ _ (crear_mutex-MismosPids k recurso) (λ k1 q. q)
  operacion-CambiaA h (op_bloquear_mutex recurso) =
      igual (λ (r : Bool × Kernel). r.1) _ _ (bloquear_mutex-MismosPids k recurso)
        (λ r q. Cumple-if _ r.0 _ _ q q)
  operacion-CambiaA h (op_desbloquear_mutex recurso) =
      igual (λ k1. k1) _ _ (desbloquear_mutex-MismosPids k recurso) (λ k1 q. q)
  operacion-CambiaA h (op_io tiempo) = igual (λ k1. k1) _ _ (io-MismosPids k tiempo) (λ k1 q. q)
  operacion-CambiaA h op_dump_memory = igual (λ k1. k1) _ _ (dump_memory-MismosPids k) (λ k1 q. q)
  operacion-CambiaA h op_desalojar_hilo = mismos
  operacion-CambiaA h (op_desconocida c) = mismos

  pub largo_plazo-CambiaA : (r1 r2 : OpCode) → Cumple (CambiaA k) (planificador_largo_plazo r1 r2 k)
  unfolding planificador_largo_plazo inicializar_proceso transicion_new_a_ready crear_hilo_principal
      con_tcb
  largo_plazo-CambiaA r1 r2 = Cumple-if _ (k.semaforo_memoria_suficiente == 0) _ _ tt (
      Cumple-if _ (k.semaforo_estado_new == 0) _ _ tt (
        Cumple->>=_any _ (primero k.estado_new) _ (λ pid _.
          Cumple-if _ (codigo r1 == codigo operacion_notificar_error) _ _ mismos (
            Cumple->>=_any _ (buscar_proceso pid k.lista_procesos) _ (λ p _.
              let igual = guardar-MismosPids (record p { tids = p.tids ++ 0 ∷ [] }) k in
              Cumple-if _ (codigo r2 == codigo operacion_confirmar) _ _
                (subst (λ l. Cambio k (l, quitar pid k.estado_new, k.siguiente_pid))
                  (sym (ap (λ (x : Pids). x.0) igual)) (iniciado pid))
                (mismos-CambiaA k (guardar_proceso (record p { tids = p.tids ++ 0 ∷ [] }) k)
                  igual))))))

  despacho-CambiaA :
      (m : ListGetMinimum) (a : AlgoritmoPlanificacion)
      → Cumple (λ (r : ℕ × Kernel). CambiaA k r.1) (planificar m a k)
  unfolding planificar transicion_ready_a_exec
  despacho-CambiaA m a =
      Cumple-if _ (k.semaforo_estado_ready == 0) _ _ tt
        (Cumple->>=_any _ (obtener_siguiente_a_exec m a k) _ (λ h _. mismos))

  solicitudes-CambiaA : (xs : List SolicitudIo) → Cumple (CambiaA k) (atender_solicitudes xs k)
  unfolding atender_solicitudes transicion_blocked_a_ready
  solicitudes-CambiaA [] = tt
  solicitudes-CambiaA (x ∷ xs) = Cumple-if _ (k.semaforo_io == 0) _ _ tt mismos

  dump-CambiaA :
      (r1 r2 : OpCode) (h : ℕ) → Cumple (CambiaA k) (esperar_respuesta_dump_memory r1 r2 h k)
  unfolding esperar_respuesta_dump_memory transicion_blocked_a_ready
  dump-CambiaA r1 r2 h = Cumple-if _ (codigo r1 == codigo operacion_confirmar) _ _ mismos (
      Cumple->>=_any _ (k.tcbs h) _ (λ t _.
        Cumple-imp (SinEse t.pid_padre k) _ _ (λ k1 q. subst (Cambio k) (sym q) (sin t.pid_padre))
          (finalizar_pid-SinEse r2 t.pid_padre k)))

pub Paso-CambiaA : {k k1 : Kernel} → Paso k k1 → CambiaA k k1
unfolding dispositivo_io
Paso-CambiaA {k = k} (creado archivo tamanio prioridad) =
    crear_proceso-CambiaA archivo tamanio prioridad k
Paso-CambiaA {k = k} (despachado m a h e) =
    Cumple-some (λ (r : ℕ × Kernel). CambiaA k r.1) _ (despacho-CambiaA k m a) e
Paso-CambiaA {k = k} (operado h op a e) =
    Cumple-some (λ (r : Atendida). CambiaA k r.kernel) _ (operacion-CambiaA k h op) e
Paso-CambiaA {k = k} (inicializado r1 r2 e) =
    Cumple-some (CambiaA k) _ (largo_plazo-CambiaA k r1 r2) e
Paso-CambiaA {k = k} (con_io e) = Cumple-some (CambiaA k) _ (solicitudes-CambiaA k k.cola_io) e
Paso-CambiaA {k = k} (con_dump r1 r2 h e) = Cumple-some (CambiaA k) _ (dump-CambiaA k r1 r2 h) e
