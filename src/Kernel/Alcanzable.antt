-- ===== src/Kernel/Alcanzable.antt =====
-- The states that the threads of the kernel reach together. A step is a round of a scheduler or of
-- the I/O device, an operation of the running thread, or the answer to a dump, in any order.
use sist_op_tp2c.Base.{
  ℕ, ◌≡◌, refl, some, List, [], ◌∷◌, ◌==◌, Cumple, Cumple->>=, Cumple->>=_any, Cumple-if,
  Cumple-some,
}
use sist_op_tp2c.Utils.Mensajes.{OpCode, codigo, operacion_confirmar, operacion_notificar_error}
use sist_op_tp2c.Kernel.Estados.{
  Kernel, Pcb, SolicitudIo, inicializar_estados, crear_proceso, primero, buscar_proceso, con_tcb,
  transicion_ready_a_exec, transicion_blocked_a_ready, atender_solicitudes, dispositivo_io,
}
use sist_op_tp2c.Kernel.CortoPlazo.{
  ListGetMinimum, AlgoritmoPlanificacion, obtener_siguiente_a_exec, planificar,
}
use sist_op_tp2c.Kernel.LargoPlazo.{
  crear_hilo_principal, transicion_new_a_ready, inicializar_proceso, planificador_largo_plazo,
}
use sist_op_tp2c.Kernel.Finalizar.{esperar_respuesta_dump_memory}
use sist_op_tp2c.Kernel.Instrucciones.{Atendida, Operacion, atender_operacion}
use sist_op_tp2c.Kernel.Semaforos.{
  Sincronizado, blocked_a_ready-Sincronizado, finalizar_proceso-Sincronizado,
}
use sist_op_tp2c.Kernel.Operaciones.{
  atender_operacion-Sincronizado, largo_plazo-Sincronizado, dispositivo_io-Sincronizado,
}
use sist_op_tp2c.Kernel.Despacho.{planificar_lem}
use sist_op_tp2c.Kernel.Mutexes.{
  Coherentes, TodosCoherentes, procesos-snoc, buscar_proceso-Coherente, cambiar_proceso-Coherente,
}
use sist_op_tp2c.Kernel.Coherencia.{atender_operacion-Coherentes, finalizar_pid-Coherentes}

pub data Paso : Kernel → Kernel → Type 0 where
  creado :
      (archivo : List ℕ) (tamanio prioridad : ℕ) {k : Kernel}
      → Paso k (crear_proceso archivo tamanio prioridad k)
  despachado :
      (list_get_minimum : ListGetMinimum) (a : AlgoritmoPlanificacion) (h : ℕ) {k k1 : Kernel}
      → planificar list_get_minimum a k ≡ some (h, k1)
      → Paso k k1
  operado :
      (h : ℕ) (op : Operacion) {k : Kernel} (a : Atendida)
      → atender_operacion h op k ≡ some a
      → Paso k a.kernel
  inicializado :
      (r1 r2 : OpCode) {k k1 : Kernel} → planificador_largo_plazo r1 r2 k ≡ some k1 → Paso k k1
  con_io : {k k1 : Kernel} → dispositivo_io k ≡ some k1 → Paso k k1
  con_dump :
      (r1 r2 : OpCode) (h : ℕ) {k k1 : Kernel}
      → esperar_respuesta_dump_memory r1 r2 h k ≡ some k1
      → Paso k k1

pub data Alcanzable : Kernel → Type 0 where
  inicio : Alcanzable inicializar_estados
  paso : {k k1 : Kernel} → Alcanzable k → Paso k k1 → Alcanzable k1

dump-Sincronizado :
    (r1 r2 : OpCode) (h : ℕ) (k : Kernel)
    → Sincronizado k
    → Cumple Sincronizado (esperar_respuesta_dump_memory r1 r2 h k)
unfolding esperar_respuesta_dump_memory
dump-Sincronizado r1 r2 h k s =
    Cumple-if _ (codigo r1 == codigo operacion_confirmar) _ _ (blocked_a_ready-Sincronizado h k s)
      (Cumple->>=_any _ (k.tcbs h) _ (λ t _. finalizar_proceso-Sincronizado r2 t.pid_padre k s))

Paso-Sincronizado : {k k1 : Kernel} → Paso k k1 → Sincronizado k → Sincronizado k1
unfolding crear_proceso
Paso-Sincronizado {k = k} (creado archivo tamanio prioridad) s = s
Paso-Sincronizado {k = k} {k1 = k1} (despachado m a h e) s = (planificar_lem m a k k1 h s e).0
Paso-Sincronizado {k = k} (operado h op a e) s = atender_operacion-Sincronizado h op k a s e
Paso-Sincronizado {k = k} {k1 = k1} (inicializado r1 r2 e) s =
    largo_plazo-Sincronizado r1 r2 k k1 s e
Paso-Sincronizado {k = k} {k1 = k1} (con_io e) s = dispositivo_io-Sincronizado k k1 s e
Paso-Sincronizado {k = k} {k1 = k1} (con_dump r1 r2 h e) s =
    Cumple-some Sincronizado _ (dump-Sincronizado r1 r2 h k s) e

-- In each state that the kernel reaches from its start, by any order of its steps, the value of
-- `semaforo_estado_ready` is the number of READY threads.
pub Alcanzable-Sincronizado : {k : Kernel} → Alcanzable k → Sincronizado k
unfolding inicializar_estados
Alcanzable-Sincronizado inicio = refl
Alcanzable-Sincronizado (paso a p) = Paso-Sincronizado p (Alcanzable-Sincronizado a)

despacho-Coherentes :
    (list_get_minimum : ListGetMinimum) (a : AlgoritmoPlanificacion) (k : Kernel)
    → Coherentes k
    → Cumple (λ (r : ℕ × Kernel). Coherentes r.1) (planificar list_get_minimum a k)
unfolding planificar transicion_ready_a_exec
despacho-Coherentes m a k c =
    Cumple-if _ (k.semaforo_estado_ready == 0) _ _ tt
      (Cumple->>=_any _ (obtener_siguiente_a_exec m a k) _ (λ h _. c))

largo_plazo-Coherentes :
    (r1 r2 : OpCode) (k : Kernel)
    → Coherentes k
    → Cumple Coherentes (planificador_largo_plazo r1 r2 k)
unfolding planificador_largo_plazo inicializar_proceso transicion_new_a_ready crear_hilo_principal
    con_tcb
largo_plazo-Coherentes r1 r2 k c = Cumple-if _ (k.semaforo_memoria_suficiente == 0) _ _ tt (
    Cumple-if _ (k.semaforo_estado_new == 0) _ _ tt (
      Cumple->>=_any _ (primero k.estado_new) _ (λ pid _.
        Cumple-if _ (codigo r1 == codigo operacion_notificar_error) _ _ c (
          Cumple->>= (λ (p : Pcb). TodosCoherentes p.mutex) _ (buscar_proceso pid k.lista_procesos)
            _ (buscar_proceso-Coherente pid k.lista_procesos c)
            (λ p t.
              let queda = cambiar_proceso-Coherente p.pid _ k.lista_procesos t c in
              Cumple-if _ (codigo r2 == codigo operacion_confirmar) _ _ queda queda)))))

solicitudes-Coherentes :
    (xs : List SolicitudIo) (k : Kernel)
    → Coherentes k
    → Cumple Coherentes (atender_solicitudes xs k)
unfolding atender_solicitudes transicion_blocked_a_ready
solicitudes-Coherentes [] k c = tt
solicitudes-Coherentes (x ∷ xs) k c = Cumple-if _ (k.semaforo_io == 0) _ _ tt c

io_listo-Coherentes : (k : Kernel) → Coherentes k → Cumple Coherentes (dispositivo_io k)
unfolding dispositivo_io
io_listo-Coherentes k c = solicitudes-Coherentes k.cola_io k c

dump-Coherentes :
    (r1 r2 : OpCode) (h : ℕ) (k : Kernel)
    → Coherentes k
    → Cumple Coherentes (esperar_respuesta_dump_memory r1 r2 h k)
unfolding esperar_respuesta_dump_memory transicion_blocked_a_ready
dump-Coherentes r1 r2 h k c =
    Cumple-if _ (codigo r1 == codigo operacion_confirmar) _ _ c
      (Cumple->>=_any _ (k.tcbs h) _ (λ t _. finalizar_pid-Coherentes r2 t.pid_padre k c))

Paso-Coherentes : {k k1 : Kernel} → Paso k k1 → Coherentes k → Coherentes k1
unfolding crear_proceso
Paso-Coherentes {k = k} (creado archivo tamanio prioridad) c = procesos-snoc k.lista_procesos _ c tt
Paso-Coherentes {k = k} {k1 = k1} (despachado m a h e) c =
    Cumple-some (λ (r : ℕ × Kernel). Coherentes r.1) _ (despacho-Coherentes m a k c) e
Paso-Coherentes {k = k} (operado h op a e) c = atender_operacion-Coherentes h op k a c e
Paso-Coherentes {k = k} {k1 = k1} (inicializado r1 r2 e) c =
    Cumple-some Coherentes _ (largo_plazo-Coherentes r1 r2 k c) e
Paso-Coherentes {k = k} {k1 = k1} (con_io e) c =
    Cumple-some Coherentes _ (io_listo-Coherentes k c) e
Paso-Coherentes {k = k} {k1 = k1} (con_dump r1 r2 h e) c =
    Cumple-some Coherentes _ (dump-Coherentes r1 r2 h k c) e

-- In each state that the kernel reaches from its start, by any order of its steps, each mutex of each
-- process is free without an owner and without waiting threads, or it is taken and has an owner.
pub Alcanzable-Coherentes : {k : Kernel} → Alcanzable k → Coherentes k
unfolding inicializar_estados
Alcanzable-Coherentes inicio = tt
Alcanzable-Coherentes (paso a p) = Paso-Coherentes p (Alcanzable-Coherentes a)
