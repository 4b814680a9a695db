-- ===== src/Kernel/Identidades.antt =====
-- The ids of the processes: what each step of the kernel does to `lista_procesos`, to NEW and to
-- ULTIMO_PID, as ids.
use mathlib.Core.List.{reverse}
use sist_op_tp2c.Base.{
  ℕ, ◌≡◌, refl, ap, ◌∙◌, Bool, Option, none, some, List, [], ◌∷◌, ◌++◌, ◌==◌, map, add32, arith,
  Bool-cases, inl, inr, Cumple, Cumple->>=, Cumple->>=_any, Cumple-if, Cumple-imp,
}
use sist_op_tp2c.Utils.Mensajes.{OpCode, codigo, operacion_confirmar}
use sist_op_tp2c.Kernel.Estados.{
  Kernel, Pcb, Mutex, buscar_proceso, cambiar_proceso, guardar_proceso, con_tcb, contiene, quitar,
  transicion_exec_a_blocked, transicion_blocked_a_ready, desbloquear_todos,
}
use sist_op_tp2c.Kernel.Syscalls.{
  en_ejecucion, buscar_hilo_en_proceso, despertar, syscall_crear_hilo, esperar_a,
  syscall_esperar_hilo, syscall_crear_mutex, syscall_bloquear_mutex, syscall_desbloquear_mutex,
  syscall_io, syscall_dump_memory, buscar_mutex, tomar_mutex, ceder_mutex, cambiar_mutex,
}
use sist_op_tp2c.Kernel.Operaciones.{con_proceso}
use sist_op_tp2c.Kernel.Finalizar.{
  liberar_mutex, esta_mutex_asignado_a_tid, liberar_mutexes, syscall_finalizar_hilo,
  remover_hilo_de_ready_o_blocked, liberar_hilo, liberar_hilos, quitar_proceso,
  finalizar_proceso_por_pid,
}

abbrev pub Pids : Type 0
Pids = List ℕ × List ℕ × ℕ

-- The ids of the processes, the ones that wait in NEW, and the next id.
abbrev pub pids : Kernel → Pids
pids k = (map (λ (p : Pcb). p.pid) k.lista_procesos, k.estado_new, k.siguiente_pid)

-- A step keeps the ids.
abbrev pub MismosPids : Kernel → Kernel → Type 0
MismosPids k k1 = pids k1 ≡ pids k

pids-cambiar :
    (q : Pcb) (ps : List Pcb)
    → map (λ (p : Pcb). p.pid) (cambiar_proceso q.pid q ps) ≡ map (λ (p : Pcb). p.pid) ps
unfolding cambiar_proceso
pids-cambiar q [] = refl
pids-cambiar q (p ∷ ps) = elim (Bool-cases (p.pid == q.pid)) [
  | inl si ↦
      let igual : q.pid ≡ p.pid = ground arith in
      rw si (ap (λ n. n ∷ map (λ (r : Pcb). r.pid) ps) igual)
  | inr ni ↦ rw ni (ap (◌∷◌ p.pid) (pids-cambiar q ps))
]

pub guardar-MismosPids : (q : Pcb) (k : Kernel) → MismosPids k (guardar_proceso q k)
guardar-MismosPids q k =
    ap (λ l. (l, k.estado_new, k.siguiente_pid)) (pids-cambiar q k.lista_procesos)

pids-quitar :
    (pid : ℕ) (ps : List Pcb)
    → map (λ (p : Pcb). p.pid) (quitar_proceso pid ps) ≡ quitar pid (map (λ (p : Pcb). p.pid) ps)
unfolding quitar_proceso quitar
pids-quitar pid [] = refl
pids-quitar pid (p ∷ ps) = elim (Bool-cases (p.pid == pid)) [
  | inl si ↦ rw si refl
  | inr ni ↦ rw ni (ap (◌∷◌ p.pid) (pids-quitar pid ps))
]

despertar-MismosPids : (o : Option ℕ) (k : Kernel) → MismosPids k (despertar o k)
unfolding despertar transicion_blocked_a_ready
despertar-MismosPids none k = refl
despertar-MismosPids (some h) k = refl

desbloquear_todos-MismosPids : (hs : List ℕ) (k : Kernel) → MismosPids k (desbloquear_todos hs k)
unfolding desbloquear_todos transicion_blocked_a_ready
desbloquear_todos-MismosPids [] k = refl
desbloquear_todos-MismosPids (h ∷ hs) k =
    desbloquear_todos-MismosPids hs (transicion_blocked_a_ready h k)

bloquear-MismosPids : (k : Kernel) → Cumple (MismosPids k) (transicion_exec_a_blocked k)
unfolding transicion_exec_a_blocked
bloquear-MismosPids k = Cumple->>=_any _ k.estado_exec _ (λ h _. refl)

liberar_mutexes-MismosPids :
    (tid : ℕ) (ms : List Mutex) (k : Kernel)
    → Cumple (λ (r : List Mutex × Kernel). MismosPids k r.1) (liberar_mutexes tid ms k)
unfolding liberar_mutexes
liberar_mutexes-MismosPids tid [] k = refl
liberar_mutexes-MismosPids tid (m ∷ ms) k =
    Cumple->>=_any _ (esta_mutex_asignado_a_tid k.tcbs tid m) _ (λ a _.
      Cumple-if _ a _ _
        (Cumple->>= (λ r. MismosPids (despertar (liberar_mutex m).1 k) r.1) _
          (liberar_mutexes tid ms (despertar (liberar_mutex m).1 k)) _
          (liberar_mutexes-MismosPids tid ms _)
          (λ r h. h ∙ despertar-MismosPids (liberar_mutex m).1 k))
        (Cumple->>= (λ r. MismosPids k r.1) _ (liberar_mutexes tid ms k) _
          (liberar_mutexes-MismosPids tid ms k) (λ r h. h)))

remover-MismosPids :
    (h : ℕ) (k : Kernel) → Cumple (MismosPids k) (remover_hilo_de_ready_o_blocked h k)
unfolding remover_hilo_de_ready_o_blocked
remover-MismosPids h k =
    Cumple-if _ (contiene h k.estado_ready) _ _
      (Cumple-if _ (k.semaforo_estado_ready == 0) _ _ tt refl) refl

liberar_hilo-MismosPids :
    (p : Pcb) (tid : ℕ) (k : Kernel) → Cumple (MismosPids k) (liberar_hilo p tid k)
unfolding liberar_hilo con_tcb
liberar_hilo-MismosPids p tid k =
    Cumple->>=_any _ (buscar_hilo_en_proceso p tid k) _ (λ encontrado _.
      Cumple->>=_any _ encontrado _ (λ h _. Cumple->>=_any _ (k.tcbs h) _ (λ t _.
        Cumple->>= (MismosPids (desbloquear_todos t.hilos_bloqueados k)) _ _ _
          (remover-MismosPids h (desbloquear_todos t.hilos_bloqueados k))
          (λ k1 h1. h1 ∙ desbloquear_todos-MismosPids t.hilos_bloqueados k))))

liberar_hilos-MismosPids :
    (p : Pcb) (tids : List ℕ) (k : Kernel) → Cumple (MismosPids k) (liberar_hilos p tids k)
unfolding liberar_hilos
liberar_hilos-MismosPids p [] k = refl
liberar_hilos-MismosPids p (tid ∷ tids) k =
    Cumple->>= (MismosPids k) _ (liberar_hilo (record p { tids = tid ∷ tids }) tid k) _
      (liberar_hilo-MismosPids (record p { tids = tid ∷ tids }) tid k)
      (λ k1 h.
        Cumple-imp (MismosPids k1) (MismosPids k) (liberar_hilos p tids k1) (λ k2 h2. h2 ∙ h)
          (liberar_hilos-MismosPids p tids k1))

-- The end of a process takes its id away.
abbrev pub SinEse : ℕ → Kernel → Kernel → Type 0
SinEse pid k k1 =
    pids k1
    ≡ (quitar pid (map (λ (p : Pcb). p.pid) k.lista_procesos), k.estado_new, k.siguiente_pid)

pub finalizar_pid-SinEse :
    (r : OpCode) (pid : ℕ) (k : Kernel) → Cumple (SinEse pid k) (finalizar_proceso_por_pid r pid k)
unfolding finalizar_proceso_por_pid
finalizar_pid-SinEse r pid k =
    let sin_ese : Kernel = record k { lista_procesos = quitar_proceso pid k.lista_procesos } in
    Cumple->>=_any _ (buscar_proceso pid k.lista_procesos) _ (λ p _.
      Cumple-if _ (codigo r == codigo operacion_confirmar) _ _
        (Cumple->>= (MismosPids sin_ese) _ _ _ (liberar_hilos-MismosPids p (reverse p.tids) sin_ese)
          (λ k1 h.
            h ∙ ap (λ l. (l, k.estado_new, k.siguiente_pid)) (pids-quitar pid k.lista_procesos)))
        tt)

module _ (k : Kernel) where
  pub crear_hilo-MismosPids :
      (archivo : List ℕ) (prioridad : ℕ)
      → Cumple (MismosPids k) (syscall_crear_hilo archivo prioridad k)
  unfolding syscall_crear_hilo con_tcb
  crear_hilo-MismosPids archivo prioridad = con_proceso (MismosPids k) k _ (λ e p.
      guardar-MismosPids
        (record p { ultimo_tid = add32 p.ultimo_tid 1; tids = p.tids ++ add32 p.ultimo_tid 1 ∷ [] })
        k)

  esperar_a-MismosPids :
      (h : ℕ) (o : Option ℕ) → Cumple (λ (r : Bool × Kernel). MismosPids k r.1) (esperar_a h o k)
  unfolding esperar_a con_tcb
  esperar_a-MismosPids h none = refl
  esperar_a-MismosPids h (some d) =
      Cumple->>=_any _ (k.tcbs d) _
        (λ t _. Cumple->>= (MismosPids k) _ _ _ (bloquear-MismosPids _) (λ k1 h1. h1))

  pub esperar_hilo-MismosPids :
      (tid : ℕ) → Cumple (λ (r : Bool × Kernel). MismosPids k r.1) (syscall_esperar_hilo tid k)
  unfolding syscall_esperar_hilo
  esperar_hilo-MismosPids tid = con_proceso _ k _ (λ e p.
      Cumple->>=_any _ (buscar_hilo_en_proceso p tid k) _ (λ a _. esperar_a-MismosPids e.0 a))

  pub crear_mutex-MismosPids :
      (recurso : List ℕ) → Cumple (MismosPids k) (syscall_crear_mutex recurso k)
  unfolding syscall_crear_mutex
  crear_mutex-MismosPids recurso = con_proceso (MismosPids k) k _ (λ e p. guardar-MismosPids _ k)

  pub bloquear_mutex-MismosPids :
      (recurso : List ℕ)
      → Cumple (λ (r : Bool × Kernel). MismosPids k r.1) (syscall_bloquear_mutex recurso k)
  unfolding syscall_bloquear_mutex
  bloquear_mutex-MismosPids recurso = con_proceso _ k _ (λ e p.
      Cumple->>=_any _ (buscar_mutex recurso p.mutex) _ (λ m _.
        let q : Pcb = record p { mutex = cambiar_mutex recurso (tomar_mutex e.0 m).1 p.mutex } in
        let igual = guardar-MismosPids q k in
        Cumple-if _ (tomar_mutex e.0 m).0 _ _ igual (
          Cumple->>= (MismosPids (guardar_proceso q k)) _ _ _ (bloquear-MismosPids _)
            (λ k1 h1. h1 ∙ igual))))

  pub desbloquear_mutex-MismosPids :
      (recurso : List ℕ) → Cumple (MismosPids k) (syscall_desbloquear_mutex recurso k)
  unfolding syscall_desbloquear_mutex
  desbloquear_mutex-MismosPids recurso = con_proceso _ k _ (λ e p.
      Cumple->>=_any _ (buscar_mutex recurso p.mutex) _ (λ m _.
        Cumple->>=_any _ m.hilo_asignado _ (λ d _. Cumple->>=_any _ (k.tcbs d) _ (λ duenio _.
          Cumple-if _ (e.1.tid == duenio.tid) _ _
            (despertar-MismosPids (ceder_mutex m).1 _
              ∙ guardar-MismosPids
                  (record p { mutex = cambiar_mutex recurso (ceder_mutex m).0 p.mutex }) k)
            refl))))

  pub io-MismosPids : (tiempo : ℕ) → Cumple (MismosPids k) (syscall_io tiempo k)
  unfolding syscall_io
  io-MismosPids tiempo =
      Cumple->>=_any _ (en_ejecucion k) _
        (λ e _. Cumple->>= (MismosPids k) _ _ _ (bloquear-MismosPids k) (λ k1 h1. h1))

  pub dump_memory-MismosPids : Cumple (MismosPids k) (syscall_dump_memory k)
  unfolding syscall_dump_memory
  dump_memory-MismosPids = Cumple->>=_any _ (en_ejecucion k) _ (λ e _. bloquear-MismosPids k)

  pub finalizar_hilo-MismosPids : (r : OpCode) → Cumple (MismosPids k) (syscall_finalizar_hilo r k)
  unfolding syscall_finalizar_hilo con_tcb
  finalizar_hilo-MismosPids r = con_proceso _ k _ (λ e p.
      Cumple-if _ (codigo r == codigo operacion_confirmar) _ _
        (Cumple->>= (λ q. MismosPids k q.1) _ (liberar_mutexes e.1.tid p.mutex k) _
          (liberar_mutexes-MismosPids e.1.tid p.mutex k)
          (λ q h.
            let guardado : Pcb = record p { tids = quitar e.1.tid p.tids; mutex = q.0 } in
            desbloquear_todos-MismosPids e.1.hilos_bloqueados (guardar_proceso guardado q.1)
            ∙ (guardar-MismosPids guardado q.1 ∙ h)))
        tt)
