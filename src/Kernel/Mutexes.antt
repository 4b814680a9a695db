-- ===== src/Kernel/Mutexes.antt =====
-- What each mutex of the kernel satisfies, through the reads and writes of the lists that hold it.
use sist_op_tp2c.Base.{
  iguales, ℕ, ◌≡◌, refl, sym, subst, Bool, true, false, Option, none, some, List, [], ◌∷◌, ◌++◌,
  ◌==◌, Bool-cases, Cumple, Cumple->>=, Cumple->>=_any, Cumple-if, inl, inr,
}
use sist_op_tp2c.Kernel.Estados.{
  Kernel, Pcb, Mutex, buscar_proceso, cambiar_proceso, desbloquear_todos,
  transicion_blocked_a_ready,
}
use sist_op_tp2c.Kernel.Syscalls.{buscar_mutex, cambiar_mutex, tomar_mutex, ceder_mutex, despertar}
use sist_op_tp2c.Kernel.Finalizar.{
  liberar_mutex, esta_mutex_asignado_a_tid, liberar_mutexes, quitar_proceso,
}

-- A free mutex has no owner and no queue, and a taken one has an owner.
abbrev pub CoherenteSi : Bool → Option ℕ → List ℕ → Type 0
CoherenteSi true duenio cola = (duenio ≡ none) × (cola ≡ [])
CoherenteSi false duenio cola = (h : ℕ) × (duenio ≡ some h)

abbrev pub Coherente : Mutex → Type 0
Coherente m = CoherenteSi m.esta_libre m.hilo_asignado m.hilos_bloqueados

abbrev pub TodosCoherentes : List Mutex → Type 0
TodosCoherentes [] = Unit {0}
TodosCoherentes (m ∷ ms) = Coherente m × TodosCoherentes ms

-- The mutexes of every process.
abbrev pub ProcesosCoherentes : List Pcb → Type 0
ProcesosCoherentes [] = Unit {0}
ProcesosCoherentes (p ∷ ps) = TodosCoherentes p.mutex × ProcesosCoherentes ps

tomar :
    (h : ℕ) (libre : Bool) (d : Option ℕ) (q recurso : List ℕ)
    → CoherenteSi libre d q
    → Coherente
        (tomar_mutex h (record {
          recurso = recurso;
          esta_libre = libre;
          hilos_bloqueados = q;
          hilo_asignado = d;
        })).1
unfolding tomar_mutex
tomar h true d q r c = (h, refl)
tomar h false d q r c = c

pub tomar_mutex-Coherente : (h : ℕ) (m : Mutex) → Coherente m → Coherente (tomar_mutex h m).1
tomar_mutex-Coherente h m c = tomar h m.esta_libre m.hilo_asignado m.hilos_bloqueados m.recurso c

ceder :
    (libre : Bool) (d : Option ℕ) (q recurso : List ℕ)
    → CoherenteSi libre d q
    → Coherente
        (ceder_mutex (record {
          recurso = recurso;
          esta_libre = libre;
          hilos_bloqueados = q;
          hilo_asignado = d;
        })).0
unfolding ceder_mutex
ceder libre d [] r c = (refl, refl)
ceder true d (h ∷ hs) r c = cc
ceder false d (h ∷ hs) r c = (h, refl)

pub ceder_mutex-Coherente : (m : Mutex) → Coherente m → Coherente (ceder_mutex m).0
ceder_mutex-Coherente m c = ceder m.esta_libre m.hilo_asignado m.hilos_bloqueados m.recurso c

liberar :
    (libre : Bool) (d : Option ℕ) (q recurso : List ℕ)
    → Coherente
        (liberar_mutex (record {
          recurso = recurso;
          esta_libre = libre;
          hilos_bloqueados = q;
          hilo_asignado = d;
        })).0
unfolding liberar_mutex
liberar libre d [] r = (refl, refl)
liberar libre d (h ∷ hs) r = (h, refl)

pub liberar_mutex-Coherente : (m : Mutex) → Coherente (liberar_mutex m).0
liberar_mutex-Coherente m = liberar m.esta_libre m.hilo_asignado m.hilos_bloqueados m.recurso

pub coherentes-snoc :
    (ms : List Mutex) (m : Mutex)
    → TodosCoherentes ms
    → Coherente m
    → TodosCoherentes (ms ++ m ∷ [])
coherentes-snoc [] m t c = (c, tt)
coherentes-snoc (x ∷ xs) m t c = (t.0, coherentes-snoc xs m t.1 c)

pub buscar_mutex-Coherente :
    (r : List ℕ) (ms : List Mutex) → TodosCoherentes ms → Cumple Coherente (buscar_mutex r ms)
unfolding buscar_mutex
buscar_mutex-Coherente r [] t = tt
buscar_mutex-Coherente r (m ∷ ms) t =
    Cumple-if _ (iguales m.recurso r) _ _ t.0 (buscar_mutex-Coherente r ms t.1)

pub cambiar_mutex-Coherente :
    (r : List ℕ) (n : Mutex) (ms : List Mutex)
    → Coherente n
    → TodosCoherentes ms
    → TodosCoherentes (cambiar_mutex r n ms)
unfolding cambiar_mutex
cambiar_mutex-Coherente r n [] c t = tt
cambiar_mutex-Coherente r n (m ∷ ms) c t = elim (Bool-cases (iguales m.recurso r)) [
  | inl si ↦ rw si (c, t.1)
  | inr ni ↦ rw ni (t.0, cambiar_mutex-Coherente r n ms c t.1)
]

pub procesos-snoc :
    (ps : List Pcb) (p : Pcb)
    → ProcesosCoherentes ps
    → TodosCoherentes p.mutex
    → ProcesosCoherentes (ps ++ p ∷ [])
procesos-snoc [] p t c = (c, tt)
procesos-snoc (x ∷ xs) p t c = (t.0, procesos-snoc xs p t.1 c)

pub buscar_proceso-Coherente :
    (pid : ℕ) (ps : List Pcb)
    → ProcesosCoherentes ps
    → Cumple (λ (p : Pcb). TodosCoherentes p.mutex) (buscar_proceso pid ps)
unfolding buscar_proceso
buscar_proceso-Coherente pid [] t = tt
buscar_proceso-Coherente pid (p ∷ ps) t =
    Cumple-if _ (p.pid == pid) _ _ t.0 (buscar_proceso-Coherente pid ps t.1)

pub cambiar_proceso-Coherente :
    (pid : ℕ) (q : Pcb) (ps : List Pcb)
    → TodosCoherentes q.mutex
    → ProcesosCoherentes ps
    → ProcesosCoherentes (cambiar_proceso pid q ps)
unfolding cambiar_proceso
cambiar_proceso-Coherente pid q [] c t = tt
cambiar_proceso-Coherente pid q (p ∷ ps) c t = elim (Bool-cases (p.pid == pid)) [
  | inl si ↦ rw si (c, t.1)
  | inr ni ↦ rw ni (t.0, cambiar_proceso-Coherente pid q ps c t.1)
]

pub quitar_proceso-Coherente :
    (pid : ℕ) (ps : List Pcb) → ProcesosCoherentes ps → ProcesosCoherentes (quitar_proceso pid ps)
unfolding quitar_proceso
quitar_proceso-Coherente pid [] t = tt
quitar_proceso-Coherente pid (p ∷ ps) t = elim (Bool-cases (p.pid == pid)) [
  | inl si ↦ rw si t.1
  | inr ni ↦ rw ni (t.0, quitar_proceso-Coherente pid ps t.1)
]

-- The moves between READY and BLOCKED leave the processes as they are.
pub despertar-procesos :
    (o : Option ℕ) (k : Kernel) → (despertar o k).lista_procesos ≡ k.lista_procesos
unfolding despertar transicion_blocked_a_ready
despertar-procesos none k = refl
despertar-procesos (some h) k = refl

pub desbloquear_todos-procesos :
    (hs : List ℕ) (k : Kernel) → (desbloquear_todos hs k).lista_procesos ≡ k.lista_procesos
unfolding desbloquear_todos transicion_blocked_a_ready
desbloquear_todos-procesos [] k = refl
desbloquear_todos-procesos (h ∷ hs) k =
    desbloquear_todos-procesos hs (transicion_blocked_a_ready h k)

abbrev pub Coherentes : Kernel → Type 0
Coherentes k = ProcesosCoherentes k.lista_procesos

pub liberar_mutexes-Coherente :
    (tid : ℕ) (ms : List Mutex) (k : Kernel)
    → TodosCoherentes ms
    → Coherentes k
    → Cumple
        (λ (r : List Mutex × Kernel). TodosCoherentes r.0 × Coherentes r.1)
        (liberar_mutexes tid ms k)
unfolding liberar_mutexes
liberar_mutexes-Coherente tid [] k t c = (tt, c)
liberar_mutexes-Coherente tid (m ∷ ms) k t c =
    Cumple->>=_any _ (esta_mutex_asignado_a_tid k.tcbs tid m) _ (λ a e.
      Cumple-if _ a _ _
        (Cumple->>= (λ r. TodosCoherentes r.0 × Coherentes r.1) _
          (liberar_mutexes tid ms (despertar (liberar_mutex m).1 k)) _
          (liberar_mutexes-Coherente tid ms _ t.1
            (subst ProcesosCoherentes (sym (despertar-procesos (liberar_mutex m).1 k)) c))
          (λ r h. ((liberar_mutex-Coherente m, h.0), h.1)))
        (Cumple->>= (λ r. TodosCoherentes r.0 × Coherentes r.1) _ (liberar_mutexes tid ms k) _
          (liberar_mutexes-Coherente tid ms k t.1 c) (λ r h. ((t.0, h.0), h.1))))
