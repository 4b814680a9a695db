-- ===== src/Kernel/Cola.antt =====
-- A mutex seen as a queue: its owner, and then the threads that wait for it, first come, first served.
use sist_op_tp2c.Base.{
  iguales, ℕ, ◌≡◌, ◌≢◌, ◌⊎◌, refl, sym, ap, ◌∙◌, Bool, true, false, Option, none, some, List, [],
  ◌∷◌, ◌++◌, ◌>>=◌, ◌==◌, arith, Bool-cases, inl, inr, Cumple-some, >>=-eq-some,
}
use sist_op_tp2c.Kernel.Estados.{
  Kernel, Tcb, Pcb, Mutex, buscar_proceso, cambiar_proceso, guardar_proceso, quitar,
  transicion_exec_a_blocked, transicion_blocked_a_ready,
}
use sist_op_tp2c.Kernel.Syscalls.{
  en_ejecucion, buscar_mutex, cambiar_mutex, tomar_mutex, ceder_mutex, despertar,
  syscall_bloquear_mutex, syscall_desbloquear_mutex,
}
use sist_op_tp2c.Kernel.Mutexes.{
  Coherente, CoherenteSi, Coherentes, buscar_mutex-Coherente, buscar_proceso-Coherente,
  TodosCoherentes,
}

-- The abstract view of a mutex.
abbrev pub cola_con : Option ℕ → List ℕ → List ℕ
cola_con none hs = []
cola_con (some d) hs = d ∷ hs

abbrev pub cola : Mutex → List ℕ
cola m = cola_con m.hilo_asignado m.hilos_bloqueados

-- The queue of a mutex of a process.
abbrev pub cola_de : List ℕ → ℕ → Kernel → Option (List ℕ)
cola_de recurso pid k =
    buscar_proceso pid k.lista_procesos >>= λ p. buscar_mutex recurso p.mutex >>= λ m. some (cola m)

tomar-cola :
    (h : ℕ) (libre : Bool) (d : Option ℕ) (q recurso : List ℕ)
    → CoherenteSi libre d q
    → let m : Mutex = record {
      recurso = recurso;
      esta_libre = libre;
      hilos_bloqueados = q;
      hilo_asignado = d;
    } in
      (cola (tomar_mutex h m).1 ≡ cola m ++ h ∷ [])
      × (((cola m ≡ []) × ((tomar_mutex h m).0 ≡ true))
          ⊎ ((cola m ≢ []) × ((tomar_mutex h m).0 ≡ false)))
unfolding tomar_mutex
tomar-cola h true none [] r c = (refl, inl (refl, refl))
tomar-cola h true none (x ∷ xs) r c = cc
tomar-cola h true (some d) q r c = cc
tomar-cola h false none q r c = cc
tomar-cola h false (some d) q r c = (refl, inr (λ e. cc, refl))

tomar-recurso : (h : ℕ) (m : Mutex) → (tomar_mutex h m).1.recurso ≡ m.recurso
unfolding tomar_mutex
tomar-recurso h m = elim (Bool-cases m.esta_libre) [ inl si ↦ rw si refl | inr ni ↦ rw ni refl ]

buscar_mutex-recurso :
    (r : List ℕ) (ms : List Mutex) (m : Mutex)
    → buscar_mutex r ms ≡ some m
    → iguales m.recurso r ≡ true
unfolding buscar_mutex
buscar_mutex-recurso r [] m e = cc
buscar_mutex-recurso r (x ∷ ms) m e = elim (Bool-cases (iguales x.recurso r)) [
  | inl si ↦
      let x_es : x ≡ m = ground arith in ap (λ (y : Mutex). iguales y.recurso r) (sym x_es) ∙ si
  | inr ni ↦ buscar_mutex-recurso r ms m (ground arith)
]

buscar_mutex-cambiar :
    (r : List ℕ) (ms : List Mutex) (m n : Mutex)
    → buscar_mutex r ms ≡ some m
    → iguales n.recurso r ≡ true
    → buscar_mutex r (cambiar_mutex r n ms) ≡ some n
unfolding buscar_mutex cambiar_mutex
buscar_mutex-cambiar r [] m n e h = cc
buscar_mutex-cambiar r (x ∷ ms) m n e h = elim (Bool-cases (iguales x.recurso r)) [
  | inl si ↦ rw si (rw h refl)
  | inr ni ↦ rw ni (rw ni (buscar_mutex-cambiar r ms m n (ground arith) h))
]

buscar_proceso-pid :
    (pid : ℕ) (ps : List Pcb) (p : Pcb) → buscar_proceso pid ps ≡ some p → p.pid ≡ pid
unfolding buscar_proceso
buscar_proceso-pid pid [] p e = cc
buscar_proceso-pid pid (x ∷ ps) p e = ground (arith, buscar_proceso-pid pid ps p)

buscar_proceso-cambiar :
    (pid a : ℕ) (ps : List Pcb) (p q : Pcb)
    → buscar_proceso pid ps ≡ some p
    → a ≡ pid
    → q.pid ≡ pid
    → buscar_proceso pid (cambiar_proceso a q ps) ≡ some q
unfolding buscar_proceso cambiar_proceso
buscar_proceso-cambiar pid a [] p q e ha h = cc
buscar_proceso-cambiar pid a (x ∷ ps) p q e ha h = elim (Bool-cases (x.pid == pid)) [
  | inl si ↦
      let igual : (q.pid == pid) ≡ true = ground arith in
      let si1 : (x.pid == a) ≡ true = ground arith in rw si1 (rw igual refl)
  | inr ni ↦
      let ni1 : (x.pid == a) ≡ false = ground arith in
      rw ni1 (rw ni (buscar_proceso-cambiar pid a ps p q (ground arith) ha h))
]

cola-campos :
    (d : ℕ) (resto : List ℕ) (a : Option ℕ) (q : List ℕ)
    → cola_con a q ≡ d ∷ resto
    → (a ≡ some d) × (q ≡ resto)
cola-campos d resto none q e = cc
cola-campos d resto (some x) q e = (cc, cc)

-- The thread that gets the mutex goes from BLOCKED to READY.
abbrev pub Despierta : List ℕ → Kernel → Kernel → Type 0
Despierta [] k k1 = (k1.estado_ready ≡ k.estado_ready) × (k1.estado_blocked ≡ k.estado_blocked)
Despierta (h ∷ hs) k k1 =
    (k1.estado_ready ≡ k.estado_ready ++ h ∷ []) × (k1.estado_blocked ≡ quitar h k.estado_blocked)

module _ (recurso : List ℕ) (k : Kernel) (h : ℕ) (t : Tcb) (p : Pcb) (m : Mutex)
    (corre : en_ejecucion k ≡ some (h, t))
    (suyo : buscar_proceso t.pid_padre k.lista_procesos ≡ some p)
    (hay : buscar_mutex recurso p.mutex ≡ some m) where
  abbrev guardado : Mutex → Kernel
  guardado n = guardar_proceso (record p { mutex = cambiar_mutex recurso n p.mutex }) k

  -- A mutex that is written back is found again.
  guardado-cola :
      (n : Mutex) → n.recurso ≡ m.recurso → cola_de recurso t.pid_padre (guardado n) ≡ some (cola n)
  guardado-cola n igual =
      let mismo = buscar_proceso-pid t.pid_padre k.lista_procesos p suyo in
      let q : Pcb = record p { mutex = cambiar_mutex recurso n p.mutex } in
      let nombre : iguales n.recurso recurso ≡ true =
        ap (λ r. iguales r recurso) igual ∙ buscar_mutex-recurso recurso p.mutex m hay in
      rw (buscar_proceso-cambiar t.pid_padre p.pid k.lista_procesos p q suyo mismo mismo)
        (rw (buscar_mutex-cambiar recurso p.mutex m n hay nombre) refl)

  en_exec : k.estado_exec ≡ some h
  unfolding en_ejecucion
  en_exec =
      let (x, e, resto) = >>=-eq-some k.estado_exec _ corre in
      let (y, f, igual) = >>=-eq-some (k.tcbs x) _ resto in e ∙ ap some cc

  mutex_coherente : Coherentes k → Coherente m
  mutex_coherente c =
      Cumple-some Coherente _
        (buscar_mutex-Coherente recurso p.mutex (
          Cumple-some (λ (q : Pcb). TodosCoherentes q.mutex) _
            (buscar_proceso-Coherente t.pid_padre k.lista_procesos c) suyo))
        hay

  -- MUTEX_LOCK by the thread in EXEC, of a mutex that its process has, where the mutexes are coherent:
  -- it does not fault, and the thread is put at the end of the queue of the mutex. If the queue was
  -- empty the thread has the mutex and stays in EXEC with BLOCKED as it was; otherwise it leaves EXEC
  -- and is put at the end of BLOCKED.
  pub syscall_bloquear_mutex-cola :
      Coherentes k
      → (b : Bool) × (k1 : Kernel) × (syscall_bloquear_mutex recurso k ≡ some (b, k1))
        × (cola_de recurso t.pid_padre k1 ≡ some (cola m ++ h ∷ []))
        × (((cola m ≡ [])
              × (b ≡ true)
              × (k1.estado_exec ≡ some h)
              × (k1.estado_blocked ≡ k.estado_blocked))
            ⊎ ((cola m ≢ [])
                × (b ≡ false)
                × (k1.estado_exec ≡ none)
                × (k1.estado_blocked ≡ k.estado_blocked ++ h ∷ [])))
  unfolding syscall_bloquear_mutex transicion_exec_a_blocked
  syscall_bloquear_mutex-cola c =
      let (crece, caso) =
        tomar-cola h m.esta_libre m.hilo_asignado m.hilos_bloqueados m.recurso
          (mutex_coherente c) in
      let n = (tomar_mutex h m).1 in
      let queda = guardado-cola n (tomar-recurso h m) ∙ ap some crece in
      rw (corre, suyo, hay)
        (elim caso [
          | inl (vacia, toma) ↦
              (true, guardado n, rw toma refl, queda, inl (vacia, refl, en_exec, refl))
          | inr (llena, espera) ↦ (
            false,
            record (guardado n) { estado_exec = none; estado_blocked = k.estado_blocked ++ h ∷ [] },
            rw espera (rw en_exec refl),
            queda,
            inr (llena, refl, refl, refl),
          )
        ])

  saca-cola :
      (d : ℕ) (resto : List ℕ) (duenio : Tcb)
      → m.hilo_asignado ≡ some d
      → m.hilos_bloqueados ≡ resto
      → k.tcbs d ≡ some duenio
      → t.tid ≡ duenio.tid
      → (k1 : Kernel) × (syscall_desbloquear_mutex recurso k ≡ some k1)
        × (cola_de recurso t.pid_padre k1 ≡ some resto)
        × Despierta resto k k1
  unfolding syscall_desbloquear_mutex ceder_mutex despertar transicion_blocked_a_ready
  saca-cola d [] duenio e1 e2 vivo mismo =
      let si : (t.tid == duenio.tid) ≡ true = ground arith in
      let n : Mutex = record m { esta_libre = true; hilo_asignado = none } in
      (
        guardado n,
        rw (corre, suyo, hay, e1, vivo, si) (rw e2 refl),
        guardado-cola n refl,
        (refl, refl),
      )
  saca-cola d (x ∷ xs) duenio e1 e2 vivo mismo =
      let si : (t.tid == duenio.tid) ≡ true = ground arith in
      let n : Mutex = record m { hilos_bloqueados = xs; hilo_asignado = some x } in
      (
        transicion_blocked_a_ready x (guardado n),
        rw (corre, suyo, hay, e1, vivo, si) (rw e2 refl),
        guardado-cola n refl,
        (refl, refl),
      )

  -- MUTEX_UNLOCK by the thread in EXEC, of a mutex of its process whose queue starts with a live thread
  -- with the same tid: it does not fault, and the head leaves the queue. The next of the queue, if
  -- there is one, goes from BLOCKED to the end of READY; if there is none both lists are as they were.
  pub syscall_desbloquear_mutex-cola :
      (d : ℕ) (resto : List ℕ) (duenio : Tcb)
      → cola m ≡ d ∷ resto
      → k.tcbs d ≡ some duenio
      → t.tid ≡ duenio.tid
      → (k1 : Kernel) × (syscall_desbloquear_mutex recurso k ≡ some k1)
        × (cola_de recurso t.pid_padre k1 ≡ some resto)
        × Despierta resto k k1
  syscall_desbloquear_mutex-cola d resto duenio e vivo mismo =
      let (e1, e2) = cola-campos d resto m.hilo_asignado m.hilos_bloqueados e in
      saca-cola d resto duenio e1 e2 vivo mismo
