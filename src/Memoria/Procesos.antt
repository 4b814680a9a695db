-- ===== src/Memoria/Procesos.antt =====
-- The list of processes: their ids, the blocks of memory that they hold, and the end of a process.
use mathlib.Core.List.{Perm, Mem, mem-cons, not-mem-nil}
use mathlib.Core.List.Perm
use mathlib.Core.Logic.Or
use sist_op_tp2c.Base.{
  ℕ, ◌≡◌, ◌≢◌, refl, sym, ap, ◌∙◌, subst, true, some, List, [], ◌∷◌, ◌++◌, map, arith, ◌==◌,
  Bool-cases, add32, inl, inr,
}
use sist_op_tp2c.Memoria.Particiones.Ocupadas.{Bloque}
use sist_op_tp2c.Memoria.Estructuras.{
  EstructuraHilo, EstructuraProceso, buscar_proceso_por_pid, buscar_hilo, cambiar_hilos,
  quitar_hilo, quitar_proceso, finalizar_hilo, finalizar_hilos,
}
use sist_op_tp2c.Memoria.Estructuras.Registros.{buscar_proceso-cambiar}

-- The block of a process.
abbrev pub bloque_de_proceso : EstructuraProceso → Bloque
bloque_de_proceso p = record { duenio = p.pid; desde = p.base; largo = p.tamanio }

abbrev pub bloques : List EstructuraProceso → List Bloque
bloques = map bloque_de_proceso

-- No process has the id.
abbrev pub SinPid : ℕ → List EstructuraProceso → Type 0
SinPid pid [] = Unit {0}
SinPid pid (p ∷ ps) = (p.pid ≢ pid) × SinPid pid ps

-- No two processes have one id, and each ends where its block does.
abbrev pub Distintos : List EstructuraProceso → Type 0
Distintos [] = Unit {0}
Distintos (p ∷ ps) = SinPid p.pid ps × (p.limite ≡ add32 p.base p.tamanio) × Distintos ps

pub SinPid-snoc :
    (pid : ℕ) (ps : List EstructuraProceso) (p : EstructuraProceso)
    → p.pid ≢ pid
    → SinPid pid ps
    → SinPid pid (ps ++ p ∷ [])
SinPid-snoc pid [] p h s = (h, tt)
SinPid-snoc pid (q ∷ ps) p h s = (s.0, SinPid-snoc pid ps p h s.1)

pub Distintos-snoc :
    (ps : List EstructuraProceso) (p : EstructuraProceso)
    → SinPid p.pid ps
    → p.limite ≡ add32 p.base p.tamanio
    → Distintos ps
    → Distintos (ps ++ p ∷ [])
Distintos-snoc [] p s h d = (tt, h, tt)
Distintos-snoc (q ∷ ps) p s h d =
    (SinPid-snoc q.pid ps p (λ e. s.0 (sym e)) d.0, d.1, Distintos-snoc ps p s.1 h d.2)

pub SinPid-quitar :
    (q pid : ℕ) (ps : List EstructuraProceso) → SinPid q ps → SinPid q (quitar_proceso pid ps)
unfolding quitar_proceso
SinPid-quitar q pid [] s = tt
SinPid-quitar q pid (p ∷ ps) s = ground (arith, SinPid-quitar q pid ps s.1)

pub Distintos-quitar :
    (pid : ℕ) (ps : List EstructuraProceso) → Distintos ps → Distintos (quitar_proceso pid ps)
unfolding quitar_proceso
Distintos-quitar pid [] d = tt
Distintos-quitar pid (p ∷ ps) d = elim (Bool-cases (p.pid == pid)) [
  | inl si ↦ rw si d.2
  | inr ni ↦ rw ni (SinPid-quitar p.pid pid ps d.0, d.1, Distintos-quitar pid ps d.2)
]

pub bloques-quitar :
    (pid : ℕ) (ps : List EstructuraProceso) (p : EstructuraProceso)
    → buscar_proceso_por_pid pid ps ≡ some p
    → Perm (bloques ps) (bloque_de_proceso p ∷ bloques (quitar_proceso pid ps))
unfolding buscar_proceso_por_pid quitar_proceso
bloques-quitar pid [] p e = cc
bloques-quitar pid (q ∷ ps) p e = elim (Bool-cases (q.pid == pid)) [
  | inl si ↦ let igual : q ≡ p = ground arith in rw si (rw igual (Perm.refl _))
  | inr ni ↦ rw ni (
      Perm.trans (Perm.cons (bloque_de_proceso q) (bloques-quitar pid ps p (ground arith)))
        (Perm.swap (bloque_de_proceso p) (bloque_de_proceso q) _))
]

Bloque-set : IsSet Bloque
Bloque-set = hlevel

sin_bloque :
    (pid : ℕ) (ps : List EstructuraProceso) (b : Bloque)
    → SinPid pid ps
    → b.duenio ≡ pid
    → Mem b (bloques ps)
    → ⊥
sin_bloque pid [] b s e m = not-mem-nil m
sin_bloque pid (p ∷ ps) b s e m =
    Or.elim (λ x y. absurd x) (mem-cons.0 m) (λ i. s.0 (sym (ap (λ (c : Bloque). c.duenio) i) ∙ e))
      (sin_bloque pid ps b s.1 e)

-- A process is known by the id of its block.
pub bloque_unico :
    (pid : ℕ) (ps : List EstructuraProceso) (p : EstructuraProceso) (b : Bloque)
    → Distintos ps
    → buscar_proceso_por_pid pid ps ≡ some p
    → b.duenio ≡ pid
    → Mem b (bloques ps)
    → b ≡ bloque_de_proceso p
unfolding buscar_proceso_por_pid
bloque_unico pid [] p b d e i m = cc
bloque_unico pid (q ∷ ps) p b d e i m = elim (Bool-cases (q.pid == pid)) [
  | inl si ↦
      let igual : q ≡ p = ground arith in
      Or.elim (Bloque-set _ _) (mem-cons.0 m) (λ j. rw (← igual) j)
        (λ n. absurd (sin_bloque pid ps b (subst (λ k. SinPid k ps) (ground arith) d.0) i n))
  | inr ni ↦
      Or.elim (Bloque-set _ _) (mem-cons.0 m)
        (λ j. absurd (let d' = ap (λ (c : Bloque). c.duenio) j in ground arith))
        (bloque_unico pid ps p b d.2 (ground arith) i)
]

pub quitar-cambiar :
    (pid : ℕ) (f : List EstructuraHilo → List EstructuraHilo) (ps : List EstructuraProceso)
    → quitar_proceso pid (cambiar_hilos pid f ps) ≡ quitar_proceso pid ps
unfolding quitar_proceso cambiar_hilos
quitar-cambiar pid f [] = refl
quitar-cambiar pid f (p ∷ ps) = ground (arith, quitar-cambiar pid f ps)

-- A change of the threads of a process moves no block.
pub bloques-cambiar :
    (pid : ℕ) (f : List EstructuraHilo → List EstructuraHilo) (ps : List EstructuraProceso)
    → bloques (cambiar_hilos pid f ps) ≡ bloques ps
unfolding cambiar_hilos
bloques-cambiar pid f [] = refl
bloques-cambiar pid f (p ∷ ps) = ground (arith, bloques-cambiar pid f ps)

SinPid-cambiar :
    (q pid : ℕ) (f : List EstructuraHilo → List EstructuraHilo) (ps : List EstructuraProceso)
    → SinPid q ps
    → SinPid q (cambiar_hilos pid f ps)
unfolding cambiar_hilos
SinPid-cambiar q pid f [] s = tt
SinPid-cambiar q pid f (p ∷ ps) s = elim (Bool-cases (p.pid == pid)) [
  | inl si ↦ rw si s
  | inr ni ↦ rw ni (s.0, SinPid-cambiar q pid f ps s.1)
]

pub Distintos-cambiar :
    (pid : ℕ) (f : List EstructuraHilo → List EstructuraHilo) (ps : List EstructuraProceso)
    → Distintos ps
    → Distintos (cambiar_hilos pid f ps)
unfolding cambiar_hilos
Distintos-cambiar pid f [] d = tt
Distintos-cambiar pid f (p ∷ ps) d = elim (Bool-cases (p.pid == pid)) [
  | inl si ↦ rw si d
  | inr ni ↦ rw ni (SinPid-cambiar p.pid pid f ps d.0, d.1, Distintos-cambiar pid f ps d.2)
]

quita_primero : (h : EstructuraHilo) (hs : List EstructuraHilo) → quitar_hilo h.tid (h ∷ hs) ≡ hs
unfolding quitar_hilo
quita_primero h hs = ground arith

finalizar_primero :
    (pid : ℕ) (h : EstructuraHilo) (hs : List EstructuraHilo) (ps : List EstructuraProceso)
    (p : EstructuraProceso)
    → buscar_proceso_por_pid pid ps ≡ some p
    → p.lista_hilos ≡ h ∷ hs
    → finalizar_hilo (record { pid = pid; tid = h.tid }) ps
      ≡ some (cambiar_hilos pid (quitar_hilo h.tid) ps)
unfolding finalizar_hilo buscar_hilo
finalizar_primero pid h hs ps p e l =
    let mismo : (h.tid == h.tid) ≡ true = ground arith in rw e (rw l (rw mismo refl))

-- The loop of `finalizar_proceso` ends every thread of the process, in order, without a fault.
pub finalizar_hilos_lem :
    (pid : ℕ) (hs : List EstructuraHilo) (ps : List EstructuraProceso) (p : EstructuraProceso)
    → buscar_proceso_por_pid pid ps ≡ some p
    → p.lista_hilos ≡ hs
    → (ps' : List EstructuraProceso) × (finalizar_hilos pid hs ps ≡ some ps')
      × (quitar_proceso pid ps' ≡ quitar_proceso pid ps)
unfolding finalizar_hilos
finalizar_hilos_lem pid [] ps p e l = (ps, refl, refl)
finalizar_hilos_lem pid (h ∷ hs) ps p e l =
    let ps1 = cambiar_hilos pid (quitar_hilo h.tid) ps in
    let p1 : EstructuraProceso = record p { lista_hilos = quitar_hilo h.tid p.lista_hilos } in
    let e1 : buscar_proceso_por_pid pid ps1 ≡ some p1 =
      ground (arith, buscar_proceso-cambiar pid pid (quitar_hilo h.tid) ps) in
    let l1 : p1.lista_hilos ≡ hs = rw l (quita_primero h hs) in
    let (ps', r, q) = finalizar_hilos_lem pid hs ps1 p1 e1 l1 in
    (ps', rw (finalizar_primero pid h hs ps p e l) r, q ∙ quitar-cambiar pid (quitar_hilo h.tid) ps)
