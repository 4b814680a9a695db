-- ===== src/Memoria/Estructuras/Registros.antt =====
-- The registers of a thread: what OPERACION_ACTUALIZAR_CONTEXTO stores is what
-- OPERACION_DEVOLVER_CONTEXTO_EJECUCION returns.
use sist_op_tp2c.Base.{
  ℕ, ◌≡◌, ◌≢◌, ◌⊎◌, inl, inr, some, List, [], ◌∷◌, ◌>>=◌, arith, ◌==◌, if◌then◌else◌, Option-cases,
}
use sist_op_tp2c.Utils.CpuMemoria.{Contexto, SolicitarContexto}
use sist_op_tp2c.Memoria.Estructuras.{
  EstructuraHilo, EstructuraProceso, buscar_proceso_por_pid, buscar_hilo, cambiar_hilos,
  cambiar_hilo, con_registros, devolver_contexto_ejecucion, actualizar_contexto_ejecucion,
}

abbrev con_hilos :
    (List EstructuraHilo → List EstructuraHilo) → EstructuraProceso → EstructuraProceso
con_hilos f p = record p { lista_hilos = f p.lista_hilos }

pub buscar_proceso-cambiar :
    (q pid : ℕ) (f : List EstructuraHilo → List EstructuraHilo) (ps : List EstructuraProceso)
    → buscar_proceso_por_pid q (cambiar_hilos pid f ps) ≡ (
        if q == pid
        then (buscar_proceso_por_pid q ps >>= λ p. some (con_hilos f p))
        else buscar_proceso_por_pid q ps)
unfolding buscar_proceso_por_pid cambiar_hilos
buscar_proceso-cambiar q pid f [] = ground arith
buscar_proceso-cambiar q pid f (p ∷ ps) = ground (arith, buscar_proceso-cambiar q pid f ps)

pub buscar_hilo-cambiar :
    (q tid : ℕ) (c : Contexto) (hs : List EstructuraHilo)
    → buscar_hilo q (cambiar_hilo tid (con_registros c) hs) ≡ (
        if q == tid then (buscar_hilo q hs >>= λ h. some (con_registros c h)) else buscar_hilo q hs)
unfolding buscar_hilo cambiar_hilo
buscar_hilo-cambiar q tid c [] = ground arith
buscar_hilo-cambiar q tid c (h ∷ hs) = ground (arith, buscar_hilo-cambiar q tid c hs)

pub buscar_proceso-pid :
    (q : ℕ) (ps : List EstructuraProceso) (p : EstructuraProceso)
    → buscar_proceso_por_pid q ps ≡ some p
    → p.pid ≡ q
unfolding buscar_proceso_por_pid
buscar_proceso-pid q [] p e = cc
buscar_proceso-pid q (x ∷ ps) p e = ground (arith, buscar_proceso-pid q ps p)

pub buscar_hilo-tid :
    (q : ℕ) (hs : List EstructuraHilo) (h : EstructuraHilo) → buscar_hilo q hs ≡ some h → h.tid ≡ q
unfolding buscar_hilo
buscar_hilo-tid q [] h e = cc
buscar_hilo-tid q (x ∷ hs) h e = ground (arith, buscar_hilo-tid q hs h)

-- After the context of a thread that exists is stored, without a fault, the context of that thread
-- is the one stored, with the base and the limit that the memory keeps for the process.
pub devolver-actualizar_self :
    (c : Contexto) (ps : List EstructuraProceso) (p : EstructuraProceso) (h : EstructuraHilo)
    → buscar_proceso_por_pid c.pid ps ≡ some p
    → buscar_hilo c.tid p.lista_hilos ≡ some h
    → (ps' : List EstructuraProceso) × (actualizar_contexto_ejecucion c ps ≡ some ps')
      × (devolver_contexto_ejecucion (record { tid = c.tid; pid = c.pid }) ps'
          ≡ some (record c { base = p.base; limite = p.limite }))
unfolding devolver_contexto_ejecucion actualizar_contexto_ejecucion
devolver-actualizar_self c ps p h ep eh = (
  cambiar_hilos c.pid (cambiar_hilo c.tid (con_registros c)) ps,
  ground arith,
  ground (
    arith,
    buscar_proceso-cambiar c.pid c.pid (cambiar_hilo c.tid (con_registros c)) ps,
    buscar_hilo-cambiar c.tid c.tid c p.lista_hilos,
    buscar_proceso-pid c.pid ps p ep,
    buscar_hilo-tid c.tid p.lista_hilos h eh,
  ),
)

-- It leaves the context of every other thread, of the same process or of another, as it was.
pub devolver-actualizar_ne :
    (c : Contexto) (d : SolicitarContexto) (ps ps' : List EstructuraProceso)
    → (d.pid ≢ c.pid) ⊎ (d.tid ≢ c.tid)
    → actualizar_contexto_ejecucion c ps ≡ some ps'
    → devolver_contexto_ejecucion d ps' ≡ devolver_contexto_ejecucion d ps
unfolding devolver_contexto_ejecucion actualizar_contexto_ejecucion
devolver-actualizar_ne c d ps ps' otro e =
    let f = cambiar_hilo c.tid (con_registros c) in
    let igual : ps' ≡ cambiar_hilos c.pid f ps = ground arith in
    rw igual (
      rw (buscar_proceso-cambiar d.pid c.pid f ps)
        (elim (Option-cases (buscar_proceso_por_pid d.pid ps)) [
          | inl nada ↦ rw nada (ground arith)
          | inr (p, hay) ↦ rw hay (ground (arith, buscar_hilo-cambiar d.tid c.tid c p.lista_hilos))
        ]))
