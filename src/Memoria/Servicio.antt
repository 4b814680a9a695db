-- ===== src/Memoria/Servicio.antt =====
-- The memory module as the service that the CPU uses: the law that the CPU relies on, from the
-- theorem on stored registers.
use sist_op_tp2c.Base.{ℕ, ◌≡◌, some, List, >>=-eq-some, subst}
use sist_op_tp2c.Utils.CpuMemoria.{Contexto}
use sist_op_tp2c.Memoria.{
  Memoria, RespuestaCpu, devolver_contexto, actualizar_contexto, contexto, atender_peticion_cpu,
}
use sist_op_tp2c.Memoria.Estructuras.{
  EstructuraProceso, buscar_proceso_por_pid, buscar_hilo, actualizar_contexto_ejecucion,
  devolver_contexto_ejecucion,
}
use sist_op_tp2c.Memoria.Estructuras.Registros.{devolver-actualizar_self}
use sist_op_tp2c.Cpu.Servicio.{ServicioMemoria}

actualizado :
    (c : Contexto) (ps ps' : List EstructuraProceso)
    → actualizar_contexto_ejecucion c ps ≡ some ps'
    → (p : EstructuraProceso) × (devolver_contexto_ejecucion
          (record { tid = c.tid; pid = c.pid })
          ps'
        ≡ some (record c { base = p.base; limite = p.limite }))
unfolding actualizar_contexto_ejecucion
actualizado c ps ps' e =
    let (p, ep, e1) = >>=-eq-some (buscar_proceso_por_pid c.pid ps) _ e in
    let (h, eh, _) = >>=-eq-some (buscar_hilo c.tid p.lista_hilos) _ e1 in
    let (qs, eq, ed) = devolver-actualizar_self c ps p h ep eh in (p, cc)

pub guarda_contexto :
    (c : Contexto) (m m' : Memoria) (r : RespuestaCpu)
    → atender_peticion_cpu (actualizar_contexto c) m ≡ some (r, m')
    → (base : ℕ) × (limite : ℕ) × (atender_peticion_cpu
          (devolver_contexto (record { tid = c.tid; pid = c.pid }))
          m'
        ≡ some (contexto (record c { base = base; limite = limite }), m'))
unfolding atender_peticion_cpu
guarda_contexto c m m' r e =
    let (ps, ep, e1) = >>=-eq-some (actualizar_contexto_ejecucion c m.procesos) _ e in
    let (p, ed) = actualizado c m.procesos ps ep in
    let em : record m { procesos = ps } ≡ m' = cc in
    (
      p.base,
      p.limite,
      subst
          (λ (x : Memoria).
            (atender_peticion_cpu (devolver_contexto (record { tid = c.tid; pid = c.pid })) x
              ≡ some (contexto (record c { base = p.base; limite = p.limite }), x)))
          (em) (rw ed),
    )

abbrev pub servicio_memoria : ServicioMemoria
servicio_memoria = record {
  Estado = Memoria;
  pedir = atender_peticion_cpu;
  guarda = guarda_contexto;
}
