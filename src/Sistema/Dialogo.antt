-- ===== src/Sistema/Dialogo.antt =====
-- The requests of the CPU against what the kernel answers to them: the request that an instruction
-- sends, and how the instruction ends with the answers of the kernel.
use sist_op_tp2c.Base.{
  ℕ, ◌≡◌, inl, inr, refl, sym, ap, ◌∙◌, Bool, true, false, Option, some, List, [], ◌∷◌, ◌++◌, ◌>>=◌,
  map, get_elem?, Cumple-some, >>=-eq-some, subst,
}
use sist_op_tp2c.Utils.Mensajes.{
  OpCode, codigo, operacion_confirmar, operacion_notificar_error, operacion_finalizar_proceso,
  operacion_finalizar_hilo, operacion_esperar_hilo, operacion_crear_mutex, operacion_bloquear_mutex,
  operacion_desbloquear_mutex, operacion_dump_memory,
}
use sist_op_tp2c.Kernel.Estados.{Kernel}
use sist_op_tp2c.Kernel.Instrucciones.{Atendida, Operacion, atender_operacion}
use sist_op_tp2c.Cpu.Servicio.{ServicioMemoria}
use sist_op_tp2c.Cpu.Maquina.{Cpu, enviar, recibir, esperar_confirmacion, actualizar}
use sist_op_tp2c.Cpu.Ejecucion.{sigue, se_va, marcas_de_lock, avanzar, ejecutar}
use sist_op_tp2c.Cpu.Instrucciones.{
  Instruccion, i_dump_memory, i_io, i_process_create, i_thread_create, i_thread_join,
  i_mutex_create, i_mutex_lock, i_mutex_unlock, i_thread_exit, i_process_exit, Marcas, PedidoKernel,
  p_crear_proceso, p_crear_hilo, p_mutex, p_hilo, p_io, p_operacion,
}
use sist_op_tp2c.Sistema.CpuKernel.{Corresponde}
use sist_op_tp2c.Sistema.Acuerdo.{Dialogo, Acuerdo, atender-Cumple}

-- Whether the CPU goes on with the thread where the kernel does or not.
abbrev pub sigue_cpu : Instruccion → Bool → Bool
sigue_cpu i_thread_join sig = false
sigue_cpu i sig = sig

module _ {s : ServicioMemoria} (atoi : List ℕ → ℕ) (c : Cpu s) where
  -- The request that an instruction of these words sends, where its words are there and the memory
  -- stores the context.
  pub data Pide (ws : List (List ℕ)) : Instruccion → PedidoKernel → Type 0 where
    pide_crear_mutex :
        (r : List ℕ)
        → get_elem? ws 1 ≡ some r
        → Pide ws i_mutex_create (p_mutex operacion_crear_mutex (record { recurso = r }))
    pide_bloquear_mutex :
        (r : List ℕ)
        → get_elem? ws 1 ≡ some r
        → Pide ws i_mutex_lock (p_mutex operacion_bloquear_mutex (record { recurso = r }))
    pide_desbloquear_mutex :
        (r : List ℕ)
        → get_elem? ws 1 ≡ some r
        → Pide ws i_mutex_unlock (p_mutex operacion_desbloquear_mutex (record { recurso = r }))
    pide_dump :
        (c1 : Cpu s)
        → actualizar (avanzar c) ≡ some c1
        → Pide ws i_dump_memory (p_operacion operacion_dump_memory)
    pide_io :
        (t : List ℕ) → get_elem? ws 1 ≡ some t → Pide ws i_io (p_io (record { tiempo = atoi t }))
    pide_crear_proceso :
        (f t p : List ℕ)
        → get_elem? ws 1 ≡ some f
        → get_elem? ws 2 ≡ some t
        → get_elem? ws 3 ≡ some p
        → Pide ws i_process_create (
            p_crear_proceso
              (record { archivo_pseudocodigo = f; tamanio_proceso = atoi t; prioridad = atoi p }))
    pide_crear_hilo :
        (f p : List ℕ)
        → get_elem? ws 1 ≡ some f
        → get_elem? ws 2 ≡ some p
        → Pide ws i_thread_create
            (p_crear_hilo (record { archivo_pseudocodigo = f; prioridad = atoi p }))
    pide_esperar :
        (t : List ℕ)
        → get_elem? ws 1 ≡ some t
        → Pide ws i_thread_join (p_hilo operacion_esperar_hilo (atoi t))
    pide_salir_hilo : Pide ws i_thread_exit (p_operacion operacion_finalizar_hilo)
    pide_salir_proceso : Pide ws i_process_exit (p_operacion operacion_finalizar_proceso)

  -- The instruction ends with the answers `rs` left, one request sent, and this next cycle.
  abbrev pub Ejecutada : Option (Marcas × Cpu s) → PedidoKernel → List ℕ → Bool → Type 0
  Ejecutada r p rs sig =
      (m : Marcas) × (d : Cpu s) × (r ≡ some (m, d))
      × (d.respuestas ≡ rs)
      × (d.enviados ≡ c.enviados ++ p ∷ [])
      × (m.siguiente_ciclo ≡ sig)

  esperar_confirmacion_lem :
      (d : Cpu s) (rs : List ℕ)
      → d.respuestas ≡ codigo operacion_confirmar ∷ rs
      → esperar_confirmacion d ≡ some (record d { respuestas = rs })
  unfolding esperar_confirmacion recibir codigo
  esperar_confirmacion_lem d rs e = rw e refl

  con_confirmacion :
      (env : List OpCode) (rs : List ℕ) (c1 : Cpu s) (p : PedidoKernel) (m : Marcas)
      (r : Option (Marcas × Cpu s))
      → c1.respuestas ≡ map codigo env ++ rs
      → c1.enviados ≡ c.enviados
      → env ≡ operacion_confirmar ∷ []
      → r ≡ (esperar_confirmacion (enviar p c1) >>= λ d. some (m, d))
      → Ejecutada r p rs m.siguiente_ciclo
  unfolding enviar
  con_confirmacion env rs c1 p m r resp envs q igual =
      let l = esperar_confirmacion_lem (enviar p c1) rs (resp ∙ ap (λ x. map codigo x ++ rs) q) in
      (
        m,
        record (enviar p c1) { respuestas = rs },
        igual ∙ rw l refl,
        refl,
        ap (λ x. x ++ p ∷ []) envs,
        refl,
      )

  sin_respuesta :
      (env : List OpCode) (rs : List ℕ) (p : PedidoKernel) (m : Marcas)
      (r : Option (Marcas × Cpu s))
      → c.respuestas ≡ map codigo env ++ rs
      → env ≡ []
      → r ≡ some (m, enviar p (avanzar c))
      → Ejecutada r p rs m.siguiente_ciclo
  unfolding enviar avanzar
  sin_respuesta env rs p m r resp q igual =
      (m, enviar p (avanzar c), igual, resp ∙ ap (λ x. map codigo x ++ rs) q, refl, refl)

  respuesta_de_lock :
      (env : List OpCode) (rs : List ℕ) (recurso : List ℕ) (ws : List (List ℕ)) (x : OpCode)
      → get_elem? ws 1 ≡ some recurso
      → c.respuestas ≡ map codigo env ++ rs
      → env ≡ x ∷ []
      → Ejecutada
          (ejecutar atoi i_mutex_lock ws c)
          (p_mutex operacion_bloquear_mutex (record { recurso = recurso }))
          rs
          (marcas_de_lock (codigo x)).siguiente_ciclo
  unfolding ejecutar enviar avanzar recibir
  respuesta_de_lock env rs recurso ws x e resp q =
      let primera : c.respuestas ≡ codigo x ∷ rs = resp ∙ ap (λ y. map codigo y ++ rs) q in
      (
        marcas_de_lock (codigo x),
        record (enviar (p_mutex operacion_bloquear_mutex (record { recurso = recurso }))
            (avanzar c)) { respuestas = rs },
        rw e (rw primera refl),
        refl,
        refl,
        refl,
      )

  ejecutar-Ejecutada :
      (ws : List (List ℕ)) (rs : List ℕ) (env : List OpCode) (sig : Bool) {i : Instruccion}
      {p : PedidoKernel}
      → Pide ws i p
      → Dialogo p env sig
      → c.respuestas ≡ map codigo env ++ rs
      → Ejecutada (ejecutar atoi i ws c) p rs (sigue_cpu i sig)
  unfolding ejecutar avanzar enviar actualizar marcas_de_lock codigo
  ejecutar-Ejecutada ws rs env sig (pide_crear_mutex r e) (q1, q2) resp =
      subst (Ejecutada _ _ rs) (sym q2)
        (con_confirmacion env rs (avanzar c) _ sigue _ resp refl q1 (rw e refl))
  ejecutar-Ejecutada ws rs env sig (pide_bloquear_mutex r e) (inl (q1, q2)) resp =
      subst (Ejecutada _ _ rs) (sym q2)
        (respuesta_de_lock env rs r ws operacion_confirmar e resp q1)
  ejecutar-Ejecutada ws rs env sig (pide_bloquear_mutex r e) (inr (q1, q2)) resp =
      subst (Ejecutada _ _ rs) (sym q2)
        (respuesta_de_lock env rs r ws operacion_notificar_error e resp q1)
  ejecutar-Ejecutada ws rs env sig (pide_desbloquear_mutex r e) (q1, q2) resp =
      subst (Ejecutada _ _ rs) (sym q2)
        (con_confirmacion env rs (avanzar c) _ sigue _ resp refl q1 (rw e refl))
  ejecutar-Ejecutada ws rs env sig (pide_dump c1 e) (q1, q2) resp =
      let (r, pedido, igual) = >>=-eq-some (s.pedir _ c.memoria) _ e in
      let g : record (avanzar c) { memoria = r.1 } ≡ c1 = cc in
      subst (Ejecutada _ _ rs) (sym q2) (
        con_confirmacion env rs c1 _ (se_va false) _ (ap (λ x. x.respuestas) (sym g) ∙ resp)
          (ap (λ x. x.enviados) (sym g)) q1 (rw e refl))
  ejecutar-Ejecutada ws rs env sig (pide_io t e) (q1, q2) resp =
      subst (Ejecutada _ _ rs) (sym q2) (sin_respuesta env rs _ (se_va true) _ resp q1 (rw e refl))
  ejecutar-Ejecutada ws rs env sig (pide_crear_proceso f t p e1 e2 e3) (q1, q2) resp =
      subst (Ejecutada _ _ rs) (sym q2)
        (sin_respuesta env rs _ sigue _ resp q1 (rw e1 (rw e2 (rw e3 refl))))
  ejecutar-Ejecutada ws rs env sig (pide_crear_hilo f p e1 e2) (q1, q2) resp =
      subst (Ejecutada _ _ rs) (sym q2)
        (con_confirmacion env rs (avanzar c) _ sigue _ resp refl q1 (rw e1 (rw e2 refl)))
  ejecutar-Ejecutada ws rs env sig (pide_esperar t e) q resp =
      con_confirmacion env rs (avanzar c) _ (se_va true) _ resp refl q (rw e refl)
  ejecutar-Ejecutada ws rs env sig pide_salir_hilo (q1, q2) resp =
      subst (Ejecutada _ _ rs) (sym q2)
        (con_confirmacion env rs (avanzar c) _ (se_va false) _ resp refl q1 refl)
  ejecutar-Ejecutada ws rs env sig pide_salir_proceso (q1, q2) resp =
      subst (Ejecutada _ _ rs) (sym q2) (sin_respuesta env rs _ (se_va false) _ resp q1 refl)

  -- An instruction sends a request, with its words there and, at DUMP_MEMORY, its context stored; the
  -- request is an operation of the kernel, which attends it, and what the CPU reads starts with the
  -- codes that the kernel sent for it. Then the instruction ends: it reads exactly these codes,
  -- that is the one request it sends, and its mark `siguiente_ciclo`, as it is before the CPU looks for
  -- an interruption, is set where the kernel goes on with the thread and only there, but for
  -- THREAD_JOIN, which clears it in any case.
  pub ejecutar-atender :
      (respuesta : OpCode) (h : ℕ) (k : Kernel) (a : Atendida) (ws : List (List ℕ)) (rs : List ℕ)
      {i : Instruccion} {p : PedidoKernel} {o : Operacion}
      → Pide ws i p
      → Corresponde respuesta p o
      → atender_operacion h o k ≡ some a
      → c.respuestas ≡ map codigo a.enviado ++ rs
      → Ejecutada (ejecutar atoi i ws c) p rs (sigue_cpu i a.sigue)
  ejecutar-atender respuesta h k a ws rs {i} {p} pide corresponde atendida resp =
      ejecutar-Ejecutada ws rs a.enviado a.sigue pide
        (Cumple-some (Acuerdo p) _ (atender-Cumple respuesta h k corresponde) atendida) resp
