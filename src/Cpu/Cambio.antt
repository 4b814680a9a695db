-- ===== src/Cpu/Cambio.antt =====
-- cpu/src/main.c: what the memory keeps of a thread that leaves the CPU, and its return to the CPU.
use sist_op_tp2c.Base.{
  ℕ, ◌≡◌, ◌≢◌, ◌⊎◌, inl, inr, refl, Bool, true, false, Option, some, List, [], ◌∷◌, ◌>>=◌,
  if◌then◌else◌, get_elem?, Cumple, Cumple->>=, Cumple-some, subst, sym, ◌∙◌, All,
}
use sist_op_tp2c.Utils.Mensajes.{codigo, operacion_confirmar, operacion_notificar_error}
use sist_op_tp2c.Cpu.Servicio.{ServicioMemoria}
use sist_op_tp2c.Cpu.Instrucciones.{
  Instruccion, i_thread_exit, i_process_exit, instruccion_de, Marcas,
}
use sist_op_tp2c.Cpu.Maquina.{Cpu, enviar, recibir, actualizar}
use sist_op_tp2c.Cpu.Ejecucion.{
  sigue, se_va, marcas_de_lock, ejecutar, ejecutar_si, decodificar_y_ejecutar,
}
use sist_op_tp2c.Cpu.Salidas.{Guardado, actualizar-Guardado, ejecutar-Cumple}
use sist_op_tp2c.Cpu.Ciclo.{
  pedir_proxima_instruccion, fin_de_ciclo, ciclo, pedir_contexto, contexto_de,
}

-- The answers that the kernel gives.
abbrev pub Respuestas : List ℕ → Type 0
Respuestas = All (λ x. (x ≡ codigo operacion_confirmar) ⊎ (x ≡ codigo operacion_notificar_error))

module _ {s : ServicioMemoria} where
  -- How an instruction leaves the CPU.
  abbrev pub Salida : Marcas × Cpu s → Type 0
  Salida r = (r.0 ≡ sigue) ⊎ ((r.0 ≡ se_va true) ⊎ ((r.0 ≡ se_va false) × Guardado r.1))

  marcas_de_lock-Salida :
      (x : ℕ) (c : Cpu s)
      → (x ≡ codigo operacion_confirmar) ⊎ (x ≡ codigo operacion_notificar_error)
      → Salida (marcas_de_lock x, c)
  unfolding marcas_de_lock codigo
  marcas_de_lock-Salida x c (inl e) = inl (rw e)
  marcas_de_lock-Salida x c (inr e) = inr (inl (rw e))

  recibir-Salida :
      (rs : List ℕ)
      → Respuestas rs
      → (d : Cpu s) → Cumple (λ r. Salida (marcas_de_lock r.0, r.1)) (recibir rs d)
  unfolding recibir
  recibir-Salida [] h d = tt
  recibir-Salida (x ∷ xs) h d = marcas_de_lock-Salida x (record d { respuestas = xs }) h.0

  -- A cycle that ends without a fault of segmentation keeps the context stored.
  abbrev TerminaBien : Bool × Cpu s → Type 0
  TerminaBien r = (r.0 ≡ false) → (r.1.seg_fault ≡ false) → Guardado r.1

  sin_fault :
      (b : Bool) (c : Cpu s) (resto : Option (Bool × Cpu s))
      → c.seg_fault ≡ b
      → Cumple TerminaBien resto
      → Cumple TerminaBien (if b then some (false, c) else resto)
  sin_fault true c resto e h = λ _ f. cc
  sin_fault false c resto e h = h

  fin-Termina :
      (interrumpe : Bool) (m : Marcas) (c : Cpu s)
      → Salida (m, c)
      → Cumple TerminaBien (fin_de_ciclo interrumpe m c)
  unfolding fin_de_ciclo enviar
  fin-Termina true m c (inl e) =
      subst (λ m. Cumple TerminaBien (fin_de_ciclo true m c)) (sym e)
        (sin_fault c.seg_fault c _ refl (
          Cumple->>= Guardado TerminaBien (actualizar c) _ (actualizar-Guardado c) (λ c2 g _ _. g)))
  fin-Termina false m c (inl e) =
      subst (λ m. Cumple TerminaBien (fin_de_ciclo false m c)) (sym e)
        (sin_fault c.seg_fault c _ refl (λ f _. cc))
  fin-Termina true m c (inr (inl e)) =
      subst (λ m. Cumple TerminaBien (fin_de_ciclo true m c)) (sym e)
        (Cumple->>= Guardado TerminaBien (actualizar c) _ (actualizar-Guardado c)
          (λ c1 g. sin_fault c1.seg_fault c1 _ refl (λ _ _. g)))
  fin-Termina false m c (inr (inl e)) =
      subst (λ m. Cumple TerminaBien (fin_de_ciclo false m c)) (sym e)
        (Cumple->>= Guardado TerminaBien (actualizar c) _ (actualizar-Guardado c)
          (λ c1 g. sin_fault c1.seg_fault c1 _ refl (λ _ _. g)))
  fin-Termina true m c (inr (inr h)) =
      subst (λ m. Cumple TerminaBien (fin_de_ciclo true m c)) (sym h.0)
        (sin_fault c.seg_fault c _ refl (λ _ _. h.1))
  fin-Termina false m c (inr (inr h)) =
      subst (λ m. Cumple TerminaBien (fin_de_ciclo false m c)) (sym h.0)
        (sin_fault c.seg_fault c _ refl (λ _ _. h.1))

  module _ (atoi : List ℕ → ℕ) (string_split : List ℕ → List (List ℕ)) where
    pub ciclo_conocido :
        (interrumpe : Bool) (c c0 : Cpu s) (texto nombre : List ℕ) (i : Instruccion)
        → pedir_proxima_instruccion (record c { seg_fault = false }) ≡ some (texto, c0)
        → get_elem? (string_split texto) 0 ≡ some nombre
        → instruccion_de nombre ≡ some i
        → ciclo atoi string_split interrumpe c
          ≡ (ejecutar atoi i (string_split texto) c0 >>= λ h. fin_de_ciclo interrumpe h.0 h.1)
    unfolding ciclo decodificar_y_ejecutar ejecutar_si
    ciclo_conocido interrumpe c c0 texto nombre i pedida palabra conocida =
        rw (pedida, palabra, conocida)

    -- A cycle of an instruction other than THREAD_EXIT and PROCESS_EXIT that ends the run of its
    -- thread, with no segmentation fault, whether an interruption is there or not: when the kernel
    -- sends the thread again, to a CPU in any state with that memory, the CPU starts with the
    -- registers that the cycle left, up to the base and the limit.
    pub ciclo-pedir_contexto :
        (interrumpe : Bool) (c c0 c1 c2 : Cpu s) (texto nombre : List ℕ) (i : Instruccion)
        → pedir_proxima_instruccion (record c { seg_fault = false }) ≡ some (texto, c0)
        → Respuestas c0.respuestas
        → get_elem? (string_split texto) 0 ≡ some nombre
        → instruccion_de nombre ≡ some i
        → i ≢ i_thread_exit
        → i ≢ i_process_exit
        → ciclo atoi string_split interrumpe c ≡ some (false, c1)
        → c1.seg_fault ≡ false
        → c2.memoria ≡ c1.memoria
        → (base : ℕ) × (limite : ℕ) × (pedir_contexto
              (record { tid = c1.registros.tid; pid = c1.registros.pid })
              c2
            ≡ some (record c2 { registros = record c1.registros { base = base; limite = limite } }))
    unfolding pedir_contexto contexto_de
    ciclo-pedir_contexto interrumpe c c0 c1 c2 texto nombre i pedida rs palabra conocida n1 n2 e f
          m =
        let g : Guardado c1 =
          Cumple-some TerminaBien
            (ejecutar atoi i (string_split texto) c0 >>= λ h. fin_de_ciclo interrumpe h.0 h.1)
            (Cumple->>= Salida TerminaBien (ejecutar atoi i (string_split texto) c0) _
              (ejecutar-Cumple atoi Salida (λ _. inl refl) (λ _. inr (inl refl))
                (λ _ h. inr (inr (refl, h))) i (string_split texto) c0 (λ _ x. absurd (n1 x))
                (λ _ x. absurd (n2 x)) (recibir-Salida c0.respuestas rs))
              (λ h b. fin-Termina interrumpe h.0 h.1 b))
            (sym (ciclo_conocido interrumpe c c0 texto nombre i pedida palabra conocida) ∙ e) refl
            f in
        (g.0, g.1, rw m (rw g.2))
