-- ===== src/Cpu/Termina.antt =====
-- cpu/src/main.c: the instruction cycle of a thread ends.
use sist_op_tp2c.Base.{
  ℕ, ◌≡◌, ◌≢◌, Bool, true, false, Option, none, some, List, [], ◌∷◌, ◌++◌, ◌&&◌, ◌||◌, not, Cumple,
  refl, Cumple->>=_any, Cumple->>=, if◌then◌else◌, arith, get_elem?,
}
use sist_op_tp2c.Utils.Mensajes.{operacion_desalojar_hilo}
use sist_op_tp2c.Cpu.Servicio.{ServicioMemoria}
use sist_op_tp2c.Cpu.Instrucciones.{Instruccion, Marcas, p_operacion}
use sist_op_tp2c.Cpu.Maquina.{Cpu, enviar, actualizar, recibir}
use sist_op_tp2c.Cpu.Ejecucion.{ejecutar_si, decodificar_y_ejecutar, marcas_de_lock}
use sist_op_tp2c.Cpu.Salidas.{ejecutar-Cumple}
use sist_op_tp2c.Cpu.Ciclo.{
  Corrida, termina, falla, falta, ciclo, fin_de_ciclo, ciclo_de_instruccion,
  pedir_proxima_instruccion,
}

module _ {s : ServicioMemoria} where
  -- No instruction both omits the interruption and goes on.
  abbrev Atiende : Marcas × Cpu s → Type 0
  Atiende r = (r.0.omitir_interrupcion && r.0.siguiente_ciclo) ≡ false

  abbrev Ultimo : Bool × Cpu s → Type 0
  Ultimo r = r.0 ≡ false

  marcas_de_lock-Atiende : (x : ℕ) (c : Cpu s) → Atiende (marcas_de_lock x, c)
  unfolding marcas_de_lock
  marcas_de_lock-Atiende x c = ground arith

  recibir-Atiende :
      (rs : List ℕ) (d : Cpu s) → Cumple (λ r. Atiende (marcas_de_lock r.0, r.1)) (recibir rs d)
  unfolding recibir
  recibir-Atiende [] d = tt
  recibir-Atiende (x ∷ xs) d = marcas_de_lock-Atiende x d

  ejecutar_si-Atiende :
      (atoi : List ℕ → ℕ) (o : Option Instruccion) (palabras : List (List ℕ)) (c : Cpu s)
      → Cumple Atiende (ejecutar_si atoi o palabras c)
  unfolding ejecutar_si
  ejecutar_si-Atiende atoi none palabras c = refl
  ejecutar_si-Atiende atoi (some i) palabras c =
      ejecutar-Cumple atoi Atiende (λ _. refl) (λ _. refl) (λ _ _. refl) i palabras c (λ _ _. refl)
        (λ _ _. refl) (recibir-Atiende c.respuestas)

  cola-Ultimo :
      (f o : Bool) (sig : Bool) (c : Cpu s) (resto : Option (Bool × Cpu s))
      → (o && sig) ≡ false
      → Cumple Ultimo resto
      → Cumple Ultimo (if f then some (false, c) else if not o then resto else some (sig, c))
  cola-Ultimo true o sig c resto h r = refl
  cola-Ultimo false true sig c resto h r = h
  cola-Ultimo false false sig c resto h r = r

  fin-Ultimo : (m : Marcas) (c : Cpu s) → Atiende (m, c) → Cumple Ultimo (fin_de_ciclo true m c)
  unfolding fin_de_ciclo
  fin-Ultimo m c h =
      Cumple->>=_any Ultimo
        (if (false || m.omitir_interrupcion) && m.debe_actualizar_contexto
          then actualizar c
          else some c)
        _
        (λ c1 _. cola-Ultimo c1.seg_fault m.omitir_interrupcion m.siguiente_ciclo c1 _ h (
          Cumple->>=_any Ultimo (actualizar c1)
            (λ c2. some (false, enviar (p_operacion operacion_desalojar_hilo) c2)) (λ _ _. refl)))

  module _ (atoi : List ℕ → ℕ) (string_split : List ℕ → List (List ℕ)) where
    ciclo-Ultimo : (c : Cpu s) → Cumple Ultimo (ciclo atoi string_split true c)
    unfolding ciclo decodificar_y_ejecutar
    ciclo-Ultimo c =
        Cumple->>=_any Ultimo (pedir_proxima_instruccion (record c { seg_fault = false })) _
          (λ pedida _.
            Cumple->>= Atiende Ultimo (decodificar_y_ejecutar atoi (string_split pedida.0) pedida.1)
              _
              (Cumple->>=_any Atiende (get_elem? (string_split pedida.0) 0) _
                (λ nombre _. ejecutar_si-Atiende atoi _ _ pedida.1))
              (λ hecha h. fin-Ultimo hecha.0 hecha.1 h))

    -- What a cycle's result gives the recursion.
    abbrev seguir_con : List Bool → Option (Bool × Cpu s) → Corrida (Cpu s)
    seguir_con resto none = falla
    seguir_con resto (some (true, c1)) = ciclo_de_instruccion atoi string_split resto c1
    seguir_con resto (some (false, c1)) = termina c1

    -- The flags after the ones of `antes` and a last one are not looked at, and are not missing.
    abbrev Corta : (List Bool → Corrida (Cpu s)) → List Bool → Type 0
    Corta f despues = (f despues ≡ f []) × ((c1 : Cpu s) → f despues ≢ falta c1)

    seguir_con-Ultimo :
        (r : Option (Bool × Cpu s)) (despues : List Bool)
        → Cumple Ultimo r
        → Corta (λ gs. seguir_con gs r) despues
    seguir_con-Ultimo none despues h = (refl, λ c1 e. cc)
    seguir_con-Ultimo (some (true, c1)) despues h = cc
    seguir_con-Ultimo (some (false, c1)) despues h = (refl, λ c1 e. cc)

    seguir_con-Corta :
        (r : Option (Bool × Cpu s)) (fs despues : List Bool)
        → ((c1 : Cpu s)
            → Corta (λ gs. ciclo_de_instruccion atoi string_split (fs ++ true ∷ gs) c1) despues)
        → Corta (λ gs. seguir_con (fs ++ true ∷ gs) r) despues
    seguir_con-Corta none fs despues h = (refl, λ c1 e. cc)
    seguir_con-Corta (some (true, c1)) fs despues h = h c1
    seguir_con-Corta (some (false, c1)) fs despues h = (refl, λ c1 e. cc)

    -- The run ends, or the program fails, at the latest in the first cycle that finds an interruption:
    -- it does not depend on the interruptions of later cycles, and no such cycle is wanting.
    pub ciclo_de_instruccion-Termina :
        (antes despues : List Bool) (c : Cpu s)
        → (ciclo_de_instruccion atoi string_split (antes ++ true ∷ despues) c
            ≡ ciclo_de_instruccion atoi string_split (antes ++ true ∷ []) c)
          × ((c1 : Cpu s)
              → ciclo_de_instruccion atoi string_split (antes ++ true ∷ despues) c ≢ falta c1)
    unfolding ciclo_de_instruccion
    ciclo_de_instruccion-Termina [] despues c =
        seguir_con-Ultimo (ciclo atoi string_split true c) despues (ciclo-Ultimo c)
    ciclo_de_instruccion-Termina (f ∷ fs) despues c =
        seguir_con-Corta (ciclo atoi string_split f c) fs despues
          (λ c1. ciclo_de_instruccion-Termina fs despues c1)
