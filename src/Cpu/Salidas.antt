-- ===== src/Cpu/Salidas.antt =====
-- cpu/src/main.c: what an instruction leaves: its marks and, where they say that the
-- context is not to be stored, the stored context.
use sist_op_tp2c.Base.{
  ℕ, ◌≡◌, refl, true, false, Option, some, List, [], ◌∷◌, ◌>>=◌, ◌==◌, get_elem?, Cumple,
  Cumple->>=, Cumple->>=_any, Cumple-if,
}
use sist_op_tp2c.Utils.Mensajes.{codigo, operacion_confirmar}
use sist_op_tp2c.Memoria.{devolver_contexto, contexto}
use sist_op_tp2c.Cpu.Servicio.{ServicioMemoria}
use sist_op_tp2c.Cpu.Instrucciones.{
  Instruccion, i_set, i_read_mem, i_write_mem, i_sum, i_sub, i_jnz, i_log, i_dump_memory, i_io,
  i_process_create, i_thread_create, i_thread_join, i_thread_cancel, i_mutex_create, i_mutex_lock,
  i_mutex_unlock, i_thread_exit, i_process_exit, Marcas, PedidoKernel,
}
use sist_op_tp2c.Cpu.{obtener_registro, sum_registro, sub_registro, jnz_pc}
use sist_op_tp2c.Cpu.Maquina.{
  read_mem, write_mem, Cpu, enviar, recibir, esperar_confirmacion, actualizar,
}
use sist_op_tp2c.Cpu.Ejecucion.{avanzar, sigue, se_va, marcas_de_lock, ejecutar}

module _ {s : ServicioMemoria} where
  -- The memory gives back the registers of the CPU, with a base and a limit of its own.
  abbrev pub Guardado : Cpu s → Type 0
  Guardado c =
      (base : ℕ) × (limite : ℕ) × (s.pedir
          (devolver_contexto (record { tid = c.registros.tid; pid = c.registros.pid })) c.memoria
        ≡ some (contexto (record c.registros { base = base; limite = limite }), c.memoria))

  pub actualizar-Guardado : (c : Cpu s) → Cumple Guardado (actualizar c)
  unfolding actualizar
  actualizar-Guardado c =
      Cumple->>=_any Guardado _ _ (λ r e. s.guarda c.registros c.memoria r.1 r.0 e)

  recibir-Guardado :
      (rs : List ℕ) (c : Cpu s) → Guardado c → Cumple (λ r. Guardado r.1) (recibir rs c)
  unfolding recibir
  recibir-Guardado [] c g = tt
  recibir-Guardado (x ∷ xs) c g = g

  -- The answer of the kernel changes neither the registers nor the memory.
  esperar-Guardado :
      (p : PedidoKernel) (c : Cpu s)
      → Guardado c
      → Cumple Guardado (esperar_confirmacion (enviar p c))
  unfolding esperar_confirmacion enviar
  esperar-Guardado p c g =
      Cumple->>= (λ r. Guardado r.1) Guardado (recibir c.respuestas _) _
        (recibir-Guardado c.respuestas _ g)
        (λ r h. Cumple-if Guardado (r.0 == codigo operacion_confirmar) _ _ h tt)

  module _ (atoi : List ℕ → ℕ) (Q : Marcas × Cpu s → Type 0) (seguir : (c : Cpu s) → Q (sigue, c))
      (irse : (c : Cpu s) → Q (se_va true, c))
      (guardar : (c : Cpu s) → Guardado c → Q (se_va false, c)) where
    -- An instruction that lets the thread go on, after any steps.
    deja_seguir {ℓ} :
        {A : Type ℓ} (m : Option A) (f : A → Option (Marcas × Cpu s))
        → ((a : A) → Cumple Q (f a))
        → Cumple Q (m >>= f)
    deja_seguir m f h = Cumple->>=_any Q m f (λ a _. h a)

    pub ejecutar-Cumple :
        (i : Instruccion) (palabras : List (List ℕ)) (c : Cpu s)
        → ((d : Cpu s) → i ≡ i_thread_exit → Q (se_va false, d))
        → ((d : Cpu s) → i ≡ i_process_exit → Q (se_va false, d))
        → ((d : Cpu s) → Cumple (λ r. Q (marcas_de_lock r.0, r.1)) (recibir c.respuestas d))
        → Cumple Q (ejecutar atoi i palabras c)
    unfolding ejecutar enviar avanzar
    ejecutar-Cumple i_set ws c n1 n2 r =
        deja_seguir (get_elem? ws 1) _ (λ _. deja_seguir (get_elem? ws 2) _ (λ _. seguir _))
    ejecutar-Cumple i_sum ws c n1 n2 r = deja_seguir (get_elem? ws 1) _ (λ _.
        deja_seguir (get_elem? ws 2) _ (λ _. deja_seguir (sum_registro _ _ _) _ (λ _. seguir _)))
    ejecutar-Cumple i_sub ws c n1 n2 r = deja_seguir (get_elem? ws 1) _ (λ _.
        deja_seguir (get_elem? ws 2) _ (λ _. deja_seguir (sub_registro _ _ _) _ (λ _. seguir _)))
    ejecutar-Cumple i_read_mem ws c n1 n2 r =
        deja_seguir (get_elem? ws 1) _ (λ _.
          deja_seguir (get_elem? ws 2) _ (λ _. deja_seguir (read_mem _ _ c) _ (λ _. seguir _)))
    ejecutar-Cumple i_write_mem ws c n1 n2 r =
        deja_seguir (get_elem? ws 1) _ (λ _.
          deja_seguir (get_elem? ws 2) _ (λ _. deja_seguir (write_mem _ _ c) _ (λ _. seguir _)))
    ejecutar-Cumple i_jnz ws c n1 n2 r =
        deja_seguir (get_elem? ws 1) _
          (λ _. deja_seguir (get_elem? ws 2) _ (λ _. deja_seguir (jnz_pc _ _ _) _ (λ _. seguir _)))
    ejecutar-Cumple i_log ws c n1 n2 r =
        deja_seguir (get_elem? ws 1) _ (λ _. deja_seguir (obtener_registro _ _) _ (λ _. seguir _))
    ejecutar-Cumple i_mutex_create ws c n1 n2 r =
        deja_seguir (get_elem? ws 1) _ (λ _. deja_seguir (esperar_confirmacion _) _ (λ _. seguir _))
    ejecutar-Cumple i_mutex_lock ws c n1 n2 r = deja_seguir (get_elem? ws 1) _ (λ recurso.
        Cumple->>= (λ x. Q (marcas_de_lock x.0, x.1)) Q (recibir c.respuestas _) _ (r _) (λ x h. h))
    ejecutar-Cumple i_mutex_unlock ws c n1 n2 r =
        deja_seguir (get_elem? ws 1) _ (λ _. deja_seguir (esperar_confirmacion _) _ (λ _. seguir _))
    ejecutar-Cumple i_dump_memory ws c n1 n2 r =
        Cumple->>= Guardado Q (actualizar _) _ (actualizar-Guardado _) (λ c1 g.
          Cumple->>= Guardado Q (esperar_confirmacion _) _ (esperar-Guardado _ _ g)
            (λ c2 h. guardar _ h))
    ejecutar-Cumple i_io ws c n1 n2 r = deja_seguir (get_elem? ws 1) _ (λ _. irse _)
    ejecutar-Cumple i_process_create ws c n1 n2 r =
        deja_seguir (get_elem? ws 1) _ (λ _.
          deja_seguir (get_elem? ws 2) _ (λ _. deja_seguir (get_elem? ws 3) _ (λ _. seguir _)))
    ejecutar-Cumple i_thread_create ws c n1 n2 r = deja_seguir (get_elem? ws 1) _ (λ _.
        deja_seguir (get_elem? ws 2) _
          (λ _. deja_seguir (esperar_confirmacion _) _ (λ _. seguir _)))
    ejecutar-Cumple i_thread_cancel ws c n1 n2 r = deja_seguir (get_elem? ws 1) _ (λ _. seguir _)
    ejecutar-Cumple i_thread_join ws c n1 n2 r =
        deja_seguir (get_elem? ws 1) _ (λ _. deja_seguir (esperar_confirmacion _) _ (λ _. irse _))
    ejecutar-Cumple i_thread_exit ws c n1 n2 r =
        deja_seguir (esperar_confirmacion _) _ (λ d. n1 d refl)
    ejecutar-Cumple i_process_exit ws c n1 n2 r = n2 _ refl
