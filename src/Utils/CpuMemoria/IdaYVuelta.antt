-- ===== src/Utils/CpuMemoria/IdaYVuelta.antt =====
-- Each message between the CPU and the memory is read back as it was sent.
use sist_op_tp2c.Base.{
  ◌+◌, ◌<◌, ◌≡◌, refl, [], ◌∷◌, ◌++◌, arith, u32_mod, length, length-append, append_assoc,
  append-nil,
}
use sist_op_tp2c.Utils.Buffer.{Malloc, Buffer, bytes32, en_memoria, buffer_create}
use sist_op_tp2c.Utils.Buffer.Escritura.{buffer_create-Escrito, uint32-Deja, sigue32, string-Deja}
use sist_op_tp2c.Utils.Buffer.Lectura.{SinNul, lee32, lee_string}
use sist_op_tp2c.Utils.Buffer.Vuelta.{Vuelve, vuelve, Vuelve-como}
use sist_op_tp2c.Utils.CpuMemoria.{
  SolicitarContexto, seralizar_datos_solicitar_contexto, deserializar_datos_solicitar_contexto,
  Contexto, serializar_datos_contexto, deserializar_datos_contexto,
  deserializar_datos_contexto_memoria, DatosObtenerInstruccion,
  serializar_datos_solicitar_instruccion, deserializar_datos_solicitar_instruccion,
  DatosDevolverInstruccion, serializar_datos_devolver_instruccion,
  deserializar_datos_devolver_instruccion, DatosLeerMemoria, serializar_datos_leer_memoria,
  deserializar_datos_leer_memoria, DatosEscribirMemoria, serializar_datos_escribir_memoria,
  deserializar_datos_escribir_memoria,
}

-- `SolicitarContexto` is written to a full buffer, of 8 bytes,
-- and read back as it was sent, if its numbers are `uint32_t`.
pub solicitar_contexto-Vuelve :
    (m : Malloc) (d : SolicitarContexto)
    → d.pid < u32_mod
    → d.tid < u32_mod
    → Vuelve 8 (seralizar_datos_solicitar_contexto m d) deserializar_datos_solicitar_contexto d
unfolding seralizar_datos_solicitar_contexto deserializar_datos_solicitar_contexto
solicitar_contexto-Vuelve m d h_pid h_tid =
    vuelve 8 8 (bytes32 d.pid ++ (bytes32 d.tid)) deserializar_datos_solicitar_contexto d refl
      (omega arith)
      (sigue32 8 0 d.pid (omega arith) (omega arith) (buffer_create-Escrito m 8)
        λ b0 e0. uint32-Deja 8 4 d.tid (omega arith) (omega arith) e0)
      (λ b l.
        lee32 d.pid (bytes32 d.tid) _ h_pid l λ b0 l0. lee32 d.tid ([]) _ h_tid l0 λ b1 l1. refl)

-- `Contexto` is written to a full buffer, of 52 bytes,
-- and read back as it was sent, if its numbers are `uint32_t`.
pub contexto-Vuelve :
    (m : Malloc) (d : Contexto)
    → d.pid < u32_mod
    → d.tid < u32_mod
    → d.pc < u32_mod
    → d.ax < u32_mod
    → d.bx < u32_mod
    → d.cx < u32_mod
    → d.dx < u32_mod
    → d.ex < u32_mod
    → d.fx < u32_mod
    → d.gx < u32_mod
    → d.hx < u32_mod
    → d.base < u32_mod
    → d.limite < u32_mod
    → Vuelve 52 (serializar_datos_contexto m d) deserializar_datos_contexto d
unfolding serializar_datos_contexto deserializar_datos_contexto
contexto-Vuelve m d h_pid h_tid h_pc h_ax h_bx h_cx h_dx h_ex h_fx h_gx h_hx h_base h_limite =
    vuelve 52 52
      (bytes32 d.pid
        ++ (bytes32 d.tid
            ++ (bytes32 d.pc
                ++ (bytes32 d.ax
                    ++ (bytes32 d.bx
                        ++ (bytes32 d.cx
                            ++ (bytes32 d.dx
                                ++ (bytes32 d.ex
                                    ++ (bytes32 d.fx
                                        ++ (bytes32 d.gx
                                            ++ (bytes32 d.hx
                                                ++ (bytes32 d.base ++ (bytes32 d.limite)))))))))))))
      deserializar_datos_contexto d refl (omega arith)
      (sigue32 52 0 d.pid (omega arith) (omega arith) (buffer_create-Escrito m 52) λ b0 e0.
        sigue32 52 4 d.tid (omega arith) (omega arith) e0 λ b1 e1.
          sigue32 52 8 d.pc (omega arith) (omega arith) e1 λ b2 e2.
            sigue32 52 12 d.ax (omega arith) (omega arith) e2 λ b3 e3.
              sigue32 52 16 d.bx (omega arith) (omega arith) e3 λ b4 e4.
                sigue32 52 20 d.cx (omega arith) (omega arith) e4 λ b5 e5.
                  sigue32 52 24 d.dx (omega arith) (omega arith) e5 λ b6 e6.
                    sigue32 52 28 d.ex (omega arith) (omega arith) e6 λ b7 e7.
                      sigue32 52 32 d.fx (omega arith) (omega arith) e7 λ b8 e8.
                        sigue32 52 36 d.gx (omega arith) (omega arith) e8 λ b9 e9.
                          sigue32 52 40 d.hx (omega arith) (omega arith) e9 λ b10 e10.
                            sigue32 52 44 d.base (omega arith) (omega arith) e10
                              λ b11 e11. uint32-Deja 52 48 d.limite (omega arith) (omega arith) e11)
      (λ b l.
        lee32 d.pid
          (bytes32 d.tid
            ++ (bytes32 d.pc
                ++ (bytes32 d.ax
                    ++ (bytes32 d.bx
                        ++ (bytes32 d.cx
                            ++ (bytes32 d.dx
                                ++ (bytes32 d.ex
                                    ++ (bytes32 d.fx
                                        ++ (bytes32 d.gx
                                            ++ (bytes32 d.hx
                                                ++ (bytes32 d.base ++ (bytes32 d.limite))))))))))))
          _ h_pid l
          λ b0 l0.
            lee32 d.tid
              (bytes32 d.pc
                ++ (bytes32 d.ax
                    ++ (bytes32 d.bx
                        ++ (bytes32 d.cx
                            ++ (bytes32 d.dx
                                ++ (bytes32 d.ex
                                    ++ (bytes32 d.fx
                                        ++ (bytes32 d.gx
                                            ++ (bytes32 d.hx
                                                ++ (bytes32 d.base ++ (bytes32 d.limite)))))))))))
              _ h_tid l0
              λ b1 l1.
                lee32 d.pc
                  (bytes32 d.ax
                    ++ (bytes32 d.bx
                        ++ (bytes32 d.cx
                            ++ (bytes32 d.dx
                                ++ (bytes32 d.ex
                                    ++ (bytes32 d.fx
                                        ++ (bytes32 d.gx
                                            ++ (bytes32 d.hx
                                                ++ (bytes32 d.base ++ (bytes32 d.limite))))))))))
                  _ h_pc l1
                  λ b2 l2.
                    lee32 d.ax
                      (bytes32 d.bx
                        ++ (bytes32 d.cx
                            ++ (bytes32 d.dx
                                ++ (bytes32 d.ex
                                    ++ (bytes32 d.fx
                                        ++ (bytes32 d.gx
                                            ++ (bytes32 d.hx
                                                ++ (bytes32 d.base ++ (bytes32 d.limite)))))))))
                      _ h_ax l2
                      λ b3 l3.
                        lee32 d.bx
                          (bytes32 d.cx
                            ++ (bytes32 d.dx
                                ++ (bytes32 d.ex
                                    ++ (bytes32 d.fx
                                        ++ (bytes32 d.gx
                                            ++ (bytes32 d.hx
                                                ++ (bytes32 d.base ++ (bytes32 d.limite))))))))
                          _ h_bx l3
                          λ b4 l4.
                            lee32 d.cx
                              (bytes32 d.dx
                                ++ (bytes32 d.ex
                                    ++ (bytes32 d.fx
                                        ++ (bytes32 d.gx
                                            ++ (bytes32 d.hx
                                                ++ (bytes32 d.base ++ (bytes32 d.limite)))))))
                              _ h_cx l4
                              λ b5 l5.
                                lee32 d.dx
                                  (bytes32 d.ex
                                    ++ (bytes32 d.fx
                                        ++ (bytes32 d.gx
                                            ++ (bytes32 d.hx
                                                ++ (bytes32 d.base ++ (bytes32 d.limite))))))
                                  _ h_dx l5
                                  λ b6 l6.
                                    lee32 d.ex
                                      (bytes32 d.fx
                                        ++ (bytes32 d.gx
                                            ++ (bytes32 d.hx
                                                ++ (bytes32 d.base ++ (bytes32 d.limite)))))
                                      _ h_ex l6
                                      λ b7 l7.
                                        lee32 d.fx
                                          (bytes32 d.gx
                                            ++ (bytes32 d.hx
                                                ++ (bytes32 d.base ++ (bytes32 d.limite))))
                                          _ h_fx l7
                                          λ b8 l8.
                                            lee32 d.gx
                                              (bytes32 d.hx
                                                ++ (bytes32 d.base ++ (bytes32 d.limite)))
                                              _ h_gx l8
                                              λ b9 l9.
                                                lee32 d.hx (bytes32 d.base ++ (bytes32 d.limite)) _
                                                  h_hx l9
                                                  λ b10 l10.
                                                    lee32 d.base (bytes32 d.limite) _ h_base l10
                                                      λ b11 l11.
                                                        lee32 d.limite ([]) _ h_limite l11
                                                          λ b12 l12. refl)

-- The memory reads a context as the CPU does.
pub contexto_memoria-eq :
    (b : Buffer) → deserializar_datos_contexto_memoria b ≡ deserializar_datos_contexto b
unfolding deserializar_datos_contexto_memoria deserializar_datos_contexto
contexto_memoria-eq b = refl

-- `DatosObtenerInstruccion` is written to a full buffer, of 12 bytes,
-- and read back as it was sent, if its numbers are `uint32_t`.
pub solicitar_instruccion-Vuelve :
    (m : Malloc) (d : DatosObtenerInstruccion)
    → d.pid < u32_mod
    → d.tid < u32_mod
    → d.pc < u32_mod
    → Vuelve 12
        (serializar_datos_solicitar_instruccion m d)
        deserializar_datos_solicitar_instruccion
        d
unfolding serializar_datos_solicitar_instruccion deserializar_datos_solicitar_instruccion
solicitar_instruccion-Vuelve m d h_pid h_tid h_pc =
    vuelve 12 12 (bytes32 d.pid ++ (bytes32 d.tid ++ (bytes32 d.pc)))
      deserializar_datos_solicitar_instruccion d refl (omega arith)
      (sigue32 12 0 d.pid (omega arith) (omega arith) (buffer_create-Escrito m 12) λ b0 e0.
        sigue32 12 4 d.tid (omega arith) (omega arith) e0
          λ b1 e1. uint32-Deja 12 8 d.pc (omega arith) (omega arith) e1)
      (λ b l. lee32 d.pid (bytes32 d.tid ++ (bytes32 d.pc)) _ h_pid l λ b0 l0.
        lee32 d.tid (bytes32 d.pc) _ h_tid l0 λ b1 l1. lee32 d.pc ([]) _ h_pc l1 λ b2 l2. refl)

-- `DatosDevolverInstruccion` is read back as it was sent, if its numbers are `uint32_t`, its string has no
-- NUL inside, and the buffer is shorter than 2 ^ 32 bytes.
pub devolver_instruccion-Vuelve :
    (m : Malloc) (d : DatosDevolverInstruccion)
    → length d.instruccion + 5 < u32_mod
    → SinNul d.instruccion
    → Vuelve
        ((length d.instruccion + 1) + 4)
        (serializar_datos_devolver_instruccion m d)
        deserializar_datos_devolver_instruccion
        d
unfolding serializar_datos_devolver_instruccion deserializar_datos_devolver_instruccion
devolver_instruccion-Vuelve m d corto sin =
    let s = d.instruccion in
    let n = (length s + 1) + 4 in
    let mide = length-append s (0 ∷ []) in
    Vuelve-como n (0 + 4 + length (en_memoria s)) (([] ++ bytes32 (length s + 1)) ++ en_memoria s)
      (bytes32 (length s + 1) ++ (en_memoria s ++ [])) deserializar_datos_devolver_instruccion d
      (omega (arith, mide)) (omega arith) (simp (append_assoc, append-nil))
      (string-Deja n 0 [] (buffer_create m n) s (omega arith) (omega (arith, mide))
        (buffer_create-Escrito m n))
      (λ b l. lee_string s ([]) _ (omega arith) sin l λ b0 l0. refl)

-- `DatosLeerMemoria` is written to a full buffer, of 16 bytes,
-- and read back as it was sent, if its numbers are `uint32_t`.
pub leer_memoria-Vuelve :
    (m : Malloc) (d : DatosLeerMemoria)
    → d.pid < u32_mod
    → d.tid < u32_mod
    → d.tamanio < u32_mod
    → d.dir_fisica < u32_mod
    → Vuelve 16 (serializar_datos_leer_memoria m d) deserializar_datos_leer_memoria d
unfolding serializar_datos_leer_memoria deserializar_datos_leer_memoria
leer_memoria-Vuelve m d h_pid h_tid h_tamanio h_dir_fisica =
    vuelve 16 16 (bytes32 d.pid ++ (bytes32 d.tid ++ (bytes32 d.tamanio ++ (bytes32 d.dir_fisica))))
      deserializar_datos_leer_memoria d refl (omega arith)
      (sigue32 16 0 d.pid (omega arith) (omega arith) (buffer_create-Escrito m 16) λ b0 e0.
        sigue32 16 4 d.tid (omega arith) (omega arith) e0 λ b1 e1.
          sigue32 16 8 d.tamanio (omega arith) (omega arith) e1
            λ b2 e2. uint32-Deja 16 12 d.dir_fisica (omega arith) (omega arith) e2)
      (λ b l.
        lee32 d.pid (bytes32 d.tid ++ (bytes32 d.tamanio ++ (bytes32 d.dir_fisica))) _ h_pid l
          λ b0 l0. lee32 d.tid (bytes32 d.tamanio ++ (bytes32 d.dir_fisica)) _ h_tid l0 λ b1 l1.
            lee32 d.tamanio (bytes32 d.dir_fisica) _ h_tamanio l1
              λ b2 l2. lee32 d.dir_fisica ([]) _ h_dir_fisica l2 λ b3 l3. refl)

-- `DatosEscribirMemoria` is written to a full buffer, of 20 bytes,
-- and read back as it was sent, if its numbers are `uint32_t`.
pub escribir_memoria-Vuelve :
    (m : Malloc) (d : DatosEscribirMemoria)
    → d.pid < u32_mod
    → d.tid < u32_mod
    → d.tamanio < u32_mod
    → d.dir_fisica < u32_mod
    → d.dato_a_escribir < u32_mod
    → Vuelve 20 (serializar_datos_escribir_memoria m d) deserializar_datos_escribir_memoria d
unfolding serializar_datos_escribir_memoria deserializar_datos_escribir_memoria
escribir_memoria-Vuelve m d h_pid h_tid h_tamanio h_dir_fisica h_dato_a_escribir =
    vuelve 20 20
      (bytes32 d.pid
        ++ (bytes32 d.tid
            ++ (bytes32 d.tamanio ++ (bytes32 d.dir_fisica ++ (bytes32 d.dato_a_escribir)))))
      deserializar_datos_escribir_memoria d refl (omega arith)
      (sigue32 20 0 d.pid (omega arith) (omega arith) (buffer_create-Escrito m 20) λ b0 e0.
        sigue32 20 4 d.tid (omega arith) (omega arith) e0 λ b1 e1.
          sigue32 20 8 d.tamanio (omega arith) (omega arith) e1 λ b2 e2.
            sigue32 20 12 d.dir_fisica (omega arith) (omega arith) e2
              λ b3 e3. uint32-Deja 20 16 d.dato_a_escribir (omega arith) (omega arith) e3)
      (λ b l.
        lee32 d.pid
          (bytes32 d.tid
            ++ (bytes32 d.tamanio ++ (bytes32 d.dir_fisica ++ (bytes32 d.dato_a_escribir))))
          _ h_pid l
          λ b0 l0.
            lee32 d.tid (bytes32 d.tamanio ++ (bytes32 d.dir_fisica ++ (bytes32 d.dato_a_escribir)))
              _ h_tid l0
              λ b1 l1.
                lee32 d.tamanio (bytes32 d.dir_fisica ++ (bytes32 d.dato_a_escribir)) _ h_tamanio l1
                  λ b2 l2.
                    lee32 d.dir_fisica (bytes32 d.dato_a_escribir) _ h_dir_fisica l2
                      λ b3 l3. lee32 d.dato_a_escribir ([]) _ h_dato_a_escribir l3 λ b4 l4. refl)
