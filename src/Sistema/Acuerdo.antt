-- ===== src/Sistema/Acuerdo.antt =====
-- What the kernel answers to each request of the CPU, and whether it goes on with the thread.
use sist_op_tp2c.Base.{
  ℕ, ◌≡◌, ◌⊎◌, inl, inr, refl, Bool, true, false, List, [], ◌∷◌, Cumple, Cumple->>=_any, Cumple-if,
}
use sist_op_tp2c.Utils.Mensajes.{
  OpCode, operacion_confirmar, operacion_notificar_error, operacion_finalizar_hilo,
  operacion_bloquear_mutex, operacion_dump_memory,
}
use sist_op_tp2c.Kernel.Estados.{Kernel}
use sist_op_tp2c.Kernel.Syscalls.{
  syscall_crear_hilo, syscall_esperar_hilo, syscall_crear_mutex, syscall_bloquear_mutex,
  syscall_desbloquear_mutex, syscall_io, syscall_dump_memory,
}
use sist_op_tp2c.Kernel.Finalizar.{syscall_finalizar_hilo, syscall_finalizar_proceso}
use sist_op_tp2c.Kernel.Instrucciones.{Atendida, Operacion, atender_operacion}
use sist_op_tp2c.Cpu.Ejecucion.{sigue}
use sist_op_tp2c.Cpu.Instrucciones.{
  PedidoKernel, p_crear_proceso, p_crear_hilo, p_mutex, p_hilo, p_io, p_operacion,
}
use sist_op_tp2c.Sistema.CpuKernel.{
  Corresponde, proceso, hilo, crea_mutex, bloquea_mutex, desbloquea_mutex, espera, entrada_salida,
  termina_hilo, termina_proceso, dump, desalojo,
}

-- The kernel answers `enviado`, and goes on with the thread or not.
abbrev Responde : List OpCode → Bool → List OpCode → Bool → Type 0
Responde env sig enviado sigue = (enviado ≡ env) × (sigue ≡ sig)

abbrev DialogoMutex : OpCode → List OpCode → Bool → Type 0
DialogoMutex operacion_bloquear_mutex env sig =
    Responde (operacion_confirmar ∷ []) true env sig
    ⊎ Responde (operacion_notificar_error ∷ []) false env sig
DialogoMutex _ env sig = Responde (operacion_confirmar ∷ []) true env sig

abbrev DialogoOperacion : OpCode → List OpCode → Bool → Type 0
DialogoOperacion operacion_finalizar_hilo env sig =
    Responde (operacion_confirmar ∷ []) false env sig
DialogoOperacion operacion_dump_memory env sig = Responde (operacion_confirmar ∷ []) false env sig
DialogoOperacion _ env sig = Responde [] false env sig

-- The request, the answer to it and whether the kernel goes on.
abbrev pub Dialogo : PedidoKernel → List OpCode → Bool → Type 0
Dialogo (p_crear_proceso d) env sig = Responde [] true env sig
Dialogo (p_crear_hilo d) env sig = Responde (operacion_confirmar ∷ []) true env sig
Dialogo (p_mutex op d) env sig = DialogoMutex op env sig
Dialogo (p_hilo op tid) env sig = env ≡ operacion_confirmar ∷ []
Dialogo (p_io d) env sig = Responde [] false env sig
Dialogo (p_operacion op) env sig = DialogoOperacion op env sig

abbrev pub Acuerdo : PedidoKernel → Atendida → Type 0
Acuerdo p a = Dialogo p a.enviado a.sigue

pub atender-Cumple :
    (respuesta : OpCode) (h : ℕ) (k : Kernel) {p : PedidoKernel} {o : Operacion}
    → Corresponde respuesta p o
    → Cumple (Acuerdo p) (atender_operacion h o k)
unfolding atender_operacion
atender-Cumple r h k (proceso d _ _ _ _) = (refl, refl)
atender-Cumple r h k (hilo d _ _ _) =
    Cumple->>=_any _ (syscall_crear_hilo _ _ k) _ (λ _ _. (refl, refl))
atender-Cumple r h k (crea_mutex d _ _) =
    Cumple->>=_any _ (syscall_crear_mutex _ k) _ (λ _ _. (refl, refl))
atender-Cumple r h k (bloquea_mutex d _ _) =
    Cumple->>=_any _ (syscall_bloquear_mutex _ k) _
      (λ r _. Cumple-if _ r.0 _ _ (inl (refl, refl)) (inr (refl, refl)))
atender-Cumple r h k (desbloquea_mutex d _ _) =
    Cumple->>=_any _ (syscall_desbloquear_mutex _ k) _ (λ _ _. (refl, refl))
atender-Cumple r h k (espera tid _) = Cumple->>=_any _ (syscall_esperar_hilo tid k) _ (λ r _. refl)
atender-Cumple r h k (entrada_salida d _) =
    Cumple->>=_any _ (syscall_io _ k) _ (λ _ _. (refl, refl))
atender-Cumple r h k termina_hilo =
    Cumple->>=_any _ (syscall_finalizar_hilo r k) _ (λ _ _. (refl, refl))
atender-Cumple r h k termina_proceso =
    Cumple->>=_any _ (syscall_finalizar_proceso r k) _ (λ _ _. (refl, refl))
atender-Cumple r h k dump = Cumple->>=_any _ (syscall_dump_memory k) _ (λ _ _. (refl, refl))
atender-Cumple r h k desalojo = (refl, refl)
