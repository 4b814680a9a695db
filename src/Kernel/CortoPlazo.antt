-- ===== src/Kernel/CortoPlazo.antt =====
-- kernel/src/kernel-utils/planificador-corto-plazo.c: which READY thread runs next.
use sist_op_tp2c.Base.{
  ℕ, ◌-◌, Bool, false, Option, none, some, List, [], ◌∷◌, ◌>>=◌, ltb, ◌==◌, if◌then◌else◌,
}
use sist_op_tp2c.Kernel.Estados.{Kernel, Tcb, primero, transicion_ready_a_exec}

-- ALGORITMO_PLANIFICACION of kernel.config.
pub data AlgoritmoPlanificacion : Type 0 where
  fifo prioridades cmn otro : AlgoritmoPlanificacion

-- The threads of a list with their priorities, which the comparisons read.
unfoldable pub con_prioridad : (ℕ → Option Tcb) → List ℕ → Option (List (ℕ × ℕ))
con_prioridad tcbs [] = some []
con_prioridad tcbs (h ∷ hs) =
    let resto = con_prioridad tcbs hs in
    tcbs h >>= λ t. resto >>= λ xs. some ((h, t.prioridad) ∷ xs)

unfoldable pub comparar_mayor_prioridad : ℕ × ℕ → ℕ × ℕ → ℕ × ℕ
comparar_mayor_prioridad a b = if ltb a.1 b.1 then a else b

-- `list_filter` by `filtrar_por_mayor_prioridad`.
unfoldable pub filtrar_por_mayor_prioridad : ℕ → List (ℕ × ℕ) → List (ℕ × ℕ)
filtrar_por_mayor_prioridad mayor [] = []
filtrar_por_mayor_prioridad mayor (x ∷ xs) =
    let resto = filtrar_por_mayor_prioridad mayor xs in if x.1 == mayor then x ∷ resto else resto

-- `list_get_minimum` of the list library, by the comparison that it is given.
abbrev pub ListGetMinimum : Type 0
ListGetMinimum = (ℕ × ℕ → ℕ × ℕ → ℕ × ℕ) → List (ℕ × ℕ) → Option (ℕ × ℕ)

unfoldable pub obtener_siguiente_a_exec_fifo : Kernel → Option ℕ
unfolding primero
obtener_siguiente_a_exec_fifo k = primero k.estado_ready

-- The first of the threads whose priority is the one of the minimum.
unfoldable pub elegir_por_prioridad : ListGetMinimum → List (ℕ × ℕ) → Option ℕ
unfolding primero
elegir_por_prioridad list_get_minimum xs = list_get_minimum comparar_mayor_prioridad xs >>= λ m.
    primero (filtrar_por_mayor_prioridad m.1 xs) >>= λ x. some x.0

unfoldable pub obtener_siguiente_a_exec_prioridades : ListGetMinimum → Kernel → Option ℕ
obtener_siguiente_a_exec_prioridades list_get_minimum k =
    con_prioridad k.tcbs k.estado_ready >>= elegir_por_prioridad list_get_minimum

-- CMN chooses as PRIORIDADES does, and starts the timer of the quantum.
unfoldable pub obtener_siguiente_a_exec :
    ListGetMinimum → AlgoritmoPlanificacion → Kernel → Option ℕ
obtener_siguiente_a_exec list_get_minimum fifo k = obtener_siguiente_a_exec_fifo k
obtener_siguiente_a_exec list_get_minimum prioridades k =
    obtener_siguiente_a_exec_prioridades list_get_minimum k
obtener_siguiente_a_exec list_get_minimum cmn k =
    obtener_siguiente_a_exec_prioridades list_get_minimum k
obtener_siguiente_a_exec list_get_minimum otro k = none

-- A round of the short-term scheduler, up to the dispatch of the thread to the CPU.
unfoldable pub planificar : ListGetMinimum → AlgoritmoPlanificacion → Kernel → Option (ℕ × Kernel)
planificar list_get_minimum a k =
    if k.semaforo_estado_ready == 0
    then none
    else (obtener_siguiente_a_exec list_get_minimum a k >>= λ h. some (
      h,
      transicion_ready_a_exec h (record k { semaforo_estado_ready = k.semaforo_estado_ready - 1 }),
    ))

-- `solicitar_desalojo_hilo_a_cpu`, when the quantum of `h` ends: whether the CPU is interrupted.
unfoldable pub solicita_desalojo : ℕ → Kernel → Bool
solicita_desalojo h k = elim k.estado_exec [ none ↦ false | some e ↦ e == h ]
