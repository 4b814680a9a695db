-- ===== src/Sistema/Conjunto.antt =====
-- The kernel and the memory together: the start and the end of a process wait for the memory's answer;
-- the memory attends every other request at any time.
use sist_op_tp2c.Base.{ℕ, ◌+◌, ◌≡◌, Bool, Option, some, List, [], ◌>>=◌}
use sist_op_tp2c.Utils.Buffer.{Malloc}
use sist_op_tp2c.Utils.KernelMemoria.{
  DatosInicializacionHilo, DatosFinalizacionHilo, DatosDumpMemory,
}
use sist_op_tp2c.Utils.Mensajes.{operacion_confirmar, operacion_notificar_error}
use sist_op_tp2c.Memoria.Particiones.{Config}
use sist_op_tp2c.Memoria.{
  Memoria, iniciar_memoria, Respuesta, confirmar, notificar_error, PeticionKernel, crear_hilo,
  finaliza_hilo, dump_memory, finaliza_proceso, PeticionCpu, RespuestaCpu, atender_peticion_kernel,
  atender_peticion_cpu,
}
use sist_op_tp2c.Memoria.Comunicaciones.{codigo_de_respuesta}
use sist_op_tp2c.Kernel.Estados.{Kernel, Pcb, Tcb, primero, buscar_proceso, inicializar_estados}
use sist_op_tp2c.Kernel.LargoPlazo.{planificador_largo_plazo}
use sist_op_tp2c.Kernel.Finalizar.{finalizar_proceso_por_pid}
use sist_op_tp2c.Kernel.Instrucciones.{op_finalizar_proceso}
use sist_op_tp2c.Kernel.Alcanzable.{Paso, operado, inicializado, con_dump}
use sist_op_tp2c.Sistema.KernelMemoria.{inicia_proceso, inicia_hilo, peticion_de}

-- The main thread of a process, as the memory is told of it.
abbrev hilo_principal : Pcb → Tcb
hilo_principal p = record {
  tid = 0;
  prioridad = p.prioridad;
  pid_padre = p.pid;
  nombre_archivo = p.nombre_archivo;
  hilos_bloqueados = [];
}

module _ (archivos : List ℕ → Option (List (List ℕ)))
    (escribe : DatosDumpMemory → List ℕ → Bool) where
  -- What follows the memory's answer to the start of a process.
  unfoldable pub iniciar_con_respuesta :
      Pcb → Kernel → Respuesta → Memoria → Option (Kernel × Memoria)
  iniciar_con_respuesta p k notificar_error m =
      planificador_largo_plazo operacion_notificar_error operacion_notificar_error k >>= λ k1.
      some (k1, m)
  iniciar_con_respuesta p k confirmar m = do
    r ← atender_peticion_kernel archivos escribe (peticion_de (inicia_hilo (hilo_principal p))) m
    k1 ← planificador_largo_plazo operacion_confirmar (codigo_de_respuesta r.0) k
    some (k1, r.1)

  -- A round of the long-term scheduler with the memory.
  unfoldable pub iniciar_siguiente : Kernel → Memoria → Option (Kernel × Memoria)
  iniciar_siguiente k m = do
    pid ← primero k.estado_new
    p ← buscar_proceso pid k.lista_procesos
    r ← atender_peticion_kernel archivos escribe (peticion_de (inicia_proceso p)) m
    iniciar_con_respuesta p k r.0 r.1

  -- The end of a process, of which the memory answers first.
  unfoldable pub terminar_proceso : ℕ → Kernel → Memoria → Option (Kernel × Memoria)
  terminar_proceso pid k m = do
    p ← buscar_proceso pid k.lista_procesos
    r ← atender_peticion_kernel archivos escribe (finaliza_proceso (record { pid = pid })) m
    k1 ← finalizar_proceso_por_pid (codigo_de_respuesta r.0) pid k
    some (k1, r.1)

  -- The requests about threads, and the dumps.
  pub data DeHilos : PeticionKernel → Type 0 where
    pide_hilo : (d : DatosInicializacionHilo) → DeHilos (crear_hilo d)
    fin_de_hilo : (d : DatosFinalizacionHilo) → DeHilos (finaliza_hilo d)
    pide_dump : (d : DatosDumpMemory) → DeHilos (dump_memory d)

  -- A step of the kernel that starts and ends no process.
  abbrev pub SinProcesos : {k k1 : Kernel} → Paso k k1 → Type 0
  SinProcesos (operado h (op_finalizar_proceso r) a e) = ⊥
  SinProcesos (inicializado r1 r2 e) = ⊥
  SinProcesos (con_dump r1 r2 h e) = r1 ≡ operacion_confirmar
  SinProcesos p = Unit {0}

  pub data PasoSistema : Kernel → Memoria → Kernel → Memoria → Type 0 where
    del_kernel :
        {k k1 : Kernel} {m : Memoria} (p : Paso k k1) → SinProcesos p → PasoSistema k m k1 m
    arranque :
        {k k1 : Kernel} {m m1 : Memoria}
        → iniciar_siguiente k m ≡ some (k1, m1)
        → PasoSistema k m k1 m1
    fin_de_proceso :
        (pid : ℕ) {k k1 : Kernel} {m m1 : Memoria}
        → terminar_proceso pid k m ≡ some (k1, m1)
        → PasoSistema k m k1 m1
    de_hilos :
        {p : PeticionKernel}
        → DeHilos p
        → (r : Respuesta) {k : Kernel} {m m1 : Memoria}
        → atender_peticion_kernel archivos escribe p m ≡ some (r, m1)
        → PasoSistema k m k m1
    de_la_cpu :
        (p : PeticionCpu) (r : RespuestaCpu) {k : Kernel} {m m1 : Memoria}
        → atender_peticion_cpu p m ≡ some (r, m1)
        → PasoSistema k m k m1

  pub data Conjunto (ml : Malloc) (c : Config) : Kernel → Memoria → Type 0 where
    encendido : Conjunto ml c inicializar_estados (iniciar_memoria ml c)
    sigue :
        {k k1 : Kernel} {m m1 : Memoria}
        → Conjunto ml c k m
        → PasoSistema k m k1 m1
        → Conjunto ml c k1 m1

  unfoldable pub rondas :
      {ml : Malloc} {c : Config} {k : Kernel} {m : Memoria} → Conjunto ml c k m → ℕ
  rondas encendido = 0
  rondas (sigue s p) = rondas s + 1
