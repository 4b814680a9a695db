-- ===== src/Memoria/Estructuras.antt =====
-- memoria/src/manejo-estructuras.c: the processes and threads that the memory keeps, and their
-- registers. A linked list is a list; `none` is a null pointer that the C code follows.
pub mod Registros
use sist_op_tp2c.Base.{
  ℕ, zero, suc, ◌+◌, ◌≡◌, Bool, true, false, Option, none, some, List, [], ◌∷◌, ◌++◌, ◌>>=◌, add32,
  leb, ◌==◌, if◌then◌else◌, length, get_elem?,
}
use sist_op_tp2c.Utils.CpuMemoria.{Contexto, SolicitarContexto, DatosObtenerInstruccion}
use sist_op_tp2c.Utils.KernelMemoria.{
  DatosInicializacionHilo, DatosInicializacionProceso, DatosFinalizacionHilo,
}
use sist_op_tp2c.Memoria.Particiones.{Particion}

-- `estructura_hilo`
pub record EstructuraHilo : Type 0 where
  pub tid : ℕ
  pub pc : ℕ
  pub ax : ℕ
  pub bx : ℕ
  pub cx : ℕ
  pub dx : ℕ
  pub ex : ℕ
  pub fx : ℕ
  pub gx : ℕ
  pub hx : ℕ
  pub archivo_pseudocodigo : List ℕ
  pub instrucciones : List (List ℕ)

-- `estructura_proceso`
pub record EstructuraProceso : Type 0 where
  pub pid : ℕ
  pub tamanio : ℕ
  pub base : ℕ
  pub limite : ℕ
  pub lista_hilos : List EstructuraHilo

unfoldable pub buscar_proceso_por_pid : ℕ → List EstructuraProceso → Option EstructuraProceso
buscar_proceso_por_pid pid [] = none
buscar_proceso_por_pid pid (p ∷ ps) =
    let resto = buscar_proceso_por_pid pid ps in if p.pid == pid then some p else resto

-- The loop of `buscar_hilo_por_tid`.
unfoldable pub buscar_hilo : ℕ → List EstructuraHilo → Option EstructuraHilo
buscar_hilo tid [] = none
buscar_hilo tid (h ∷ hs) = let resto = buscar_hilo tid hs in if h.tid == tid then some h else resto

unfoldable pub buscar_hilo_por_tid : ℕ → ℕ → List EstructuraProceso → Option (Option EstructuraHilo)
buscar_hilo_por_tid pid tid ps =
    buscar_proceso_por_pid pid ps >>= λ p. some (buscar_hilo tid p.lista_hilos)

-- The assignments through the pointer that the search for `pid` returns.
unfoldable pub cambiar_hilos :
    ℕ
    → (List EstructuraHilo → List EstructuraHilo)
    → List EstructuraProceso
    → List EstructuraProceso
cambiar_hilos pid f [] = []
cambiar_hilos pid f (p ∷ ps) =
    let resto = cambiar_hilos pid f ps in
    if p.pid == pid then record p { lista_hilos = f p.lista_hilos } ∷ ps else p ∷ resto

-- The same for the search of `tid`.
unfoldable pub cambiar_hilo :
    ℕ → (EstructuraHilo → EstructuraHilo) → List EstructuraHilo → List EstructuraHilo
cambiar_hilo tid f [] = []
cambiar_hilo tid f (h ∷ hs) =
    let resto = cambiar_hilo tid f hs in if h.tid == tid then f h ∷ hs else h ∷ resto

-- The unlinking of the first node whose `tid` matches.
unfoldable pub quitar_hilo : ℕ → List EstructuraHilo → List EstructuraHilo
quitar_hilo tid [] = []
quitar_hilo tid (h ∷ hs) = let resto = quitar_hilo tid hs in if h.tid == tid then hs else h ∷ resto

unfoldable pub quitar_proceso : ℕ → List EstructuraProceso → List EstructuraProceso
quitar_proceso pid [] = []
quitar_proceso pid (p ∷ ps) =
    let resto = quitar_proceso pid ps in if p.pid == pid then ps else p ∷ resto

-- The process that `iniciar_proceso` links at the end of the list.
unfoldable pub nuevo_proceso : DatosInicializacionProceso → Particion → EstructuraProceso
nuevo_proceso d particion = record {
  pid = d.pid;
  tamanio = d.tamanio;
  base = particion.base;
  limite = add32 particion.base particion.tamanio;
  lista_hilos = [];
}

unfoldable pub nuevo_hilo : List (List ℕ) → DatosInicializacionHilo → EstructuraHilo
nuevo_hilo instrucciones d = record {
  tid = d.tid;
  pc = 0;
  ax = 0;
  bx = 0;
  cx = 0;
  dx = 0;
  ex = 0;
  fx = 0;
  gx = 0;
  hx = 0;
  archivo_pseudocodigo = d.archivo_pseudocodigo;
  instrucciones = instrucciones;
}

-- `archivos` gives the instructions of a file of pseudocode. Of a file that cannot be opened the code
-- reads through a null `FILE*`: a fault.
unfoldable pub iniciar_hilo :
    (List ℕ → Option (List (List ℕ)))
    → DatosInicializacionHilo
    → List EstructuraProceso
    → Option (List EstructuraProceso)
iniciar_hilo archivos d ps = buscar_proceso_por_pid d.pid ps >>= λ _.
    archivos d.archivo_pseudocodigo >>= λ instrucciones.
    some (cambiar_hilos d.pid (λ hs. hs ++ nuevo_hilo instrucciones d ∷ []) ps)

unfoldable pub finalizar_hilo :
    DatosFinalizacionHilo → List EstructuraProceso → Option (List EstructuraProceso)
finalizar_hilo d ps = buscar_proceso_por_pid d.pid ps >>= λ p.
    buscar_hilo d.tid p.lista_hilos >>= λ _. some (cambiar_hilos d.pid (quitar_hilo d.tid) ps)

-- The loop of `finalizar_proceso` over the threads that the process had when the loop started.
unfoldable pub finalizar_hilos :
    ℕ → List EstructuraHilo → List EstructuraProceso → Option (List EstructuraProceso)
finalizar_hilos pid [] ps = some ps
finalizar_hilos pid (h ∷ hs) ps =
    finalizar_hilo (record { pid = pid; tid = h.tid }) ps >>= finalizar_hilos pid hs

unfoldable pub devolver_contexto_ejecucion :
    SolicitarContexto → List EstructuraProceso → Option Contexto
devolver_contexto_ejecucion d ps = buscar_proceso_por_pid d.pid ps >>= λ p.
    buscar_hilo d.tid p.lista_hilos >>= λ h. some (record {
      pid = p.pid;
      tid = h.tid;
      pc = h.pc;
      ax = h.ax;
      bx = h.bx;
      cx = h.cx;
      dx = h.dx;
      ex = h.ex;
      fx = h.fx;
      gx = h.gx;
      hx = h.hx;
      base = p.base;
      limite = p.limite;
    })

abbrev pub con_registros : Contexto → EstructuraHilo → EstructuraHilo
con_registros c h = record h {
  pc = c.pc;
  ax = c.ax;
  bx = c.bx;
  cx = c.cx;
  dx = c.dx;
  ex = c.ex;
  fx = c.fx;
  gx = c.gx;
  hx = c.hx;
}

unfoldable pub actualizar_contexto_ejecucion :
    Contexto → List EstructuraProceso → Option (List EstructuraProceso)
actualizar_contexto_ejecucion c ps = buscar_proceso_por_pid c.pid ps >>= λ p.
    buscar_hilo c.tid p.lista_hilos >>= λ _.
    some (cambiar_hilos c.pid (cambiar_hilo c.tid (con_registros c)) ps)

-- The text of the answer to a program counter past the last instruction.
abbrev pub pc_invalido : List ℕ
pc_invalido = b'P' ∷ b'C' ∷ 32 ∷ b'I' ∷ b'N' ∷ b'V' ∷ b'A' ∷ b'L' ∷ b'I' ∷ b'D' ∷ b'O' ∷ []

unfoldable pub devolver_instruccion :
    DatosObtenerInstruccion → List EstructuraProceso → Option (List ℕ)
devolver_instruccion d ps = buscar_proceso_por_pid d.pid ps >>= λ p.
    buscar_hilo d.tid p.lista_hilos >>= λ h.
    if leb (length h.instrucciones) d.pc then some pc_invalido else get_elem? h.instrucciones d.pc
