-- ===== src/Pruebas/Datos.antt =====
-- A process of one thread with two instructions, and the CPU that runs it.
use sist_op_tp2c.Base.{
  ℕ, ◌-◌, true, false, List, [], ◌∷◌, ◌==◌, if◌then◌else◌, replicate, length-replicate,
}
use sist_op_tp2c.Utils.Buffer.{Malloc}
use sist_op_tp2c.Utils.CpuMemoria.{Contexto}
use sist_op_tp2c.Memoria.Particiones.{dinamicas, first}
use sist_op_tp2c.Memoria.Estructuras.{EstructuraHilo, EstructuraProceso}
use sist_op_tp2c.Memoria.{Memoria}
use sist_op_tp2c.Memoria.Servicio.{servicio_memoria}
use sist_op_tp2c.Cpu.Maquina.{Cpu}

abbrev pub ceros : Malloc
ceros = record { bloque = λ n. replicate n 0; length-bloque = λ n. length-replicate n 0 }

-- The words of a line, at its spaces.
abbrev pub con_letra : ℕ → List (List ℕ) → List (List ℕ)
con_letra c [] = (c ∷ []) ∷ []
con_letra c (palabra ∷ palabras) = (c ∷ palabra) ∷ palabras

abbrev pub separar : List ℕ → List (List ℕ)
separar [] = [] ∷ []
separar (c ∷ cs) = if c == 32 then [] ∷ separar cs else con_letra c (separar cs)

abbrev pub numero : List ℕ → ℕ
numero [] = 0
numero (c ∷ cs) = c - 48

-- "IO 5", and "WRITE_MEM AX BX".
abbrev pub linea_io : List ℕ
linea_io = 73 ∷ 79 ∷ 32 ∷ 53 ∷ []

abbrev pub linea_write : List ℕ
linea_write = 87 ∷ 82 ∷ 73 ∷ 84 ∷ 69 ∷ 95 ∷ 77 ∷ 69 ∷ 77 ∷ 32 ∷ 65 ∷ 88 ∷ 32 ∷ 66 ∷ 88 ∷ []

abbrev pub hilo : EstructuraHilo
hilo = record {
  tid = 0;
  pc = 0;
  ax = 40;
  bx = 7;
  cx = 0;
  dx = 0;
  ex = 0;
  fx = 0;
  gx = 0;
  hx = 0;
  archivo_pseudocodigo = [];
  instrucciones = linea_io ∷ linea_write ∷ [];
}

abbrev pub proceso : EstructuraProceso
proceso = record { pid = 3; tamanio = 16; base = 0; limite = 15; lista_hilos = hilo ∷ [] }

abbrev pub memoria_prueba : Memoria
memoria_prueba = record {
  config = record {
    esquema = dinamicas;
    algoritmo = first;
    tam_memoria = 64;
    particiones_fijas = [];
  };
  particiones =
      record { base = 0; limite = 15; tamanio = 16; pid = 3; esta_libre = false }
      ∷ record { base = 16; limite = 63; tamanio = 48; pid = 4294967295; esta_libre = true }
      ∷ [];
  procesos = proceso ∷ [];
  memoria = replicate 64 0;
}

-- The registers at the line `pc`.
abbrev pub en_linea : ℕ → Contexto
en_linea pc = record {
  pid = 3;
  tid = 0;
  pc = pc;
  ax = 40;
  bx = 7;
  cx = 0;
  dx = 0;
  ex = 0;
  fx = 0;
  gx = 0;
  hx = 0;
  base = 0;
  limite = 15;
}

abbrev pub cpu : ℕ → Cpu servicio_memoria
cpu pc = record {
  registros = en_linea pc;
  seg_fault = false;
  memoria = memoria_prueba;
  respuestas = [];
  enviados = [];
}

-- After the first cycle.
abbrev pub memoria_despues : Memoria
memoria_despues = record memoria_prueba {
  procesos = record proceso { lista_hilos = record hilo { pc = 1 } ∷ [] } ∷ [];
}
