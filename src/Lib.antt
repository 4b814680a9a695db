-- ===== src/Lib.antt =====
-- An operating system in four programs that talk over sockets: the kernel plans threads and serves the
-- system calls, the CPU executes their instructions, the memory keeps partitions, contexts and user
-- bytes, and the filesystem stores dumps. A message is an operation code and a buffer of bytes.
--
-- Utils/Buffer, Utils/Mensajes: utils/src/utils/buffer.c and mensajes.c. A block of memory is a list of
--   bytes, `malloc` is a record `Malloc` that gives blocks of the asked size with any contents, a
--   socket is the list of the bytes to be received, and a `uint32_t` is stored with its low byte first.
--   Utils/Mensajes/Atencion is the loop that attends a client, with its log and what it sends.
-- Utils/KernelCpu, CpuMemoria, KernelMemoria, MemoriaFilesystem: the serializar and deserializar
--   functions of utils/src/utils/comunicacion_*.c, with the structs of their headers as records.
-- Memoria/Particiones: memoria/src/particiones.c, with `uint32_t` arithmetic modulo 2 ^ 32. A partition
--   is its index in the list; a pointer that the code keeps is the index that it found.
-- Memoria/Estructuras: memoria/src/manejo-estructuras.c. The linked lists are lists, and the lines of
--   the file of pseudocode are an argument; Memoria/Archivo is how these lines are read, where `fopen` is
--   an argument. A file that cannot be opened is a fault of the module.
-- Memoria: the requests of memoria/src/main.c, on the state of the module. The answer of the filesystem
--   to a dump is an argument. Memoria/Validez is what the whole state keeps, and Memoria/Alcanzable the
--   states that requests in any order reach from the start.
-- Kernel/Estados: kernel/src/kernel-utils/estructuras.h, estados.c, procesos.c and dispositivo-io.c. A
--   TCB is an address of a heap, `none` when it is not allocated or is freed; the lists of states hold
--   addresses. A process is known by its id in `lista_procesos`.
-- Kernel/CortoPlazo, Kernel/Instrucciones: kernel/src/kernel-utils/planificador-corto-plazo.c.
--   `list_get_minimum` of the list library is a parameter, with its documented behaviour as the
--   hypothesis `MinimoPorClave`.
-- Kernel/LargoPlazo, Syscalls, Finalizar: planificador-largo-plazo.c and syscalls.c beside it. The
--   answers of the memory are arguments.
-- Kernel/Identidades, Cambios, Unicos: what each step of the kernel does to the ids of the processes.
--   Kernel/Cola: a mutex seen as a queue of threads, its owner first.
-- Memoria/Comunicaciones: memoria/src/comunicaciones.c, the requests and answers as bytes of a socket.
-- Kernel/Conexion, Kernel/Recepcion: what the kernel sends to the memory and to the CPU, and reads from
--   the CPU, as bytes.
-- Cpu: cpu/src/main.c, the registers by their names, the arithmetic, the jump, the translation of
--   addresses. Cpu/Maquina, Ejecucion and Ciclo: the instruction cycle. The memory is a service
--   (Cpu/Servicio) that answers requests and obeys one law, that a stored context is given back;
--   Memoria/Servicio fills it. The codes that the kernel answers are a list, and each cycle has the value
--   that `hay_interrupcion` has when it is looked at. Cpu/Conexion and Cpu/Envios: the same requests as
--   bytes. `string_split` and `atoi` are arguments.
-- Sistema: the modules together, what one sends against what another attends. Sistema/Conjunto runs the
--   kernel and the memory as one system: the start and the end of a process are rounds in which the
--   kernel acts on the memory's true answer; the requests about threads, the dumps and the ones of the CPU
--   come at any time.
-- Filesystem: filesystem/src/main.c. The bitmap is a list of bits, bloques.dat the list of its bytes, and
--   the files of metadata a list, the newest first; the writes of files are taken to succeed.
--   Filesystem/Montaje is about the filesystem that the program starts with.
--   Filesystem/Lectura is the reading that the layout is for, Filesystem/Atencion the requests as bytes.
-- Pruebas: the theorems at concrete states and messages.
--
-- An `Option` result is `none` where the C program follows a null or freed pointer, reads or writes out
-- of a buffer, divides by zero, goes on with a code or a buffer of which not all bytes arrived, aborts,
-- or waits for something that does not come. ULTIMO_PID goes round at 2 ^ 32, where C leaves the
-- overflow of an `int` undefined. Loops over lists are recursion on the
-- list, so no fuel is needed but in
-- `contar_lineas`, where the length of the file is enough, since each `fgets` takes a byte or more, and in
-- `atender_peticiones`, where one round more than the bytes to be received is enough. The steps of the kernel run whole between the waits of its threads, and
-- `Kernel/Alcanzable` puts them in any order; interleavings inside a step are not modelled, nor is the
-- use of a freed TCB for a log line only.
--
-- Not modelled: sockets, configuration files, logs, delays and the start of each program, which are
-- input and output, with the creation of the filesystem's directory.
pub mod Base
pub mod Utils
pub mod Memoria
pub mod Kernel
pub mod Cpu
pub mod Filesystem
pub mod Sistema
pub mod Pruebas
