-- ===== src/Kernel.antt =====
-- kernel/src: the scheduler and the system calls.
pub mod Estados
pub mod CortoPlazo
pub mod LargoPlazo
pub mod Syscalls
pub mod Finalizar
pub mod Instrucciones
pub mod Semaforos
pub mod Operaciones
pub mod Eleccion
pub mod Despacho
pub mod Mutexes
pub mod Coherencia
pub mod Cola
pub mod Identidades
pub mod Alcanzable
pub mod Cambios
pub mod Unicos
pub mod Conexion
pub mod Recepcion
