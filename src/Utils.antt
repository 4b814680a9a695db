-- ===== src/Utils.antt =====
-- utils/src/utils: buffers, packets and the messages between the modules.
pub mod Buffer
pub mod Mensajes
pub mod KernelCpu
pub mod CpuMemoria
pub mod KernelMemoria
pub mod MemoriaFilesystem
