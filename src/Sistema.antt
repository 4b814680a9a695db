-- ===== src/Sistema.antt =====
-- The modules together: what one sends over a socket is what another one attends.
pub mod KernelMemoria
pub mod Respuestas
pub mod CpuMemoria
pub mod Despacho
pub mod CpuKernel
pub mod Acuerdo
pub mod Dialogo
pub mod Ids
pub mod Ajenos
pub mod Conjunto
pub mod Pasos
pub mod Arranque
pub mod Dump
