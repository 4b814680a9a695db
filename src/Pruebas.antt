-- ===== src/Pruebas.antt =====
-- Concrete runs of the theorems: the theorems applied to small states and messages.
mod EnMemoria
mod EnKernel
mod EnMensajes
mod EnFilesystem
mod EnCpu
mod Datos
mod EnCiclo
mod EnSistema
mod EnDialogo
mod EnDump
mod EnArchivo
mod EnCola
mod EnConjunto
mod EnArranque
mod EnAtencion
