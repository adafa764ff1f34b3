-- ===== src/KernelScheduler.antt =====
-- The Kernel Scheduler module, kernel_scheduler.
pub mod Estado
pub mod Desalojo
pub mod Listas
pub mod Afinidad
pub mod Busqueda
pub mod Plazos
pub mod Cpus
pub mod Prioridades
pub mod Servicios
pub mod Veces
pub mod Coherencia
pub mod Agregado
pub mod Eliminado
pub mod Transiciones
pub mod Espacio
pub mod Hallazgo
pub mod Vigencia
pub mod Desalojos
pub mod Niveles
pub mod Despacho
pub mod CpuLibre
pub mod Creacion
pub mod Nacimiento
pub mod Bloqueos
pub mod Pasos
pub mod Perdida
pub mod Mutex
pub mod Herencia
