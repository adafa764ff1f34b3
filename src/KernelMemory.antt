-- ===== src/KernelMemory.antt =====
-- The Kernel Memory module, kernel_memory/src.
pub mod Huecos
pub mod Fisica
pub mod Estado
pub mod Particion
pub mod Config
pub mod Respaldo
pub mod Compactacion
pub mod Segmentos
pub mod Suspension
pub mod Mmu
pub mod Procesos
pub mod Conexion
pub mod Contextos
