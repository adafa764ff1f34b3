-- ===== src/Cpu.antt =====
-- The CPU module, cpu/src/cliente.c.
pub mod Contexto
pub mod Viaje
pub mod Mmu
pub mod Instrucciones
pub mod Aritmetica
pub mod Sticks
