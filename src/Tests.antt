-- ===== src/Tests.antt =====
-- Concrete inputs: an implementation of the so-commons interface, a small memory, and the theorems
-- at them.
mod Biblioteca
mod Ejemplo
mod Memoria
mod Modulos
mod Planificador
