-- ===== src/Lib.antt =====
-- A verification library for the operating-system simulator of this repository: processes run on
-- CPUs, a Kernel Scheduler plans them, Kernel Memory places their segments in the bytes that Memory
-- Sticks serve, and suspended processes wait in SWAP. The modules talk over sockets.
--
-- The parts, and where each is modelled:
--   Base                      lists, tests on numbers, 32-bit words, sums, copies between buffers
--   Commons                   what the program calls of so-commons, an external library: an interface
--                             with its documented laws, a parameter of all that uses it
--   GlobalUtils               utils/src/global_utils.{c,h}: operation codes and messages;
--                             GlobalUtils.Paquete: agregar_a_paquete and recibir_paquete
--   MemoryStick               memory_stick/src/server: the block of bytes and the requests to it
--   Swap                      swap/src/client: the file of blocks and atender_kernel
--   KernelMemory.Huecos       kernel_memory/src/utils.c: lista_huecos_libres and its operations
--   KernelMemory.Fisica       the same file: leer_bytes_globales and escribir_bytes_globales, which
--                             send a request to each stick that a range crosses
--   KernelMemory.Estado       contexts, segment tables and processes
--   KernelMemory.Particion    the invariant of the memory map
--   KernelMemory.Compactacion the compaction of the resident segments
--   KernelMemory.Segmentos    creacion_segmento and eliminar_segmento
--   KernelMemory.Respaldo     bitmap_swap, and segments to and from SWAP by blocks
--   KernelMemory.Suspension   suspender_proceso and desuspender_proceso
--   KernelMemory.Mmu          lectura_memoria and escritura_memoria
--   KernelMemory.Procesos     creation and end of processes, and their instructions
--   KernelMemory.Conexion     Memory Sticks that connect and are lost
--   KernelMemory.Contextos    enviar_contexto_cpu, recibir_contexto_cpu, manejar_guardar_contexto
--   KernelScheduler.Estado    kernel_scheduler/utilsKS: PCBs, lists, levels of queues, and the global
--                             variables (Ks); in the same folder of the model
--     Listas                  agregar_proceso_lista, eliminar_proceso_Lista and cambiar_estado_pcb
--     Busqueda, Desalojo,     kernel_scheduler/src/server/src/server.c: buscar_pcb_por_pid, the list of
--     Afinidad                those to preempt, and the CPU to which a process is to return
--     Prioridades, Mutex      priorities, their inheritance, and the mutexes of processes
--     Plazos                  mediano_plazo_bck, mediano_plazo_rdy and nuevo_espacio
--     Cpus, Servicios         cpu_libre and mandar_proceso_cpu; desalojo, exit_proceso,
--                             segmentation_fault and gestionar_desconexion_cpu
--     Bloqueos, Creacion      the syscalls that wait for devices; init_proc and the first process
--     Veces, Coherencia       how often a process stands in a place, and the invariant of the planner
--     Pasos                   the steps of the planner and the states that it can get to
--     Agregado, Eliminado, Transiciones, Espacio, Hallazgo, Vigencia, Desalojos, Niveles, Despacho,
--     CpuLibre, Nacimiento, Herencia, Perdida
--                             the lemmas and theorems on these
--   Cpu.Instrucciones         cpu/src/cliente.c: decode and the instructions on registers, with
--                             Cpu.Aritmetica for their laws
--   Cpu.Sticks                the same file: recibir_memory_stick
--   Cpu                       cpu/src/cliente.c: recibir_contexto, enviar_contexto_a_kernel_memory,
--                             the segment table and pedir_direccion_mmu
--   Tests                     an implementation of the Commons interface, and the theorems at examples
--
-- How code became definitions. Each function has a definition of its name; its global variables are
-- the fields of the state that it takes and returns (Mapa, Fisica, Sistema). Segments are reached by
-- pointers in the program, so they stand in a store that is a function from pointers, and a context's
-- table lists pointers. The process at the other end of a socket is a state too, so that a request
-- changes it and returns its answer; what is sent and not awaited is a list of messages. Reads of null
-- pointers and out of bounds are the absent value of Option. An int or uint32_t is its bit pattern, a
-- natural number below 2 ^ 32, with the wrap-around written out; a negative int has its top bit set.
--
-- A list of so-commons is a list: list_add puts at the end, list_remove takes a place, and
-- list_remove_element takes the first that is the same pointer and tells whether there was one.
--
-- Bounds and fuel. The loops over sticks take fuel, one more than the bytes to move, since each round
-- moves at least one byte if the address is served; recibir_paquete takes one more than the bytes of
-- the packet, since each field takes some; nuevo_espacio takes one more than the suspended processes that
-- are ready, since each round tries one that was not tried. All other loops are structural.
--
-- In the planner, a process is a pointer into a store of PCBs that it never leaves, and the PIDs count
-- up from 0. The value of a semaphore is a number: where a thread waits for it, the result is `none`.
-- What is sent to Kernel Memory is kept in order; whether it answers OK is a parameter. A thread that
-- sleeps is cut there, and its second half is a step that may come at any time.
--
-- Not modelled: sockets, threads, delays, logs and configuration files; the main functions;
-- kernel_memory/src/server.c; of the Kernel Scheduler the devices, MEM_ALLOC, MEM_FREE and the
-- exchange of a compaction; of the CPU the access to memory and the syscalls; the io module and the
-- mocks. Each handler is modelled as one step, without the interleavings of its threads.
pub mod Base
pub mod Commons
pub mod GlobalUtils
pub mod MemoryStick
pub mod Swap
pub mod KernelMemory
pub mod KernelScheduler
pub mod Cpu
pub mod Tests
