-- ===== src/KernelScheduler/Estado.antt =====
-- kernel_scheduler/utilsKS/utilsKS.h and the PCB of utils/src/global_utils.h: the planner's data.
-- PCBs are reached by pointers, which the lists hold; the PCBs stand in a store, and `malloc` hands out
-- the next pointer. A mutex is known by its place in `lista_mutex`, which only grows. An `int` is its
-- bit pattern.
use Prim.Native.String.{String}
use tp_so_limpio.Base.{ℕ, Bool, Option, List, [], ◌==◌, if◌then◌else◌}
use tp_so_limpio.GlobalUtils.{Mensaje}

-- `estado`.
pub data Estado : Type 0 where
  new rdy rnn bck s_bck s_rdy ext no_estado : Estado

-- `PCB`, with the fields of `t_infoProceso` in place of `data`.
pub record Pcb : Type 0 where
  pub mutex_tomados : List ℕ
  pub pid : ℕ
  pub prioridad : ℕ
  pub prioridad_original : ℕ
  pub estado_pcb : Estado
  pub estado_anterior : Estado
  pub fd_cpu : ℕ
  pub esperando_io : Bool
  pub quantum_version : ℕ
  pub block_version : ℕ

-- `t_listas_procesos`.
pub record Listas : Type 0 where
  pub new : List ℕ
  pub rnn : List ℕ
  pub rdy : List ℕ
  pub bck : List ℕ
  pub s_bck : List ℕ
  pub s_rdy : List ℕ
  pub ext : List ℕ

-- `Algoritmo` and `ColaPrioridad`.
pub data Algoritmo : Type 0 where
  nivel_fifo nivel_rr : Algoritmo

pub record Nivel : Type 0 where
  pub tipo : Algoritmo
  pub cola : List ℕ
  pub quantum : ℕ

-- What `strcmp` tells of `planificacion_algoritmo`. `planificador` is NULL unless it is CMN.
pub data Politica : Type 0 where
  fifo rr cmn otra : Politica

pub record InfoConfig : Type 0 where
  pub politica : Politica
  pub preemption : Bool

-- `t_CPU`; no process, -1, is `none`.
pub record CpuKs : Type 0 where
  pub fd : ℕ
  pub identificador : String
  pub en_uso : Bool
  pub pid_ejecutando : Option ℕ

-- `t_retorno_cpu`.
pub record Retorno : Type 0 where
  pub pid : ℕ
  pub fd_cpu : ℕ

-- `mutex_cpu`; its queue holds PIDs.
pub record MutexCpu : Type 0 where
  pub mutex_id : String
  pub valor : ℕ
  pub dueno_actual : Option ℕ
  pub cola_mutex : List ℕ

-- `t_mem_stick`; its texts as their characters.
pub record MemStick : Type 0 where
  pub ip : List ℕ
  pub puerto : List ℕ
  pub base : ℕ
  pub tamanio : ℕ

-- `espera_io`, with what each kind of device is asked for.
pub data TrabajoIo : Type 0 where
  sleep : ℕ → TrabajoIo
  stdin : ℕ → ℕ → TrabajoIo
  stdout : ℕ → List ℕ → TrabajoIo

pub record EsperaIo : Type 0 where
  pub pid : ℕ
  pub trabajo : TrabajoIo

-- `t_list_ios`, with the semaphores that count its works.
pub record ListasIo : Type 0 where
  pub io_sleep : List EsperaIo
  pub io_stdin : List EsperaIo
  pub io_stdout : List EsperaIo
  pub sem_io_sleep_vacio : ℕ
  pub sem_io_stdin_vacio : ℕ
  pub sem_io_stdout_vacio : ℕ

-- The global variables of the planner. `a_km` is what has been sent to Kernel Memory, oldest first,
-- and `hilos_quantum` the PCB and version of each timer that was started.
pub record Ks : Type 0 where
  pub pcbs : ℕ → Pcb
  pub proximo : ℕ
  pub contador_pid : ℕ
  pub listas : Listas
  pub niveles : List Nivel
  pub sem_hay_ready : ℕ
  pub sem_hay_s_ready : ℕ
  pub cpus : List CpuKs
  pub desalojo : List ℕ
  pub retorno_cpu : List Retorno
  pub lista_mutex : List MutexCpu
  pub ms : List MemStick
  pub list_ms_pendientes : List MemStick
  pub lista_bck_io : ListasIo
  pub compactacion_value : Bool
  pub mem_corrupt_value : Bool
  pub a_km : List Mensaje
  pub hilos_quantum : List (ℕ × ℕ)

-- An assignment through a pointer to a PCB.
abbrev pub escribir_pcb : ℕ → Pcb → Ks → Ks
escribir_pcb p x st = record st { pcbs = λ (q : ℕ). if p == q then x else st.pcbs q }

-- The list that keeps the processes of a state.
abbrev pub lista_de : Estado → Listas → List ℕ
lista_de new l = l.new
lista_de rdy l = l.rdy
lista_de rnn l = l.rnn
lista_de bck l = l.bck
lista_de s_bck l = l.s_bck
lista_de s_rdy l = l.s_rdy
lista_de ext l = l.ext
lista_de no_estado l = []

abbrev pub con_lista : Estado → List ℕ → Listas → Listas
con_lista new xs l = record l { new = xs }
con_lista rdy xs l = record l { rdy = xs }
con_lista rnn xs l = record l { rnn = xs }
con_lista bck xs l = record l { bck = xs }
con_lista s_bck xs l = record l { s_bck = xs }
con_lista s_rdy xs l = record l { s_rdy = xs }
con_lista ext xs l = record l { ext = xs }
con_lista no_estado xs l = l

-- The list of a state replaced in the whole state.
abbrev pub en_lista : Estado → List ℕ → Ks → Ks
en_lista e xs st = record st { listas = con_lista e xs st.listas }
