-- ===== src/GlobalUtils.antt =====
-- utils/src/global_utils: the operation codes and what travels on a socket.
pub mod Paquete
use Prim.Native.String.{String}
use tp_so_limpio.Base.{ℕ, List}

-- The `op_code`s that the modelled parts send or receive, under their names.
pub data OpCode : Type 0 where
  ok notok desalojo error_segmentation_fault mem_corrupt : OpCode
  cpus_desalojadas_ok compactacion compactacion_finalizada : OpCode
  respuesta_ok respuesta_error respuesta_datos : OpCode
  nueva_memory_stick suspendido nuevo_espacio ks_init_proc gl_exit gl_mem_alloc gl_mem_free : OpCode

-- What `enviar_op_code`, `enviar_int`, `enviar_mensaje`, `enviar_buffer` and a bare `send` put on
-- a socket.
pub data Mensaje : Type 0 where
  op : OpCode → Mensaje
  entero : ℕ → Mensaje
  mensaje : String → Mensaje
  buffer : List ℕ → Mensaje
  crudo : List ℕ → Mensaje
