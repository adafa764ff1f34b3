-- ===== src/MemoryStick.antt =====
-- The Memory Stick module, memory_stick/src: a block of bytes behind a socket. The same requests are
-- served to Kernel Memory (client/client.c) and to the CPUs (server/server.c).
-- `none` stands for a `memcpy` outside the block, which C leaves undefined.
use tp_so_limpio.Base.{
  ℕ, ◌+◌, Option, none, some, List, [], ◌∷◌, ◌++◌, leb, if◌then◌else◌, ◌>>=◌, sub32, length, take,
  drop, replicate, memcpy,
}

-- `t_memory_stick_global`.
pub record MemoryStick : Type 0 where
  pub base : ℕ
  pub tamanio : ℕ
  pub memoria : List ℕ
  pub cpus_conectadas : List ℕ

-- The base is set later, by the answer of Kernel Memory.
unfoldable pub init_memory_stick : ℕ → MemoryStick
init_memory_stick n = record {
  base = 0;
  tamanio = n;
  memoria = replicate n 0;
  cpus_conectadas = [];
}

unfoldable pub leer_de_bloque_memoria : MemoryStick → ℕ → ℕ → Option (List ℕ)
leer_de_bloque_memoria ms dir n =
    if leb (dir + n) (length ms.memoria) then some (take n (drop dir ms.memoria)) else none

unfoldable pub escribir_en_bloque_memoria : MemoryStick → ℕ → List ℕ → Option MemoryStick
escribir_en_bloque_memoria ms dir datos =
    if leb (dir + length datos) (length ms.memoria)
    then some (record ms { memoria = memcpy ms.memoria dir datos })
    else none

-- A request, with what the code reads from the socket after the operation code.
pub data Pedido : Type 0 where
  nueva_cpu : ℕ → Pedido
  leer_memoria : ℕ → ℕ → Pedido
  escribir_memoria : ℕ → List ℕ → Pedido

pub data Respuesta : Type 0 where
  resp_ok : Respuesta
  datos : List ℕ → Respuesta

-- One round of the loop of `atender_cliente` and of `atender_kernel_memory`.
unfoldable pub atender_cliente : MemoryStick → Pedido → Option (MemoryStick × Respuesta)
unfolding leer_de_bloque_memoria escribir_en_bloque_memoria
atender_cliente ms (nueva_cpu socket) =
    some (record ms { cpus_conectadas = ms.cpus_conectadas ++ (socket ∷ []) }, resp_ok)
atender_cliente ms (leer_memoria dir_fisica n) = do
  bytes ← leer_de_bloque_memoria ms (sub32 dir_fisica ms.base) n
  some (ms, datos bytes)
atender_cliente ms (escribir_memoria dir_fisica bs) = do
  ms' ← escribir_en_bloque_memoria ms (sub32 dir_fisica ms.base) bs
  some (ms', resp_ok)
