-- ===== src/KernelMemory/Fisica.antt =====
-- kernel_memory/src/utils.c: the global physical memory, spread over the connected Memory Sticks.
-- A socket leads to the stick's own state, or to nothing once its connection is down.
pub mod Plano
pub mod Lectura
pub mod Escritura
use Prim.Native.String.{String}
use tp_so_limpio.Base.{
  ℕ, zero, suc, ◌+◌, ◌-◌, Option, none, some, List, [], ◌∷◌, ◌++◌, ltb, leb, ◌==◌, ◌&&◌,
  if◌then◌else◌, ◌>>=◌, add32, sub32, length, take, drop,
}
use tp_so_limpio.MemoryStick.{
  MemoryStick, Respuesta, leer_memoria, escribir_memoria, datos, resp_ok, atender_cliente,
}

-- `t_memory_stick_nodo`.
pub record Nodo : Type 0 where
  pub socket_fd : ℕ
  pub base_global : ℕ
  pub tamanio : ℕ
  pub port : String
  pub ip : String

pub record Fisica : Type 0 where
  pub lista_memory_sticks : List Nodo
  pub red : ℕ → Option MemoryStick

unfoldable pub buscar_ms_por_direccion_global : List Nodo → ℕ → Option Nodo
buscar_ms_por_direccion_global [] dir = none
buscar_ms_por_direccion_global (ms ∷ sticks) dir =
    if leb ms.base_global dir && ltb dir (add32 ms.base_global ms.tamanio)
    then some ms
    else buscar_ms_por_direccion_global sticks dir

abbrev pub conectar : (ℕ → Option MemoryStick) → ℕ → Option MemoryStick → ℕ → Option MemoryStick
conectar red fd s k = if fd == k then s else red k

-- How many of the bytes left are served by the stick that has the current address.
abbrev pub a_mover : Nodo → ℕ → ℕ → ℕ
a_mover ms dir restantes =
    let espacio = sub32 ms.tamanio (sub32 dir ms.base_global) in
    if ltb restantes espacio then restantes else espacio

-- The request to a stick and what comes back; `none` where the connection is down or the stick faults.
abbrev pub pedir_lectura : Fisica → Nodo → ℕ → ℕ → Option (List ℕ)
pedir_lectura f ms dir n = f.red ms.socket_fd >>= λ s.
    atender_cliente s (leer_memoria dir n) >>= λ r. elim r.1 [
      | datos bytes ↦ some bytes
      | resp_ok ↦ none
    ]

-- The loop of `leer_bytes_globales`, with fuel.
unfoldable pub leer_desde : ℕ → Fisica → ℕ → ℕ → Option (List ℕ)
leer_desde zero f dir restantes = none
leer_desde (suc fuel) f dir restantes =
    if restantes == 0
    then some []
    else (buscar_ms_por_direccion_global f.lista_memory_sticks dir >>= λ ms.
        pedir_lectura f ms dir (a_mover ms dir restantes) >>= λ bytes.
        leer_desde fuel f (add32 dir (a_mover ms dir restantes))
          (restantes - a_mover ms dir restantes)
        >>= λ resto. some (bytes ++ resto))

unfoldable pub leer_bytes_globales : Fisica → ℕ → ℕ → Option (List ℕ)
unfolding leer_desde
leer_bytes_globales f dir n = leer_desde (suc n) f dir n

-- One chunk sent to a stick. A missing confirmation is only logged.
abbrev pub pedir_escritura : Fisica → Nodo → ℕ → List ℕ → Fisica
pedir_escritura f ms dir bs =
    elim (f.red ms.socket_fd >>= λ s. atender_cliente s (escribir_memoria dir bs)) [
      | none ↦ f
      | some r ↦ record f { red = conectar f.red ms.socket_fd (some r.0) }
    ]

-- The loop of `escribir_bytes_globales`; the bytes left are those of `datos`.
unfoldable pub escribir_desde : ℕ → Fisica → ℕ → List ℕ → Fisica
escribir_desde zero f dir bs = f
escribir_desde (suc fuel) f dir [] = f
escribir_desde (suc fuel) f dir (b ∷ bs) =
    elim (buscar_ms_por_direccion_global f.lista_memory_sticks dir) [
      | none ↦ f
      | some ms ↦
          let n = a_mover ms dir (length (b ∷ bs)) in
          escribir_desde fuel (pedir_escritura f ms dir (take n (b ∷ bs))) (add32 dir n)
            (drop n (b ∷ bs))
    ]

unfoldable pub escribir_bytes_globales : Fisica → ℕ → List ℕ → Fisica
unfolding escribir_desde
escribir_bytes_globales f dir bs = escribir_desde (suc (length bs)) f dir bs
