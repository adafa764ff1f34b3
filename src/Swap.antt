-- ===== src/Swap.antt =====
-- The SWAP module, swap/src/client: one file of blocks, served to Kernel Memory.
-- The file is the list of its bytes, or nothing where `open` fails.
pub mod Servidor
use tp_so_limpio.Base.{
  ℕ, ◌*◌, ◌/◌, ◌%◌, ◌^◌, Bool, Option, none, some, List, [], ◌∷◌, leb, ltb, ◌==◌, ◌||◌, ◌&&◌,
  if◌then◌else◌, length, take, drop, replicate, memcpy,
}
use tp_so_limpio.GlobalUtils.{Mensaje, op, buffer, respuesta_ok, respuesta_error, respuesta_datos}

pub record Swap : Type 0 where
  pub archivo : Option (List ℕ)
  pub tamanio_total_swap : ℕ
  pub tamanio_bloque_swap : ℕ

-- The checks of `main` before the file is made: both sizes positive, the first a multiple of the
-- second. A negative `int` has its top bit set.
unfoldable pub config_valida : ℕ → ℕ → Bool
config_valida tamano_swap tamano_bloque =
    ltb 0 tamano_swap
    && ltb tamano_swap (2 ^ 31)
    && (ltb 0 tamano_bloque && ltb tamano_bloque (2 ^ 31))
    && (tamano_swap % tamano_bloque == 0)

-- `ftruncate` fills a new file with zeros.
unfoldable pub inicializar_swap : ℕ → ℕ → Swap
inicializar_swap tamanio_swap tamanio_bloque = record {
  archivo = some (replicate tamanio_swap 0);
  tamanio_total_swap = tamanio_swap;
  tamanio_bloque_swap = tamanio_bloque;
}

-- The test that rejects a block number, an `int`.
abbrev pub bloque_invalido : Swap → ℕ → Bool
bloque_invalido s b = leb (2 ^ 31) b || leb (s.tamanio_total_swap / s.tamanio_bloque_swap) b

-- `pread` returns fewer bytes than asked for at the end of the file.
unfoldable pub manejar_lectura_bloque : Swap → ℕ → List Mensaje
manejar_lectura_bloque s b =
    if bloque_invalido s b then op respuesta_error ∷ [] else elim s.archivo [
      | none ↦ op respuesta_error ∷ []
      | some bytes ↦
          let datos = take s.tamanio_bloque_swap (drop (b * s.tamanio_bloque_swap) bytes) in
          if length datos == s.tamanio_bloque_swap
          then op respuesta_datos ∷ buffer datos ∷ []
          else op respuesta_error ∷ []
    ]

-- `pwrite` of one block; the buffer received holds at least a block, and the file was sized by
-- `inicializar_swap`, so that the write stays inside it.
unfoldable pub manejar_escritura_bloque : Swap → ℕ → List ℕ → Swap × List Mensaje
manejar_escritura_bloque s b datos =
    if bloque_invalido s b then (s, op respuesta_error ∷ []) else elim s.archivo [
      | none ↦ (s, op respuesta_error ∷ [])
      | some bytes ↦ (
        record s {
          archivo =
              some (memcpy bytes (b * s.tamanio_bloque_swap) (take s.tamanio_bloque_swap datos));
        },
        op respuesta_ok ∷ [],
      )
    ]

pub data Pedido : Type 0 where
  lectura_bloque : ℕ → Pedido
  escritura_bloque : ℕ → List ℕ → Pedido
  desconocido : Pedido

-- One round of the loop of `atender_kernel`.
unfoldable pub atender_kernel : Swap → Pedido → Swap × List Mensaje
atender_kernel s (lectura_bloque b) = (s, manejar_lectura_bloque s b)
atender_kernel s (escritura_bloque b datos) = manejar_escritura_bloque s b datos
atender_kernel s desconocido = (s, op respuesta_error ∷ [])
