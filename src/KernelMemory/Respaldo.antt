-- ===== src/KernelMemory/Respaldo.antt =====
-- kernel_memory/src/utils.c: the blocks of SWAP, as Kernel Memory hands them out and fills them.
-- Behind the socket stands the state of the SWAP module, or nothing once the connection is down.
pub mod Bloques
pub mod Viaje
use tp_so_limpio.Base.{
  ℕ, zero, suc, ◌+◌, ◌-◌, ◌*◌, ◌/◌, Bool, true, false, Option, none, some, List, [], ◌∷◌, ◌++◌, ltb,
  ◌==◌, if◌then◌else◌, ◌>>=◌, length, take, drop, replicate, memcpy,
}
use tp_so_limpio.Commons.{Commons}
use tp_so_limpio.GlobalUtils.{Mensaje, op, buffer, respuesta_datos}
use tp_so_limpio.Swap.{Swap, lectura_bloque, escritura_bloque, atender_kernel}
use tp_so_limpio.KernelMemory.Estado.{Segmento}

module _ (c : Commons) (bitmap : c.Bitarray) (n : ℕ) where
  -- The loop of `obtener_n_bloques_libres` with `quedan` rounds left; `none` is -1.
  unfoldable pub buscar_n_bloques : ℕ → ℕ → ℕ → ℕ → Option ℕ
  buscar_n_bloques zero i contador inicio = none
  buscar_n_bloques (suc quedan) i contador inicio = elim (c.bitarray_test_bit bitmap i) [
    | true ↦ buscar_n_bloques quedan (i + 1) 0 0
    | false ↦
        let inicio' = if contador == 0 then i else inicio in
        elim (contador + 1 == n) [
          | true ↦ some inicio'
          | false ↦ buscar_n_bloques quedan (i + 1) (contador + 1) inicio'
        ]
  ]

module _ (c : Commons) where
  -- `cantidad` bits from `i` on are set.
  unfoldable pub marcar_bloques : c.Bitarray → ℕ → ℕ → c.Bitarray
  marcar_bloques b i zero = b
  marcar_bloques b i (suc cantidad) = marcar_bloques (c.bitarray_set_bit b i) (i + 1) cantidad

  unfoldable pub obtener_n_bloques_libres : c.Bitarray → ℕ → ℕ → Option (ℕ × c.Bitarray)
  unfolding buscar_n_bloques marcar_bloques
  obtener_n_bloques_libres b total_bloques_swap n =
      buscar_n_bloques c b n total_bloques_swap 0 0 0 >>= λ inicio.
      some (inicio, marcar_bloques b inicio n)

  unfoldable pub liberar_bloques_swap : c.Bitarray → ℕ → ℕ → c.Bitarray
  liberar_bloques_swap b nro_bloque zero = b
  liberar_bloques_swap b nro_bloque (suc cantidad) =
      liberar_bloques_swap (c.bitarray_clean_bit b nro_bloque) (nro_bloque + 1) cantidad

-- `ceil((double) limite / block_size_swap)`, which is exact for `int` operands.
abbrev pub bloques_necesarios : ℕ → ℕ → ℕ
bloques_necesarios limite bs = (limite + bs - 1) / bs

-- Whatever the answer, the caller goes on; a lost connection is remembered.
unfoldable pub enviar_a_swap : Option Swap → ℕ → List ℕ → Option Swap
enviar_a_swap none nro_bloque datos = none
enviar_a_swap (some s) nro_bloque datos =
    some (atender_kernel s (escritura_bloque nro_bloque datos)).0

-- The zeroed block with the bytes of the buffer that round `i` copies into it.
abbrev pub bloque_data : ℕ → ℕ → ℕ → List ℕ → ℕ → List ℕ
bloque_data bs limite cantidad buf i =
    memcpy (replicate bs 0) 0
      (take (if i + 1 == cantidad then limite - i * bs else bs) (drop (i * bs) buf))

-- The loop of `mover_segmento_a_swap` and `escribir_segmento_en_swap`.
unfoldable pub escribir_bloques : ℕ → ℕ → ℕ → List ℕ → ℕ → ℕ → ℕ → Option Swap → Option Swap
escribir_bloques bs limite cantidad buf primero i zero s = s
escribir_bloques bs limite cantidad buf primero i (suc quedan) s =
    escribir_bloques bs limite cantidad buf primero (i + 1) quedan
      (enviar_a_swap s (primero + i) (bloque_data bs limite cantidad buf i))

unfoldable pub escribir_segmento_en_swap : ℕ → Segmento → List ℕ → Option Swap → Option Swap
unfolding escribir_bloques
escribir_segmento_en_swap bs seg buf s =
    escribir_bloques bs seg.limite seg.cantidad_bloques buf seg.bloque_swap 0 seg.cantidad_bloques s

-- The block in an answer to a read, if the answer brings one.
abbrev pub bloque_de : List Mensaje → Option (List ℕ)
bloque_de (op respuesta_datos ∷ buffer datos ∷ []) = some datos
bloque_de _ = none

abbrev pub pedir_bloque : Option Swap → ℕ → Option (List ℕ)
pedir_bloque s nro = s >>= λ t. bloque_de (atender_kernel t (lectura_bloque nro)).1

-- The loop of `leer_segmento_de_swap`, with the blocks left and the bytes still to copy; `none` is -1.
unfoldable pub leer_bloques : ℕ → Option Swap → ℕ → ℕ → ℕ → Option (List ℕ)
leer_bloques bs s nro zero restantes = some []
leer_bloques bs s nro (suc quedan) restantes = pedir_bloque s nro >>= λ bloque.
    leer_bloques bs s (nro + 1) quedan (restantes - (if ltb restantes bs then restantes else bs))
    >>= λ resto. some (take (if ltb restantes bs then restantes else bs) bloque ++ resto)

unfoldable pub leer_segmento_de_swap : ℕ → Segmento → Option Swap → Option (List ℕ)
unfolding leer_bloques
leer_segmento_de_swap bs seg s = leer_bloques bs s seg.bloque_swap seg.cantidad_bloques seg.limite
