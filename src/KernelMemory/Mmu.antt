-- ===== src/KernelMemory/Mmu.antt =====
-- kernel_memory/src/utils.c: the reads and writes of the Kernel Scheduler's I/O, `lectura_memoria`
-- and `escritura_memoria`. `segment_max_size` is not 0, and the buffer of a write holds at least as
-- many bytes as its size field says.
pub mod Lecturas
use tp_so_limpio.Base.{
  ℕ, ◌+◌, ◌/◌, ◌%◌, Bool, true, false, Option, none, some, List, [], ◌∷◌, ltb, ◌||◌, ◌>>=◌,
  if◌then◌else◌, add32, sub32, minus_one, length, take, memcpy,
}
use tp_so_limpio.Commons.{Commons}
use tp_so_limpio.GlobalUtils.{Mensaje, op, entero, mensaje, crudo, ok}
use tp_so_limpio.MemoryStick.{escribir_memoria, atender_cliente}
use tp_so_limpio.KernelMemory.Config.{Config}
use tp_so_limpio.KernelMemory.Fisica.{
  Nodo, Fisica, buscar_ms_por_direccion_global, conectar, pedir_lectura,
}
use tp_so_limpio.KernelMemory.Estado.{Segmento, Contexto, Mapa, buscar_contexto, buscar_segmento}
use tp_so_limpio.KernelMemory.Respaldo.{leer_segmento_de_swap, escribir_segmento_en_swap}
use tp_so_limpio.KernelMemory.Suspension.{Sistema}

-- The segment that a logical address names in the process's table.
abbrev pub segmento_de : Mapa → ℕ → ℕ → Option ℕ
segmento_de m pid nro_segmento = buscar_contexto m.lista_contextos pid >>= λ ctx.
    buscar_segmento m.segmentos nro_segmento 0 ctx.tabla_segmentos >>= λ ip. some ip.1

-- The stick that serves the whole of a range, if one does.
abbrev pub stick_de : Fisica → ℕ → ℕ → Option Nodo
stick_de f dir_fisica n = buscar_ms_por_direccion_global f.lista_memory_sticks dir_fisica >>= λ ms.
    if ltb ms.tamanio (add32 (sub32 dir_fisica ms.base_global) n) then none else some ms

-- The bytes that are sent, or nothing where the code sends the empty message.
unfoldable pub leer_logica : Config → ℕ → ℕ → ℕ → Fisica → Mapa → Option (List ℕ)
leer_logica cfg pid dir_logica n f m =
    let desplazamiento = dir_logica % cfg.segment_max_size in
    segmento_de m pid (dir_logica / cfg.segment_max_size) >>= λ p.
    if (m.segmentos p).en_swap || ltb (m.segmentos p).limite (add32 desplazamiento n)
    then none
    else (let dir_fisica = add32 (m.segmentos p).direccion_base desplazamiento in
        stick_de f dir_fisica n >>= λ ms. pedir_lectura f ms dir_fisica n)

unfoldable pub lectura_memoria : Config → ℕ → ℕ → ℕ → Fisica → Mapa → List Mensaje
unfolding leer_logica
lectura_memoria cfg pid dir_logica n f m =
    op ok ∷ op ok ∷ op ok ∷ elim (leer_logica cfg pid dir_logica n f m) [
      | none ↦ mensaje "" ∷ []
      | some bytes ↦ crudo bytes ∷ []
    ]

-- The write to the stick, and whether it confirms.
abbrev escribir_fisica : Fisica → ℕ → List ℕ → Option Fisica
escribir_fisica f dir_fisica bytes = stick_de f dir_fisica (length bytes) >>= λ ms.
    f.red ms.socket_fd >>= λ s. atender_cliente s (escribir_memoria dir_fisica bytes) >>= λ r.
    some (record f { red = conectar f.red ms.socket_fd (some r.0) })

module _ (c : Commons) (cfg : Config) (bs : ℕ) where
  -- A suspended segment is read, changed and written back in SWAP; `none` is the answer -1.
  unfoldable pub escribir_logica : ℕ → ℕ → List ℕ → Sistema c → Option (Sistema c)
  escribir_logica pid dir_logica bytes st =
      let desplazamiento = dir_logica % cfg.segment_max_size in
      segmento_de st.mapa pid (dir_logica / cfg.segment_max_size) >>= λ p.
      let seg = st.mapa.segmentos p in
      if ltb seg.limite (add32 desplazamiento (length bytes))
      then none
      else if seg.en_swap
      then (leer_segmento_de_swap bs seg st.swap >>= λ buf. some (record st {
        swap = escribir_segmento_en_swap bs seg (memcpy buf desplazamiento bytes) st.swap;
      }))
      else (escribir_fisica st.fisica (add32 seg.direccion_base desplazamiento) bytes >>= λ f.
          some (record st { fisica = f }))

  unfoldable pub escritura_memoria : ℕ → ℕ → ℕ → List ℕ → Sistema c → Sistema c × List Mensaje
  unfolding escribir_logica
  escritura_memoria pid dir_logica n datos st =
      elim (escribir_logica pid dir_logica (take n datos) st) [
        | none ↦ (st, entero minus_one ∷ [])
        | some st' ↦ (st', entero 1 ∷ [])
      ]
