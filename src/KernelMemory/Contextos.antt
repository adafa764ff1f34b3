-- ===== src/KernelMemory/Contextos.antt =====
-- kernel_memory/src/utils.c: contexts go to the CPU as packets and come back as messages.
-- A field or message that is missing or too short stands for undefined behaviour, `none`.
use tp_so_limpio.Base.{
  ℕ, zero, suc, ◌^◌, Option, none, some, List, [], ◌∷◌, leb, ◌==◌, if◌then◌else◌, ◌>>=◌, length,
  take, get_elem?,
}
use tp_so_limpio.GlobalUtils.{OpCode, Mensaje, entero, buffer, ok, notok}
use tp_so_limpio.GlobalUtils.Paquete.{bytes_de, valor_de, armar_paquete, recibir_paquete}
use tp_so_limpio.KernelMemory.Estado.{
  Segmento, Registros, Contexto, Mapa, buscar_contexto, buscar_indice_contexto,
}

-- The assignment of the registers to the context found for a process.
unfoldable pub con_registros : Registros → List Contexto → ℕ → List Contexto
con_registros r [] pid = []
con_registros r (c ∷ cs) pid =
    if c.pid == pid then record c { registros = r } ∷ cs else c ∷ con_registros r cs pid

unfoldable pub campos_segmentos : (ℕ → Segmento) → List ℕ → List (List ℕ)
campos_segmentos h [] = []
campos_segmentos h (p ∷ ps) =
    bytes_de 4 (h p).id_segmento
    ∷ bytes_de 4 (h p).direccion_base
    ∷ bytes_de 4 (h p).limite
    ∷ campos_segmentos h ps

abbrev pub campos_registros : Registros → List (List ℕ) → List (List ℕ)
campos_registros r resto =
    bytes_de 4 r.pc
    ∷ bytes_de 1 r.ax
    ∷ bytes_de 1 r.bx
    ∷ bytes_de 1 r.cx
    ∷ bytes_de 1 r.dx
    ∷ bytes_de 4 r.eax
    ∷ bytes_de 4 r.ebx
    ∷ bytes_de 4 r.ecx
    ∷ bytes_de 4 r.edx
    ∷ bytes_de 4 r.si
    ∷ bytes_de 4 r.di
    ∷ resto

abbrev pub campos_contexto : (ℕ → Segmento) → Contexto → List (List ℕ)
campos_contexto h c =
    bytes_de 4 c.pid
    ∷ campos_registros c.registros
        (bytes_de 4 (length c.tabla_segmentos) ∷ campos_segmentos h c.tabla_segmentos)

-- The packet's stream; nothing is sent where the process has no context.
unfoldable pub enviar_contexto_cpu : Mapa → ℕ → Option (List ℕ)
enviar_contexto_cpu m pid =
    buscar_contexto m.lista_contextos pid >>= λ c. armar_paquete [] (campos_contexto m.segmentos c)

-- `*(T*) list_get(paquete, i)`, for a type of `k` bytes.
unfoldable pub leer_campo : ℕ → List (List ℕ) → ℕ → Option ℕ
leer_campo k paquete i =
    get_elem? paquete i >>= λ b. if leb k (length b) then some (valor_de (take k b)) else none

-- The eleven registers, in fields 1 to 11.
unfoldable pub leer_registros : List (List ℕ) → Option Registros
leer_registros paquete = do
  pc ← leer_campo 4 paquete 1
  ax ← leer_campo 1 paquete 2
  bx ← leer_campo 1 paquete 3
  cx ← leer_campo 1 paquete 4
  dx ← leer_campo 1 paquete 5
  eax ← leer_campo 4 paquete 6
  ebx ← leer_campo 4 paquete 7
  ecx ← leer_campo 4 paquete 8
  edx ← leer_campo 4 paquete 9
  si ← leer_campo 4 paquete 10
  di ← leer_campo 4 paquete 11
  some (record {
    pc = pc;
    ax = ax;
    bx = bx;
    cx = cx;
    dx = dx;
    eax = eax;
    ebx = ebx;
    ecx = ecx;
    edx = edx;
    si = si;
    di = di;
  })

-- The packet is stored if the process has a context; `ctx` is found by its index.
unfoldable pub manejar_guardar_contexto : List ℕ → List Contexto → Option (List Contexto)
unfolding leer_registros con_registros
manejar_guardar_contexto stream cs = recibir_paquete stream >>= λ paquete.
    leer_campo 4 paquete 0 >>= λ pid. elim (buscar_indice_contexto cs pid 0) [
      | none ↦ some cs
      | some i ↦ leer_registros paquete >>= λ r. some (con_registros r cs pid)
    ]

-- `recibir_int` and `recibir_buffer` for a `uint8_t`: the value and the messages that follow.
abbrev pub leer_entero : List Mensaje → Option (ℕ × List Mensaje)
leer_entero (entero v ∷ ms) = some (v, ms)
leer_entero _ = none

abbrev pub leer_byte : List Mensaje → Option (ℕ × List Mensaje)
leer_byte (buffer (b ∷ bs) ∷ ms) = some (b, ms)
leer_byte _ = none

-- The loop that drops the table, of three numbers per segment.
unfoldable pub drenar : ℕ → List Mensaje → Option (List Mensaje)
drenar zero ms = some ms
drenar (suc n) ms = do
  (a, ms1) ← leer_entero ms
  (b, ms2) ← leer_entero ms1
  (c, ms3) ← leer_entero ms2
  drenar n ms3

unfoldable pub leer_mensajes_registros : List Mensaje → Option (Registros × List Mensaje)
leer_mensajes_registros m0 = do
  (pc, m1) ← leer_entero m0
  (ax, m2) ← leer_byte m1
  (bx, m3) ← leer_byte m2
  (cx, m4) ← leer_byte m3
  (dx, m5) ← leer_byte m4
  (eax, m6) ← leer_entero m5
  (ebx, m7) ← leer_entero m6
  (ecx, m8) ← leer_entero m7
  (edx, m9) ← leer_entero m8
  (si, m10) ← leer_entero m9
  (di, m11) ← leer_entero m10
  some (
    record {
      pc = pc;
      ax = ax;
      bx = bx;
      cx = cx;
      dx = dx;
      eax = eax;
      ebx = ebx;
      ecx = ecx;
      edx = edx;
      si = si;
      di = di;
    },
    m11,
  )

-- The contexts, the answer, and the messages left on the socket. A negative count drops nothing.
unfoldable pub recibir_contexto_cpu :
    List Mensaje → List Contexto → Option (List Contexto × OpCode × List Mensaje)
recibir_contexto_cpu ms cs = do
  (pid, m0) ← leer_entero ms
  (r, m1) ← leer_mensajes_registros m0
  (cantidad, m2) ← leer_entero m1
  m3 ← drenar (if leb (2 ^ 31) cantidad then 0 else cantidad) m2
  some (elim (buscar_contexto cs pid) [
    | none ↦ (cs, notok, m3)
    | some c ↦ (con_registros r cs pid, ok, m3)
  ])
