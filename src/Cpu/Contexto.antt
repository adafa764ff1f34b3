-- ===== src/Cpu/Contexto.antt =====
-- cpu/src/cliente.c: `recibir_contexto` and `enviar_contexto_a_kernel_memory`.
use tp_so_limpio.Base.{
  ℕ, zero, suc, ◌+◌, ◌*◌, ◌%◌, ◌^◌, Option, none, some, List, [], ◌∷◌, leb, ltb, ◌==◌, ◌||◌, not,
  if◌then◌else◌, ◌>>=◌, length,
}
use tp_so_limpio.GlobalUtils.{Mensaje, entero, buffer}
use tp_so_limpio.GlobalUtils.Paquete.{bytes_de, recibir_paquete}
use tp_so_limpio.KernelMemory.Estado.{Registros}
use tp_so_limpio.KernelMemory.Contextos.{leer_campo, leer_registros}

-- `t_segmento`, and the CPU's `t_contexto`, whose registers are those of Kernel Memory's.
pub record SegmentoCpu : Type 0 where
  pub id_segmento : ℕ
  pub base : ℕ
  pub tamanio : ℕ

pub record ContextoCpu : Type 0 where
  pub pid : ℕ
  pub registros : Registros
  pub tabla_segmentos : List SegmentoCpu

-- The loop over the table, from field `pos` on.
unfoldable pub leer_tabla : List (List ℕ) → ℕ → ℕ → Option (List SegmentoCpu)
leer_tabla paquete zero pos = some []
leer_tabla paquete (suc n) pos = do
  id ← leer_campo 4 paquete pos
  b ← leer_campo 4 paquete (pos + 1)
  t ← leer_campo 4 paquete (pos + 2)
  resto ← leer_tabla paquete n (pos + 3)
  some (record { id_segmento = id; base = b; tamanio = t } ∷ resto)

-- `none` is the null pointer, for a packet that is not a context. The registers are read by the
-- same statements as in `manejar_guardar_contexto` of Kernel Memory. `campos_esperados` is an int.
unfoldable pub recibir_contexto : List ℕ → Option ContextoCpu
recibir_contexto stream = recibir_paquete stream >>= λ paquete.
    if ltb (length paquete) 13
    then none
    else (leer_campo 4 paquete 0 >>= λ pid. leer_registros paquete >>= λ r.
        leer_campo 4 paquete 12 >>= λ cantidad.
        if leb (2 ^ 31) cantidad || not (length paquete == (13 + cantidad * 3) % 2 ^ 32)
        then none
        else (leer_tabla paquete cantidad 13 >>= λ tabla.
            some (record { pid = pid; registros = r; tabla_segmentos = tabla })))

unfoldable pub enviar_tabla : List SegmentoCpu → List Mensaje
enviar_tabla [] = []
enviar_tabla (s ∷ ss) = entero s.id_segmento ∷ entero s.base ∷ entero s.tamanio ∷ enviar_tabla ss

-- What goes out behind the operation code.
unfoldable pub enviar_contexto_a_kernel_memory : ContextoCpu → List Mensaje
enviar_contexto_a_kernel_memory c =
    let r = c.registros in
    entero c.pid
    ∷ entero r.pc
    ∷ buffer (bytes_de 1 r.ax)
    ∷ buffer (bytes_de 1 r.bx)
    ∷ buffer (bytes_de 1 r.cx)
    ∷ buffer (bytes_de 1 r.dx)
    ∷ entero r.eax
    ∷ entero r.ebx
    ∷ entero r.ecx
    ∷ entero r.edx
    ∷ entero r.si
    ∷ entero r.di
    ∷ entero (length c.tabla_segmentos)
    ∷ enviar_tabla c.tabla_segmentos
