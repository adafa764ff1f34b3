-- ===== src/KernelMemory/Estado.antt =====
-- kernel_memory/src/utils.h and the lists of utils.c: contexts, segments, processes.
-- Segments are reached by pointers, which the contexts' tables hold; the pointees stand in a store,
-- and `malloc` hands out the next pointer. `int` and `uint32_t` values are bit patterns.
pub mod Sumas
use Prim.Native.String.{String}
use tp_so_limpio.Base.{
  ℕ, ◌+◌, Bool, Option, none, some, List, [], ◌∷◌, ◌++◌, ◌==◌, if◌then◌else◌, suma, remove_at,
}
use tp_so_limpio.KernelMemory.Huecos.{Hueco}

-- `t_segmento_aux`.
pub record Segmento : Type 0 where
  pub id_segmento : ℕ
  pub id_ms : ℕ
  pub direccion_base : ℕ
  pub limite : ℕ
  pub en_swap : Bool
  pub bloque_swap : ℕ
  pub cantidad_bloques : ℕ

-- The registers of `t_contexto`.
pub record Registros : Type 0 where
  pub pc : ℕ
  pub ax : ℕ
  pub bx : ℕ
  pub cx : ℕ
  pub dx : ℕ
  pub eax : ℕ
  pub ebx : ℕ
  pub ecx : ℕ
  pub edx : ℕ
  pub si : ℕ
  pub di : ℕ

-- `t_contexto`.
pub record Contexto : Type 0 where
  pub pid : ℕ
  pub registros : Registros
  pub tabla_segmentos : List ℕ

-- `t_proceso`.
pub record Proceso : Type 0 where
  pub pid : ℕ
  pub instrucciones : List String

-- The state by which memory is handed out.
pub record Mapa : Type 0 where
  pub lista_huecos_libres : List Hueco
  pub lista_contextos : List Contexto
  pub segmentos : ℕ → Segmento
  pub proximo : ℕ
  pub memoria_total_sistema : ℕ

-- The store with one pointee replaced.
abbrev pub escribir_en : (ℕ → Segmento) → ℕ → Segmento → ℕ → Segmento
escribir_en h p s q = if p == q then s else h q

unfoldable pub crear_contexto : ℕ → Contexto
crear_contexto pid = record {
  pid = pid;
  registros = record {
    pc = 0;
    ax = 0;
    bx = 0;
    cx = 0;
    dx = 0;
    eax = 0;
    ebx = 0;
    ecx = 0;
    edx = 0;
    si = 0;
    di = 0;
  };
  tabla_segmentos = [];
}

unfoldable pub agregar_contexto : ℕ → Mapa → Mapa
unfolding crear_contexto
agregar_contexto pid m = record m {
  lista_contextos = m.lista_contextos ++ (crear_contexto pid ∷ []);
}

unfoldable pub buscar_contexto : List Contexto → ℕ → Option Contexto
buscar_contexto [] pid = none
buscar_contexto (c ∷ cs) pid = if c.pid == pid then some c else buscar_contexto cs pid

-- The places found by `buscar_indice_contexto` and `buscar_indice_proceso`, from place `i` on;
-- `none` is -1.
unfoldable pub buscar_indice_contexto : List Contexto → ℕ → ℕ → Option ℕ
buscar_indice_contexto [] pid i = none
buscar_indice_contexto (c ∷ cs) pid i =
    if c.pid == pid then some i else buscar_indice_contexto cs pid (i + 1)

unfoldable pub buscar_indice_proceso : List Proceso → ℕ → ℕ → Option ℕ
buscar_indice_proceso [] pid i = none
buscar_indice_proceso (p ∷ ps) pid i =
    if p.pid == pid then some i else buscar_indice_proceso ps pid (i + 1)

-- The assignment `ctx->tabla_segmentos = f(ctx->tabla_segmentos)`, where `ctx` is what
-- `buscar_contexto` finds; nothing where it finds none.
unfoldable pub con_tabla : (List ℕ → List ℕ) → List Contexto → ℕ → List Contexto
con_tabla f [] pid = []
con_tabla f (c ∷ cs) pid =
    if c.pid == pid
    then record c { tabla_segmentos = f c.tabla_segmentos } ∷ cs
    else c ∷ con_tabla f cs pid

-- The loop over a table for the segment of an id: its place in the table and its pointer.
unfoldable pub buscar_segmento : (ℕ → Segmento) → ℕ → ℕ → List ℕ → Option (ℕ × ℕ)
buscar_segmento h id i [] = none
buscar_segmento h id i (p ∷ ps) =
    if (h p).id_segmento == id then some (i, p) else buscar_segmento h id (i + 1) ps

-- A weight summed over every pointer of every table.
abbrev pub suma_tablas : (ℕ → ℕ) → List Contexto → ℕ
suma_tablas f = suma (λ (c : Contexto). suma f c.tabla_segmentos)
