-- ===== src/KernelMemory/Huecos.antt =====
-- kernel_memory/src/utils.c: the list of free holes, `lista_huecos_libres`.
-- A pointer to a hole is its place in the list, given together with the hole that stands there.
pub mod Cobertura
pub mod Seleccion
use mathlib.Core.List.{head?}
use Prim.Native.String.{String}
use text.Mathlib.Text.{◌==◌ as str_eq}
use tp_so_limpio.Base.{
  ℕ, ◌+◌, Bool, true, false, List, [], ◌∷◌, ◌++◌, Option, ltb, leb, ◌==◌, if◌then◌else◌, add32,
  sub32, set, remove_at,
}
use tp_so_limpio.Commons.{Commons}

pub record Hueco : Type 0 where
  pub direccion_base : ℕ
  pub tamanio : ℕ

abbrev pub es_mas_chico : ℕ × Hueco → ℕ × Hueco → Bool
es_mas_chico a b = ltb a.1.tamanio b.1.tamanio

abbrev pub es_mas_grande : ℕ × Hueco → ℕ × Hueco → Bool
es_mas_grande a b = ltb b.1.tamanio a.1.tamanio

abbrev pub ordenar_huecos_por_base : Hueco → Hueco → Bool
ordenar_huecos_por_base a b = ltb a.direccion_base b.direccion_base

-- The first loop of `seleccionar_hueco_segun_algoritmo`, from place `i` on.
unfoldable pub huecos_validos : ℕ → ℕ → List Hueco → List (ℕ × Hueco)
huecos_validos n i [] = []
huecos_validos n i (h ∷ hs) =
    let resto = huecos_validos n (i + 1) hs in if leb n h.tamanio then (i, h) ∷ resto else resto

-- `actual` swallows `siguiente` where they touch, and is then compared with the next one.
abbrev pub contiguos : Hueco → Hueco → Bool
contiguos a b = add32 a.direccion_base a.tamanio == b.direccion_base

abbrev pub unir : Hueco → Hueco → Hueco
unir a b = record a { tamanio = add32 a.tamanio b.tamanio }

unfoldable pub consolidar_desde : Hueco → List Hueco → List Hueco
consolidar_desde a [] = a ∷ []
consolidar_desde a (b ∷ r) = elim (contiguos a b) [
  | true ↦ consolidar_desde (unir a b) r
  | false ↦ a ∷ consolidar_desde b r
]

unfoldable pub consolidar : List Hueco → List Hueco
consolidar [] = []
consolidar (h ∷ hs) = consolidar_desde h hs

-- The trimming of the chosen hole, in `creacion_segmento` and `desuspender_proceso`.
unfoldable pub recortar : ℕ → ℕ → Hueco → List Hueco → List Hueco
recortar n i h hs =
    let t = sub32 h.tamanio n in
    if t == 0
    then remove_at hs i
    else set hs i (record { direccion_base = add32 h.direccion_base n; tamanio = t })

-- `acumulado` is an `int`, and wraps like the word that it is compared with.
unfoldable pub calcular_espacio_libre_desde : ℕ → List Hueco → ℕ
calcular_espacio_libre_desde acumulado [] = acumulado
calcular_espacio_libre_desde acumulado (h ∷ hs) =
    calcular_espacio_libre_desde (add32 acumulado h.tamanio) hs

unfoldable pub calcular_espacio_libre_total : List Hueco → ℕ
unfolding calcular_espacio_libre_desde
calcular_espacio_libre_total hs = calcular_espacio_libre_desde 0 hs

module _ (c : Commons) where
  unfoldable pub ordenar_validos : String → List (ℕ × Hueco) → List (ℕ × Hueco)
  ordenar_validos estrategia vs =
      if str_eq estrategia "BEST"
      then c.list_sort (ℕ × Hueco) es_mas_chico vs
      else if str_eq estrategia "WORST"
      then c.list_sort (ℕ × Hueco) es_mas_grande vs
      else vs

  unfoldable pub seleccionar_hueco_segun_algoritmo : String → ℕ → List Hueco → Option (ℕ × Hueco)
  unfolding huecos_validos ordenar_validos
  seleccionar_hueco_segun_algoritmo estrategia n hs =
      head? (ordenar_validos estrategia (huecos_validos n 0 hs))

  unfoldable pub liberar_espacio_en_huecos : ℕ → ℕ → List Hueco → List Hueco
  unfolding consolidar consolidar_desde
  liberar_espacio_en_huecos base n hs = consolidar (
      c.list_sort Hueco ordenar_huecos_por_base
        (hs ++ (record { direccion_base = base; tamanio = n } ∷ [])))
