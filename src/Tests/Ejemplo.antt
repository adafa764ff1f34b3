-- ===== src/Tests/Ejemplo.antt =====
-- A memory of ten bytes on one stick: three free, a segment of four, three free.
use tp_so_limpio.Base.{
  ℕ, ◌-◌, ◌&&◌, leb, ltb, add32, get_elem?-some, subst, length, ◌<◌, ◌≡◌, refl, true, false, some,
  List, [], ◌∷◌, arith, ◌==◌, if◌then◌else◌,
}
use tp_so_limpio.MemoryStick.{MemoryStick}
use tp_so_limpio.KernelMemory.Config.{Config}
use tp_so_limpio.KernelMemory.Fisica.{Nodo, Fisica, buscar_ms_por_direccion_global}
use tp_so_limpio.KernelMemory.Fisica.Plano.{Coherente, byte}
use tp_so_limpio.KernelMemory.Estado.{Segmento, Contexto, Mapa, crear_contexto}
use tp_so_limpio.KernelMemory.Particion.{Particion}

abbrev pub contenido_inicial : List ℕ
contenido_inicial = 10 ∷ 11 ∷ 12 ∷ 13 ∷ 14 ∷ 15 ∷ 16 ∷ 17 ∷ 18 ∷ 19 ∷ []

abbrev pub stick : MemoryStick
stick = record { base = 0; tamanio = 10; memoria = contenido_inicial; cpus_conectadas = [] }

abbrev pub nodo : Nodo
nodo = record { socket_fd = 5; base_global = 0; tamanio = 10; port = "8003"; ip = "127.0.0.1" }

abbrev pub fisica : Fisica
fisica = record { lista_memory_sticks = nodo ∷ []; red = λ fd. some stick }

abbrev pub segmento : Segmento
segmento = record {
  id_segmento = 0;
  id_ms = 0;
  direccion_base = 3;
  limite = 4;
  en_swap = false;
  bloque_swap = 0;
  cantidad_bloques = 2;
}

abbrev pub contexto : Contexto
contexto = record { pid = 1; registros = (crear_contexto 1).registros; tabla_segmentos = 0 ∷ [] }

abbrev pub mapa : Mapa
mapa = record {
  lista_huecos_libres =
      record { direccion_base = 0; tamanio = 3 } ∷ record { direccion_base = 7; tamanio = 3 } ∷ [];
  lista_contextos = contexto ∷ [];
  segmentos = λ p. segmento;
  proximo = 1;
  memoria_total_sistema = 10;
}

abbrev pub config : Config
config = record {
  segment_max_size = 8;
  allocation_strategy = "BEST";
  scripts_basepath = "/scripts/";
}

pub mapa-Particion : Particion mapa
mapa-Particion = record {
  limite = omega arith;
  una_vez = λ x. ground arith;
  todo = refl;
  huecos_en_rango = (omega arith, (omega arith, tt));
  segmentos_en_rango = λ p uno ram. omega arith;
  sin_compartir = λ p. ground arith;
  nuevos = λ p h. ground arith;
}

pub fisica-Coherente : Coherente 10 fisica
fisica-Coherente = record {
  limite = omega arith;
  nodos = ((omega arith, (refl, refl)), tt);
  disjuntos = (tt, tt);
}

pub fisica-legible : (x : ℕ) → x < 10 → (b : ℕ) × (byte fisica x ≡ some b)
unfolding byte buscar_ms_por_direccion_global
fisica-legible x h =
    let (b, e) = get_elem?-some contenido_inicial x (omega arith) in
    let dentro_de : (leb 0 x && ltb x (add32 0 10)) ≡ true = ground arith in
    let lugar : x - 0 ≡ x = omega arith in (b, rw (dentro_de, lugar) e)

-- A second stick, of four bytes, that is about to connect.
abbrev pub stick_dos : MemoryStick
stick_dos = record { base = 10; tamanio = 4; memoria = 1 ∷ 2 ∷ 3 ∷ 4 ∷ []; cpus_conectadas = [] }

abbrev pub fisica_dos : Fisica
fisica_dos = record {
  lista_memory_sticks = nodo ∷ [];
  red = λ fd. if fd == 6 then some stick_dos else some stick;
}

pub dos-Coherente : Coherente 10 fisica_dos
dos-Coherente = record {
  limite = omega arith;
  nodos = ((omega arith, (refl, refl)), tt);
  disjuntos = (tt, tt);
}

pub dos_dice :
    (s : MemoryStick) → fisica_dos.red 6 ≡ some s → (s.base ≡ 10) × (length s.memoria ≡ 4)
dos_dice s e =
    let igual : stick_dos ≡ s = cc in
    subst (λ (k : MemoryStick). (k.base ≡ 10) × (length k.memoria ≡ 4)) igual (refl, refl)
