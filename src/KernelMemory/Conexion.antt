-- ===== src/KernelMemory/Conexion.antt =====
-- kernel_memory/src/utils.c: a Memory Stick connects, and one is lost.
pub mod Conectada
use Prim.Native.String.{String}
use tp_so_limpio.Base.{ℕ, Bool, true, List, [], ◌∷◌, ◌++◌, ◌==◌, if◌then◌else◌, add32, length}
use tp_so_limpio.Commons.{Commons}
use tp_so_limpio.GlobalUtils.{Mensaje, op, entero, mensaje}
use tp_so_limpio.KernelMemory.Huecos.{liberar_espacio_en_huecos}
use tp_so_limpio.KernelMemory.Fisica.{Nodo, Fisica}
use tp_so_limpio.KernelMemory.Estado.{Mapa}

abbrev nuevo_nodo : ℕ → ℕ → ℕ → String → String → Nodo
nuevo_nodo socket_ms base n ip port = record {
  socket_fd = socket_ms;
  base_global = base;
  tamanio = n;
  port = port;
  ip = ip;
}

-- The stick gets the range behind all the others; the third result is what it is sent.
unfoldable pub conexion_memory_stick :
    Commons → ℕ → ℕ → String → String → Fisica × Mapa → Fisica × Mapa × List Mensaje
conexion_memory_stick c socket_ms n ip port (f, m) =
    let base = m.memoria_total_sistema in
    (
      record f {
        lista_memory_sticks = f.lista_memory_sticks ++ (nuevo_nodo socket_ms base n ip port ∷ []);
      },
      record m {
        memoria_total_sistema = add32 base n;
        lista_huecos_libres = liberar_espacio_en_huecos c base n m.lista_huecos_libres;
      },
      entero base ∷ entero n ∷ [],
    )

unfoldable pub enviar_nodos : List Nodo → List Mensaje
enviar_nodos [] = []
enviar_nodos (ms ∷ sticks) =
    entero ms.base_global
    ∷ entero ms.tamanio
    ∷ mensaje ms.ip
    ∷ mensaje ms.port
    ∷ enviar_nodos sticks

unfoldable pub enviar_lista_memory_sticks : Fisica → List Mensaje
enviar_lista_memory_sticks f =
    entero (length f.lista_memory_sticks) ∷ enviar_nodos f.lista_memory_sticks

-- `list_remove_element`, for the node of a socket.
unfoldable pub quitar_nodo : ℕ → List Nodo → List Nodo
quitar_nodo fd [] = []
quitar_nodo fd (ms ∷ sticks) = if ms.socket_fd == fd then sticks else ms ∷ quitar_nodo fd sticks

-- The first result is `mem_corrupt_notificado`.
unfoldable pub manejar_caida_memory_stick : ℕ → Bool × Fisica → Bool × Fisica
manejar_caida_memory_stick fd (notificado, f) =
    (true, record f { lista_memory_sticks = quitar_nodo fd f.lista_memory_sticks })
