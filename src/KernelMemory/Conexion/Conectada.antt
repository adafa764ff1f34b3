-- ===== src/KernelMemory/Conexion/Conectada.antt =====
-- A Memory Stick that connects extends the memory.
use Prim.Native.String.{String}
use tp_so_limpio.Base.{
  ℕ, ◌+◌, ◌≤◌, ◌<◌, ◌^◌, ◌≡◌, List, [], ◌∷◌, ◌++◌, arith, All, All-append, All-map, Option, some,
  refl, length, add32, inl, inr, Option-cases,
}
use tp_so_limpio.Commons.{Commons}
use tp_so_limpio.MemoryStick.{MemoryStick}
use tp_so_limpio.KernelMemory.Huecos.Cobertura.{EnRango, liberar-Liberado}
use tp_so_limpio.KernelMemory.Fisica.{Nodo, Fisica}
use tp_so_limpio.KernelMemory.Fisica.Plano.{Coherente, NodoValido, Disjuntos}
use tp_so_limpio.KernelMemory.Estado.{Mapa}
use tp_so_limpio.KernelMemory.Particion.{Particion}
use tp_so_limpio.KernelMemory.Conexion.{nuevo_nodo, conexion_memory_stick}

Disjuntos-append :
    (total : ℕ) (red : ℕ → Option MemoryStick) (ns : List Nodo) (m : Nodo)
    → All (NodoValido total red) ns
    → Disjuntos ns
    → m.base_global ≡ total
    → Disjuntos (ns ++ (m ∷ []))
Disjuntos-append total red [] m v d e = (tt, tt)
Disjuntos-append total red (n ∷ ns) m v d e =
    let cabe = v.0.0 in
    (
      All-append (λ (k : Nodo). n.base_global + n.tamanio ≤ k.base_global) ns (m ∷ []) d.0
          (omega arith, tt),
      Disjuntos-append total red ns m v.1 d.1 e,
    )

module _ (c : Commons) (socket_ms n : ℕ) (ip port : String) (f : Fisica) (m : Mapa)
    (cabe : m.memoria_total_sistema + n < 2 ^ 31) (v : Particion m) where
  nuevo_total : add32 m.memoria_total_sistema n ≡ m.memoria_total_sistema + n
  nuevo_total = omega arith

  conexion-Particion : Particion (conexion_memory_stick c socket_ms n ip port (f, m)).1
  unfolding conexion_memory_stick
  conexion-Particion =
      let antes = m.memoria_total_sistema in
      let crece =
        All-map (EnRango antes) (EnRango (antes + n)) m.lista_huecos_libres (λ h k. omega arith)
          v.huecos_en_rango in
      let l =
        liberar-Liberado c (antes + n) antes n m.lista_huecos_libres (omega arith) (omega arith)
          crece in
      record {
        limite = omega arith;
        una_vez = λ x. rw nuevo_total (ground (arith, l.cobertura_mas x, v.una_vez x));
        todo = rw nuevo_total (omega (arith, l.tamanio_mas, v.todo));
        huecos_en_rango = rw nuevo_total l.en_rango;
        segmentos_en_rango = λ p vive ram. omega (arith, v.segmentos_en_rango p vive ram);
        sin_compartir = v.sin_compartir;
        nuevos = v.nuevos;
      }

  -- While the total stays below 2 GiB and the new stick holds the bytes that it announces, at the base
  -- that it is given, its connection keeps the memory tiled and the sticks' ranges apart.
  pub conexion-Coherente :
      Coherente m.memoria_total_sistema f
      → ((s : MemoryStick)
          → f.red socket_ms ≡ some s
          → (s.base ≡ m.memoria_total_sistema) × (length s.memoria ≡ n))
      → let r = conexion_memory_stick c socket_ms n ip port (f, m) in
        Particion r.1 × Coherente r.1.memoria_total_sistema r.0
  unfolding conexion_memory_stick
  conexion-Coherente coh dice =
      let nodo = nuevo_nodo socket_ms m.memoria_total_sistema n ip port in
      let total = m.memoria_total_sistema + n in
      let sirve : NodoValido total f.red nodo = elim (Option-cases (f.red socket_ms)) [
        | inl e ↦ rw e (omega arith, tt)
        | inr (s, e) ↦ rw e (omega arith, dice s e)
      ] in
      let viejos =
        All-map (NodoValido m.memoria_total_sistema f.red) (NodoValido total f.red)
          f.lista_memory_sticks (λ k h. let a = h.0 in (omega arith, h.1)) coh.nodos in
      (
        conexion-Particion,
        record {
          limite = omega arith;
          nodos = rw nuevo_total (
              All-append (NodoValido total f.red) f.lista_memory_sticks (nodo ∷ []) viejos
                (sirve, tt));
          disjuntos =
              Disjuntos-append m.memoria_total_sistema f.red f.lista_memory_sticks nodo coh.nodos
                coh.disjuntos refl;
        },
      )
