-- ===== src/KernelMemory/Segmentos/Eliminacion.antt =====
-- `eliminar_segmento`: a resident segment leaves its table and becomes a hole.
use tp_so_limpio.Base.{
  ℕ, ◌+◌, ◌≡◌, ◌∙◌, inl, inr, true, false, some, List, arith, ◌==◌, none, refl, ◌⊎◌, Option-cases,
  get_elem?, remove_at,
}
use tp_so_limpio.Commons.{Commons}
use tp_so_limpio.KernelMemory.Huecos.{liberar_espacio_en_huecos}
use tp_so_limpio.KernelMemory.Huecos.Cobertura.{cobertura, tamanio_total, dentro, liberar-Liberado}
use tp_so_limpio.KernelMemory.Estado.{
  Contexto, Mapa, suma_tablas, buscar_contexto, con_tabla, buscar_segmento,
}
use tp_so_limpio.KernelMemory.Estado.Sumas.{
  es, suma_tablas-con_tabla, suma-quitar, buscar_segmento_lem, buscar-con_tabla,
}
use tp_so_limpio.KernelMemory.Particion.{Particion, cubre_seg, bytes_seg, veces}
use tp_so_limpio.KernelMemory.Segmentos.{eliminar_segmento}

-- A weight over the tables before a pointer is taken out of one of them.
suma_tablas-quitar :
    (f : ℕ → ℕ) (cs : List Contexto) (pid i p : ℕ) (ctx : Contexto)
    → buscar_contexto cs pid ≡ some ctx
    → get_elem? ctx.tabla_segmentos i ≡ some p
    → suma_tablas f (con_tabla (λ t. remove_at t i) cs pid) + f p ≡ suma_tablas f cs
suma_tablas-quitar f cs pid i p ctx e k = omega (
  arith,
  suma_tablas-con_tabla f (λ t. remove_at t i) cs pid ctx e,
  suma-quitar f ctx.tabla_segmentos i p k,
)

module _ (c : Commons) (m : Mapa) (pid : ℕ) (ctx : Contexto) where
  quitar-Particion :
      (i p : ℕ)
      → Particion m
      → buscar_contexto m.lista_contextos pid ≡ some ctx
      → get_elem? ctx.tabla_segmentos i ≡ some p
      → (m.segmentos p).en_swap ≡ false
      → Particion (record m {
        lista_contextos = con_tabla (λ t. remove_at t i) m.lista_contextos pid;
        lista_huecos_libres =
            liberar_espacio_en_huecos c
              (m.segmentos p).direccion_base
              (m.segmentos p).limite
              m.lista_huecos_libres;
      })
  quitar-Particion i p v hay esta ram =
      let lim = v.limite in
      let peso : (f : ℕ → ℕ)
          → suma_tablas f (con_tabla (λ t. remove_at t i) m.lista_contextos pid) + f p
            ≡ suma_tablas f m.lista_contextos =
        λ f. suma_tablas-quitar f m.lista_contextos pid i p ctx hay esta in
      let mismo : (p == p) ≡ true = ground arith in
      let uno : veces p m ≡ 1 = ground (arith, peso (es p), v.sin_compartir p) in
      let l =
        liberar-Liberado c m.memoria_total_sistema (m.segmentos p).direccion_base
          (m.segmentos p).limite m.lista_huecos_libres (omega arith)
          (v.segmentos_en_rango p uno ram) v.huecos_en_rango in
      let cub : (x : ℕ)
          → cubre_seg x (m.segmentos p)
            ≡ dentro (m.segmentos p).direccion_base (m.segmentos p).limite x =
        λ x. rw ram in
      let byt : bytes_seg (m.segmentos p) ≡ (m.segmentos p).limite = rw ram in
      record {
        limite = v.limite;
        una_vez = λ x.
            omega (arith, peso (λ q. cubre_seg x (m.segmentos q)), cub x, l.cobertura_mas x)
            ∙ v.una_vez x;
        todo = omega (arith, peso (λ q. bytes_seg (m.segmentos q)), byt, l.tamanio_mas, v.todo);
        huecos_en_rango = l.en_rango;
        segmentos_en_rango = λ q vive dentro_de.
            v.segmentos_en_rango q (ground (arith, peso (es q), v.sin_compartir q)) dentro_de;
        sin_compartir = λ q. omega (arith, peso (es q), v.sin_compartir q);
        nuevos = λ q h. omega (arith, peso (es q), v.nuevos q h);
      }

-- The segment at place `i` of the process's table is gone from it, and its bytes joined the holes.
pub record Quitado (m : Mapa) (pid : ℕ) (ctx : Contexto) (i p : ℕ) (m' : Mapa) : Type 0 where
  pub tabla :
      buscar_contexto m'.lista_contextos pid
      ≡ some (record ctx { tabla_segmentos = remove_at ctx.tabla_segmentos i })
  pub cobertura_mas :
      (x : ℕ)
      → cobertura x m'.lista_huecos_libres
        ≡ cobertura x m.lista_huecos_libres
          + dentro (m.segmentos p).direccion_base (m.segmentos p).limite x
  pub tamanio_mas :
      tamanio_total m'.lista_huecos_libres
      ≡ tamanio_total m.lista_huecos_libres + (m.segmentos p).limite

-- Nothing changes where the process or the id is unknown; else the segment goes.
pub EliminadoDe : Mapa → ℕ → ℕ → Mapa → Type 0
EliminadoDe m pid id m' =
    ((buscar_contexto m.lista_contextos pid ≡ none) × (m' ≡ m))
    ⊎ ((ctx : Contexto) × (buscar_contexto m.lista_contextos pid ≡ some ctx)
        × (((buscar_segmento m.segmentos id 0 ctx.tabla_segmentos ≡ none) × (m' ≡ m))
            ⊎ ((i p : ℕ) × (buscar_segmento m.segmentos id 0 ctx.tabla_segmentos ≡ some (i, p))
                × Quitado m pid ctx i p m')))

module _ (c : Commons) (m : Mapa) (pid : ℕ) where
  quitar-Quitado :
      (ctx : Contexto) (i p : ℕ)
      → Particion m
      → buscar_contexto m.lista_contextos pid ≡ some ctx
      → get_elem? ctx.tabla_segmentos i ≡ some p
      → (m.segmentos p).en_swap ≡ false
      → Quitado m pid ctx i p (record m {
        lista_contextos = con_tabla (λ t. remove_at t i) m.lista_contextos pid;
        lista_huecos_libres =
            liberar_espacio_en_huecos c
              (m.segmentos p).direccion_base
              (m.segmentos p).limite
              m.lista_huecos_libres;
      })
  quitar-Quitado ctx i p v hay esta ram =
      let mismo : (p == p) ≡ true = ground arith in
      let lim = v.limite in
      let uno : veces p m ≡ 1 = ground (
        arith,
        suma_tablas-quitar (es p) m.lista_contextos pid i p ctx hay esta,
        v.sin_compartir p,
      ) in
      let l =
        liberar-Liberado c m.memoria_total_sistema (m.segmentos p).direccion_base
          (m.segmentos p).limite m.lista_huecos_libres (omega arith)
          (v.segmentos_en_rango p uno ram) v.huecos_en_rango in
      record {
        tabla = buscar-con_tabla (λ t. remove_at t i) m.lista_contextos pid ctx hay;
        cobertura_mas = l.cobertura_mas;
        tamanio_mas = l.tamanio_mas;
      }

  -- While the memory is tiled and no segment of the process with that id is suspended, the memory stays
  -- tiled. Where the process or the id is unknown nothing changes; else the segment that is found leaves
  -- the process's table, and the holes cover exactly its bytes besides their own.
  pub eliminar_segmento-Particion :
      (id : ℕ)
      → Particion m
      → ((ctx : Contexto) (i p : ℕ)
          → buscar_contexto m.lista_contextos pid ≡ some ctx
          → buscar_segmento m.segmentos id 0 ctx.tabla_segmentos ≡ some (i, p)
          → (m.segmentos p).en_swap ≡ false)
      → Particion (eliminar_segmento c pid id m)
        × EliminadoDe m pid id (eliminar_segmento c pid id m)
  unfolding eliminar_segmento EliminadoDe
  eliminar_segmento-Particion id v ram =
      elim (Option-cases (buscar_contexto m.lista_contextos pid)) [
        | inl sin_proceso ↦ rw (sin_proceso, eliminar_segmento) (v, inl (refl, refl))
        | inr (ctx, hay) ↦
            elim (Option-cases (buscar_segmento m.segmentos id 0 ctx.tabla_segmentos)) [
              | inl nada ↦ rw (hay, nada, eliminar_segmento) (v, inr (ctx, refl, inl (nada, refl)))
              | inr (ip, e) ↦
                  let (k, a, b, _) =
                    buscar_segmento_lem m.segmentos id 0 ctx.tabla_segmentos ip.0 ip.1 e in
                  let mismo : ip.0 ≡ k = omega arith in
                  let esta : get_elem? ctx.tabla_segmentos ip.0 ≡ some ip.1 = rw mismo b in
                  let q = quitar-Quitado ctx ip.0 ip.1 v hay esta (ram ctx ip.0 ip.1 hay e) in
                  rw (hay, e, eliminar_segmento)
                    (
                      quitar-Particion c m pid ctx ip.0 ip.1 v hay esta (ram ctx ip.0 ip.1 hay e),
                      inr (ctx, refl, inr (ip.0, ip.1, e, q)),
                    )
            ]
      ]
