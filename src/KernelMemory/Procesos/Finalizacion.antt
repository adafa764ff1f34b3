-- ===== src/KernelMemory/Procesos/Finalizacion.antt =====
-- `manejar_finalizar_proceso`: all that a process holds becomes free.
use tp_so_limpio.Base.{
  ℕ, zero, suc, ◌+◌, ◌≤◌, ◌<◌, ◌^◌, ◌≡◌, refl, sym, ap, ◌∙◌, subst, inl, inr, ◌⊎◌, ◌==◌, none,
  false, some, List, [], ◌∷◌, arith, Bool-cases, Option-cases, suma, All, get_elem?, remove_at,
  All-map,
}
use tp_so_limpio.Commons.{Commons}
use tp_so_limpio.KernelMemory.Huecos.{liberar_espacio_en_huecos}
use tp_so_limpio.KernelMemory.Huecos.Cobertura.{cobertura, tamanio_total, EnRango, liberar-Liberado}
use tp_so_limpio.KernelMemory.Estado.{
  Contexto, Proceso, Mapa, suma_tablas, buscar_indice_contexto, buscar_indice_proceso,
}
use tp_so_limpio.KernelMemory.Estado.Sumas.{es}
use tp_so_limpio.KernelMemory.Particion.{Particion, cubre_seg, bytes_seg, veces}
use tp_so_limpio.KernelMemory.Suspension.{Sistema}
use tp_so_limpio.KernelMemory.Respaldo.{liberar_bloques_swap}
use tp_so_limpio.KernelMemory.Suspension.Ida.{tabla-una_vez}
use tp_so_limpio.KernelMemory.Procesos.{
  liberar_segmento, liberar_segmentos, manejar_finalizar_proceso,
}

suma_tablas-remove_at :
    (f : ℕ → ℕ) (cs : List Contexto) (j : ℕ) (ctx : Contexto)
    → get_elem? cs j ≡ some ctx
    → suma_tablas f (remove_at cs j) + suma f ctx.tabla_segmentos ≡ suma_tablas f cs
suma_tablas-remove_at f [] j ctx e = cc
suma_tablas-remove_at f (d ∷ cs) zero ctx e = ground arith
suma_tablas-remove_at f (d ∷ cs) (suc j) ctx e = omega (arith, suma_tablas-remove_at f cs j ctx e)

-- The segments' bytes join the holes, and nothing else of the map changes.
pub record Devuelto {c : Commons} (st : Sistema c) (ps : List ℕ) (st' : Sistema c) : Type 0 where
  pub resto : st'.mapa ≡ record st.mapa { lista_huecos_libres = st'.mapa.lista_huecos_libres }
  pub cobertura_mas :
      (x : ℕ)
      → cobertura x st'.mapa.lista_huecos_libres
        ≡ cobertura x st.mapa.lista_huecos_libres + suma (λ p. cubre_seg x (st.mapa.segmentos p)) ps
  pub tamanio_mas :
      tamanio_total st'.mapa.lista_huecos_libres
      ≡ tamanio_total st.mapa.lista_huecos_libres + suma (λ p. bytes_seg (st.mapa.segmentos p)) ps
  pub en_rango : All (EnRango st.mapa.memoria_total_sistema) st'.mapa.lista_huecos_libres

-- A segment of the memory lies within it.
abbrev CabeEn : Mapa → ℕ → Type 0
CabeEn m p =
    (m.segmentos p).en_swap ≡ false
    → (m.segmentos p).direccion_base + (m.segmentos p).limite ≤ m.memoria_total_sistema

module _ (c : Commons) where
  liberar_segmentos-Devuelto :
      (ps : List ℕ) (st : Sistema c)
      → st.mapa.memoria_total_sistema < 2 ^ 32
      → All (CabeEn st.mapa) ps
      → All (EnRango st.mapa.memoria_total_sistema) st.mapa.lista_huecos_libres
      → Devuelto st ps (liberar_segmentos c ps st)
  unfolding liberar_segmentos
  liberar_segmentos-Devuelto [] st lim caben v = record {
    resto = refl;
    cobertura_mas = λ x. omega arith;
    tamanio_mas = omega arith;
    en_rango = v;
  }
  liberar_segmentos-Devuelto (p ∷ ps) st lim caben v =
      elim (Bool-cases (st.mapa.segmentos p).en_swap) [
        | inl fuera ↦
            let st1 : Sistema c = record st {
              bitmap =
                  liberar_bloques_swap c st.bitmap (st.mapa.segmentos p).bloque_swap
                    (st.mapa.segmentos p).cantidad_bloques;
            } in
            let r = liberar_segmentos-Devuelto ps st1 lim caben.1 v in
            let uno : liberar_segmento c p st ≡ st1 = rw (fuera, liberar_segmento) refl in
            let paso : liberar_segmentos c (p ∷ ps) st ≡ liberar_segmentos c ps st1 =
              ap (liberar_segmentos c ps) uno in
            subst (Devuelto st (p ∷ ps)) (sym paso) (record {
              resto = r.resto;
              cobertura_mas = λ x. rw fuera (omega (arith, r.cobertura_mas x));
              tamanio_mas = rw fuera (omega (arith, r.tamanio_mas));
              en_rango = r.en_rango;
            })
        | inr ram ↦
            let s = st.mapa.segmentos p in
            let l =
              liberar-Liberado c st.mapa.memoria_total_sistema s.direccion_base s.limite
                st.mapa.lista_huecos_libres lim (caben.0 ram) v in
            let st1 : Sistema c = record st {
              mapa = record st.mapa {
                lista_huecos_libres =
                    liberar_espacio_en_huecos c s.direccion_base s.limite
                      st.mapa.lista_huecos_libres;
              };
            } in
            let r = liberar_segmentos-Devuelto ps st1 lim caben.1 l.en_rango in
            let uno : liberar_segmento c p st ≡ st1 = rw (ram, liberar_segmento) refl in
            let paso : liberar_segmentos c (p ∷ ps) st ≡ liberar_segmentos c ps st1 =
              ap (liberar_segmentos c ps) uno in
            subst (Devuelto st (p ∷ ps)) (sym paso) (record {
              resto = r.resto;
              cobertura_mas = λ x. rw ram (omega (arith, r.cobertura_mas x, l.cobertura_mas x));
              tamanio_mas = rw ram (omega (arith, r.tamanio_mas, l.tamanio_mas));
              en_rango = r.en_rango;
            })
      ]

  quitar_contexto-Particion :
      (st : Sistema c) (j : ℕ) (ctx : Contexto) (st' : Sistema c)
      → Particion st.mapa
      → get_elem? st.mapa.lista_contextos j ≡ some ctx
      → Devuelto
          (record st {
            mapa = record st.mapa { lista_contextos = remove_at st.mapa.lista_contextos j };
          })
          ctx.tabla_segmentos
          st'
      → Particion st'.mapa
  quitar_contexto-Particion st j ctx st' v hay d =
      let m = st.mapa in
      let peso : (f : ℕ → ℕ)
          → suma_tablas f (remove_at m.lista_contextos j) + suma f ctx.tabla_segmentos
            ≡ suma_tablas f m.lista_contextos =
        λ f. suma_tablas-remove_at f m.lista_contextos j ctx hay in
      subst Particion (sym d.resto) (record {
        limite = v.limite;
        una_vez = λ x.
            omega (arith, d.cobertura_mas x, peso (λ p. cubre_seg x (m.segmentos p))) ∙ v.una_vez x;
        todo = omega (arith, d.tamanio_mas, peso (λ p. bytes_seg (m.segmentos p)), v.todo);
        huecos_en_rango = d.en_rango;
        segmentos_en_rango = λ p vive ram.
            v.segmentos_en_rango p (omega (arith, peso (es p), v.sin_compartir p)) ram;
        sin_compartir = λ p. omega (arith, peso (es p), v.sin_compartir p);
        nuevos = λ p h. omega (arith, peso (es p), v.nuevos p h);
      })

  caben_todos :
      (m : Mapa) (ps : List ℕ) → Particion m → All (λ p. veces p m ≡ 1) ps → All (CabeEn m) ps
  caben_todos m ps v unos =
      All-map (λ p. veces p m ≡ 1) (CabeEn m) ps (λ p uno ram. v.segmentos_en_rango p uno ram) unos

-- Nothing changes for a process that is unknown, and only the list of processes for one without a
-- context; else the process and its context are gone, and the bytes of its resident segments joined
-- the holes, and nothing else did.
pub Finalizado : {c : Commons} → ℕ → List Proceso → Sistema c → List Proceso × Sistema c → Type 0
Finalizado {c} pid ps st r =
    ((buscar_indice_proceso ps pid 0 ≡ none) × (r ≡ (ps, st)))
    ⊎ ((i : ℕ) × (buscar_indice_proceso ps pid 0 ≡ some i)
        × (r.0 ≡ remove_at ps i)
        × (((buscar_indice_contexto st.mapa.lista_contextos pid 0 ≡ none) × (r.1 ≡ st))
            ⊎ ((j : ℕ) × (ctx : Contexto) × (buscar_indice_contexto st.mapa.lista_contextos pid 0
                  ≡ some j)
                × (get_elem? st.mapa.lista_contextos j ≡ some ctx)
                × (ctx.pid ≡ pid)
                × Devuelto
                    (record st {
                      mapa = record st.mapa {
                        lista_contextos = remove_at st.mapa.lista_contextos j;
                      };
                    })
                    ctx.tabla_segmentos r.1)))

-- The place found is that of a context of the process.
indice-contexto :
    (cs : List Contexto) (pid i k : ℕ)
    → buscar_indice_contexto cs pid i ≡ some k
    → (j : ℕ) × (ctx : Contexto) × (k ≡ i + j) × (get_elem? cs j ≡ some ctx) × (ctx.pid ≡ pid)
unfolding buscar_indice_contexto
indice-contexto [] pid i k e = cc
indice-contexto (d ∷ cs) pid i k e = elim (Bool-cases (d.pid == pid)) [
  | inl t ↦
      let z : some i ≡ some k = rw t at e in
      let y : i ≡ k = cc in (0, d, omega arith, refl, ground arith)
  | inr t ↦
      let (j, ctx, a, b, q) =
        indice-contexto cs pid (i + 1) k (rw (t, buscar_indice_contexto) at e) in
      (suc j, ctx, omega arith, b, q)
]

module _ (c : Commons) where
  -- While the memory is tiled, it stays so. Where the process is unknown nothing changes, and where it has
  -- no context the map does not; else its context is gone, and the holes cover exactly the bytes of its
  -- resident segments besides their own.
  pub manejar_finalizar_proceso-Particion :
      (pid : ℕ) (ps : List Proceso) (st : Sistema c)
      → Particion st.mapa
      → Particion (manejar_finalizar_proceso c pid (ps, st)).1.mapa
        × Finalizado pid ps st (manejar_finalizar_proceso c pid (ps, st))
  unfolding manejar_finalizar_proceso Finalizado
  manejar_finalizar_proceso-Particion pid ps st v =
      elim (Option-cases (buscar_indice_proceso ps pid 0)) [
        | inl nada ↦ rw (nada, manejar_finalizar_proceso) (v, inl (refl, refl))
        | inr (i, e) ↦ elim (Option-cases (buscar_indice_contexto st.mapa.lista_contextos pid 0)) [
          | inl nada ↦
              rw (e, nada, manejar_finalizar_proceso) (v, inr (i, refl, refl, inl (refl, refl)))
          | inr (j, e') ↦
              let (k, ctx, a, b, suyo) = indice-contexto st.mapa.lista_contextos pid 0 j e' in
              let mismo : k ≡ j = omega arith in
              let hay : get_elem? st.mapa.lista_contextos j ≡ some ctx = rw mismo at b in
              let unos = tabla-una_vez st.mapa ctx.tabla_segmentos v (λ p.
                omega (arith, suma_tablas-remove_at (es p) st.mapa.lista_contextos j ctx hay)) in
              let lim = v.limite in
              let sin_ctx : Sistema c = record st {
                mapa = record st.mapa { lista_contextos = remove_at st.mapa.lista_contextos j };
              } in
              let d =
                liberar_segmentos-Devuelto c ctx.tabla_segmentos sin_ctx (omega arith)
                  (caben_todos c st.mapa ctx.tabla_segmentos v unos) v.huecos_en_rango in
              rw (e, e', hay, manejar_finalizar_proceso)
                (
                  quitar_contexto-Particion c st j ctx _ v hay d,
                  inr (i, refl, refl, inr (j, ctx, refl, hay, suyo, d)),
                )
        ]
      ]
