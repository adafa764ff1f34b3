-- ===== src/KernelMemory/Suspension/Vuelta.antt =====
-- Bringing a process back from SWAP: what it leaves of the memory map.
use tp_so_limpio.Base.{
  ℕ, ◌≡◌, refl, sym, ◌∙◌, inl, inr, true, false, Bool, some, List, [], ◌∷◌, arith, ◌==◌, Bool-cases,
  Option-cases, All, subst,
}
use tp_so_limpio.Commons.{Commons}
use tp_so_limpio.KernelMemory.Config.{Config}
use tp_so_limpio.KernelMemory.Huecos.{Hueco, recortar, seleccionar_hueco_segun_algoritmo}
use tp_so_limpio.KernelMemory.Huecos.Cobertura.{
  cobertura, tamanio_total, EnRango, liberar-Liberado, recortar-Recortado,
}
use tp_so_limpio.KernelMemory.Huecos.Seleccion.{Valido, Elige, seleccionar-Elige}
use tp_so_limpio.KernelMemory.Estado.{Contexto, Mapa, buscar_contexto}
use tp_so_limpio.KernelMemory.Particion.{Particion, Particion-restaurar, veces}
use tp_so_limpio.KernelMemory.Suspension.{
  Sistema, recibir_de_swap, restaurar_segmento, restaurar_segmentos, desuspender_proceso,
}
use tp_so_limpio.KernelMemory.Suspension.Ida.{tabla-veces, tabla-una_vez}

-- Holes that cover the same addresses may stand for those of the map.
Particion-huecos :
    (m : Mapa) (hs : List Hueco)
    → Particion m
    → ((x : ℕ) → cobertura x hs ≡ cobertura x m.lista_huecos_libres)
    → tamanio_total hs ≡ tamanio_total m.lista_huecos_libres
    → All (EnRango m.memoria_total_sistema) hs
    → Particion (record m { lista_huecos_libres = hs })
Particion-huecos m hs v cob tam rango = record {
  limite = v.limite;
  una_vez = λ x. omega (arith, cob x, v.una_vez x);
  todo = omega (arith, tam, v.todo);
  huecos_en_rango = rango;
  segmentos_en_rango = v.segmentos_en_rango;
  sin_compartir = v.sin_compartir;
  nuevos = v.nuevos;
}

-- What bringing segments back leaves: the memory is tiled, the tables are the same, and no segment
-- has left the memory.
pub record Vuelto {c : Commons} (st st' : Sistema c) : Type 0 where
  pub tejado : Particion st'.mapa
  pub contextos : st'.mapa.lista_contextos ≡ st.mapa.lista_contextos
  pub siguen :
      (q : ℕ) → (st.mapa.segmentos q).en_swap ≡ false → (st'.mapa.segmentos q).en_swap ≡ false

Vuelto-refl : {c : Commons} (st : Sistema c) → Particion st.mapa → Vuelto st st
Vuelto-refl st v = record { tejado = v; contextos = refl; siguen = λ q h. h }

Vuelto-trans : {c : Commons} (a b d : Sistema c) → Vuelto a b → Vuelto b d → Vuelto a d
Vuelto-trans a b d x y = record {
  tejado = y.tejado;
  contextos = y.contextos ∙ x.contextos;
  siguen = λ q h. y.siguen q (x.siguen q h);
}

module _ (c : Commons) (bs total : ℕ) where
  -- One segment, whether its blocks can be read or not.
  restaurar-Vuelto :
      (p : ℕ) (q : ℕ × Hueco) (st : Sistema c)
      → Particion st.mapa
      → veces p st.mapa ≡ 1
      → (st.mapa.segmentos p).en_swap ≡ true
      → Valido (st.mapa.segmentos p).limite st.mapa.lista_huecos_libres q
      → let r = restaurar_segmento c bs total p q st in
        Vuelto st r.1 × (r.0 ≡ true → (r.1.mapa.segmentos p).en_swap ≡ false)
  unfolding restaurar_segmento
  restaurar-Vuelto p (i, h) st v uno fuera val =
      let lim = v.limite in
      let seg = st.mapa.segmentos p in
      let mem = st.mapa.memoria_total_sistema in
      let r =
        recortar-Recortado mem seg.limite i h st.mapa.lista_huecos_libres (omega arith) val.0 val.1
          v.huecos_en_rango in
      let mismo : (p == p) ≡ true = ground arith in
      elim (Option-cases (recibir_de_swap c bs total seg st)) [
        | inr (d, e) ↦
            rw (e, restaurar_segmento)
              (
                record {
                  tejado = Particion-restaurar st.mapa p _ h _ v uno fuera refl refl r;
                  contextos = refl;
                  siguen =
                      λ k ram. elim (Bool-cases (p == k)) [ inl t ↦ rw t refl | inr t ↦ rw t ram ];
                },
                λ _. rw mismo refl,
              )
        | inl e ↦
            let entra = r.entra in
            let l =
              liberar-Liberado c mem h.direccion_base seg.limite
                (recortar seg.limite i h st.mapa.lista_huecos_libres) (omega arith) entra
                r.en_rango in
            rw (e, restaurar_segmento)
              (
                record {
                  tejado =
                      Particion-huecos st.mapa _ v
                        (λ x. omega (arith, l.cobertura_mas x, r.cobertura_menos x))
                        (omega (arith, l.tamanio_mas, r.tamanio_menos)) l.en_rango;
                  contextos = refl;
                  siguen = λ k ram. ram;
                },
                λ k. cc,
              )
      ]

  -- With an answer of success, every segment of the table is in memory.
  abbrev pub Vueltos : Sistema c → List ℕ → Bool × Sistema c → Type 0
  Vueltos st ps r =
      Vuelto st r.1 × (r.0 ≡ true → All (λ p. (r.1.mapa.segmentos p).en_swap ≡ false) ps)

  restaurar_segmentos-Vuelto :
      (cfg : Config) (ps : List ℕ) (st : Sistema c)
      → Particion st.mapa
      → All (λ p. veces p st.mapa ≡ 1) ps
      → Vueltos st ps (restaurar_segmentos c bs total cfg ps st)
  unfolding restaurar_segmentos
  restaurar_segmentos-Vuelto cfg [] st v unos = (Vuelto-refl st v, λ e. tt)
  restaurar_segmentos-Vuelto cfg (p ∷ ps) st v unos =
      elim (Bool-cases (st.mapa.segmentos p).en_swap) [
        | inr ram ↦
            let (mov, fin) = restaurar_segmentos-Vuelto cfg ps st v unos.1 in
            let paso : restaurar_segmentos c bs total cfg (p ∷ ps) st
                ≡ restaurar_segmentos c bs total cfg ps st =
              rw (ram, restaurar_segmentos) refl in
            subst (Vueltos st (p ∷ ps)) (sym paso) (mov, λ k. (mov.siguen p ram, fin k))
        | inl fuera ↦
            let n = (st.mapa.segmentos p).limite in
            let hs = st.mapa.lista_huecos_libres in
            elim (Option-cases (seleccionar_hueco_segun_algoritmo c cfg.allocation_strategy n hs)) [
              | inl lleno ↦ rw (fuera, lleno, restaurar_segmentos) (Vuelto-refl st v, λ k. cc)
              | inr (q, e) ↦
                  let val : Valido n hs q =
                    subst (Elige n hs) e (seleccionar-Elige c cfg.allocation_strategy n hs) in
                  let (mov, dentro) = restaurar-Vuelto p q st v unos.0 fuera val in
                  let ct = mov.contextos in
                  let st' = (restaurar_segmento c bs total p q st).1 in
                  elim (Bool-cases (restaurar_segmento c bs total p q st).0) [
                    | inr falla ↦ rw (fuera, e, falla, restaurar_segmentos) (mov, λ k. cc)
                    | inl si ↦
                        let (mov', fin) =
                          restaurar_segmentos-Vuelto cfg ps st' mov.tejado (rw ct unos.1) in
                        let paso : restaurar_segmentos c bs total cfg (p ∷ ps) st
                            ≡ restaurar_segmentos c bs total cfg ps st' =
                          rw (fuera, e, si, restaurar_segmentos) refl in
                        subst (Vueltos st (p ∷ ps)) (sym paso)
                          (Vuelto-trans st st' _ mov mov', λ k. (mov'.siguen p (dentro si), fin k))
                  ]
            ]
      ]

  -- However far the return of a process gets, the memory stays tiled by holes and resident segments,
  -- and the answer is 0 only if every segment of the process is in memory.
  pub desuspender_proceso-Vuelto :
      (cfg : Config) (pid : ℕ) (st : Sistema c) (ctx : Contexto)
      → Particion st.mapa
      → buscar_contexto st.mapa.lista_contextos pid ≡ some ctx
      → Vueltos st ctx.tabla_segmentos (desuspender_proceso c bs total cfg pid st)
  unfolding desuspender_proceso
  desuspender_proceso-Vuelto cfg pid st ctx v hay =
      let unos =
        tabla-una_vez st.mapa ctx.tabla_segmentos v
          (λ p. tabla-veces st.mapa.lista_contextos pid p ctx hay) in
      rw (hay, desuspender_proceso) (restaurar_segmentos-Vuelto cfg ctx.tabla_segmentos st v unos)
