-- ===== src/KernelMemory/Segmentos/Creacion.antt =====
-- `creacion_segmento`: the memory stays tiled, and when the request is met, refused or crashes.
use tp_so_limpio.Base.{
  ℕ, ◌+◌, ◌≡◌, refl, ap, ◌∙◌, inl, inr, true, Option, none, some, List, [], ◌∷◌, ◌++◌, arith, ltb,
  leb, ◌==◌, Bool-cases, Option-cases, suma-append, subst,
}
use tp_so_limpio.Commons.{Commons}
use tp_so_limpio.GlobalUtils.{OpCode, Mensaje, cpus_desalojadas_ok}
use tp_so_limpio.KernelMemory.Config.{Config}
use tp_so_limpio.KernelMemory.Huecos.{Hueco, calcular_espacio_libre_total}
use tp_so_limpio.KernelMemory.Huecos.Cobertura.{recortar-Recortado}
use tp_so_limpio.KernelMemory.Huecos.Seleccion.{Valido, Elige, seleccionar-Elige}
use tp_so_limpio.KernelMemory.Fisica.{Fisica}
use tp_so_limpio.KernelMemory.Estado.{
  Segmento, Contexto, Mapa, escribir_en, suma_tablas, buscar_contexto, con_tabla,
}
use tp_so_limpio.KernelMemory.Estado.Sumas.{es, suma_tablas-con_tabla}
use tp_so_limpio.KernelMemory.Particion.{
  Particion, cubre_seg, bytes_seg, veces, suma_tablas-escribir_en_ajeno,
}
use tp_so_limpio.KernelMemory.Compactacion.{
  ejecutar_compactacion_fisica_memory_stick, solicitar_y_ejecutar_compactacion,
}
use tp_so_limpio.KernelMemory.Compactacion.Cuentas.{compactar-Particion}
use tp_so_limpio.KernelMemory.Segmentos.{
  Salida, nuevo_segmento, asignar, elegir, terminar, creacion_segmento,
}

-- A weight over the tables after a pointer is added to one of them.
suma_tablas-agregar :
    (f : ℕ → ℕ) (cs : List Contexto) (pid q : ℕ) (ctx : Contexto)
    → buscar_contexto cs pid ≡ some ctx
    → suma_tablas f (con_tabla (λ t. t ++ (q ∷ [])) cs pid) ≡ suma_tablas f cs + f q
suma_tablas-agregar f cs pid q ctx e = omega (
  arith,
  suma_tablas-con_tabla f (λ t. t ++ (q ∷ [])) cs pid ctx e,
  suma-append f ctx.tabla_segmentos (q ∷ []),
)

module _ (m : Mapa) (pid id n : ℕ) (p : ℕ × Hueco) (ctx : Contexto) where
  -- A segment placed in a hole in which it fits, for a process that has a context.
  pub asignar-Particion :
      Particion m
      → buscar_contexto m.lista_contextos pid ≡ some ctx
      → Valido n m.lista_huecos_libres p
      → Particion (asignar pid id n p m)
  unfolding asignar
  asignar-Particion v hay cabe =
      let lim = v.limite in
      let cs = m.lista_contextos in
      let s = nuevo_segmento id n p.1.direccion_base in
      let cero : veces m.proximo m ≡ 0 = v.nuevos m.proximo (omega arith) in
      let r =
        recortar-Recortado m.memoria_total_sistema n p.0 p.1 m.lista_huecos_libres (omega arith)
          cabe.0 cabe.1 v.huecos_en_rango in
      let mismo : (m.proximo == m.proximo) ≡ true = ground arith in
      let h' = escribir_en m.segmentos m.proximo s in
      let peso : (w : Segmento → ℕ)
          → suma_tablas (λ q. w (h' q)) (con_tabla (λ t. t ++ (m.proximo ∷ [])) cs pid)
            ≡ suma_tablas (λ q. w (m.segmentos q)) cs + w s =
        λ w.
          suma_tablas-agregar (λ q. w (h' q)) cs pid m.proximo ctx hay
          ∙ ap (λ k. k + w (h' m.proximo))
              (suma_tablas-escribir_en_ajeno w m.segmentos m.proximo s cs cero)
          ∙ rw mismo in
      let cuenta : (q : ℕ)
          → suma_tablas (es q) (con_tabla (λ t. t ++ (m.proximo ∷ [])) cs pid)
            ≡ veces q m + es q m.proximo =
        λ q. suma_tablas-agregar (es q) cs pid m.proximo ctx hay in
      record {
        limite = v.limite;
        una_vez = λ x. omega (arith, peso (cubre_seg x), r.cobertura_menos x) ∙ v.una_vez x;
        todo = omega (arith, peso bytes_seg, r.tamanio_menos, v.todo);
        huecos_en_rango = r.en_rango;
        segmentos_en_rango = λ q vive ram. elim (Bool-cases (m.proximo == q)) [
          | inl t ↦ rw t (omega (arith, r.entra))
          | inr t ↦
              let antes : veces q m ≡ 1 = ground (arith, cuenta q) in
              rw t (v.segmentos_en_rango q antes (rw t at ram))
        ];
        sin_compartir = λ q. ground (arith, cuenta q, v.sin_compartir q, v.nuevos q);
        nuevos = λ q h. ground (arith, cuenta q, v.nuevos q);
      }

-- The answer of the Kernel Scheduler decides whether anything is moved; the tables keep their pointers.
solicitar-Particion :
    (c : Commons) (r : OpCode) (f : Fisica) (m : Mapa)
    → Particion m
    → let m' = (solicitar_y_ejecutar_compactacion c r f m).1 in
      Particion m' × (m'.lista_contextos ≡ m.lista_contextos) × (m'.proximo ≡ m.proximo)
unfolding solicitar_y_ejecutar_compactacion ejecutar_compactacion_fisica_memory_stick
solicitar-Particion c cpus_desalojadas_ok f m v = ((compactar-Particion c f m v).0, refl, refl)
solicitar-Particion c _ f m v = (v, refl, refl)

-- What holds of the map behind a call that does not crash.
abbrev Tras : Option Salida → Type 0
Tras none = Unit
Tras (some s) = Particion s.mapa

module _ (c : Commons) (cfg : Config) (r : OpCode) (pid id n : ℕ) (f : Fisica) (m : Mapa) where
  -- The hole that the code looks for, before and after compaction.
  elegido-Valido :
      (m' : Mapa) (p : ℕ × Hueco) → elegir c cfg n m' ≡ some p → Valido n m'.lista_huecos_libres p
  elegido-Valido m' p e =
      subst (Elige n m'.lista_huecos_libres) e
        (seleccionar-Elige c cfg.allocation_strategy n m'.lista_huecos_libres)

  terminar-Tras :
      (dichos : List Mensaje) (f' : Fisica) (m' : Mapa) (ctx : Contexto) (o : Option (ℕ × Hueco))
      → Particion m'
      → buscar_contexto m'.lista_contextos pid ≡ some ctx
      → elegir c cfg n m' ≡ o
      → Tras (terminar c cfg pid id n dichos f' m' o)
  terminar-Tras dichos f' m' ctx none v hay e = tt
  terminar-Tras dichos f' m' ctx (some p) v hay e =
      asignar-Particion m' pid id n p ctx v hay (elegido-Valido m' p e)

  creacion-Tras :
      (ctx : Contexto)
      → Particion m
      → buscar_contexto m.lista_contextos pid ≡ some ctx
      → Tras (creacion_segmento c cfg r pid id n f m)
  unfolding creacion_segmento
  creacion-Tras ctx v hay = elim (Bool-cases (ltb cfg.segment_max_size n)) [
    | inl t ↦ rw t v
    | inr t ↦ rw t (elim (Option-cases (elegir c cfg n m)) [
      | inr (p, hueco) ↦ rw hueco (terminar-Tras [] f m ctx (some p) v hay hueco)
      | inl lleno ↦
          rw lleno (elim (Bool-cases (leb n (calcular_espacio_libre_total m.lista_huecos_libres))) [
            | inr poco ↦ rw poco v
            | inl cabe ↦
                let s = solicitar_y_ejecutar_compactacion c r f m in
                let (v', mismos, _) = solicitar-Particion c r f m v in
                rw cabe (terminar-Tras s.2 s.0 s.1 ctx _ v' (rw mismos hay) refl)
          ])
    ])
  ]

  -- Whatever the Kernel Scheduler answers, and whether the request is met or refused, the memory
  -- stays tiled by holes and resident segments, if the process has a context.
  pub creacion_segmento-Particion :
      (ctx : Contexto) (s : Salida)
      → Particion m
      → buscar_contexto m.lista_contextos pid ≡ some ctx
      → creacion_segmento c cfg r pid id n f m ≡ some s
      → Particion s.mapa
  creacion_segmento-Particion ctx s v hay e = subst Tras e (creacion-Tras ctx v hay)
