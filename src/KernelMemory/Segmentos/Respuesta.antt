-- ===== src/KernelMemory/Segmentos/Respuesta.antt =====
-- `creacion_segmento`: which requests are met and which are refused.
use tp_so_limpio.Base.{
  ℕ, zero, suc, ◌≤◌, ◌<◌, ◌≡◌, refl, ap, ◌∙◌, inl, inr, ◌⊎◌, true, false, Option, none, some, List,
  [], ◌∷◌, arith, ltb, leb, ◌==◌, Bool-cases, Option-cases, get_elem?, sub32, ◌++◌,
}
use tp_so_limpio.Commons.{Commons}
use tp_so_limpio.GlobalUtils.{OpCode, Mensaje, op, entero, ok, notok, cpus_desalojadas_ok}
use tp_so_limpio.KernelMemory.Config.{Config}
use tp_so_limpio.KernelMemory.Huecos.{Hueco, calcular_espacio_libre_total}
use tp_so_limpio.KernelMemory.Huecos.Cobertura.{tamanio_total, calcular_espacio_libre_total_lem}
use tp_so_limpio.KernelMemory.Huecos.Seleccion.{Elige, seleccionar-Elige}
use tp_so_limpio.KernelMemory.Fisica.{Fisica}
use tp_so_limpio.KernelMemory.Estado.{Contexto, Mapa, buscar_contexto}
use tp_so_limpio.KernelMemory.Estado.Sumas.{buscar-con_tabla}
use tp_so_limpio.KernelMemory.Particion.{Particion, bytes_ocupados}
use tp_so_limpio.KernelMemory.Compactacion.{
  ejecutar_compactacion_fisica_memory_stick, solicitar_y_ejecutar_compactacion,
}
use tp_so_limpio.KernelMemory.Compactacion.Cuentas.{compactar-Particion}
use tp_so_limpio.KernelMemory.Segmentos.{
  Salida, nuevo_segmento, asignar, elegir, terminar, creacion_segmento,
}

tamanio-le-total :
    (hs : List Hueco) (i : ℕ) (h : Hueco) → get_elem? hs i ≡ some h → h.tamanio ≤ tamanio_total hs
tamanio-le-total [] i h e = cc
tamanio-le-total (g ∷ hs) zero h e = ground arith
tamanio-le-total (g ∷ hs) (suc i) h e = omega (arith, tamanio-le-total hs i h e)

-- The client is told OK and the base at which the segment stands, and the segment stands at the end of
-- the table of the context.
pub record Atendida (m : Mapa) (pid id n : ℕ) (ctx : Contexto) (o : Option Salida) : Type 0 where
  pub salida : Salida
  pub responde : o ≡ some salida
  pub base : ℕ
  pub dice_base : salida.al_cliente ≡ op ok ∷ entero base ∷ []
  pub creado : salida.mapa.segmentos m.proximo ≡ nuevo_segmento id n base
  pub anotado :
      buscar_contexto salida.mapa.lista_contextos pid
      ≡ some (record ctx { tabla_segmentos = ctx.tabla_segmentos ++ (m.proximo ∷ []) })

module _ (c : Commons) (cfg : Config) (pid id n : ℕ) (f : Fisica) (m : Mapa) (v : Particion m) where
  pub libre :
      calcular_espacio_libre_total m.lista_huecos_libres ≡ tamanio_total m.lista_huecos_libres
  libre =
      let l = v.limite in
      let t = v.todo in calcular_espacio_libre_total_lem m.lista_huecos_libres (omega arith)

  terminar-Atendida :
      (dichos : List Mensaje) (f' : Fisica) (m' : Mapa) (p : ℕ × Hueco) (ctx : Contexto)
      → m'.proximo ≡ m.proximo
      → buscar_contexto m'.lista_contextos pid ≡ some ctx
      → Atendida m pid id n ctx (terminar c cfg pid id n dichos f' m' (some p))
  unfolding asignar
  terminar-Atendida dichos f' m' p ctx e hay = record {
    salida = record {
      fisica = f';
      mapa = asignar pid id n p m';
      al_kernel = dichos;
      al_cliente = op ok ∷ entero p.1.direccion_base ∷ [];
    };
    responde = refl;
    base = p.1.direccion_base;
    dice_base = refl;
    creado = let t : (m'.proximo == m.proximo) ≡ true = ground arith in rw t;
    anotado =
        buscar-con_tabla (λ t. t ++ (m'.proximo ∷ [])) m'.lista_contextos pid ctx hay
        ∙ ap (λ k. some (record ctx { tabla_segmentos = ctx.tabla_segmentos ++ (k ∷ []) })) e;
  }

  -- The hole that compaction leaves takes every request that the free bytes can meet.
  pub elegir-compactado :
      0 < n
      → n ≤ tamanio_total m.lista_huecos_libres
      → (p : ℕ × Hueco) × (elegir c cfg n (ejecutar_compactacion_fisica_memory_stick c f m).1
          ≡ some p)
  elegir-compactado pos cabe =
      let m' = (ejecutar_compactacion_fisica_memory_stick c f m).1 in
      let (v', uno, _) = compactar-Particion c f m v in
      let e = seleccionar-Elige c cfg.allocation_strategy n m'.lista_huecos_libres in
      let t = v.todo in
      let l = v.limite in
      elim (Option-cases (elegir c cfg n m')) [
        | inr hay ↦ hay
        | inl nada ↦
            let ninguno : Elige n m'.lista_huecos_libres none = rw nada at e in
            let hay : ltb (bytes_ocupados m) m.memoria_total_sistema ≡ true = ground arith in
            let lista : m'.lista_huecos_libres ≡ gran_hueco ∷ [] = uno ∙ rw hay refl in
            let mal : gran_hueco.tamanio < n =
              ninguno 0 gran_hueco (ap (λ hs. get_elem? hs 0) lista) in
            absurd (omega arith)
      ]
    where
      gran_hueco : Hueco
      gran_hueco = record {
        direccion_base = bytes_ocupados m;
        tamanio = sub32 m.memoria_total_sistema (bytes_ocupados m);
      }

  contextos-compactar :
      (ejecutar_compactacion_fisica_memory_stick c f m).1.lista_contextos ≡ m.lista_contextos
  unfolding ejecutar_compactacion_fisica_memory_stick
  contextos-compactar = refl

  proximo-compactar : (ejecutar_compactacion_fisica_memory_stick c f m).1.proximo ≡ m.proximo
  unfolding ejecutar_compactacion_fisica_memory_stick
  proximo-compactar = refl

  -- If the process has a context and the request is for at least one byte, within the maximal size and
  -- the free bytes, and the Kernel Scheduler clears the CPUs when asked, the segment is created and
  -- stands at the end of the process's table: fragmentation never makes a request fail.
  pub creacion_segmento-Atendida :
      (ctx : Contexto)
      → buscar_contexto m.lista_contextos pid ≡ some ctx
      → 0 < n
      → n ≤ cfg.segment_max_size
      → n ≤ tamanio_total m.lista_huecos_libres
      → Atendida m pid id n ctx (creacion_segmento c cfg cpus_desalojadas_ok pid id n f m)
  unfolding creacion_segmento solicitar_y_ejecutar_compactacion
  creacion_segmento-Atendida ctx hay pos tope cabe =
      let t : ltb cfg.segment_max_size n ≡ false = ground arith in
      rw t (elim (Option-cases (elegir c cfg n m)) [
        | inr (p, hueco) ↦ rw hueco (terminar-Atendida [] f m p ctx refl hay)
        | inl lleno ↦
            let l : leb n (calcular_espacio_libre_total m.lista_huecos_libres) ≡ true =
              ground (arith, libre) in
            let (p, hueco) = elegir-compactado pos cabe in
            rw (lleno, l, hueco)
              (terminar-Atendida _ _ _ p ctx proximo-compactar (rw contextos-compactar hay))
      ])

  -- A request above the maximal size or the free bytes is refused and changes nothing.
  pub creacion_segmento_rechaza :
      (r : OpCode)
      → (cfg.segment_max_size < n) ⊎ (tamanio_total m.lista_huecos_libres < n)
      → creacion_segmento c cfg r pid id n f m
        ≡ some (record { fisica = f; mapa = m; al_kernel = []; al_cliente = op notok ∷ [] })
  unfolding creacion_segmento
  creacion_segmento_rechaza r mucho = elim (Bool-cases (ltb cfg.segment_max_size n)) [
    | inl t ↦ rw t
    | inr t ↦
        let poco : tamanio_total m.lista_huecos_libres < n = ground arith in
        elim (Option-cases (elegir c cfg n m)) [
          | inl lleno ↦
              let l : leb n (calcular_espacio_libre_total m.lista_huecos_libres) ≡ false =
                ground (arith, libre) in
              rw (t, lleno, l)
          | inr (p, hueco) ↦
              let e = seleccionar-Elige c cfg.allocation_strategy n m.lista_huecos_libres in
              let cabe : Elige n m.lista_huecos_libres (some p) = rw hueco at e in
              absurd (omega (arith, tamanio-le-total m.lista_huecos_libres p.0 p.1 cabe.0, cabe.1))
        ]
  ]
