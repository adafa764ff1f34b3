-- ===== src/KernelMemory/Segmentos/Caida.antt =====
-- `creacion_segmento`: exactly which requests crash the module.
use tp_so_limpio.Base.{
  ℕ, ◌≤◌, ◌<◌, ◌≡◌, ◌≢◌, refl, ap, ◌∙◌, inl, inr, ◌⊎◌, true, false, none, some, List, [], ◌∷◌,
  arith, ltb, leb, ◌==◌, Bool-cases, Option-cases, get_elem?, subst, ◌↔◌,
}
use tp_so_limpio.Commons.{Commons}
use tp_so_limpio.GlobalUtils.{OpCode, cpus_desalojadas_ok}
use tp_so_limpio.KernelMemory.Config.{Config}
use tp_so_limpio.KernelMemory.Huecos.{Hueco, calcular_espacio_libre_total}
use tp_so_limpio.KernelMemory.Huecos.Cobertura.{tamanio_total}
use tp_so_limpio.KernelMemory.Huecos.Seleccion.{Elige, seleccionar-Elige}
use tp_so_limpio.KernelMemory.Fisica.{Fisica}
use tp_so_limpio.KernelMemory.Estado.{Mapa}
use tp_so_limpio.KernelMemory.Particion.{Particion, bytes_ocupados}
use tp_so_limpio.KernelMemory.Compactacion.{
  ejecutar_compactacion_fisica_memory_stick, solicitar_y_ejecutar_compactacion,
}
use tp_so_limpio.KernelMemory.Compactacion.Cuentas.{compactar-Particion}
use tp_so_limpio.KernelMemory.Segmentos.{
  elegir, terminar, compactar_y_terminar, rechazar, creacion_segmento,
}
use tp_so_limpio.KernelMemory.Segmentos.Respuesta.{libre, elegir-compactado}

module _ (c : Commons) (cfg : Config) (pid id n : ℕ) (f : Fisica) (m : Mapa) (v : Particion m) where
  sin_huecos : elegir c cfg 0 m ≡ none → m.lista_huecos_libres ≡ []
  sin_huecos e =
      let k : Elige 0 m.lista_huecos_libres none =
        rw e at (seleccionar-Elige c cfg.allocation_strategy 0 m.lista_huecos_libres) in
      vacia m.lista_huecos_libres k
    where
      vacia : (hs : List Hueco) → Elige 0 hs none → hs ≡ []
      vacia [] k = refl
      vacia (h ∷ hs) k = absurd (omega (arith, k 0 h refl))

  elegir-vacia : (m' : Mapa) → m'.lista_huecos_libres ≡ [] → elegir c cfg n m' ≡ none
  elegir-vacia m' e = elim (Option-cases (elegir c cfg n m')) [
    | inl nada ↦ nada
    | inr (p, hueco) ↦
        let k : Elige n m'.lista_huecos_libres (some p) =
          rw hueco at (seleccionar-Elige c cfg.allocation_strategy n m'.lista_huecos_libres) in
        let mal : get_elem? [] p.0 ≡ some p.1 = rw e at k.0 in cc
  ]

  compactado-vacio :
      m.lista_huecos_libres ≡ []
      → (ejecutar_compactacion_fisica_memory_stick c f m).1.lista_huecos_libres ≡ []
  compactado-vacio e =
      let (v', uno, _) = compactar-Particion c f m v in
      let t = v.todo in
      let z : tamanio_total m.lista_huecos_libres ≡ 0 = ap tamanio_total e in
      let lleno : ltb (bytes_ocupados m) m.memoria_total_sistema ≡ false = ground arith in
      uno ∙ rw lleno

  cero_elige : n ≡ 0 → elegir c cfg n m ≡ none → elegir c cfg 0 m ≡ none
  cero_elige e h = subst (λ k. elegir c cfg k m ≡ none) e h

  sin_bache :
      (r : OpCode)
      → elegir c cfg n m ≡ none
      → (r ≢ cpus_desalojadas_ok) ⊎ (n ≡ 0)
      → compactar_y_terminar c cfg r pid id n f m ≡ none
  unfolding solicitar_y_ejecutar_compactacion
  sin_bache cpus_desalojadas_ok lleno (inl mal) = absurd (mal refl)
  sin_bache cpus_desalojadas_ok lleno (inr cero) = rw (
      elegir-vacia (ejecutar_compactacion_fisica_memory_stick c f m).1
        (compactado-vacio (sin_huecos (cero_elige cero lleno))))
  sin_bache _ lleno mal = rw lleno

  pub Cae : OpCode → Type 0
  Cae r =
      (n ≤ cfg.segment_max_size)
      × (elegir c cfg n m ≡ none)
      × (n ≤ tamanio_total m.lista_huecos_libres)
      × ((r ≢ cpus_desalojadas_ok) ⊎ (n ≡ 0))

  despejadas : (r : OpCode) → (r ≡ cpus_desalojadas_ok) ⊎ (r ≢ cpus_desalojadas_ok)
  despejadas cpus_desalojadas_ok = inl refl
  despejadas _ = inr (λ e. cc)

  creacion-Cae : (r : OpCode) → Cae r → creacion_segmento c cfg r pid id n f m ≡ none
  unfolding creacion_segmento Cae
  creacion-Cae r (tope, lleno, cabe, mal) =
      let t : ltb cfg.segment_max_size n ≡ false = ground arith in
      let l : leb n (calcular_espacio_libre_total m.lista_huecos_libres) ≡ true =
        ground (arith, libre c cfg pid id n f m v) in
      rw (t, lleno, l) (sin_bache r lleno mal)

  compactado-no_cae :
      0 < n
      → n ≤ tamanio_total m.lista_huecos_libres
      → compactar_y_terminar c cfg cpus_desalojadas_ok pid id n f m ≢ none
  unfolding solicitar_y_ejecutar_compactacion
  compactado-no_cae pos cabe nada =
      let (p, hueco) = elegir-compactado c cfg pid id n f m v pos cabe in
      let z : terminar c cfg pid id n
            (solicitar_y_ejecutar_compactacion c cpus_desalojadas_ok f m).2
            (ejecutar_compactacion_fisica_memory_stick c f m).0
            (ejecutar_compactacion_fisica_memory_stick c f m).1 (some p)
          ≡ none =
        rw hueco at nada in
      cc

  Cae-creacion : (r : OpCode) → creacion_segmento c cfg r pid id n f m ≡ none → Cae r
  unfolding creacion_segmento Cae
  Cae-creacion r nada = elim (Bool-cases (ltb cfg.segment_max_size n)) [
    | inl t ↦ let z : rechazar c cfg f m ≡ none = rw t at nada in cc
    | inr t ↦ elim (Option-cases (elegir c cfg n m)) [
      | inr (p, hueco) ↦
          let z : terminar c cfg pid id n [] f m (some p) ≡ none = rw (t, hueco) at nada in cc
      | inl lleno ↦ elim (Bool-cases (leb n (calcular_espacio_libre_total m.lista_huecos_libres))) [
        | inr l ↦ let z : rechazar c cfg f m ≡ none = rw (t, lleno, l) at nada in cc
        | inl l ↦
            let z : compactar_y_terminar c cfg r pid id n f m ≡ none = rw (t, lleno, l) at nada in
            let cabe : n ≤ tamanio_total m.lista_huecos_libres =
              ground (arith, libre c cfg pid id n f m v) in
            (
              ground arith,
              lleno,
              cabe,
              elim (despejadas r) [
                | inr otra ↦ inl otra
                | inl es ↦ elim (Bool-cases (n == 0)) [
                  | inl cero ↦ inr (ground arith)
                  | inr mas ↦ absurd (
                      compactado-no_cae (ground arith) cabe
                        (subst (λ k. compactar_y_terminar c cfg k pid id n f m ≡ none) es z))
                ]
              ],
            )
      ]
    ]
  ]

  -- The code reads through a null pointer exactly where the request is within the maximal size and the
  -- free bytes, no hole takes it, and the Kernel Scheduler answers anything but that the CPUs are
  -- clear or the request is for 0 bytes; in every other case it answers.
  pub creacion_segmento-Cae : (r : OpCode) → (creacion_segmento c cfg r pid id n f m ≡ none) ↔ Cae r
  creacion_segmento-Cae r = (Cae-creacion r, creacion-Cae r)
