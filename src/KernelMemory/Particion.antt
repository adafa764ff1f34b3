-- ===== src/KernelMemory/Particion.antt =====
-- The invariant of the memory map: free holes and resident segments tile the memory.
use tp_so_limpio.Base.{
  ℕ, ◌+◌, ◌≤◌, ◌<◌, ◌^◌, ◌≡◌, ap, ◌∙◌, sym, inl, inr, true, false, List, arith, ltb, ◌==◌,
  if◌then◌else◌, Bool-cases, All,
}
use tp_so_limpio.Commons.{Commons}
use tp_so_limpio.KernelMemory.Huecos.{Hueco, liberar_espacio_en_huecos}
use tp_so_limpio.KernelMemory.Huecos.Cobertura.{
  dentro, cobertura, tamanio_total, EnRango, liberar-Liberado, Recortado,
}
use tp_so_limpio.KernelMemory.Estado.{Segmento, Contexto, Mapa, escribir_en, suma_tablas}
use tp_so_limpio.KernelMemory.Estado.Sumas.{es, SoloEn, suma_tablas-uno, suma_tablas-cero}

-- The weights of a pointee: whether it covers an address, and its bytes in memory. A segment in SWAP
-- has none.
abbrev pub cubre_seg : ℕ → Segmento → ℕ
cubre_seg x s = if s.en_swap then 0 else dentro s.direccion_base s.limite x

abbrev pub bytes_seg : Segmento → ℕ
bytes_seg s = if s.en_swap then 0 else s.limite

abbrev pub ocupa : ℕ → Mapa → ℕ
ocupa x m = suma_tablas (λ p. cubre_seg x (m.segmentos p)) m.lista_contextos

abbrev pub bytes_ocupados : Mapa → ℕ
bytes_ocupados m = suma_tablas (λ p. bytes_seg (m.segmentos p)) m.lista_contextos

-- In how many places of the tables a pointer stands.
abbrev pub veces : ℕ → Mapa → ℕ
veces p m = suma_tablas (es p) m.lista_contextos

pub record Particion (m : Mapa) : Type 0 where
  pub limite : m.memoria_total_sistema < 2 ^ 31
  -- Each address is in exactly one hole or resident segment.
  pub una_vez :
      (x : ℕ)
      → cobertura x m.lista_huecos_libres + ocupa x m
        ≡ (if ltb x m.memoria_total_sistema then 1 else 0)
  -- Free and used bytes add up to the memory.
  pub todo : tamanio_total m.lista_huecos_libres + bytes_ocupados m ≡ m.memoria_total_sistema
  pub huecos_en_rango : All (EnRango m.memoria_total_sistema) m.lista_huecos_libres
  pub segmentos_en_rango :
      (p : ℕ)
      → veces p m ≡ 1
      → (m.segmentos p).en_swap ≡ false
      → (m.segmentos p).direccion_base + (m.segmentos p).limite ≤ m.memoria_total_sistema
  -- No segment is shared, and `malloc` has not yet handed out the next pointer.
  pub sin_compartir : (p : ℕ) → veces p m ≤ 1
  pub nuevos : (p : ℕ) → m.proximo ≤ p → veces p m ≡ 0

-- A weight of the pointees, before and after a write through `p`.
module _ (w : Segmento → ℕ) (h : ℕ → Segmento) (p : ℕ) (s : Segmento) where
  igual_fuera : SoloEn p (λ q. w (h q)) (λ q. w (escribir_en h p s q))
  igual_fuera q ne = ap w (ground arith)

  peso-escribir_en : w (escribir_en h p s p) ≡ w s
  peso-escribir_en = ap w (ground arith)

  pub suma_tablas-escribir_en :
      (cs : List Contexto)
      → suma_tablas (es p) cs ≡ 1
      → suma_tablas (λ q. w (escribir_en h p s q)) cs + w (h p)
        ≡ suma_tablas (λ q. w (h q)) cs + w s
  suma_tablas-escribir_en cs uno =
      omega (arith, suma_tablas-uno p _ _ igual_fuera cs uno, peso-escribir_en)

  pub suma_tablas-escribir_en_ajeno :
      (cs : List Contexto)
      → suma_tablas (es p) cs ≡ 0
      → suma_tablas (λ q. w (escribir_en h p s q)) cs ≡ suma_tablas (λ q. w (h q)) cs
  suma_tablas-escribir_en_ajeno cs cero = sym (suma_tablas-cero p _ _ igual_fuera cs cero)

-- One pointee of the tables changes, and the holes with it, so that each address stays covered once.
pub Particion-cambio :
    (m : Mapa) (p : ℕ) (s : Segmento) (hs : List Hueco)
    → Particion m
    → veces p m ≡ 1
    → ((x : ℕ)
        → cobertura x hs + cubre_seg x s
          ≡ cobertura x m.lista_huecos_libres + cubre_seg x (m.segmentos p))
    → tamanio_total hs + bytes_seg s
      ≡ tamanio_total m.lista_huecos_libres + bytes_seg (m.segmentos p)
    → All (EnRango m.memoria_total_sistema) hs
    → (s.en_swap ≡ false → s.direccion_base + s.limite ≤ m.memoria_total_sistema)
    → Particion (record m { lista_huecos_libres = hs; segmentos = escribir_en m.segmentos p s })
Particion-cambio m p s hs v uno cob tam rango cabe = record {
  limite = v.limite;
  una_vez = λ x.
      let a = suma_tablas-escribir_en (cubre_seg x) m.segmentos p s m.lista_contextos uno in
      omega (arith, cob x) ∙ v.una_vez x;
  todo =
      let a = suma_tablas-escribir_en bytes_seg m.segmentos p s m.lista_contextos uno in
      omega (arith, tam, v.todo);
  huecos_en_rango = rango;
  segmentos_en_rango = λ q vive ram. elim (Bool-cases (p == q)) [
    | inl t ↦ rw t (cabe (rw t at ram))
    | inr t ↦ rw t (v.segmentos_en_rango q vive (rw t at ram))
  ];
  sin_compartir = v.sin_compartir;
  nuevos = v.nuevos;
}

-- A resident segment goes to SWAP: its bytes become a hole.
pub Particion-suspender :
    (c : Commons) (m : Mapa) (p : ℕ) (s : Segmento)
    → Particion m
    → veces p m ≡ 1
    → (m.segmentos p).en_swap ≡ false
    → s.en_swap ≡ true
    → Particion (record m {
      lista_huecos_libres =
          liberar_espacio_en_huecos c
            (m.segmentos p).direccion_base
            (m.segmentos p).limite
            m.lista_huecos_libres;
      segmentos = escribir_en m.segmentos p s;
    })
Particion-suspender c m p s v uno ram fuera =
    let lim = v.limite in
    let l =
      liberar-Liberado c m.memoria_total_sistema (m.segmentos p).direccion_base
        (m.segmentos p).limite m.lista_huecos_libres (omega arith) (v.segmentos_en_rango p uno ram)
        v.huecos_en_rango in
    Particion-cambio m p s _ v uno (λ x. rw (ram, fuera) (omega (arith, l.cobertura_mas x)))
      (rw (ram, fuera) (omega (arith, l.tamanio_mas))) l.en_rango (λ e. cc)

-- A segment in SWAP comes back to the front of a hole.
pub Particion-restaurar :
    (m : Mapa) (p : ℕ) (s : Segmento) (h : Hueco) (hs : List Hueco)
    → Particion m
    → veces p m ≡ 1
    → (m.segmentos p).en_swap ≡ true
    → s.en_swap ≡ false
    → s.direccion_base ≡ h.direccion_base
    → Recortado m.memoria_total_sistema s.limite h m.lista_huecos_libres hs
    → Particion (record m { lista_huecos_libres = hs; segmentos = escribir_en m.segmentos p s })
Particion-restaurar m p s h hs v uno fuera ram base r =
    Particion-cambio m p s hs v uno
      (λ x. rw (ram, fuera, base) (omega (arith, r.cobertura_menos x)))
      (rw (ram, fuera) (omega (arith, r.tamanio_menos))) r.en_rango
      (λ e. omega (arith, base, r.entra))
