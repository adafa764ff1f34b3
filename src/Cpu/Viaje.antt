-- ===== src/Cpu/Viaje.antt =====
-- A context on its way from Kernel Memory to a CPU and back.
use tp_so_limpio.Base.{
  ℕ, zero, suc, ◌+◌, ◌*◌, ◌%◌, ◌^◌, ◌<◌, ◌≡◌, refl, ap, inl, inr, false, some, List, [], ◌∷◌, arith,
  leb, ltb, ◌==◌, ◌||◌, not, ◌>>=◌, Bool-cases, length, get_elem?, drop, All, map,
}
use tp_so_limpio.GlobalUtils.{entero, ok}
use tp_so_limpio.GlobalUtils.Paquete.{bytes_de, CampoValido, valor-bytes, tamanio_paquete, armado}
use tp_so_limpio.KernelMemory.Estado.{Segmento, Registros, Contexto, Mapa, buscar_contexto}
use tp_so_limpio.KernelMemory.Contextos.{
  con_registros, campos_segmentos, campos_registros, campos_contexto, enviar_contexto_cpu,
  leer_campo, leer_registros, drenar, leer_mensajes_registros, leer_entero, recibir_contexto_cpu,
}
use tp_so_limpio.Cpu.Contexto.{
  SegmentoCpu, ContextoCpu, leer_tabla, recibir_contexto, enviar_tabla,
  enviar_contexto_a_kernel_memory,
}

-- Each register holds a value of its C type.
pub record RegistrosValidos (r : Registros) : Type 0 where
  pub pc : r.pc < 2 ^ 32
  pub ax : r.ax < 256
  pub bx : r.bx < 256
  pub cx : r.cx < 256
  pub dx : r.dx < 256
  pub eax : r.eax < 2 ^ 32
  pub ebx : r.ebx < 2 ^ 32
  pub ecx : r.ecx < 2 ^ 32
  pub edx : r.edx < 2 ^ 32
  pub si : r.si < 2 ^ 32
  pub di : r.di < 2 ^ 32

abbrev pub SegmentoValido : Segmento → Type 0
SegmentoValido s = (s.id_segmento < 2 ^ 32) × (s.direccion_base < 2 ^ 32) × (s.limite < 2 ^ 32)

-- A segment as the CPU sees it.
abbrev pub vista : Segmento → SegmentoCpu
vista s = record { id_segmento = s.id_segmento; base = s.direccion_base; tamanio = s.limite }

leer_campo-cuatro :
    (paquete : List (List ℕ)) (i v : ℕ)
    → v < 2 ^ 32
    → get_elem? paquete i ≡ some (bytes_de 4 v)
    → leer_campo 4 paquete i ≡ some v
unfolding leer_campo
leer_campo-cuatro paquete i v h e = rw e (ap some (valor-bytes v h))

leer_campo-uno :
    (paquete : List (List ℕ)) (i v : ℕ)
    → v < 256
    → get_elem? paquete i ≡ some (bytes_de 1 v)
    → leer_campo 1 paquete i ≡ some v
unfolding leer_campo
leer_campo-uno paquete i v h e = let k : v % 256 + 256 * 0 ≡ v = omega arith in rw e (ap some k)

drop-cabeza :
    (xs : List (List ℕ)) (l : ℕ) (y : List ℕ) (ys : List (List ℕ))
    → drop l xs ≡ y ∷ ys
    → (get_elem? xs l ≡ some y) × (drop (l + 1) xs ≡ ys)
drop-cabeza [] zero y ys e = cc
drop-cabeza [] (suc l) y ys e = cc
drop-cabeza (x ∷ xs) zero y ys e = (ground arith, ground arith)
drop-cabeza (x ∷ xs) (suc l) y ys e =
    let k : suc l + 1 ≡ suc (l + 1) = omega arith in rw k (drop-cabeza xs l y ys e)

module _ (h : ℕ → Segmento) where
  leer_tabla-campos :
      (paquete : List (List ℕ)) (ps : List ℕ) (pos : ℕ)
      → drop pos paquete ≡ campos_segmentos h ps
      → All (λ p. SegmentoValido (h p)) ps
      → leer_tabla paquete (length ps) pos ≡ some (map (λ p. vista (h p)) ps)
  unfolding leer_tabla campos_segmentos
  leer_tabla-campos paquete [] pos e v = refl
  leer_tabla-campos paquete (p ∷ ps) pos e v =
      let (a, e1) = drop-cabeza paquete pos _ _ e in
      let (b, e2) = drop-cabeza paquete (pos + 1) _ _ e1 in
      let m2 : pos + 1 + 1 ≡ pos + 2 = omega arith in
      let (c, e3) = drop-cabeza paquete (pos + 2) _ _ (rw m2 at e2) in
      let m3 : pos + 2 + 1 ≡ pos + 3 = omega arith in
      let ih = leer_tabla-campos paquete ps (pos + 3) (rw m3 at e3) v.1 in
      let (vi, vb, vl) = v.0 in
      rw
        (
          leer_campo-cuatro paquete pos _ vi a,
          leer_campo-cuatro paquete (pos + 1) _ vb b,
          leer_campo-cuatro paquete (pos + 2) _ vl c,
          ih,
        )
        refl

  campos_segmentos-validos : (ps : List ℕ) → All CampoValido (campos_segmentos h ps)
  unfolding campos_segmentos
  campos_segmentos-validos [] = tt
  campos_segmentos-validos (p ∷ ps) =
      (omega arith, (omega arith, (omega arith, campos_segmentos-validos ps)))

  length-campos_segmentos : (ps : List ℕ) → length (campos_segmentos h ps) ≡ length ps * 3
  unfolding campos_segmentos
  length-campos_segmentos [] = refl
  length-campos_segmentos (p ∷ ps) = omega (arith, length-campos_segmentos ps)

  tamanio-campos_segmentos :
      (ps : List ℕ) → tamanio_paquete (campos_segmentos h ps) ≡ 24 * length ps
  unfolding campos_segmentos tamanio_paquete
  tamanio-campos_segmentos [] = refl
  tamanio-campos_segmentos (p ∷ ps) = omega (arith, tamanio-campos_segmentos ps)

  tamanio-campos_contexto :
      (c : Contexto) → tamanio_paquete (campos_contexto h c) ≡ 92 + 24 * length c.tabla_segmentos
  unfolding tamanio_paquete
  tamanio-campos_contexto c = omega (arith, tamanio-campos_segmentos c.tabla_segmentos)

  campos_contexto-validos : (c : Contexto) → All CampoValido (campos_contexto h c)
  campos_contexto-validos c =
      let k : (0 < 4) × (4 < 2 ^ 31) = omega arith in
      let b : (0 < 1) × (1 < 2 ^ 31) = omega arith in
      (
        k,
        (
          k,
          (
            b,
            (
              b,
              (
                b,
                (b, (k, (k, (k, (k, (k, (k, (k, campos_segmentos-validos c.tabla_segmentos)))))))),
              ),
            ),
          ),
        ),
      )

leer_registros-campos :
    (x : List ℕ) (r : Registros) (resto : List (List ℕ))
    → RegistrosValidos r
    → leer_registros (x ∷ campos_registros r resto) ≡ some r
unfolding leer_registros
leer_registros-campos x r resto v =
    let p = x ∷ campos_registros r resto in
    rw
      (
        leer_campo-cuatro p 1 _ v.pc refl,
        leer_campo-uno p 2 _ v.ax refl,
        leer_campo-uno p 3 _ v.bx refl,
        leer_campo-uno p 4 _ v.cx refl,
        leer_campo-uno p 5 _ v.dx refl,
        leer_campo-cuatro p 6 _ v.eax refl,
        leer_campo-cuatro p 7 _ v.ebx refl,
        leer_campo-cuatro p 8 _ v.ecx refl,
        leer_campo-cuatro p 9 _ v.edx refl,
        leer_campo-cuatro p 10 _ v.si refl,
        leer_campo-cuatro p 11 _ v.di refl,
        leer_registros,
      )
      refl

-- While the packet of a context, 92 bytes and 24 for each segment, has less than 2 ^ 31 bytes, what the
-- CPU takes from it is that context: the process, every register and, in order, the number, base and
-- limit of every segment.
pub recibir-enviar :
    (m : Mapa) (pid : ℕ) (c : Contexto)
    → buscar_contexto m.lista_contextos pid ≡ some c
    → c.pid < 2 ^ 32
    → RegistrosValidos c.registros
    → 92 + 24 * length c.tabla_segmentos < 2 ^ 31
    → All (λ p. SegmentoValido (m.segmentos p)) c.tabla_segmentos
    → (enviar_contexto_cpu m pid >>= recibir_contexto)
      ≡ some (record {
        pid = c.pid;
        registros = c.registros;
        tabla_segmentos = map (λ p. vista (m.segmentos p)) c.tabla_segmentos;
      })
unfolding enviar_contexto_cpu recibir_contexto
recibir-enviar m pid c hay vp vr pocos vs =
    let paq = campos_contexto m.segmentos c in
    let n = length c.tabla_segmentos in
    let largo = length-campos_segmentos m.segmentos c.tabla_segmentos in
    let (stream, sale, entra) =
      armado paq (campos_contexto-validos m.segmentos c)
        (omega (arith, tamanio-campos_contexto m.segmentos c)) in
    let bastan : ltb (length paq) 13 ≡ false = ground (arith, largo) in
    let cuadra : (leb (2 ^ 31) n || not (length paq == (13 + n * 3) % 2 ^ 32)) ≡ false =
      ground (arith, largo) in
    rw
      (
        hay,
        sale,
        entra,
        bastan,
        leer_campo-cuatro paq 0 _ vp refl,
        leer_registros-campos _ c.registros _ vr,
        leer_campo-cuatro paq 12 n (omega arith) refl,
        cuadra,
        leer_tabla-campos m.segmentos paq c.tabla_segmentos 13 refl vs,
      )
      refl

drenar-tabla : (ss : List SegmentoCpu) → drenar (length ss) (enviar_tabla ss) ≡ some []
unfolding drenar enviar_tabla
drenar-tabla [] = refl
drenar-tabla (s ∷ ss) = drenar-tabla ss

-- The registers are those of the context found, and nothing else of it changes.
buscar-con_registros :
    (r : Registros) (cs : List Contexto) (pid : ℕ) (c : Contexto)
    → buscar_contexto cs pid ≡ some c
    → buscar_contexto (con_registros r cs pid) pid ≡ some (record c { registros = r })
unfolding buscar_contexto con_registros
buscar-con_registros r [] pid c e = cc
buscar-con_registros r (d ∷ cs) pid c e = elim (Bool-cases (d.pid == pid)) [
  | inl t ↦
      let z : some d ≡ some c = rw t at e in
      rw (t, t) (ap (λ o. o >>= λ (k : Contexto). some (record k { registros = r })) z)
  | inr t ↦ rw (t, t, con_registros, buscar_contexto) (buscar-con_registros r cs pid c (rw t at e))
]

leer_mensajes-enviados :
    (k : ContextoCpu)
    → RegistrosValidos k.registros
    → leer_entero (enviar_contexto_a_kernel_memory k) >>= (λ p. leer_mensajes_registros p.1)
      ≡ some (k.registros, entero (length k.tabla_segmentos) ∷ enviar_tabla k.tabla_segmentos)
unfolding leer_mensajes_registros enviar_contexto_a_kernel_memory
leer_mensajes-enviados k v =
    let a : k.registros.ax % 256 ≡ k.registros.ax = omega (arith, v.ax) in
    let b : k.registros.bx % 256 ≡ k.registros.bx = omega (arith, v.bx) in
    let c : k.registros.cx % 256 ≡ k.registros.cx = omega (arith, v.cx) in
    let d : k.registros.dx % 256 ≡ k.registros.dx = omega (arith, v.dx) in rw (a, b, c, d) refl

-- What a CPU sends when it gives a process up is stored whole: Kernel Memory answers OK, no message is
-- left over, and the process's context has the CPU's registers and keeps its own segment table.
pub recibir_contexto_cpu-enviar :
    (k : ContextoCpu) (cs : List Contexto) (c : Contexto)
    → RegistrosValidos k.registros
    → length k.tabla_segmentos < 2 ^ 31
    → buscar_contexto cs k.pid ≡ some c
    → (recibir_contexto_cpu (enviar_contexto_a_kernel_memory k) cs
        ≡ some (con_registros k.registros cs k.pid, ok, []))
      × (buscar_contexto (con_registros k.registros cs k.pid) k.pid
          ≡ some (record c { registros = k.registros }))
unfolding recibir_contexto_cpu enviar_contexto_a_kernel_memory
recibir_contexto_cpu-enviar k cs c v pocos hay =
    let no_negativa : leb (2 ^ 31) (length k.tabla_segmentos) ≡ false = ground arith in
    (
      rw (leer_mensajes-enviados k v, no_negativa, drenar-tabla k.tabla_segmentos, hay) refl,
      buscar-con_registros k.registros cs k.pid c hay,
    )
