-- ===== src/KernelMemory/Fisica/Escritura.antt =====
-- `escribir_bytes_globales` writes the flat memory, and leaves the rest of it alone.
use tp_so_limpio.Base.{
  ℕ, zero, suc, ◌+◌, ◌-◌, ◌≤◌, ◌<◌, ◌^◌, ◌≡◌, refl, ◌∙◌, inl, inr, true, false, none, some, List,
  [], ◌∷◌, arith, ltb, leb, ◌==◌, ◌&&◌, if◌then◌else◌, Bool-cases, ==_iff, Option-cases, add32,
  sub32, length, get_elem?, All-map, take, drop, memcpy, length-memcpy, get_elem?-memcpy,
  get_elem?-take, get_elem?-drop, length-take, length-drop,
}
use tp_so_limpio.MemoryStick.{MemoryStick, escribir_memoria, resp_ok, atender_cliente}
use tp_so_limpio.KernelMemory.Fisica.{
  Nodo, Fisica, buscar_ms_por_direccion_global, a_mover, pedir_escritura, conectar, escribir_desde,
  escribir_bytes_globales,
}
use tp_so_limpio.KernelMemory.Fisica.Plano.{
  Coherente, Sirve, NodoValido, byte, buscar_dentro, buscar_mismo,
}
use tp_so_limpio.KernelMemory.Fisica.Lectura.{a_mover_lem}

-- Every address of the range has a byte.
abbrev pub Mapeado : Fisica → ℕ → ℕ → Type 0
Mapeado f d n = (x : ℕ) → d ≤ x → x < d + n → (b : ℕ) × (byte f x ≡ some b)

-- The bytes `bs` stand from address `d` on, and all else is as it was.
pub record Escrito (total : ℕ) (f g : Fisica) (d : ℕ) (bs : List ℕ) : Type 0 where
  pub mismos_nodos : g.lista_memory_sticks ≡ f.lista_memory_sticks
  pub coherente : Coherente total g
  pub bytes :
      (x : ℕ)
      → byte g x ≡ (if leb d x && ltb x (d + length bs) then get_elem? bs (x - d) else byte f x)

-- The stick, after a write that falls within it.
abbrev con_bytes : MemoryStick → ℕ → List ℕ → MemoryStick
con_bytes s off bs = record s { memoria = memcpy s.memoria off bs }

atender-escritura :
    (s : MemoryStick) (dir : ℕ) (bs : List ℕ)
    → dir < 2 ^ 32
    → s.base ≤ dir
    → dir - s.base + length bs ≤ length s.memoria
    → atender_cliente s (escribir_memoria dir bs) ≡ some (con_bytes s (dir - s.base) bs, resp_ok)
unfolding atender_cliente
atender-escritura s dir bs lim h k =
    let e : sub32 dir s.base ≡ dir - s.base = omega arith in rw e (ground arith)

module _ (total : ℕ) (f : Fisica) (coh : Coherente total f) where
  -- The state after a chunk is written to the stick `s` of node `n`.
  trozo-Escrito :
      (n : Nodo) (s : MemoryStick) (dir : ℕ) (bs : List ℕ)
      → f.red n.socket_fd ≡ some s
      → buscar_ms_por_direccion_global f.lista_memory_sticks dir ≡ some n
      → n.base_global ≤ dir
      → dir + length bs ≤ n.base_global + n.tamanio
      → NodoValido total f.red n
      → Escrito total f
          (record f { red = conectar f.red n.socket_fd (some (con_bytes s (dir - s.base) bs)) })
          dir
          bs
  unfolding byte
  trozo-Escrito n s dir bs viva e h cabe val =
      let (base, largo) : Sirve n (some s) = rw viva at val.1 in
      let nuevo = con_bytes s (dir - s.base) bs in
      let lim = coh.limite in
      record {
        mismos_nodos = refl;
        coherente = record {
          limite = coh.limite;
          nodos =
              All-map (NodoValido total f.red)
                (NodoValido total (conectar f.red n.socket_fd (some nuevo))) f.lista_memory_sticks
                (λ m v. elim (Bool-cases (n.socket_fd == m.socket_fd)) [
                  | inl t ↦
                      let mismo : n.socket_fd ≡ m.socket_fd = (==_iff _ _).0 t in
                      let (mb, ml) : Sirve m (some s) = rw (← mismo, viva) at v.1 in
                      rw t (v.0, (mb, length-memcpy s.memoria (dir - s.base) bs ∙ ml))
                  | inr t ↦ rw t v
                ])
                coh.nodos;
          disjuntos = coh.disjuntos;
        };
        bytes = λ x. elim (Bool-cases (leb dir x && ltb x (dir + length bs))) [
          | inl t ↦
              let otra =
                buscar_mismo total f.red lim f.lista_memory_sticks dir x n coh.nodos coh.disjuntos e
                  (ground arith) (ground arith) in
              let igual : (n.socket_fd == n.socket_fd) ≡ true = ground arith in
              let i : x - n.base_global - (dir - s.base) ≡ x - dir = ground arith in
              let u : (leb (dir - s.base) (x - n.base_global)
                    && ltb (x - n.base_global) (dir - s.base + length bs))
                  ≡ true =
                ground arith in
              rw (
                t,
                otra,
                igual,
                get_elem?-memcpy s.memoria (dir - s.base) bs (x - n.base_global) (omega arith),
                u,
                i,
              )
          | inr t ↦ rw t (fuera x t)
        ];
      }
    where
      fuera :
          (x : ℕ)
          → (leb dir x && ltb x (dir + length bs)) ≡ false
          → byte
              (record f { red = conectar f.red n.socket_fd (some (con_bytes s (dir - s.base) bs)) })
              x
            ≡ byte f x
      fuera x t = elim (Option-cases (buscar_ms_por_direccion_global f.lista_memory_sticks x)) [
        | inl nada ↦ rw nada
        | inr (m, hay) ↦
            let (a, b, v) =
              buscar_dentro total f.red coh.limite f.lista_memory_sticks x m coh.nodos hay in
            elim (Bool-cases (n.socket_fd == m.socket_fd)) [
              | inl q ↦
                  let mismo : n.socket_fd ≡ m.socket_fd = (==_iff _ _).0 q in
                  let mviva : f.red m.socket_fd ≡ some s = rw (← mismo) viva in
                  let (mb, ml) : Sirve m (some s) = rw mviva at v.1 in
                  let (nb, nl) : Sirve n (some s) = rw viva at val.1 in
                  let u : (leb (dir - s.base) (x - m.base_global)
                        && ltb (x - m.base_global) (dir - s.base + length bs))
                      ≡ false =
                    ground arith in
                  rw (
                    hay,
                    q,
                    mviva,
                    get_elem?-memcpy s.memoria (dir - s.base) bs (x - m.base_global) (omega arith),
                    u,
                  )
              | inr q ↦ rw (hay, q)
            ]
      ]

-- Writing nothing.
Escrito-nil : (total : ℕ) (f : Fisica) (d : ℕ) → Coherente total f → Escrito total f f d []
Escrito-nil total f d coh = record {
  mismos_nodos = refl;
  coherente = coh;
  bytes = λ x. let t : (leb d x && ltb x (d + 0)) ≡ false = ground arith in rw t;
}

-- A write of the first `a` bytes, then one of the rest behind them.
Escrito-trans :
    (total : ℕ) (f g h : Fisica) (d a : ℕ) (bs : List ℕ)
    → a ≤ length bs
    → Escrito total f g d (take a bs)
    → Escrito total g h (d + a) (drop a bs)
    → Escrito total f h d bs
Escrito-trans total f g h d a bs cabe p q =
    let lt = length-take a bs cabe in
    let ld : length (drop a bs) + a ≡ length bs = elim (length-drop a bs) [
      | inl e ↦ e
      | inr k ↦ absurd (omega arith)
    ] in
    record {
      mismos_nodos = q.mismos_nodos ∙ p.mismos_nodos;
      coherente = q.coherente;
      bytes = λ x. ground (
        arith,
        p.bytes x,
        q.bytes x,
        lt,
        ld,
        get_elem?-take bs a (x - d),
        get_elem?-drop bs a (x - (d + a)),
      );
    }

-- An address with a byte belongs to a stick that is still connected.
byte-some :
    (f : Fisica) (x b : ℕ)
    → byte f x ≡ some b
    → (n : Nodo) × (s : MemoryStick) × (buscar_ms_por_direccion_global f.lista_memory_sticks x
        ≡ some n)
      × (f.red n.socket_fd ≡ some s)
unfolding byte
byte-some f x b e = elim (Option-cases (buscar_ms_por_direccion_global f.lista_memory_sticks x)) [
  | inl nada ↦ let mal : none ≡ some b = rw nada at e in cc
  | inr (n, hay) ↦ elim (Option-cases (f.red n.socket_fd)) [
    | inl caida ↦ let mal : none ≡ some b = rw (hay, caida) at e in cc
    | inr (s, viva) ↦ (n, s, hay, viva)
  ]
]

module _ (total : ℕ) where
  -- The first round of the loop.
  primer-Escrito :
      (f : Fisica) (n : Nodo) (s : MemoryStick) (dir : ℕ) (bs : List ℕ)
      → Coherente total f
      → buscar_ms_por_direccion_global f.lista_memory_sticks dir ≡ some n
      → f.red n.socket_fd ≡ some s
      → dir + length bs ≤ n.base_global + n.tamanio
      → Escrito total f (pedir_escritura f n dir bs) dir bs
  primer-Escrito f n s dir bs coh hay viva cabe =
      let (h, k, val) =
        buscar_dentro total f.red coh.limite f.lista_memory_sticks dir n coh.nodos hay in
      let lim = coh.limite in
      let tope = val.0 in
      let (base, largo) : Sirve n (some s) = rw viva at val.1 in
      rw
        (
          viva,
          atender-escritura s dir bs (omega arith) (omega arith) (omega arith),
          pedir_escritura,
        )
        (trozo-Escrito total f coh n s dir bs viva hay h cabe val)

  -- What is left to write still has bytes under it.
  Mapeado-resto :
      (f g : Fisica) (d a : ℕ) (bs : List ℕ)
      → a ≤ length bs
      → Escrito total f g d (take a bs)
      → Mapeado f d (length bs)
      → Mapeado g (d + a) (length (drop a bs))
  Mapeado-resto f g d a bs cabe p mapa = λ x desde hasta.
      let lt = length-take a bs cabe in
      let ld : length (drop a bs) + a ≡ length bs = elim (length-drop a bs) [
        | inl e ↦ e
        | inr k ↦ absurd (omega arith)
      ] in
      let (b, e) = mapa x (omega arith) (omega arith) in (b, ground (arith, p.bytes x))

  escribir_desde-Escrito :
      (fuel : ℕ) (f : Fisica) (dir : ℕ) (bs : List ℕ)
      → length bs < fuel
      → Coherente total f
      → Mapeado f dir (length bs)
      → Escrito total f (escribir_desde fuel f dir bs) dir bs
  unfolding escribir_desde
  escribir_desde-Escrito zero f dir bs h coh mapa = absurd (omega arith)
  escribir_desde-Escrito (suc fuel) f dir [] h coh mapa = Escrito-nil total f dir coh
  escribir_desde-Escrito (suc fuel) f dir (b ∷ bs) h coh mapa =
      let (v, vale) = mapa dir (omega arith) (omega arith) in
      let (n, s, hay, viva) = byte-some f dir v vale in
      let (p, q, val) =
        buscar_dentro total f.red coh.limite f.lista_memory_sticks dir n coh.nodos hay in
      let a = a_mover n dir (length (b ∷ bs)) in
      let lim = coh.limite in
      let tope = val.0 in
      let (pos, resto, cabe) =
        a_mover_lem total n dir (length (b ∷ bs)) lim p q tope (omega arith) in
      let lt = length-take a (b ∷ bs) resto in
      let uno = primer-Escrito f n s dir (take a (b ∷ bs)) coh hay viva (omega arith) in
      let ld : length (drop a (b ∷ bs)) + a ≡ length (b ∷ bs) = elim (length-drop a (b ∷ bs)) [
        | inl e ↦ e
        | inr k ↦ absurd (omega arith)
      ] in
      let sig : add32 dir a ≡ dir + a = omega arith in
      rw (hay, sig, escribir_desde)
        (Escrito-trans total f _ _ dir a (b ∷ bs) resto uno (
          escribir_desde-Escrito fuel _ (dir + a) (drop a (b ∷ bs)) (omega arith) uno.coherente
            (Mapeado-resto f _ dir a (b ∷ bs) resto uno mapa)))

  -- A write to addresses that all have a byte puts exactly the given bytes there, and changes no
  -- other byte and no node.
  pub escribir_bytes_globales-Escrito :
      (f : Fisica) (dir : ℕ) (bs : List ℕ)
      → Coherente total f
      → Mapeado f dir (length bs)
      → Escrito total f (escribir_bytes_globales f dir bs) dir bs
  unfolding escribir_bytes_globales
  escribir_bytes_globales-Escrito f dir bs coh mapa =
      escribir_desde-Escrito (suc (length bs)) f dir bs (omega arith) coh mapa
