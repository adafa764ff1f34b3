-- ===== src/KernelMemory/Fisica/Lectura.antt =====
-- `leer_bytes_globales` reads the flat memory, whichever sticks hold the bytes.
use tp_so_limpio.Base.{
  ℕ, zero, suc, ◌+◌, ◌-◌, ◌≤◌, ◌<◌, ◌^◌, ◌≡◌, ◌≢◌, refl, ap, ◌∙◌, sym, inl, inr, false, Option,
  none, some, arith, ◌==◌, Option-cases, add32, sub32, length, leer_plano, leer_plano-split,
  leer_plano-eq, take, drop,
}
use tp_so_limpio.MemoryStick.{MemoryStick, leer_memoria, datos, atender_cliente}
use tp_so_limpio.KernelMemory.Fisica.{
  Nodo, Fisica, buscar_ms_por_direccion_global, a_mover, pedir_lectura, leer_desde,
  leer_bytes_globales,
}
use tp_so_limpio.KernelMemory.Fisica.Plano.{Coherente, Sirve, byte, buscar_dentro, buscar_mismo}

-- A request for bytes that a stick has.
pub atender-lectura :
    (s : MemoryStick) (dir n : ℕ)
    → dir < 2 ^ 32
    → s.base ≤ dir
    → dir - s.base + n ≤ length s.memoria
    → atender_cliente s (leer_memoria dir n)
      ≡ some (s, datos (take n (drop (dir - s.base) s.memoria)))
unfolding atender_cliente
atender-lectura s dir n lim h k =
    let e : sub32 dir s.base ≡ dir - s.base = omega arith in rw e (ground arith)

-- A chunk is not empty, is no more than what is left, and stays within the stick.
pub a_mover_lem :
    (total : ℕ) (n : Nodo) (dir restantes : ℕ)
    → total < 2 ^ 32
    → n.base_global ≤ dir
    → dir < n.base_global + n.tamanio
    → n.base_global + n.tamanio ≤ total
    → restantes ≢ 0
    → (0 < a_mover n dir restantes)
      × (a_mover n dir restantes ≤ restantes)
      × (dir + a_mover n dir restantes ≤ n.base_global + n.tamanio)
a_mover_lem total n dir restantes lim h k cabe r = ground arith

leer_plano-none : (f : ℕ → Option ℕ) (d n : ℕ) → 0 < n → f d ≡ none → leer_plano f d n ≡ none
leer_plano-none f d zero h e = absurd (omega arith)
leer_plano-none f d (suc n) h e = rw e

module _ (total : ℕ) (f : Fisica) (coh : Coherente total f) where
  -- What the stick answers is what the flat memory holds in a range of its own.
  pub pedir_lectura_lem :
      (n : Nodo) (dir a : ℕ)
      → 0 < a
      → buscar_ms_por_direccion_global f.lista_memory_sticks dir ≡ some n
      → dir + a ≤ n.base_global + n.tamanio
      → pedir_lectura f n dir a ≡ leer_plano (byte f) dir a
  unfolding byte
  pedir_lectura_lem n dir a pos e cabe =
      let (h, k, val) =
        buscar_dentro total f.red coh.limite f.lista_memory_sticks dir n coh.nodos e in
      let lim = coh.limite in
      let tope = val.0 in
      elim (Option-cases (f.red n.socket_fd)) [
        | inl caida ↦
            let nada : byte f dir ≡ none = rw (e, caida) in
            rw caida (sym (leer_plano-none (byte f) dir a pos nada))
        | inr (s, viva) ↦
            let sirve : Sirve n (some s) = rw viva at val.1 in
            let (base, largo) = sirve in
            let b : dir - s.base ≡ dir - n.base_global = omega arith in
            rw (viva, atender-lectura s dir a (omega arith) (omega arith) (omega arith), b)
              (sym (
                leer_plano-eq (byte f) dir a (dir - n.base_global) s.memoria (omega arith) (λ j hj.
                  let otra =
                    buscar_mismo total f.red lim f.lista_memory_sticks dir (dir + j) n coh.nodos
                      coh.disjuntos e (omega arith) (omega arith) in
                  let resta : dir + j - n.base_global ≡ dir - n.base_global + j = omega arith in
                  rw (otra, viva, resta))))
      ]

  sin_nodo :
      (x : ℕ) → buscar_ms_por_direccion_global f.lista_memory_sticks x ≡ none → byte f x ≡ none
  unfolding byte
  sin_nodo x e = rw e

  leer_desde_lem :
      (fuel dir restantes : ℕ)
      → restantes < fuel
      → leer_desde fuel f dir restantes ≡ leer_plano (byte f) dir restantes
  unfolding leer_desde
  leer_desde_lem zero dir restantes h = absurd (omega arith)
  leer_desde_lem (suc fuel) dir zero h = refl
  leer_desde_lem (suc fuel) dir (suc m) h =
      let quedan : (suc m == 0) ≡ false = ground arith in
      elim (Option-cases (buscar_ms_por_direccion_global f.lista_memory_sticks dir)) [
        | inl nada ↦ let b : byte f dir ≡ none = sin_nodo dir nada in rw (quedan, nada, b)
        | inr (n, e) ↦
            let (p, q, val) =
              buscar_dentro total f.red coh.limite f.lista_memory_sticks dir n coh.nodos e in
            let lim = coh.limite in
            let tope = val.0 in
            let (pos, resto, cabe) = a_mover_lem total n dir (suc m) lim p q tope (omega arith) in
            let a = a_mover n dir (suc m) in
            let suma : suc m ≡ a + (suc m - a) = omega arith in
            let sig : add32 dir a ≡ dir + a = omega arith in
            rw
              (
                quedan,
                e,
                pedir_lectura_lem n dir a pos e cabe,
                sig,
                leer_desde_lem fuel (dir + a) (suc m - a) (omega arith),
              )
              (sym
                (ap (leer_plano (byte f) dir) suma ∙ leer_plano-split (byte f) dir a (suc m - a)))
      ]

  -- `leer_bytes_globales` returns exactly the bytes of the flat memory, also across the end of a
  -- stick, and fails exactly where an address of the range has no byte.
  pub leer_bytes_globales_lem :
      (dir n : ℕ) → leer_bytes_globales f dir n ≡ leer_plano (byte f) dir n
  unfolding leer_bytes_globales
  leer_bytes_globales_lem dir n = leer_desde_lem (suc n) dir n (omega arith)
