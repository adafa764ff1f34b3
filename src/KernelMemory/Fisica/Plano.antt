-- ===== src/KernelMemory/Fisica/Plano.antt =====
-- The flat view of the physical memory: which byte, if any, stands at a global address.
use tp_so_limpio.Base.{
  ℕ, ◌+◌, ◌-◌, ◌≤◌, ◌<◌, ◌^◌, ◌≡◌, inl, inr, true, false, Option, none, some, List, [], ◌∷◌, arith,
  ltb, leb, ◌&&◌, ◌>>=◌, Bool-cases, add32, length, get_elem?, All, subst,
}
use tp_so_limpio.MemoryStick.{MemoryStick}
use tp_so_limpio.KernelMemory.Fisica.{Nodo, Fisica, buscar_ms_por_direccion_global}

-- The stick at the other end of a node's socket, if any, serves the node's range.
abbrev pub Sirve : Nodo → Option MemoryStick → Type 0
Sirve n none = Unit
Sirve n (some s) = (s.base ≡ n.base_global) × (length s.memoria ≡ n.tamanio)

-- A node lies within the memory that has been connected so far, and in front of the later ones.
abbrev pub NodoValido : ℕ → (ℕ → Option MemoryStick) → Nodo → Type 0
NodoValido total red n = (n.base_global + n.tamanio ≤ total) × Sirve n (red n.socket_fd)

abbrev pub Disjuntos : List Nodo → Type 0
Disjuntos [] = Unit
Disjuntos (n ∷ ns) = All (λ (m : Nodo). n.base_global + n.tamanio ≤ m.base_global) ns × Disjuntos ns

pub record Coherente (total : ℕ) (f : Fisica) : Type 0 where
  pub limite : total < 2 ^ 32
  pub nodos : All (NodoValido total f.red) f.lista_memory_sticks
  pub disjuntos : Disjuntos f.lista_memory_sticks

-- The byte at a global address.
unfoldable pub byte : Fisica → ℕ → Option ℕ
byte f x = buscar_ms_por_direccion_global f.lista_memory_sticks x >>= λ ms.
    f.red ms.socket_fd >>= λ s. get_elem? s.memoria (x - ms.base_global)

-- What holds of every node holds of the one found, and the address lies in its range.
pub buscar-All {ℓ} :
    (P : Nodo → Type ℓ) (ns : List Nodo) (x : ℕ) (n : Nodo)
    → All P ns
    → buscar_ms_por_direccion_global ns x ≡ some n
    → P n × (n.base_global ≤ x) × (x < add32 n.base_global n.tamanio)
unfolding buscar_ms_por_direccion_global
buscar-All P [] x n v e = cc
buscar-All P (m ∷ ns) x n v e =
    elim (Bool-cases (leb m.base_global x && ltb x (add32 m.base_global m.tamanio))) [
      | inl t ↦
          let m-n : some m ≡ some n = rw t at e in
          let igual : m ≡ n = cc in
          subst (λ q. P q × (q.base_global ≤ x) × (x < add32 q.base_global q.tamanio)) igual
            (v.0, ground arith, ground arith)
      | inr f ↦ buscar-All P ns x n v.1 (rw f at e)
    ]

module _ (total : ℕ) (red : ℕ → Option MemoryStick) (lim : total < 2 ^ 32) where
  pub buscar_dentro :
      (ns : List Nodo) (x : ℕ) (n : Nodo)
      → All (NodoValido total red) ns
      → buscar_ms_por_direccion_global ns x ≡ some n
      → (n.base_global ≤ x) × (x < n.base_global + n.tamanio) × NodoValido total red n
  buscar_dentro ns x n v e =
      let (val, desde, hasta) = buscar-All (NodoValido total red) ns x n v e in
      let cabe = val.0 in (desde, omega arith, val)

  -- Every other address of that node's range finds the same node.
  pub buscar_mismo :
      (ns : List Nodo) (x y : ℕ) (n : Nodo)
      → All (NodoValido total red) ns
      → Disjuntos ns
      → buscar_ms_por_direccion_global ns x ≡ some n
      → n.base_global ≤ y
      → y < n.base_global + n.tamanio
      → buscar_ms_por_direccion_global ns y ≡ some n
  unfolding buscar_ms_por_direccion_global
  buscar_mismo [] x y n v d e h k = cc
  buscar_mismo (m ∷ ns) x y n v d e h k =
      let cabe = v.0.0 in
      elim (Bool-cases (leb m.base_global x && ltb x (add32 m.base_global m.tamanio))) [
        | inl t ↦
            let m-n : some m ≡ some n = rw t at e in
            let b : m.base_global ≡ n.base_global = cc in
            let s : m.tamanio ≡ n.tamanio = cc in
            let u : (leb m.base_global y && ltb y (add32 m.base_global m.tamanio)) ≡ true =
              ground arith in
            rw u m-n
        | inr f ↦
            let resto : buscar_ms_por_direccion_global ns x ≡ some n = rw f at e in
            let pasa =
              (buscar-All (λ q. m.base_global + m.tamanio ≤ q.base_global) ns x n d.0 resto).0 in
            let u : (leb m.base_global y && ltb y (add32 m.base_global m.tamanio)) ≡ false =
              ground arith in
            rw u (buscar_mismo ns x y n v.1 d.1 resto h k)
      ]
