-- ===== src/KernelScheduler/Coherencia.antt =====
-- kernel_scheduler/utilsKS/utilsKS.c: where each process stands. A place is the list of a state or,
-- with CMN, the queue of a level.
use tp_so_limpio.Base.{
  ℕ, ◌+◌, ◌≤◌, ◌<◌, ◌≡◌, ap, Bool, true, false, List, ◌==◌, length, ltb, if◌then◌else◌, arith,
  Bool-cases, inl, inr,
}
use tp_so_limpio.KernelScheduler.Estado.{
  Estado, new, rdy, rnn, bck, s_bck, s_rdy, ext, no_estado, Pcb, Listas, Nivel, Politica, cmn, otra,
  InfoConfig, Ks, lista_de, con_lista,
}
use tp_so_limpio.KernelScheduler.Veces.{marca, veces, cola_de, en_niveles}

pub data Lugar : Type 0 where
  lista : Estado → Lugar
  nivel : ℕ → Lugar

-- The values of the enumeration.
abbrev pub codigo : Estado → ℕ
codigo new = 0
codigo rdy = 1
codigo rnn = 2
codigo bck = 3
codigo s_bck = 4
codigo s_rdy = 5
codigo ext = 6
codigo no_estado = 7

abbrev pub mismo_lugar : Lugar → Lugar → Bool
mismo_lugar (lista e) (lista e') = codigo e == codigo e'
mismo_lugar (nivel n) (nivel n') = n == n'
mismo_lugar _ _ = false

abbrev pub ocupantes : Lugar → Listas → List Nivel → List ℕ
ocupantes (lista e) l vs = lista_de e l
ocupantes (nivel n) l vs = cola_de n vs

-- Where a process of a state and a priority belongs.
abbrev pub lugar_listo : Politica → ℕ → Lugar
lugar_listo cmn n = nivel n
lugar_listo _ n = lista rdy

abbrev pub lugar_segun : Politica → Estado → ℕ → Lugar
lugar_segun pol rdy n = lugar_listo pol n
lugar_segun pol e n = lista e

abbrev pub lugar_de : Politica → Pcb → Lugar
lugar_de pol x = lugar_segun pol x.estado_pcb x.prioridad

-- A process of that state and priority has a list or queue to stand in.
abbrev pub HayLugar : Politica → Estado → ℕ → ℕ → Type 0
HayLugar pol no_estado n cantidad = ⊥
HayLugar otra rdy n cantidad = ⊥
HayLugar cmn rdy n cantidad = n < cantidad
HayLugar pol e n cantidad = Unit

-- How often pointer `q` should stand in a place.
abbrev pub esperadas : Politica → (ℕ → Pcb) → ℕ → ℕ → Lugar → ℕ
esperadas pol h prox q l = if ltb q prox then marca (mismo_lugar l (lugar_de pol (h q))) else 0

abbrev pub Ubicados : Politica → (ℕ → Pcb) → ℕ → Listas → List Nivel → Type 0
Ubicados pol h prox ls vs =
    (q : ℕ) (l : Lugar) → veces q (ocupantes l ls vs) ≡ esperadas pol h prox q l

-- The processes that are ready, in `listasProcesos->rdy` or in a level.
abbrev pub listos : Listas → List Nivel → ℕ
listos ls vs = length ls.rdy + en_niveles vs

-- The semaphore of READY counts the ready processes, and that of SUSPENDED READY no fewer than there
-- are.
pub record Semaforos (ls : Listas) (vs : List Nivel) (ready s_ready : ℕ) : Type 0 where
  pub hay_ready : ready ≡ listos ls vs
  pub hay_s_ready : length ls.s_rdy ≤ s_ready

-- Each process stands exactly once in the list of its state and nowhere else, its PID is its own, its
-- priority has a queue, and the semaphores agree with the lists.
pub record CoherenteEn (pol : Politica) (h : ℕ → Pcb) (prox contador : ℕ) (ls : Listas)
    (vs : List Nivel) (ready s_ready : ℕ) : Type 0 where
  pub ubicados : Ubicados pol h prox ls vs
  pub pids : (q : ℕ) → q < prox → (h q).pid ≡ q
  pub contados : contador ≡ prox
  pub validas : (q : ℕ) → q < prox → HayLugar pol rdy (h q).prioridad (length vs)
  pub semaforos : Semaforos ls vs ready s_ready

abbrev pub Coherente : InfoConfig → Ks → Type 0
Coherente cfg st =
    CoherenteEn cfg.politica st.pcbs st.proximo st.contador_pid st.listas st.niveles
      st.sem_hay_ready st.sem_hay_s_ready

pub lista_de-con_lista :
    (e e' : Estado) (xs : List ℕ) (l : Listas)
    → (codigo e' < 7)
    → lista_de e (con_lista e' xs l) ≡ (if codigo e == codigo e' then xs else lista_de e l)
lista_de-con_lista new e' xs l h = ground arith
lista_de-con_lista rdy e' xs l h = ground arith
lista_de-con_lista rnn e' xs l h = ground arith
lista_de-con_lista bck e' xs l h = ground arith
lista_de-con_lista s_bck e' xs l h = ground arith
lista_de-con_lista s_rdy e' xs l h = ground arith
lista_de-con_lista ext e' xs l h = ground arith
lista_de-con_lista no_estado e' xs l h = ground arith

pub codigo_inyectivo : (a b : Estado) → codigo a ≡ codigo b → a ≡ b
codigo_inyectivo new b h = ground arith
codigo_inyectivo rdy b h = ground arith
codigo_inyectivo rnn b h = ground arith
codigo_inyectivo bck b h = ground arith
codigo_inyectivo s_bck b h = ground arith
codigo_inyectivo s_rdy b h = ground arith
codigo_inyectivo ext b h = ground arith
codigo_inyectivo no_estado b h = ground arith

-- How often a pointer stands in a place after the list of a state was replaced.
pub veces-con_lista :
    (e : Estado) (xs : List ℕ) (ls : Listas) (vs : List Nivel) (q n : ℕ) (m : Lugar)
    → codigo e < 7
    → veces q xs ≡ veces q (lista_de e ls) + n
    → veces q (ocupantes m (con_lista e xs ls) vs)
      ≡ veces q (ocupantes m ls vs) + (if mismo_lugar m (lista e) then n else 0)
veces-con_lista e xs ls vs q n (nivel k) h s = omega arith
veces-con_lista e xs ls vs q n (lista m) h s = elim (Bool-cases (codigo m == codigo e)) [
  | inl si ↦
      let ig : m ≡ e = codigo_inyectivo m e (ground arith) in
      rw (lista_de-con_lista m e xs ls h, si, ig) s
  | inr no' ↦ rw (lista_de-con_lista m e xs ls h, no') (omega arith)
]

pub veces-sin_lista :
    (e : Estado) (xs : List ℕ) (ls : Listas) (vs : List Nivel) (q n : ℕ) (m : Lugar)
    → codigo e < 7
    → veces q (lista_de e ls) ≡ veces q xs + n
    → veces q (ocupantes m ls vs)
      ≡ veces q (ocupantes m (con_lista e xs ls) vs) + (if mismo_lugar m (lista e) then n else 0)
veces-sin_lista e xs ls vs q n (nivel k) h s = omega arith
veces-sin_lista e xs ls vs q n (lista m) h s = elim (Bool-cases (codigo m == codigo e)) [
  | inl si ↦
      let ig : m ≡ e = codigo_inyectivo m e (ground arith) in
      rw (lista_de-con_lista m e xs ls h, si, ig) s
  | inr no' ↦ rw (lista_de-con_lista m e xs ls h, no') (omega arith)
]

-- A process that counts as nowhere among those without a state has one.
pub sin_lugar :
    (pol : Politica) (e : Estado) (n : ℕ)
    → marca (mismo_lugar (lista no_estado) (lugar_segun pol e n)) ≡ 0
    → codigo e < 7
sin_lugar pol new n h = omega arith
sin_lugar pol rdy n h = omega arith
sin_lugar pol rnn n h = omega arith
sin_lugar pol bck n h = omega arith
sin_lugar pol s_bck n h = omega arith
sin_lugar pol s_rdy n h = omega arith
sin_lugar pol ext n h = omega arith
sin_lugar pol no_estado n h = absurd (omega arith)

-- A process that could be ready could be in any state.
pub hay_lugar :
    (pol : Politica) (e : Estado) (n cantidad : ℕ)
    → codigo e < 7
    → HayLugar pol rdy n cantidad
    → HayLugar pol e n cantidad
hay_lugar pol rdy n c d h = h
hay_lugar pol new n c d h = tt
hay_lugar pol rnn n c d h = tt
hay_lugar pol bck n c d h = tt
hay_lugar pol s_bck n c d h = tt
hay_lugar pol s_rdy n c d h = tt
hay_lugar pol ext n c d h = tt
hay_lugar pol no_estado n c d h = absurd (omega arith)

pub mismo_lugar-eq : (a b : Lugar) → mismo_lugar a b ≡ true → a ≡ b
mismo_lugar-eq (lista e) (lista e') h = ap lista (codigo_inyectivo e e' (ground arith))
mismo_lugar-eq (nivel n) (nivel n') h = ap nivel (ground arith)
mismo_lugar-eq (lista e) (nivel n) h = cc
mismo_lugar-eq (nivel n) (lista e) h = cc

-- Who stands in a place exists and belongs there.
pub presente-lugar :
    (cfg : InfoConfig) (st : Ks) (p : ℕ) (l : Lugar)
    → Coherente cfg st
    → 0 < veces p (ocupantes l st.listas st.niveles)
    → (p < st.proximo) × (l ≡ lugar_de cfg.politica (st.pcbs p))
presente-lugar cfg st p l v h =
    let u = v.ubicados p l in
    elim (Bool-cases (mismo_lugar l (lugar_de cfg.politica (st.pcbs p)))) [
      | inl si ↦ (ground arith, mismo_lugar-eq l (lugar_de cfg.politica (st.pcbs p)) si)
      | inr sin ↦ absurd (ground arith)
    ]
