-- ===== src/Cpu/Sticks.antt =====
-- cpu/src/cliente.c: a Memory Stick that connects while the CPU runs. The Kernel Scheduler tells the
-- CPU of it by a flat buffer, in its answer of kernel_scheduler/src/server/src/server.c, desalojo.
use tp_so_limpio.Base.{
  ℕ, ◌^◌, ◌<◌, ◌≡◌, ◌≢◌, refl, ap, ◌∙◌, subst, Bool, true, false, Option, none, some, List, [], ◌∷◌,
  ◌++◌, ◌==◌, ◌>>=◌, ◌&&◌, leb, ltb, length, take, drop, All, if◌then◌else◌, arith, Bool-cases,
  Option-cases, sym, inl, inr,
}
use mathlib.Core.List.{Permᴰ}
use tp_so_limpio.Commons.{Ordenada, EsOrden, Commons}
use tp_so_limpio.KernelScheduler.Busqueda.{buscar_pcb_por_pid}
use tp_so_limpio.GlobalUtils.{
  OpCode, Mensaje, op, buffer, ok, nueva_memory_stick, mem_corrupt, compactacion,
  desalojo as op_desalojo,
}
use tp_so_limpio.GlobalUtils.Paquete.{bytes_de, valor_de, valor-bytes}
use tp_so_limpio.KernelScheduler.Estado.{
  Estado, new, rdy, rnn, bck, s_bck, s_rdy, no_estado, ext, MemStick, InfoConfig, Ks,
}
use tp_so_limpio.KernelScheduler.Desalojo.{existe_pcb_con_pid}
use tp_so_limpio.KernelScheduler.Servicios.{responder_desalojo}

-- The text up to the first 0 and what stands behind that; `none` where the buffer ends before it.
unfoldable pub leer_cadena : List ℕ → Option (List ℕ × List ℕ)
leer_cadena [] = none
leer_cadena (b ∷ bs) =
    let resto = leer_cadena bs in
    if b == 0 then some ([], bs) else (resto >>= λ r. some (b ∷ r.0, r.1))

-- The two numbers at the end of the buffer.
abbrev pub leer_rango : List ℕ → List ℕ → List ℕ → Option MemStick
leer_rango ip puerto bs =
    if leb 8 (length bs)
    then some (record {
      ip = ip;
      puerto = puerto;
      base = valor_de (take 4 bs);
      tamanio = valor_de (take 4 (drop 4 bs));
    })
    else none

unfoldable pub leer_memory_stick : List ℕ → Option MemStick
leer_memory_stick stream =
    leer_cadena stream >>= λ r. leer_cadena r.1 >>= λ s. leer_rango r.0 s.0 s.1

abbrev pub comparar_base_memory_stick : MemStick → MemStick → Bool
comparar_base_memory_stick a b = ltb a.base b.base

-- The sticks of the CPU afterwards, and what the Kernel Scheduler is sent. `conecta` and `acepta` tell
-- whether the stick can be reached and whether it answers OK.
unfoldable pub recibir_memory_stick :
    Commons → Bool → Bool → List ℕ → List MemStick → Option (List MemStick × List Mensaje)
unfolding leer_memory_stick
recibir_memory_stick c conecta acepta stream sticks = leer_memory_stick stream >>= λ ms. some (
  if conecta && acepta
      then c.list_add_sorted MemStick comparar_base_memory_stick ms sticks
      else sticks,
  op ok ∷ [],
)

-- Texts without a 0, and numbers of 32 bits.
pub record MemStickValido (m : MemStick) : Type 0 where
  pub ip : All (λ c. c ≢ 0) m.ip
  pub puerto : All (λ c. c ≢ 0) m.puerto
  pub base : m.base < 2 ^ 32
  pub tamanio : m.tamanio < 2 ^ 32

leer_cadena_lem : (t bs : List ℕ) → All (λ c. c ≢ 0) t → leer_cadena (t ++ (0 ∷ bs)) ≡ some (t, bs)
unfolding leer_cadena
leer_cadena_lem [] bs h = refl
leer_cadena_lem (c ∷ t) bs (distinto, h) =
    let i = leer_cadena_lem t bs h in
    elim (Bool-cases (c == 0)) [
      | inl cero ↦ absurd (distinto (ground arith))
      | inr otro ↦ rw (otro, i) refl
    ]

leer_rango_lem :
    (m : MemStick)
    → MemStickValido m
    → leer_rango m.ip m.puerto (bytes_de 4 m.base ++ bytes_de 4 m.tamanio) ≡ some m
leer_rango_lem m v = rw (valor-bytes m.base v.base, valor-bytes m.tamanio v.tamanio) refl

leer_memory_stick_lem :
    (m : MemStick)
    → MemStickValido m
    → leer_memory_stick (m.ip ++ (0 ∷ m.puerto ++ (0 ∷ bytes_de 4 m.base ++ bytes_de 4 m.tamanio)))
      ≡ some m
unfolding leer_memory_stick
leer_memory_stick_lem m v =
    let cola = bytes_de 4 m.base ++ bytes_de 4 m.tamanio in
    let a = leer_cadena_lem m.ip (m.puerto ++ (0 ∷ cola)) v.ip in
    let b = leer_cadena_lem m.puerto cola v.puerto in rw (a, b) (leer_rango_lem m v)

comparar-EsOrden : EsOrden comparar_base_memory_stick
comparar-EsOrden = record {
  asimetrico = λ a b h. ground arith;
  transitivo = λ a b c h k. ground arith;
}

-- The buffer that tells of a stick.
abbrev aviso : MemStick → List ℕ
aviso m = m.ip ++ (0 ∷ m.puerto ++ (0 ∷ bytes_de 4 m.base ++ bytes_de 4 m.tamanio))

-- A CPU is told of a stick only in the last branch, where one is pending.
abbrev Avisado : (st : Ks) → Bool × Ks × List Mensaje → List ℕ → Type 0
Avisado st r b =
    (m : MemStick) × (ms : List MemStick) × (st.list_ms_pendientes ≡ m ∷ ms)
    × (r.0 ≡ false)
    × (r.1 ≡ record st { list_ms_pendientes = ms })
    × (b ≡ aviso m)

module _ (cfg : InfoConfig) (pid : ℕ) (st : Ks) (b : List ℕ) where
  un_mensaje :
      (k : OpCode)
      → op k ∷ [] ≡ op nueva_memory_stick ∷ buffer b ∷ []
      → Avisado st (responder_desalojo cfg pid st) b
  un_mensaje k h = absurd (cc)

  avisado :
      (responder_desalojo cfg pid st).2 ≡ op nueva_memory_stick ∷ buffer b ∷ []
      → Avisado st (responder_desalojo cfg pid st) b
  unfolding responder_desalojo
  avisado e = elim (Bool-cases st.mem_corrupt_value) [
    | inl t ↦ un_mensaje mem_corrupt (simp t at e)
    | inr t ↦ elim (Bool-cases st.compactacion_value) [
      | inl u ↦ un_mensaje compactacion (simp (t, u) at e)
      | inr u ↦ elim (Bool-cases (existe_pcb_con_pid st.pcbs st.desalojo pid)) [
        | inl w ↦ elim (Option-cases (buscar_pcb_por_pid cfg pid st)) [
          | inl nada ↦ un_mensaje ok (simp (t, u, w, nada) at e)
          | inr (p, algo) ↦ por_estado t u w p algo (st.pcbs p).estado_pcb refl
        ]
        | inr w ↦ pendiente t u w st.list_ms_pendientes refl
      ]
    ]
  ]
    where
      por_estado :
          st.mem_corrupt_value ≡ false
          → st.compactacion_value ≡ false
          → existe_pcb_con_pid st.pcbs st.desalojo pid ≡ true
          → (p : ℕ) → buscar_pcb_por_pid cfg pid st ≡ some p
          → (x : Estado) → (st.pcbs p).estado_pcb ≡ x
          → Avisado st (responder_desalojo cfg pid st) b
      por_estado t u w p algo ext i = un_mensaje ok (simp (t, u, w, algo, i) at e)
      por_estado t u w p algo new i = un_mensaje op_desalojo (simp (t, u, w, algo, i) at e)
      por_estado t u w p algo rdy i = un_mensaje op_desalojo (simp (t, u, w, algo, i) at e)
      por_estado t u w p algo rnn i = un_mensaje op_desalojo (simp (t, u, w, algo, i) at e)
      por_estado t u w p algo bck i = un_mensaje op_desalojo (simp (t, u, w, algo, i) at e)
      por_estado t u w p algo s_bck i = un_mensaje op_desalojo (simp (t, u, w, algo, i) at e)
      por_estado t u w p algo s_rdy i = un_mensaje op_desalojo (simp (t, u, w, algo, i) at e)
      por_estado t u w p algo no_estado i = un_mensaje op_desalojo (simp (t, u, w, algo, i) at e)

      pendiente :
          st.mem_corrupt_value ≡ false
          → st.compactacion_value ≡ false
          → existe_pcb_con_pid st.pcbs st.desalojo pid ≡ false
          → (l : List MemStick) → st.list_ms_pendientes ≡ l
          → Avisado st (responder_desalojo cfg pid st) b
      pendiente t u w [] i = un_mensaje ok (simp (t, u, w, i) at e)
      pendiente t u w (m ∷ ms) i =
          let x : responder_desalojo cfg pid st ≡ (
            false,
            record st { list_ms_pendientes = ms },
            op nueva_memory_stick ∷ buffer (aviso m) ∷ [],
          ) =
            simp (t, u, w, i) in
          let y : op nueva_memory_stick ∷ buffer (aviso m) ∷ []
              ≡ op nueva_memory_stick ∷ buffer b ∷ [] =
            sym (ap (λ (k : Bool × Ks × List Mensaje). k.2) x) ∙ e in
          (
            m,
            ms,
            i,
            ap (λ (k : Bool × Ks × List Mensaje). k.0) x,
            ap (λ (k : Bool × Ks × List Mensaje). k.1) x,
            cc,
          )

-- If the pending sticks have texts without a 0 and 32-bit numbers, a CPU that is told of a stick is told
-- of the first that is pending, which is pending no longer, and goes on with its process. It reads from
-- the buffer the very stick, and if the stick can be reached and answers OK, the CPU's sticks are those
-- it had and the new one, by their bases if they were so before.
pub recibir-responder :
    (c : Commons) (cfg : InfoConfig) (pid : ℕ) (st : Ks) (b : List ℕ) (sticks : List MemStick)
    → All MemStickValido st.list_ms_pendientes
    → Ordenada comparar_base_memory_stick sticks
    → (responder_desalojo cfg pid st).2 ≡ op nueva_memory_stick ∷ buffer b ∷ []
    → (m : MemStick) × (ms nuevos : List MemStick) × (st.list_ms_pendientes ≡ m ∷ ms)
      × ((responder_desalojo cfg pid st).0 ≡ false)
      × ((responder_desalojo cfg pid st).1 ≡ record st { list_ms_pendientes = ms })
      × (recibir_memory_stick c true true b sticks ≡ some (nuevos, op ok ∷ []))
      × Permᴰ (m ∷ sticks) nuevos
      × Ordenada comparar_base_memory_stick nuevos
unfolding recibir_memory_stick
recibir-responder c cfg pid st b sticks v o e =
    let (m, ms, i, sigue, queda, texto) = avisado cfg pid st b e in
    let vm : MemStickValido m = (subst (All MemStickValido) i v).0 in
    (
      m,
      ms,
      c.list_add_sorted MemStick comparar_base_memory_stick m sticks,
      i,
      sigue,
      queda,
      rw (texto, leer_memory_stick_lem m vm) refl,
      c.list_add_sorted-perm MemStick comparar_base_memory_stick m sticks,
      c.list_add_sorted-Ordenada MemStick comparar_base_memory_stick m sticks comparar-EsOrden o,
    )
