-- ===== src/KernelScheduler/Herencia.antt =====
-- kernel_scheduler/src/server/src/server.c: whom the owner of a mutex inherits from.
use tp_so_limpio.Base.{
  ℕ, ◌<◌, ◌≡◌, ◌⊎◌, refl, sym, ap, ◌∙◌, subst, true, false, Option, none, some, List, [], ◌∷◌,
  slt32, All, arith, Bool-cases, inl, inr,
}
use tp_so_limpio.KernelScheduler.Estado.{cmn, MutexCpu, InfoConfig, Ks}
use tp_so_limpio.KernelScheduler.Busqueda.{buscar_pcb_por_pid}
use tp_so_limpio.KernelScheduler.Prioridades.{
  mejor_de, mejor_prioridad, actualizar_prioridad_pcb, cambiar_de_cola, actualizar_herencia,
}
use tp_so_limpio.KernelScheduler.Agregado.{verificar_marco}
use tp_so_limpio.KernelScheduler.Veces.{veces}

-- No process of that PID goes before a priority.
abbrev pub NadieAntes : InfoConfig → Ks → ℕ → ℕ → Type 0
NadieAntes cfg st mejor pid =
    (q : ℕ) → buscar_pcb_por_pid cfg pid st ≡ some q → slt32 (st.pcbs q).prioridad mejor ≡ false

-- The priority is that of a process whose PID is in the list.
pub DeUnoQueEspera : InfoConfig → Ks → ℕ → List ℕ → Type 0
DeUnoQueEspera cfg st mejor pids =
    (pid q : ℕ) × (0 < veces pid pids)
    × (buscar_pcb_por_pid cfg pid st ≡ some q)
    × ((st.pcbs q).prioridad ≡ mejor)

-- A priority that is at least as good as the first one and as those of all that wait, and is the
-- first one or that of one of those that wait.
pub record Mejor (cfg : InfoConfig) (st : Ks) (pids : List ℕ) (m0 mejor : ℕ) : Type 0 where
  pub no_peor : slt32 m0 mejor ≡ false
  pub nadie_antes : All (λ pid. NadieAntes cfg st mejor pid) pids
  pub de_alguien : (mejor ≡ m0) ⊎ DeUnoQueEspera cfg st mejor pids

slt32_irreflexivo : (a : ℕ) → slt32 a a ≡ false
slt32_irreflexivo a = ground arith

slt32_transitivo : (a b c : ℕ) → slt32 a b ≡ false → slt32 b c ≡ false → slt32 a c ≡ false
slt32_transitivo a b c h k = ground arith

slt32_asimetrico : (a b : ℕ) → slt32 a b ≡ true → slt32 b a ≡ false
slt32_asimetrico a b h = ground arith

module _ (cfg : InfoConfig) (st : Ks) where
  mejor_de-no_peor : (m : ℕ) (o : Option ℕ) → slt32 m (mejor_de st.pcbs m o) ≡ false
  mejor_de-no_peor m none = slt32_irreflexivo m
  mejor_de-no_peor m (some q) = elim (Bool-cases (slt32 (st.pcbs q).prioridad m)) [
    | inl si ↦ rw si (slt32_asimetrico (st.pcbs q).prioridad m si)
    | inr sin ↦ rw sin (slt32_irreflexivo m)
  ]

  mejor_de-nadie_antes :
      (m : ℕ) (o : Option ℕ) (q : ℕ)
      → o ≡ some q
      → slt32 (st.pcbs q).prioridad (mejor_de st.pcbs m o) ≡ false
  mejor_de-nadie_antes m none q e = absurd (cc)
  mejor_de-nadie_antes m (some p) q e =
      let i : p ≡ q = cc in
      subst (λ (k : ℕ). slt32 (st.pcbs k).prioridad (mejor_de st.pcbs m (some p)) ≡ false) i
        (elim (Bool-cases (slt32 (st.pcbs p).prioridad m)) [
          | inl si ↦ rw si (slt32_irreflexivo (st.pcbs p).prioridad)
          | inr sin ↦ rw sin sin
        ])

  mejor_de-de_alguien :
      (m : ℕ) (o : Option ℕ)
      → (mejor_de st.pcbs m o ≡ m)
        ⊎ ((q : ℕ) × (o ≡ some q) × ((st.pcbs q).prioridad ≡ mejor_de st.pcbs m o))
  mejor_de-de_alguien m none = inl refl
  mejor_de-de_alguien m (some q) = elim (Bool-cases (slt32 (st.pcbs q).prioridad m)) [
    | inl si ↦ inr (q, refl, rw si refl)
    | inr sin ↦ inl (rw sin refl)
  ]

  pub mejor_prioridad-Mejor :
      (pids : List ℕ) (m0 : ℕ) → Mejor cfg st pids m0 (mejor_prioridad cfg st pids m0)
  unfolding mejor_prioridad DeUnoQueEspera
  mejor_prioridad-Mejor [] m0 = record {
    no_peor = slt32_irreflexivo m0;
    nadie_antes = tt;
    de_alguien = inl refl;
  }
  mejor_prioridad-Mejor (pid ∷ pids) m0 =
      let o = buscar_pcb_por_pid cfg pid st in
      let m1 = mejor_de st.pcbs m0 o in
      let m2 = mejor_prioridad cfg st pids m1 in
      let r = mejor_prioridad-Mejor pids m1 in
      record {
        no_peor = slt32_transitivo m0 m1 m2 (mejor_de-no_peor m0 o) r.no_peor;
        nadie_antes = (
          λ q e.
              slt32_transitivo (st.pcbs q).prioridad m1 m2 (mejor_de-nadie_antes m0 o q e)
                r.no_peor,
          r.nadie_antes,
        );
        de_alguien = elim r.de_alguien [
          | inr (otro, q, w, b, i) ↦ inr (otro, q, omega arith, b, i)
          | inl igual ↦ elim (mejor_de-de_alguien m0 o) [
            | inl i ↦ inl (igual ∙ i)
            | inr (q, b, i) ↦ inr (pid, q, ground arith, b, i ∙ sym igual)
          ]
        ];
      }

actualizar_prioridad-pone :
    (cfg : InfoConfig) (p nueva : ℕ) (st : Ks)
    → cfg.politica ≡ cmn
    → ((actualizar_prioridad_pcb cfg p nueva st).pcbs p).prioridad ≡ nueva
unfolding actualizar_prioridad_pcb cambiar_de_cola
actualizar_prioridad-pone cfg p nueva st c = ground arith

actualizar_herencia_prioridad :
    (cfg : InfoConfig) (m : MutexCpu) (p : ℕ) (st : Ks)
    → cfg.politica ≡ cmn
    → m.dueno_actual ≡ some p
    → ((actualizar_herencia cfg m st).pcbs p).prioridad
      ≡ mejor_prioridad cfg st m.cola_mutex (st.pcbs p).prioridad_original
unfolding actualizar_herencia
actualizar_herencia_prioridad cfg m p st c d =
    let mejor = mejor_prioridad cfg st m.cola_mutex (st.pcbs p).prioridad_original in
    let st1 = actualizar_prioridad_pcb cfg p mejor st in
    let a = actualizar_prioridad-pone cfg p mejor st c in
    let b = verificar_marco cfg p st1 in
    let b' = ap (λ (s : Ks). (s.pcbs p).prioridad) b ∙ a in ground arith

-- With CMN, the owner of a mutex gets its own priority or the best of those that wait for it: nobody
-- who waits goes before it, nor does what it started with, and the priority is that or the priority
-- of one of those that wait.
pub actualizar_herencia-Mejor :
    (cfg : InfoConfig) (m : MutexCpu) (p : ℕ) (st : Ks)
    → cfg.politica ≡ cmn
    → m.dueno_actual ≡ some p
    → Mejor cfg st m.cola_mutex
        (st.pcbs p).prioridad_original
        ((actualizar_herencia cfg m st).pcbs p).prioridad
actualizar_herencia-Mejor cfg m p st c d =
    subst (λ (k : ℕ). Mejor cfg st m.cola_mutex (st.pcbs p).prioridad_original k)
      (sym (actualizar_herencia_prioridad cfg m p st c d))
      (mejor_prioridad-Mejor cfg st m.cola_mutex (st.pcbs p).prioridad_original)
