-- ===== src/KernelScheduler/Nacimiento.antt =====
-- kernel_scheduler/utilsKS/utilsKS.c and init_proc of kernel_scheduler/src/server/src/server.c: the
-- first state and the processes that are created, against the invariant of the planner.
use Prim.Native.String.{String}
use text.Mathlib.Text.{◌==◌ as str_eq}
use tp_so_limpio.Base.{
  ℕ, zero, suc, ◌<◌, ◌≡◌, ◌^◌, subst, refl, sym, ◌∙◌, Bool, false, some, List, [], ◌∷◌, ◌==◌,
  length, arith, Bool-cases, Option-cases, inl, inr,
}
use tp_so_limpio.GlobalUtils.{Mensaje, op, ok}
use tp_so_limpio.KernelScheduler.Estado.{
  Estado, new, rdy, rnn, bck, s_bck, s_rdy, ext, no_estado, lista_de, Pcb, InfoConfig, Ks,
  escribir_pcb,
}
use tp_so_limpio.KernelScheduler.Desalojo.{anotar_desalojo}
use tp_so_limpio.KernelScheduler.Listas.{agregar_proceso_lista}
use tp_so_limpio.KernelScheduler.Busqueda.{buscar_pcb_por_pid}
use tp_so_limpio.KernelScheduler.Veces.{veces, cola_de, en_niveles}
use tp_so_limpio.KernelScheduler.Coherencia.{
  Lugar, lista, nivel, Ubicados, ocupantes, esperadas, HayLugar, Coherente,
}
use tp_so_limpio.KernelScheduler.Agregado.{agregar-Puesto}
use tp_so_limpio.KernelScheduler.Vigencia.{Sigue, transicion-Sigue}
use tp_so_limpio.KernelScheduler.Creacion.{
  ks_inicial, iniciar_listas_procesos, iniciar_planificador_cmn, crear_nuevo_proceso,
  crear_y_admitir, init_proc,
}

niveles_vacios :
    (nombres : List String) (quantum n : ℕ)
    → cola_de n (iniciar_planificador_cmn nombres quantum) ≡ []
unfolding iniciar_planificador_cmn
niveles_vacios [] q n = refl
niveles_vacios (a ∷ as') q zero = elim (Bool-cases (str_eq a "FIFO")) [
  | inl si ↦ rw si refl
  | inr sin ↦ rw sin refl
]
niveles_vacios (a ∷ as') q (suc n) = niveles_vacios as' q n

niveles_vacios-total :
    (nombres : List String) (quantum : ℕ)
    → en_niveles (iniciar_planificador_cmn nombres quantum) ≡ 0
unfolding iniciar_planificador_cmn
niveles_vacios-total [] q = refl
niveles_vacios-total (a ∷ as') q =
    let z = niveles_vacios-total as' q in
    elim (Bool-cases (str_eq a "FIFO")) [
      | inl si ↦ rw si (omega arith)
      | inr sin ↦ rw sin (omega arith)
    ]

listas_vacias : (e : Estado) → lista_de e iniciar_listas_procesos ≡ []
listas_vacias new = refl
listas_vacias rdy = refl
listas_vacias rnn = refl
listas_vacias bck = refl
listas_vacias s_bck = refl
listas_vacias s_rdy = refl
listas_vacias ext = refl
listas_vacias no_estado = refl

pub inicial-Coherente :
    (cfg : InfoConfig) (h : ℕ → Pcb) (nombres : List String) (quantum : ℕ)
    → Coherente cfg (ks_inicial h (iniciar_planificador_cmn nombres quantum))
unfolding ks_inicial
inicial-Coherente cfg h nombres quantum = record {
  ubicados = ubicados;
  pids = λ q d. absurd (omega arith);
  contados = refl;
  validas = λ q d. absurd (omega arith);
  semaforos = record {
    hay_ready = sym (niveles_vacios-total nombres quantum) ∙ omega arith;
    hay_s_ready = omega arith;
  };
}
  where
    ubicados :
        (q : ℕ) (l : Lugar)
        → veces q (ocupantes l iniciar_listas_procesos (iniciar_planificador_cmn nombres quantum))
          ≡ esperadas cfg.politica h 0 q l
    ubicados q (nivel n) = rw (niveles_vacios nombres quantum n) (ground arith)
    ubicados q (lista e) = rw (listas_vacias e) (ground arith)

-- A new process stands among the new ones.
pub crear-Coherente :
    (cfg : InfoConfig) (path : String) (prioridad : ℕ) (st : Ks)
    → Coherente cfg st
    → HayLugar cfg.politica rdy prioridad (length st.niveles)
    → suc st.contador_pid < 2 ^ 32
    → Coherente cfg (crear_nuevo_proceso cfg path prioridad st).1
      × ((crear_nuevo_proceso cfg path prioridad st).0
          < (crear_nuevo_proceso cfg path prioridad st).1.proximo)
unfolding crear_nuevo_proceso
crear-Coherente cfg path prioridad st v h c =
    let p = st.proximo in
    let x : Pcb = record {
      mutex_tomados = [];
      pid = st.contador_pid;
      prioridad = prioridad;
      prioridad_original = prioridad;
      estado_pcb = new;
      estado_anterior = no_estado;
      fd_cpu = 0;
      esperando_io = false;
      quantum_version = 0;
      block_version = 0;
    } in
    let st1 = record (escribir_pcb p x st) { proximo = suc p } in
    let el_nuevo : st1.pcbs p ≡ x = ground arith in
    let pu = agregar-Puesto cfg p st1 (rw el_nuevo tt) in
    let st2 = agregar_proceso_lista cfg p st1 in
    let ubicados : Ubicados cfg.politica st1.pcbs (suc p) st2.listas st2.niveles = λ q l.
      let a = pu.cuentas q l in
      let b = v.ubicados q l in
      elim (Bool-cases (p == q)) [
        | inr otro ↦ ground arith
        | inl es ↦
            let e : p ≡ q = ground arith in
            let a' = pu.cuentas p l in
            let b' = v.ubicados p l in
            subst
              (λ (k : ℕ).
                veces k (ocupantes l st2.listas st2.niveles)
                ≡ esperadas cfg.politica st1.pcbs (suc p) k l)
              e (ground arith)
      ] in
    (
      record {
        ubicados = rw (pu.pcbs, pu.proximo) ubicados;
        pids =
            rw (pu.pcbs, pu.proximo)
              (λ q d. elim (Bool-cases (p == q)) [
                | inr otro ↦ let z = v.pids q in ground arith
                | inl es ↦ let z = v.contados in ground arith
              ]);
        contados = rw (pu.contador_pid, pu.proximo) (let z = v.contados in omega arith);
        validas =
            rw (pu.pcbs, pu.proximo, pu.cantidad)
              (λ q d. elim (Bool-cases (p == q)) [
                | inr otro ↦
                    let i : st1.pcbs q ≡ st.pcbs q = ground arith in
                    rw i (v.validas q (ground arith))
                | inl es ↦ let i : st1.pcbs q ≡ x = ground arith in rw i h
              ]);
        semaforos = pu.semaforos v.semaforos;
      },
      rw pu.proximo (omega arith),
    )

module _ (cfg : InfoConfig) (respuesta_ok : Bool) (path : String) where
  pub crear_y_admitir-Coherente :
      (prioridad : ℕ) (st : Ks)
      → Coherente cfg st
      → HayLugar cfg.politica rdy prioridad (length st.niveles)
      → suc st.contador_pid < 2 ^ 32
      → Sigue cfg (crear_y_admitir cfg respuesta_ok path prioridad st)
  unfolding crear_y_admitir
  crear_y_admitir-Coherente prioridad st v h c =
      let r = crear_nuevo_proceso cfg path prioridad st in
      let (w, d) = crear-Coherente cfg path prioridad st v h c in
      elim (Bool-cases respuesta_ok) [
        | inl si ↦
            let (s, e, u) = transicion-Sigue cfg r.0 r.1 w d rdy (omega arith) in (s, rw si e, u)
        | inr sin ↦ (r.1, rw sin refl, w)
      ]

  -- A process that asks for another one keeps everything coherent, whatever Kernel Memory answers.
  pub init_proc-Coherente :
      (prioridad pid : ℕ) (st : Ks)
      → Coherente cfg st
      → HayLugar cfg.politica rdy prioridad (length st.niveles)
      → suc st.contador_pid < 2 ^ 32
      → (r : Ks × List Mensaje) × (init_proc cfg respuesta_ok path prioridad pid st ≡ some r)
        × Coherente cfg r.0
  unfolding init_proc
  init_proc-Coherente prioridad pid st v h c = elim (Option-cases (buscar_pcb_por_pid cfg pid st)) [
    | inl nada ↦ ((st, op ok ∷ op ok ∷ op ok ∷ []), rw (nada, init_proc) refl, v)
    | inr (p, algo) ↦
        let (s, e, u) = crear_y_admitir-Coherente prioridad (anotar_desalojo p st) v h c in
        ((s, op ok ∷ op ok ∷ op ok ∷ op ok ∷ []), rw (algo, init_proc, e) refl, u)
  ]
