-- ===== src/KernelScheduler/Desalojos.antt =====
-- kernel_scheduler/src/server/src/server.c: a CPU that gives its process up, or is lost, leaves every
-- process in the one place of its state.
use tp_so_limpio.Base.{
  ℕ, ◌<◌, ◌≡◌, refl, ◌∙◌, Bool, true, false, Option, none, some, List, ◌==◌, ◌&&◌, ◌>>=◌,
  if◌then◌else◌, arith, Bool-cases, Option-cases, inl, inr, add32,
}
use tp_so_limpio.GlobalUtils.{Mensaje}
use tp_so_limpio.KernelScheduler.Estado.{Estado, rdy, rnn, bck, InfoConfig, CpuKs, Ks, escribir_pcb}
use tp_so_limpio.KernelScheduler.Desalojo.{sacar_pcb_por_pid}
use tp_so_limpio.KernelScheduler.Listas.{transicion}
use tp_so_limpio.KernelScheduler.Afinidad.{quitar_retorno_por_fd}
use tp_so_limpio.KernelScheduler.Busqueda.{buscar_pcb_por_pid, con_cpu, liberada}
use tp_so_limpio.KernelScheduler.Servicios.{
  responder_desalojo, volver_a_ready, desalojar, atender_desalojo, replanificar, quitar_cpu,
  gestionar_desconexion_cpu,
}
use tp_so_limpio.KernelScheduler.Coherencia.{Coherente}
use tp_so_limpio.KernelScheduler.Eliminado.{SinAviso}
use tp_so_limpio.KernelScheduler.Transiciones.{transicion_adelantada-Movido}
use tp_so_limpio.KernelScheduler.Vigencia.{
  Sigue, hallado-existe, escribir-Coherente, transicion-Sigue,
}

if_falso {ℓ} : {A : Type ℓ} (b : Bool) (x y : A) → b ≡ false → (if b then x else y) ≡ y
if_falso true x y h = absurd (cc)
if_falso false x y h = refl

-- The answer to the CPU changes the lists of preemptions, reservations and notices only.
responder_marco :
    (cfg : InfoConfig) (pid : ℕ) (st : Ks)
    → (let s = (responder_desalojo cfg pid st).1 in
        s ≡ record st {
          desalojo = s.desalojo;
          retorno_cpu = s.retorno_cpu;
          list_ms_pendientes = s.list_ms_pendientes;
        })
unfolding responder_desalojo
responder_marco cfg pid st = ground arith

module _ (cfg : InfoConfig) (p : ℕ) (st : Ks) (v : Coherente cfg st) (d : p < st.proximo)
    (sin_compactar : st.compactacion_value ≡ false) where
  volver-Sigue : SinAviso (st.pcbs p).estado_pcb → Sigue cfg (volver_a_ready cfg p st)
  unfolding volver_a_ready
  volver-Sigue s =
      let (st', e, m) = transicion_adelantada-Movido cfg p rdy st v d (omega arith) s in
      (st', if_falso st.compactacion_value _ _ sin_compactar ∙ e, m.coherente)

  desalojado-Sigue :
      (e : Estado)
      → (st.pcbs p).estado_pcb ≡ e
      → Sigue cfg (elim e [
        | bck ↦ if (st.pcbs p).esperando_io then some st else volver_a_ready cfg p st
        | rnn ↦ volver_a_ready cfg p st
        | _ ↦ some st
      ])
  desalojado-Sigue bck i = elim (Bool-cases (st.pcbs p).esperando_io) [
    | inl io ↦ (st, rw io refl, v)
    | inr otro ↦ let (st', e, w) = volver-Sigue (rw i tt) in (st', rw otro e, w)
  ]
  desalojado-Sigue rnn i = volver-Sigue (rw i tt)
  desalojado-Sigue rdy i = (st, refl, v)
  desalojado-Sigue _ i = (st, refl, v)

desalojar-Sigue :
    (cfg : InfoConfig) (pid : ℕ) (st : Ks)
    → Coherente cfg st
    → st.compactacion_value ≡ false
    → Sigue cfg (desalojar cfg pid st)
unfolding desalojar
desalojar-Sigue cfg pid st v c = elim (Option-cases (buscar_pcb_por_pid cfg pid st)) [
  | inl nada ↦ (st, rw (nada, desalojar) refl, v)
  | inr (p, algo) ↦
      let (d, _) = hallado-existe cfg st pid v algo in
      let (st', e, w) = desalojado-Sigue cfg p st v d c (st.pcbs p).estado_pcb refl in
      (st', rw (algo, desalojar) e, w)
]

-- Outside a compaction, and while every process stands in the one place of its state, the request of a
-- CPU whether to go on is always served, whatever the CPU answers, and every process stands in the one
-- place of its state again.
pub atender_desalojo-Coherente :
    (cfg : InfoConfig) (confirma : Bool) (fd pid : ℕ) (st : Ks)
    → Coherente cfg st
    → st.compactacion_value ≡ false
    → (r : Ks × List Mensaje) × (atender_desalojo cfg confirma fd pid st ≡ some r)
      × Coherente cfg r.0
unfolding atender_desalojo
atender_desalojo-Coherente cfg confirma fd pid st v c =
    let r = responder_desalojo cfg pid st in
    let m = responder_marco cfg pid st in
    let v' : Coherente cfg r.1 = rw m v in
    let c' : r.1.compactacion_value ≡ false = rw m c in
    elim (Bool-cases (confirma && r.0)) [
      | inl si ↦
          let (s, e, w) = desalojar-Sigue cfg pid r.1 v' c' in
          (
            (record s { cpus = if r.0 then con_cpu liberada fd s.cpus else s.cpus }, r.2),
            rw (si, e) refl,
            w,
          )
      | inr sin ↦ (
        (record r.1 { cpus = if r.0 then con_cpu liberada fd r.1.cpus else r.1.cpus }, r.2),
        rw sin refl,
        v',
      )
    ]

module _ (cfg : InfoConfig) (p : ℕ) (st : Ks) (v : Coherente cfg st) (d : p < st.proximo) where
  replanificar-Sigue : Sigue cfg (replanificar cfg p st)
  unfolding replanificar
  replanificar-Sigue =
      let x = st.pcbs p in
      let st1 = record st { desalojo = sacar_pcb_por_pid st.pcbs st.desalojo x.pid } in
      let x' = record x { fd_cpu = 0; quantum_version = add32 x.quantum_version 1 } in
      let st2 = escribir_pcb p x' st1 in
      let w = escribir-Coherente cfg p x' st1 v d refl refl refl in segun st2 w d x.estado_pcb
    where
      segun :
          (s : Ks)
          → Coherente cfg s
          → p < s.proximo
          → (e : Estado)
          → Sigue cfg (elim e [
            | rnn ↦ transicion cfg p rdy s
            | bck ↦ if (st.pcbs p).esperando_io then some s else transicion cfg p rdy s
            | _ ↦ some s
          ])
      segun s u k rnn = transicion-Sigue cfg p s u k rdy (omega arith)
      segun s u k bck = elim (Bool-cases (st.pcbs p).esperando_io) [
        | inl io ↦ (s, rw io refl, u)
        | inr otro ↦
            let (st', e, w) = transicion-Sigue cfg p s u k rdy (omega arith) in (st', rw otro e, w)
      ]
      segun s u k rdy = (s, refl, u)
      segun s u k _ = (s, refl, u)

ejecutaba-existe :
    (cfg : InfoConfig) (st : Ks)
    → Coherente cfg st
    → (o : Option ℕ) {p : ℕ} → (o >>= λ pid. buscar_pcb_por_pid cfg pid st) ≡ some p
    → p < st.proximo
ejecutaba-existe cfg st v none e = absurd (cc)
ejecutaba-existe cfg st v (some pid) e = (hallado-existe cfg st pid v e).0

-- The loss of a CPU leaves every process in the one place of its state.
pub gestionar_desconexion_cpu-Coherente :
    (cfg : InfoConfig) (c : CpuKs) (st : Ks)
    → Coherente cfg st
    → Sigue cfg (gestionar_desconexion_cpu cfg c st)
unfolding gestionar_desconexion_cpu
gestionar_desconexion_cpu-Coherente cfg c st v =
    let st1 = record st {
      cpus = quitar_cpu c.fd st.cpus;
      retorno_cpu = quitar_retorno_por_fd c.fd st.retorno_cpu;
    } in
    elim (Option-cases (c.pid_ejecutando >>= λ pid. buscar_pcb_por_pid cfg pid st1)) [
      | inl nada ↦ (st1, rw (nada, gestionar_desconexion_cpu) refl, v)
      | inr (p, algo) ↦
          let d = ejecutaba-existe cfg st1 v c.pid_ejecutando algo in
          elim (Bool-cases ((st.pcbs p).fd_cpu == c.fd)) [
            | inl suyo ↦
                let (st', e, w) = replanificar-Sigue cfg p st1 v d in
                (st', rw (algo, gestionar_desconexion_cpu, suyo) e, w)
            | inr ajeno ↦ (st1, rw (algo, gestionar_desconexion_cpu, ajeno) refl, v)
          ]
    ]
