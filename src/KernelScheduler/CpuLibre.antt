-- ===== src/KernelScheduler/CpuLibre.antt =====
-- kernel_scheduler/src/server/src/server.c: mandar_proceso_cpu, and a round of cpu_libre.
use mathlib.Core.Path.{fun_ext}
use tp_so_limpio.Base.{
  ℕ, zero, suc, ◌<◌, ◌≡◌, ◌⊎◌, refl, ap, ◌∙◌, Bool, true, false, Option, none, some, ◌>>=◌,
  if◌then◌else◌, arith, Bool-cases, Option-cases, inl, inr, add32,
}
use tp_so_limpio.KernelScheduler.Estado.{Estado, rdy, rnn, Pcb, InfoConfig, Ks, CpuKs, escribir_pcb}
use tp_so_limpio.KernelScheduler.Desalojo.{quitar_de_desalojo}
use tp_so_limpio.KernelScheduler.Listas.{
  sem_wait, cambiar_estado_pcb, agregar_segun, agregar_proceso_lista, eliminar_proceso_lista,
  transicion,
}
use tp_so_limpio.KernelScheduler.Busqueda.{buscar_cpu, con_cpu, liberada}
use tp_so_limpio.KernelScheduler.Cpus.{
  obtener_siguiente_proceso_para_cpu, iniciar_quantum, usa_quantum, despachar, revertir_despacho,
  mandar_proceso_cpu, cpu_libre_vuelta, ocupar, sem_post_ready, terminar_despacho, ocupar_cpu,
}
use tp_so_limpio.KernelScheduler.Coherencia.{lugar_de, listos, Coherente}
use tp_so_limpio.KernelScheduler.Eliminado.{Sacado}
use tp_so_limpio.KernelScheduler.Transiciones.{reubicar}
use tp_so_limpio.KernelScheduler.Despacho.{obtener-Sacado, devuelto}
use tp_so_limpio.KernelScheduler.Vigencia.{Sigue, escribir-Coherente, transicion-Sigue}

iniciar_quantum-Coherente :
    (cfg : InfoConfig) (p : ℕ) (st : Ks)
    → Coherente cfg st
    → p < st.proximo
    → Coherente cfg (iniciar_quantum cfg p st)
unfolding iniciar_quantum
iniciar_quantum-Coherente cfg p st v d = elim (Bool-cases (usa_quantum cfg p st)) [
  | inr sin ↦ rw sin v
  | inl con ↦
      let x = st.pcbs p in
      rw con (
        escribir-Coherente cfg p (record x { quantum_version = add32 x.quantum_version 1 }) st v d
          refl refl refl)
]

despachar-Coherente :
    (cfg : InfoConfig) (fd p : ℕ) (st st2 : Ks)
    → Coherente cfg st
    → p < st.proximo
    → Sacado p (lugar_de cfg.politica (st.pcbs p)) st st2
    → Coherente cfg (despachar cfg fd p st2)
unfolding despachar cambiar_estado_pcb quitar_de_desalojo
despachar-Coherente cfg fd p st st2 v d s =
    let st1 = quitar_de_desalojo p st2 in
    let st3 = cambiar_estado_pcb p rnn st1 in
    let st4 = escribir_pcb p (record (st3.pcbs p) { fd_cpu = fd }) st3 in
    let igual = λ (q : ℕ). ap (λ (h : ℕ → Pcb). h q) s.pcbs in
    let estado : (st4.pcbs p).estado_pcb ≡ rnn = ground arith in
    let s' : Sacado p (lugar_de cfg.politica (st.pcbs p)) st st1 = record {
      cuentas = s.cuentas;
      semaforos = s.semaforos;
      pcbs = s.pcbs;
      proximo = s.proximo;
      contador_pid = s.contador_pid;
      cantidad = s.cantidad;
      lista_mutex = s.lista_mutex;
      cpus = s.cpus;
      a_km = s.a_km;
    } in
    reubicar cfg p st st1 st4.pcbs v d s' (rw estado (omega arith))
      (λ q o. let z = igual q in ground arith)
      (let z = ap (λ (x : Pcb). x.pid) (igual p) in ground arith)
      (let z = ap (λ (x : Pcb). x.prioridad) (igual p) in ground arith)

revertir-transicion :
    (cfg : InfoConfig) (fd p : ℕ) (st : Ks)
    → revertir_despacho cfg fd p st
      ≡ transicion cfg p rdy (
          escribir_pcb p
            (record (st.pcbs p) { fd_cpu = 0 })
            (record st { cpus = con_cpu liberada fd st.cpus }))
unfolding revertir_despacho transicion cambiar_estado_pcb
revertir-transicion cfg fd p st =
    let st1 = record st { cpus = con_cpu liberada fd st.cpus } in
    let st2 = cambiar_estado_pcb p rdy st1 in
    let a = escribir_pcb p (record (st2.pcbs p) { fd_cpu = 0 }) st2 in
    let b = cambiar_estado_pcb p rdy (escribir_pcb p (record (st.pcbs p) { fd_cpu = 0 }) st1) in
    let iguales : (q : ℕ) → a.pcbs q ≡ b.pcbs q = λ q. ground arith in
    ap
      (λ (h : ℕ → Pcb). eliminar_proceso_lista cfg p (record st1 { pcbs = h }) >>= λ r.
        some (agregar_proceso_lista cfg p r.1))
      (fun_ext iguales)

-- A dispatch that the CPU never hears of is undone.
revertir-Sigue :
    (cfg : InfoConfig) (fd p : ℕ) (st : Ks)
    → Coherente cfg st
    → p < st.proximo
    → Sigue cfg (revertir_despacho cfg fd p st)
unfolding revertir_despacho
revertir-Sigue cfg fd p st v d =
    let st1 = record st { cpus = con_cpu liberada fd st.cpus } in
    let x' = record (st.pcbs p) { fd_cpu = 0 } in
    let (st', e, w) =
      transicion-Sigue cfg p (escribir_pcb p x' st1)
        (escribir-Coherente cfg p x' st1 v d refl refl refl) d rdy (omega arith) in
    (st', revertir-transicion cfg fd p st ∙ e, w)

despachar-proximo :
    (cfg : InfoConfig) (fd p : ℕ) (st : Ks) → (despachar cfg fd p st).proximo ≡ st.proximo
unfolding despachar cambiar_estado_pcb quitar_de_desalojo agregar_proceso_lista
despachar-proximo cfg fd p st =
    let st3 = cambiar_estado_pcb p rnn (quitar_de_desalojo p st) in
    let st4 = escribir_pcb p (record (st3.pcbs p) { fd_cpu = fd }) st3 in
    let estado : (st4.pcbs p).estado_pcb ≡ rnn = ground arith in
    ap (λ (e : Estado). (agregar_segun cfg e p st4).proximo) estado

-- Every result of a free CPU's request, with everything coherent.
abbrev pub Responde : InfoConfig → Option (Bool × Ks) → Type 0
Responde cfg o = (r : Bool × Ks) × (o ≡ some r) × Coherente cfg r.1

terminar-Responde :
    (cfg : InfoConfig) (enviado : Bool) (fd p : ℕ) (st : Ks)
    → Coherente cfg st
    → p < st.proximo
    → Responde cfg (terminar_despacho cfg enviado fd p st)
unfolding terminar_despacho
terminar-Responde cfg true fd p st v d =
    let pid = (st.pcbs p).pid in
    let st1 = record st {
      cpus = con_cpu (λ (c : CpuKs). record c { pid_ejecutando = some pid }) fd st.cpus;
    } in
    ((false, iniciar_quantum cfg p st1), refl, iniciar_quantum-Coherente cfg p st1 v d)
terminar-Responde cfg false fd p st v d =
    let (s, e, w) = revertir-Sigue cfg fd p st v d in ((false, s), rw e refl, w)

module _ (cfg : InfoConfig) (enviado : Bool) (fd n : ℕ) (st : Ks) (v : Coherente cfg st)
    (suyo : st.sem_hay_ready ≡ suc n) where
  ocupar-Responde : Responde cfg (ocupar_cpu cfg enviado fd (record st { sem_hay_ready = n }))
  unfolding ocupar_cpu
  ocupar-Responde =
      let st0 = record st { cpus = con_cpu (ocupar true) fd st.cpus } in
      let st1 = record st0 { sem_hay_ready = n } in
      elim (Option-cases (obtener_siguiente_proceso_para_cpu cfg fd st1)) [
        | inl nada ↦ (
          (true, sem_post_ready (record st1 { cpus = con_cpu (ocupar false) fd st1.cpus })),
          rw (nada, ocupar_cpu) refl,
          devuelto cfg st n v suyo,
        )
        | inr ((p, st2), algo) ↦
            let (d, s, a) = obtener-Sacado cfg st0 n v suyo fd p st2 algo in
            let w = despachar-Coherente cfg fd p st0 st2 v d s in
            let d' : p < (despachar cfg fd p st2).proximo =
              rw (despachar-proximo cfg fd p st2, s.proximo) d in
            let (r, e, u) = terminar-Responde cfg enviado fd p (despachar cfg fd p st2) w d' in
            (r, rw (algo, ocupar_cpu) e, u)
      ]

  mandar-Responde :
      Responde cfg (mandar_proceso_cpu cfg enviado fd (record st { sem_hay_ready = n }))
  unfolding mandar_proceso_cpu
  mandar-Responde =
      let st0 = record st { sem_hay_ready = n } in
      let w = devuelto cfg st n v suyo in
      elim (Bool-cases st.compactacion_value) [
        | inl si ↦
            ((true, sem_post_ready st0), ap (λ (b : Bool). segun b (buscar_cpu fd st.cpus)) si, w)
        | inr sin ↦
            let paso = ap (λ (b : Bool). segun b (buscar_cpu fd st.cpus)) sin in
            elim (Option-cases (buscar_cpu fd st.cpus)) [
              | inl nadie ↦ (
                (false, sem_post_ready st0),
                paso ∙ ap (λ (o : Option CpuKs). segun false o) nadie,
                w,
              )
              | inr (c, alguna) ↦
                  let paso2 = paso ∙ ap (λ (o : Option CpuKs). segun false o) alguna in
                  elim (Bool-cases c.en_uso) [
                    | inl ocupada ↦ (
                      (false, sem_post_ready st0),
                      paso2 ∙ ap (λ (b : Bool). en_uso b) ocupada,
                      w,
                    )
                    | inr libre ↦
                        let (r, e, u) = ocupar-Responde in
                        (r, paso2 ∙ ap (λ (b : Bool). en_uso b) libre ∙ e, u)
                  ]
            ]
      ]
    where
      en_uso : Bool → Option (Bool × Ks)
      en_uso b =
          if b
          then some (false, sem_post_ready (record st { sem_hay_ready = n }))
          else ocupar_cpu cfg enviado fd (record st { sem_hay_ready = n })

      segun : Bool → Option CpuKs → Option (Bool × Ks)
      segun b o =
          if b then some (true, sem_post_ready (record st { sem_hay_ready = n })) else elim o [
            | none ↦ some (false, sem_post_ready (record st { sem_hay_ready = n }))
            | some c ↦ en_uso c.en_uso
          ]

-- While every process stands in the one place of its state, a free CPU waits exactly where no process
-- is ready; otherwise it is answered, and whatever happens (a compaction, an unknown CPU, one in use, a
-- process that waits for another CPU, a PID that cannot be sent, a dispatch) every process stands in the
-- one place of its state again.
pub cpu_libre_vuelta-Coherente :
    (cfg : InfoConfig) (enviado : Bool) (fd : ℕ) (st : Ks)
    → Coherente cfg st
    → ((cpu_libre_vuelta cfg enviado fd st ≡ none) × (listos st.listas st.niveles ≡ 0))
      ⊎ (Responde cfg (cpu_libre_vuelta cfg enviado fd st) × (0 < listos st.listas st.niveles))
unfolding cpu_libre_vuelta
cpu_libre_vuelta-Coherente cfg enviado fd st v = segun st.sem_hay_ready refl
  where
    segun :
        (n : ℕ)
        → st.sem_hay_ready ≡ n
        → ((cpu_libre_vuelta cfg enviado fd st ≡ none) × (listos st.listas st.niveles ≡ 0))
          ⊎ (Responde cfg (cpu_libre_vuelta cfg enviado fd st) × (0 < listos st.listas st.niveles))
    segun zero e = inl (rw (e, cpu_libre_vuelta) refl, omega (arith, v.semaforos.hay_ready))
    segun (suc n) e =
        let (r, i, w) = mandar-Responde cfg enviado fd n st v e in
        inr (
          (
            r,
            ap
                  (λ (k : ℕ). sem_wait k >>= λ m.
                    mandar_proceso_cpu cfg enviado fd (record st { sem_hay_ready = m }))
                  e
                ∙ i,
            w,
          ),
          omega (arith, v.semaforos.hay_ready),
        )
