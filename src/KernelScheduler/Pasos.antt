-- ===== src/KernelScheduler/Pasos.antt =====
-- kernel_scheduler/src/server/src/server.c: the planner as a machine whose steps are its handlers and
-- the steps of its threads, in any order.
use Prim.Native.String.{String}
use tp_so_limpio.Base.{
  ℕ, suc, ◌<◌, ◌^◌, ◌≡◌, ◌∙◌, sym, subst, Bool, false, Option, none, some, List, length, inl, inr,
  arith,
}
use tp_so_limpio.GlobalUtils.{Mensaje}
use tp_so_limpio.KernelScheduler.Estado.{rdy, Pcb, TrabajoIo, CpuKs, InfoConfig, Ks}
use tp_so_limpio.KernelScheduler.Desalojo.{control_hilo_quantum, agregar_a_desalojo}
use tp_so_limpio.KernelScheduler.Plazos.{
  nuevo_espacio, mediano_plazo_bck_suspender, mediano_plazo_bck_volver,
}
use tp_so_limpio.KernelScheduler.Cpus.{nueva_cpu, cpu_libre_vuelta}
use tp_so_limpio.KernelScheduler.Servicios.{
  exit_proceso, segmentation_fault, atender_desalojo, gestionar_desconexion_cpu,
}
use tp_so_limpio.KernelScheduler.Coherencia.{Coherente, HayLugar}
use tp_so_limpio.KernelScheduler.Espacio.{nuevo_espacio-Coherente}
use tp_so_limpio.KernelScheduler.Vigencia.{
  Sigue, exit_proceso-Coherente, segmentation_fault-Coherente,
  mediano_plazo_bck_suspender-Coherente, mediano_plazo_bck_volver-Coherente,
}
use tp_so_limpio.KernelScheduler.Desalojos.{
  atender_desalojo-Coherente, gestionar_desconexion_cpu-Coherente,
}
use tp_so_limpio.KernelScheduler.CpuLibre.{cpu_libre_vuelta-Coherente}
use tp_so_limpio.KernelScheduler.Bloqueos.{
  bloquear_por_io, terminar_io, bloquear-Sigue, terminar_io-Coherente,
}
use tp_so_limpio.KernelScheduler.Creacion.{
  ks_inicial, iniciar_planificador_cmn, primer_proceso, init_proc,
}
use tp_so_limpio.KernelScheduler.Nacimiento.{
  crear_y_admitir-Coherente, init_proc-Coherente, inicial-Coherente,
}

-- One step. Processes are created with a priority that has a level, and the answers of Kernel Memory
-- and of the CPUs are arbitrary; the request of a CPU is served outside a compaction.
pub data Paso (cfg : InfoConfig) : Ks → Ks → Type 0 where
  crear :
      {st st' : Ks} (respuesta_ok : Bool) (path : String)
      → HayLugar cfg.politica rdy 0 (length st.niveles)
      → suc st.contador_pid < 2 ^ 32
      → primer_proceso cfg respuesta_ok path st ≡ some st'
      → Paso cfg st st'
  iniciar :
      {st : Ks} {r : Ks × List Mensaje} (respuesta_ok : Bool) (path : String) (prioridad pid : ℕ)
      → HayLugar cfg.politica rdy prioridad (length st.niveles)
      → suc st.contador_pid < 2 ^ 32
      → init_proc cfg respuesta_ok path prioridad pid st ≡ some r
      → Paso cfg st r.0
  conectar : {st : Ks} (fd : ℕ) (nombre : String) → Paso cfg st (nueva_cpu fd nombre st)
  despacho :
      {st : Ks} {r : Bool × Ks} (enviado : Bool) (fd : ℕ)
      → cpu_libre_vuelta cfg enviado fd st ≡ some r
      → Paso cfg st r.1
  quantum : {st : Ks} (p version : ℕ) → Paso cfg st (control_hilo_quantum p version st)
  desalojar :
      {st : Ks} {r : Ks × List Mensaje} (confirma : Bool) (fd pid : ℕ)
      → st.compactacion_value ≡ false
      → atender_desalojo cfg confirma fd pid st ≡ some r
      → Paso cfg st r.0
  terminar :
      {st : Ks} {r : Ks × List Mensaje} (hay : List Mensaje → Bool) (fd pid : ℕ)
      → exit_proceso cfg hay fd pid st ≡ some r
      → Paso cfg st r.0
  fallar :
      {st st' : Ks} (hay : List Mensaje → Bool) (fd pid : ℕ)
      → segmentation_fault cfg hay fd pid st ≡ some st'
      → Paso cfg st st'
  bloquear :
      {st st' : Ks} (p : ℕ) (trabajo : TrabajoIo)
      → p < st.proximo
      → bloquear_por_io cfg p trabajo st ≡ some st'
      → Paso cfg st st'
  despertar : {st st' : Ks} (pid : ℕ) → terminar_io cfg pid st ≡ some st' → Paso cfg st st'
  suspender :
      {st : Ks} {r : Bool × Ks} (p version : ℕ)
      → p < st.proximo
      → mediano_plazo_bck_suspender cfg p version st ≡ some r
      → Paso cfg st r.1
  volver :
      {st st' : Ks} (p : ℕ)
      → p < st.proximo
      → mediano_plazo_bck_volver cfg p st ≡ some st'
      → Paso cfg st st'
  desuspender :
      {st st' : Ks} (hay : List Mensaje → Bool)
      → nuevo_espacio cfg hay st ≡ some st'
      → Paso cfg st st'
  desconectar :
      {st st' : Ks} (c : CpuKs) → gestionar_desconexion_cpu cfg c st ≡ some st' → Paso cfg st st'

-- The states that the planner can get to from the first one.
pub data Alcanzable (cfg : InfoConfig) : Ks → Type 0 where
  inicio :
      (h : ℕ → Pcb) (nombres : List String) (quantum : ℕ)
      → Alcanzable cfg (ks_inicial h (iniciar_planificador_cmn nombres quantum))
  luego : {st st' : Ks} → Alcanzable cfg st → Paso cfg st st' → Alcanzable cfg st'

module _ (cfg : InfoConfig) where
  -- A result that is there is the one that is coherent.
  el_mismo_de :
      {A : Type 0} (f : A → Ks) (o : Option A) {r' : A}
      → (r : A) × (o ≡ some r) × Coherente cfg (f r)
      → o ≡ some r'
      → Coherente cfg (f r')
  el_mismo_de f o {r'} (r, e, w) h =
      let z : some r ≡ some r' = sym e ∙ h in
      let i : r ≡ r' = cc in subst (λ k. Coherente cfg (f k)) i w

  el_mismo : {st' : Ks} (o : Option Ks) → Sigue cfg o → o ≡ some st' → Coherente cfg st'
  el_mismo o s h = el_mismo_de (λ (k : Ks). k) o s h

  despachado :
      (enviado : Bool) (fd : ℕ) (st : Ks) {r : Bool × Ks}
      → Coherente cfg st
      → cpu_libre_vuelta cfg enviado fd st ≡ some r
      → Coherente cfg r.1
  despachado enviado fd st {r} v e = elim (cpu_libre_vuelta-Coherente cfg enviado fd st v) [
    | inl (nada, _) ↦ let z : none ≡ some r = sym nada ∙ e in absurd (cc)
    | inr (s, _) ↦ el_mismo_de (λ (k : Bool × Ks). k.1) (cpu_libre_vuelta cfg enviado fd st) s e
  ]

  quantum_marco :
      (p version : ℕ) (st : Ks)
      → (d : List ℕ) × (control_hilo_quantum p version st ≡ record st { desalojo = d })
  unfolding control_hilo_quantum agregar_a_desalojo
  quantum_marco p version st = ((control_hilo_quantum p version st).desalojo, ground arith)

  paso-Coherente : {st st' : Ks} → Coherente cfg st → Paso cfg st st' → Coherente cfg st'
  unfolding nueva_cpu primer_proceso
  paso-Coherente v (crear {st} respuesta_ok path h c e) =
      el_mismo (primer_proceso cfg respuesta_ok path st)
        (crear_y_admitir-Coherente cfg respuesta_ok path 0 st v h c) e
  paso-Coherente v (iniciar {st} respuesta_ok path prioridad pid h c e) =
      el_mismo_de (λ (k : Ks × List Mensaje). k.0)
        (init_proc cfg respuesta_ok path prioridad pid st)
        (init_proc-Coherente cfg respuesta_ok path prioridad pid st v h c) e
  paso-Coherente v (conectar fd nombre) = v
  paso-Coherente v (despacho {st} enviado fd e) = despachado enviado fd st v e
  paso-Coherente v (quantum {st} p version) = let (d, e) = quantum_marco p version st in rw e v
  paso-Coherente v (desalojar {st} confirma fd pid c e) =
      el_mismo_de (λ (k : Ks × List Mensaje). k.0) (atender_desalojo cfg confirma fd pid st)
        (atender_desalojo-Coherente cfg confirma fd pid st v c) e
  paso-Coherente v (terminar {st} hay fd pid e) =
      el_mismo_de (λ (k : Ks × List Mensaje). k.0) (exit_proceso cfg hay fd pid st)
        (exit_proceso-Coherente cfg hay fd pid st v) e
  paso-Coherente v (fallar {st} hay fd pid e) =
      el_mismo (segmentation_fault cfg hay fd pid st)
        (segmentation_fault-Coherente cfg hay fd pid st v) e
  paso-Coherente v (bloquear {st} p trabajo d e) =
      el_mismo (bloquear_por_io cfg p trabajo st) (bloquear-Sigue cfg p trabajo st v d) e
  paso-Coherente v (despertar {st} pid e) =
      el_mismo (terminar_io cfg pid st) (terminar_io-Coherente cfg pid st v) e
  paso-Coherente v (suspender {st} p version d e) =
      el_mismo_de (λ (k : Bool × Ks). k.1) (mediano_plazo_bck_suspender cfg p version st)
        (mediano_plazo_bck_suspender-Coherente cfg p st v d version) e
  paso-Coherente v (volver {st} p d e) =
      el_mismo (mediano_plazo_bck_volver cfg p st) (mediano_plazo_bck_volver-Coherente cfg p st v d)
        e
  paso-Coherente v (desuspender {st} hay e) =
      el_mismo (nuevo_espacio cfg hay st) (nuevo_espacio-Coherente cfg hay st v) e
  paso-Coherente v (desconectar {st} c e) =
      el_mismo (gestionar_desconexion_cpu cfg c st) (gestionar_desconexion_cpu-Coherente cfg c st v)
        e

  -- In every state that the planner gets to by the steps of `Paso`, each process that was created stands
  -- exactly once in the list or queue of its state and nowhere else, and `sem_hay_ready` is the number of
  -- ready processes. The steps leave out the syscalls on mutexes, preemption during a compaction, more
  -- than 2 ^ 32 - 1 processes, and the creation of a process with a priority that has no level under CMN
  -- or under an algorithm that is none of FIFO, RR and CMN.
  pub alcanzable-Coherente : {st : Ks} → Alcanzable cfg st → Coherente cfg st
  alcanzable-Coherente (inicio h nombres q) = inicial-Coherente cfg h nombres q
  alcanzable-Coherente (luego a p) = paso-Coherente (alcanzable-Coherente a) p
