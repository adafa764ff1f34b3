-- ===== src/KernelScheduler/Busqueda.antt =====
-- kernel_scheduler/src/server/src/server.c: processes by PID, CPUs by socket.
use tp_so_limpio.Base.{
  ℕ, Bool, true, false, Option, none, some, List, [], ◌∷◌, ◌==◌, not, if◌then◌else◌,
}
use tp_so_limpio.KernelScheduler.Estado.{Pcb, Nivel, cmn, InfoConfig, CpuKs, Ks}

-- The loop over one list.
unfoldable pub buscar_en : (ℕ → Pcb) → ℕ → List ℕ → Option ℕ
buscar_en h pid [] = none
buscar_en h pid (p ∷ ps) = if (h p).pid == pid then some p else buscar_en h pid ps

-- What was found, or else what a later list gives.
abbrev pub o_sino : Option ℕ → Option ℕ → Option ℕ
o_sino none b = b
o_sino (some a) b = some a

unfoldable pub buscar_en_niveles : (ℕ → Pcb) → ℕ → List Nivel → Option ℕ
unfolding buscar_en
buscar_en_niveles h pid [] = none
buscar_en_niveles h pid (v ∷ vs) = o_sino (buscar_en h pid v.cola) (buscar_en_niveles h pid vs)

unfoldable pub buscar_pcb_por_pid : InfoConfig → ℕ → Ks → Option ℕ
unfolding buscar_en buscar_en_niveles
buscar_pcb_por_pid cfg pid st =
    let en = buscar_en st.pcbs pid in
    let l = st.listas in
    o_sino (en l.new) (
      o_sino (en l.rdy) (
        o_sino (en l.rnn) (
          o_sino (en l.bck) (
            o_sino (en l.ext) (
              o_sino (en l.s_bck) (
                o_sino (en l.s_rdy) (elim cfg.politica [
                  | cmn ↦ buscar_en_niveles st.pcbs pid st.niveles
                  | _ ↦ none
                ])))))))

unfoldable pub encontrar_pcb_rnn_por_pid : ℕ → Ks → Option ℕ
unfolding buscar_en
encontrar_pcb_rnn_por_pid pid st = buscar_en st.pcbs pid st.listas.rnn

-- Called with the list of running processes.
unfoldable pub hay_otro_proceso_ejecutando : (ℕ → Pcb) → ℕ → List ℕ → Bool
hay_otro_proceso_ejecutando h pid [] = false
hay_otro_proceso_ejecutando h pid (p ∷ ps) =
    if not ((h p).pid == pid) then true else hay_otro_proceso_ejecutando h pid ps

-- `list_find_with_context` with `es_la_cpu_buscada`.
unfoldable pub buscar_cpu : ℕ → List CpuKs → Option CpuKs
buscar_cpu fd [] = none
buscar_cpu fd (c ∷ cs) = if c.fd == fd then some c else buscar_cpu fd cs

-- An assignment through the pointer that `buscar_cpu` finds.
unfoldable pub con_cpu : (CpuKs → CpuKs) → ℕ → List CpuKs → List CpuKs
con_cpu f fd [] = []
con_cpu f fd (c ∷ cs) = if c.fd == fd then f c ∷ cs else c ∷ con_cpu f fd cs

-- A CPU that runs nothing.
abbrev pub liberada : CpuKs → CpuKs
liberada c = record c { en_uso = false; pid_ejecutando = none }
