-- ===== src/KernelMemory/Suspension/Llevada.antt =====
-- Suspending a process: all of its segments go to SWAP, and what SWAP holds of them.
use tp_so_limpio.Base.{
  ℕ, ◌*◌, ◌≤◌, ◌<◌, ◌≡◌, sym, ap, ◌∙◌, subst, inl, inr, true, false, Bool, some, List, [], ◌∷◌,
  arith, ◌==◌, ◌&&◌, Bool-cases, Option-cases, All,
}
use tp_so_limpio.Commons.{Commons}
use tp_so_limpio.KernelMemory.Fisica.Plano.{Coherente, byte}
use tp_so_limpio.KernelMemory.Fisica.Lectura.{leer_bytes_globales_lem}
use tp_so_limpio.KernelMemory.Estado.{Segmento, Contexto, buscar_contexto}
use tp_so_limpio.KernelMemory.Particion.{Particion, veces}
use tp_so_limpio.KernelMemory.Respaldo.{
  bloques_necesarios, escribir_bloques, obtener_n_bloques_libres,
}
use tp_so_limpio.KernelMemory.Respaldo.Bloques.{Obtenido, obtener-Obtenido}
use tp_so_limpio.KernelMemory.Respaldo.Viaje.{bloques_justos}
use tp_so_limpio.KernelMemory.Suspension.{
  Sistema, mover_segmento_a_swap, mover_segmentos, suspender_proceso, sin_segmento,
}
use tp_so_limpio.KernelMemory.Suspension.Ida.{
  Legible, leer_plano-Legible, tabla-una_vez, tabla-veces, Suspendido, mover-Suspendido,
  suspender_proceso-Suspendido,
}
use tp_so_limpio.KernelMemory.Suspension.Guardado.{
  EnOrden, Llevado, SinVacios, Llevado-refl, Llevado-trans, llevar,
}

module _ (c : Commons) (bs total bytes_swap : ℕ) (entran : total * bs ≤ bytes_swap) where
  mover-Llevado :
      (p : ℕ) (st : Sistema c) (r : Bool × Sistema c)
      → Particion st.mapa
      → veces p st.mapa ≡ 1
      → (st.mapa.segmentos p).en_swap ≡ false
      → 0 < (st.mapa.segmentos p).limite
      → Coherente st.mapa.memoria_total_sistema st.fisica
      → Legible st.mapa.memoria_total_sistema st.fisica
      → EnOrden bs total bytes_swap st
      → mover_segmento_a_swap c bs total p st ≡ some r
      → Llevado bs total bytes_swap st r.1
  unfolding mover_segmento_a_swap
  mover-Llevado p st r v uno ram lleno coh leg o e =
      let seg = st.mapa.segmentos p in
      let n = bloques_necesarios seg.limite bs in
      let (justo, _) = bloques_justos seg.limite bs o.sano.positivo in
      let alguno : 0 < n = elim (Bool-cases (n == 0)) [
        | inl t ↦
            let z : n ≡ 0 = ground arith in
            let y : n * bs ≡ 0 = ap (λ k. k * bs) z ∙ omega arith in absurd (omega arith)
        | inr t ↦ ground arith
      ] in
      let ob = obtener-Obtenido c total st.bitmap n alguno in
      elim (Option-cases (obtener_n_bloques_libres c st.bitmap total n)) [
        | inl nada ↦
            let z : some (false, st) ≡ some r = rw (nada, mover_segmento_a_swap) at e in
            let i : (false, st) ≡ r = cc in
            subst (λ (k : Bool × Sistema c). Llevado bs total bytes_swap st k.1) i
              (Llevado-refl c bs total bytes_swap entran st o)
        | inr (q, hay) ↦
            let (buf, b) =
              leer_plano-Legible (byte st.fisica) seg.direccion_base seg.limite
                st.mapa.memoria_total_sistema leg (v.segmentos_en_rango p uno ram) in
            let leido =
              leer_bytes_globales_lem st.mapa.memoria_total_sistema st.fisica coh seg.direccion_base
                seg.limite
              ∙ b in
            let st' : Sistema c = record st {
              bitmap = q.1;
              swap = escribir_bloques bs seg.limite n buf q.0 0 n st.swap;
              mapa = sin_segmento c bs total p q.0 n st.mapa;
            } in
            let z : some (true, st') ≡ some r = rw (hay, leido, mover_segmento_a_swap) at e in
            let i : (true, st') ≡ r = cc in
            let ob' : Obtenido c total st.bitmap n (some (q.0, q.1)) = rw hay at ob in
            subst (λ (k : Bool × Sistema c). Llevado bs total bytes_swap st k.1) i
              (llevar c bs total bytes_swap entran p q.0 q.1 buf st o ob' ram b)
      ]

  mover_segmentos-Llevado :
      (ps : List ℕ) (exito : Bool) (st : Sistema c) (r : Bool × Sistema c)
      → Particion st.mapa
      → All (λ p. veces p st.mapa ≡ 1) ps
      → SinVacios st.mapa
      → Coherente st.mapa.memoria_total_sistema st.fisica
      → Legible st.mapa.memoria_total_sistema st.fisica
      → EnOrden bs total bytes_swap st
      → mover_segmentos c bs total ps exito st ≡ some r
      → Llevado bs total bytes_swap st r.1
  unfolding mover_segmentos
  mover_segmentos-Llevado [] exito st r v unos llenos coh leg o e =
      let i : (exito, st) ≡ r = cc in
      subst (λ (k : Bool × Sistema c). Llevado bs total bytes_swap st k.1) i
        (Llevado-refl c bs total bytes_swap entran st o)
  mover_segmentos-Llevado (p ∷ ps) exito st r v unos llenos coh leg o e =
      elim (Bool-cases (st.mapa.segmentos p).en_swap) [
        | inl ya ↦
            mover_segmentos-Llevado ps exito st r v unos.1 llenos coh leg o
              (rw (ya, mover_segmentos) at e)
        | inr ram ↦
            let (a, ea, mov, _) = mover-Suspendido c bs total p st v unos.0 ram coh leg in
            let una = mover-Llevado p st a v unos.0 ram (llenos p unos.0 ram) coh leg o ea in
            let ct = mov.contextos in
            let tot = mov.total_igual in
            let fis = mov.fisica_igual in
            let z : mover_segmentos c bs total ps (exito && a.0) a.1 ≡ some r =
              rw (ram, ea, mover_segmentos) at e in
            let llenos' : SinVacios a.1.mapa = λ q vive en.
              let i = una.quedan q en in
              let uno : veces q st.mapa ≡ 1 = rw (← ct) vive in
              subst (λ (s : Segmento). 0 < s.limite) (sym i)
                (llenos q uno (sym (ap (λ (s : Segmento). s.en_swap) i) ∙ en)) in
            let resto =
              mover_segmentos-Llevado ps (exito && a.0) a.1 r mov.tejado (rw ct unos.1) llenos'
                (rw (tot, fis) coh) (rw (tot, fis) leg) una.orden z in
            Llevado-trans c bs total bytes_swap entran st a.1 r.1 fis una resto
      ]

  -- While the memory is tiled, its sticks are connected, no live resident segment is empty and SWAP
  -- answers and has all the blocks of the bit map, suspending a process that has a context returns. The
  -- memory stays tiled and its bytes as they are. Every segment that went to SWAP is read back from there
  -- as the bytes that it had in memory, what SWAP held of other segments in marked blocks stays, and if
  -- the answer is true every segment of the process is suspended.
  pub suspender_proceso-Llevado :
      (pid : ℕ) (st : Sistema c) (ctx : Contexto)
      → Particion st.mapa
      → Coherente st.mapa.memoria_total_sistema st.fisica
      → Legible st.mapa.memoria_total_sistema st.fisica
      → SinVacios st.mapa
      → EnOrden bs total bytes_swap st
      → buscar_contexto st.mapa.lista_contextos pid ≡ some ctx
      → (r : Bool × Sistema c) × (suspender_proceso c bs total pid st ≡ some r)
        × Suspendido st r.1
        × Llevado bs total bytes_swap st r.1
        × (r.0 ≡ true → All (λ p. (r.1.mapa.segmentos p).en_swap ≡ true) ctx.tabla_segmentos)
  unfolding suspender_proceso
  suspender_proceso-Llevado pid st ctx v coh leg llenos o hay =
      let unos =
        tabla-una_vez st.mapa ctx.tabla_segmentos v
          (λ p. tabla-veces st.mapa.lista_contextos pid p ctx hay) in
      let (r, e, mov, fin) = suspender_proceso-Suspendido c bs total pid st ctx v coh leg hay in
      let z : mover_segmentos c bs total ctx.tabla_segmentos true st ≡ some r =
        rw (hay, suspender_proceso) at e in
      (
        r,
        e,
        mov,
        mover_segmentos-Llevado ctx.tabla_segmentos true st r v unos llenos coh leg o z,
        fin,
      )
