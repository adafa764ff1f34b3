-- ===== src/KernelScheduler/Afinidad.antt =====
-- kernel_scheduler/src/server/src/server.c: the processes that wait for the CPU they left.
use tp_so_limpio.Base.{
  ℕ, Bool, true, false, Option, none, some, List, [], ◌∷◌, ◌++◌, ◌==◌, ◌&&◌, if◌then◌else◌,
}
use tp_so_limpio.KernelScheduler.Estado.{Retorno}

unfoldable pub pinear_retorno_cpu : ℕ → ℕ → List Retorno → List Retorno
pinear_retorno_cpu pid fd rs = rs ++ (record { pid = pid; fd_cpu = fd } ∷ [])

-- The PID reserved for a CPU, -1 as `none`, and what is left.
unfoldable pub tomar_retorno_cpu : ℕ → List Retorno → Option ℕ × List Retorno
tomar_retorno_cpu fd [] = (none, [])
tomar_retorno_cpu fd (r ∷ rs) =
    let resto = tomar_retorno_cpu fd rs in
    if r.fd_cpu == fd then (some r.pid, rs) else (resto.0, r ∷ resto.1)

unfoldable pub existe_retorno_cpu : ℕ → ℕ → List Retorno → Bool
existe_retorno_cpu pid fd [] = false
existe_retorno_cpu pid fd (r ∷ rs) =
    if r.pid == pid && r.fd_cpu == fd then true else existe_retorno_cpu pid fd rs

unfoldable pub quitar_retorno_cpu : ℕ → List Retorno → List Retorno
quitar_retorno_cpu pid [] = []
quitar_retorno_cpu pid (r ∷ rs) = if r.pid == pid then rs else r ∷ quitar_retorno_cpu pid rs

unfoldable pub fd_afinidad_de : ℕ → List Retorno → Option ℕ
fd_afinidad_de pid [] = none
fd_afinidad_de pid (r ∷ rs) = if r.pid == pid then some r.fd_cpu else fd_afinidad_de pid rs

unfoldable pub quitar_retorno_por_fd : ℕ → List Retorno → List Retorno
quitar_retorno_por_fd fd [] = []
quitar_retorno_por_fd fd (r ∷ rs) =
    let resto = quitar_retorno_por_fd fd rs in if r.fd_cpu == fd then resto else r ∷ resto
