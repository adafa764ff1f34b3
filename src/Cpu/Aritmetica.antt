-- ===== src/Cpu/Aritmetica.antt =====
-- cpu/src/cliente.c: registers are read as they were written, and their arithmetic wraps around.
use tp_so_limpio.Base.{
  ℕ, ◌+◌, ◌≤◌, ◌-◌, ◌%◌, ◌^◌, ◌<◌, ◌≡◌, ◌⊎◌, refl, ap, ◌∙◌, Bool, true, false, some, ◌==◌, ◌>>=◌,
  if◌then◌else◌, arith, Bool-cases, inl, inr,
}
use tp_so_limpio.KernelMemory.Estado.{Registros}
use tp_so_limpio.Cpu.Viaje.{RegistrosValidos}
use tp_so_limpio.Cpu.Instrucciones.{
  Registro, ax, bx, cx, dx, eax, ebx, ecx, edx, si, di, pc, modulo, leer, escribir, leer_como,
  leer_cuatro, es_registro_32bits, ejecutar_sum, ejecutar_sub,
}

abbrev numero : Registro → ℕ
numero ax = 0
numero bx = 1
numero cx = 2
numero dx = 3
numero eax = 4
numero ebx = 5
numero ecx = 6
numero edx = 7
numero si = 8
numero di = 9
numero pc = 10

leer-escribir :
    (d o : Registro) (v : ℕ) (c : Registros)
    → leer o (escribir d v c) ≡ (if numero d == numero o then v else leer o c)
leer-escribir ax o v c = ground arith
leer-escribir bx o v c = ground arith
leer-escribir cx o v c = ground arith
leer-escribir dx o v c = ground arith
leer-escribir eax o v c = ground arith
leer-escribir ebx o v c = ground arith
leer-escribir ecx o v c = ground arith
leer-escribir edx o v c = ground arith
leer-escribir si o v c = ground arith
leer-escribir di o v c = ground arith
leer-escribir pc o v c = ground arith

leer-escribir_mismo : (d : Registro) (v : ℕ) (c : Registros) → leer d (escribir d v c) ≡ v
leer-escribir_mismo d v c = leer-escribir d d v c ∙ ground arith

escribir-leer : (d : Registro) (v : ℕ) (c : Registros) → escribir d (leer d c) (escribir d v c) ≡ c
escribir-leer ax v c = refl
escribir-leer bx v c = refl
escribir-leer cx v c = refl
escribir-leer dx v c = refl
escribir-leer eax v c = refl
escribir-leer ebx v c = refl
escribir-leer ecx v c = refl
escribir-leer edx v c = refl
escribir-leer si v c = refl
escribir-leer di v c = refl
escribir-leer pc v c = refl

leer-lt : (d : Registro) (c : Registros) → RegistrosValidos c → leer d c < modulo d
leer-lt ax c v = v.ax
leer-lt bx c v = v.bx
leer-lt cx c v = v.cx
leer-lt dx c v = v.dx
leer-lt eax c v = v.eax
leer-lt ebx c v = v.ebx
leer-lt ecx c v = v.ecx
leer-lt edx c v = v.edx
leer-lt si c v = v.si
leer-lt di c v = v.di
leer-lt pc c v = v.pc

deshacer_ancho :
    (b : Bool) (a v : ℕ)
    → (let m = if b then 2 ^ 32 else 2 ^ 8 in a < m → v < m → ((a + v) % m + m - v) % m ≡ a)
deshacer_ancho true a v h k = omega arith
deshacer_ancho false a v h k = omega arith

-- An 8-bit or 32-bit sum is undone by the difference, whatever wraps around.
deshacer :
    (d : Registro) (a v : ℕ)
    → a < modulo d
    → v < modulo d
    → ((a + v) % modulo d + modulo d - v) % modulo d ≡ a
deshacer d a v h k = deshacer_ancho (es_registro_32bits d) a v h k

-- Where a register stands in `t_contexto`, from that of PC on.
abbrev pub lugar : Registro → ℕ
lugar ax = 4
lugar bx = 5
lugar cx = 6
lugar dx = 7
lugar eax = 8
lugar ebx = 12
lugar ecx = 16
lugar edx = 20
lugar si = 24
lugar di = 28
lugar pc = 0

abbrev pub ancho : Registro → ℕ
ancho r = if es_registro_32bits r then 4 else 1

-- The bytes of the destination, and as many at the place of the source, do not meet.
abbrev pub Separados : Registro → Registro → Type 0
Separados d o = (lugar d + ancho d ≤ lugar o) ⊎ (lugar o + ancho d ≤ lugar d)

como-escribir :
    (d o : Registro) (n : ℕ) (c : Registros)
    → Separados d o
    → leer_como d o (escribir d n c) ≡ leer_como d o c
como-escribir ax o n c h = ground arith
como-escribir bx o n c h = ground arith
como-escribir cx o n c h = ground arith
como-escribir dx o n c h = ground arith
como-escribir eax o n c h = ground arith
como-escribir ebx o n c h = ground arith
como-escribir ecx o n c h = ground arith
como-escribir edx o n c h = ground arith
como-escribir si o n c h = ground arith
como-escribir di o n c h = ground arith
como-escribir pc o n c h = ground arith

cuatro-lt : (o : Registro) (c : Registros) → RegistrosValidos c → leer_cuatro o c < 2 ^ 32
cuatro-lt ax c v = omega (arith, v.ax, v.bx, v.cx, v.dx)
cuatro-lt bx c v = omega (arith, v.bx, v.cx, v.dx)
cuatro-lt cx c v = omega (arith, v.cx, v.dx)
cuatro-lt dx c v = omega (arith, v.dx)
cuatro-lt eax c v = v.eax
cuatro-lt ebx c v = v.ebx
cuatro-lt ecx c v = v.ecx
cuatro-lt edx c v = v.edx
cuatro-lt si c v = v.si
cuatro-lt di c v = v.di
cuatro-lt pc c v = v.pc

como-lt : (d o : Registro) (c : Registros) → RegistrosValidos c → leer_como d o c < modulo d
como-lt d o c w = elim (Bool-cases (es_registro_32bits d)) [
  | inl ancha ↦ rw ancha (cuatro-lt o c w)
  | inr chica ↦ rw chica (omega arith)
]

-- If the registers hold values of their types and the bytes that are read at the source are not those of
-- the destination, SUB undoes SUM, also where the sum wraps around, and whatever the widths.
pub sub-sum :
    (d o : Registro) (c : Registros)
    → RegistrosValidos c
    → Separados d o
    → (ejecutar_sum d o c >>= λ r. ejecutar_sub d o r.0) ≡ some (c, false)
unfolding ejecutar_sum ejecutar_sub
sub-sum d o c w aparte =
    let v = leer_como d o c in
    let n = (leer d c + v) % modulo d in
    let vuelve : (leer d (escribir d n c) + modulo d - leer_como d o (escribir d n c)) % modulo d
        ≡ leer d c =
      ap (λ (x : ℕ). (x + modulo d - leer_como d o (escribir d n c)) % modulo d)
        (leer-escribir_mismo d n c)
      ∙ ap (λ (x : ℕ). (n + modulo d - x) % modulo d) (como-escribir d o n c aparte)
      ∙ deshacer d (leer d c) v (leer-lt d c w) (como-lt d o c w) in
    ap (λ (x : ℕ). some (escribir d x (escribir d n c), false)) vuelve
    ∙ ap (λ (x : Registros). some (x, false)) (escribir-leer d n c)
