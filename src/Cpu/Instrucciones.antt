-- ===== src/Cpu/Instrucciones.antt =====
-- cpu/src/cliente.c: the instructions on registers, from their decoding to their effect. The texts are
-- split by so-commons and read by the C library, which are parameters: `string_split`, and the values
-- of `strtoul` and of `atoi`, as a bit pattern.
use Prim.Native.String.{String}
use text.Mathlib.Text.{◌==◌ as str_eq}
use tp_so_limpio.Base.{
  ℕ, ◌+◌, ◌*◌, ◌-◌, ◌%◌, ◌^◌, Bool, true, false, Option, none, some, List, [], ◌∷◌, ◌==◌, ◌>>=◌,
  get_elem?, not, if◌then◌else◌,
}
use tp_so_limpio.KernelMemory.Estado.{Registros}

-- `t_instruccion_code`.
pub data Codigo : Type 0 where
  noop set sum sub jnz copy_mem mov_in mov_out mutex_create mutex_lock mutex_unlock : Codigo
  mem_alloc mem_free sleep stdout stdin init_proc exit_proc : Codigo

unfoldable pub identificar_codigo : String → Codigo
identificar_codigo token =
    if str_eq token "NOOP"
    then noop
    else if str_eq token "SET"
    then set
    else if str_eq token "SUM"
    then sum
    else if str_eq token "SUB"
    then sub
    else if str_eq token "JNZ"
    then jnz
    else if str_eq token "COPY_MEM"
    then copy_mem
    else if str_eq token "MOV_IN"
    then mov_in
    else if str_eq token "MOV_OUT"
    then mov_out
    else if str_eq token "MUTEX_CREATE"
    then mutex_create
    else if str_eq token "MUTEX_LOCK"
    then mutex_lock
    else if str_eq token "MUTEX_UNLOCK"
    then mutex_unlock
    else if str_eq token "MEM_ALLOC"
    then mem_alloc
    else if str_eq token "MEM_FREE"
    then mem_free
    else if str_eq token "SLEEP"
    then sleep
    else if str_eq token "STDOUT"
    then stdout
    else if str_eq token "STDIN"
    then stdin
    else if str_eq token "INIT_PROC"
    then init_proc
    else if str_eq token "EXIT"
    then exit_proc
    else noop

-- `t_instruccion`.
pub record Instruccion : Type 0 where
  pub codigo : Codigo
  pub params : List String

-- Where a register stands in the context.
pub data Registro : Type 0 where
  ax bx cx dx eax ebx ecx edx si di pc : Registro

-- A name that is no register is the null pointer.
unfoldable pub obtener_registro : String → Option Registro
obtener_registro nombre =
    if str_eq nombre "AX"
    then some ax
    else if str_eq nombre "BX"
    then some bx
    else if str_eq nombre "CX"
    then some cx
    else if str_eq nombre "DX"
    then some dx
    else if str_eq nombre "EAX"
    then some eax
    else if str_eq nombre "EBX"
    then some ebx
    else if str_eq nombre "ECX"
    then some ecx
    else if str_eq nombre "EDX"
    then some edx
    else if str_eq nombre "SI"
    then some si
    else if str_eq nombre "DI"
    then some di
    else if str_eq nombre "PC"
    then some pc
    else none

-- `es_registro_32bits`, on the register that a name stands for.
abbrev pub es_registro_32bits : Registro → Bool
es_registro_32bits ax = false
es_registro_32bits bx = false
es_registro_32bits cx = false
es_registro_32bits dx = false
es_registro_32bits _ = true

abbrev pub modulo : Registro → ℕ
modulo r = if es_registro_32bits r then 2 ^ 32 else 2 ^ 8

abbrev pub leer : Registro → Registros → ℕ
leer ax c = c.ax
leer bx c = c.bx
leer cx c = c.cx
leer dx c = c.dx
leer eax c = c.eax
leer ebx c = c.ebx
leer ecx c = c.ecx
leer edx c = c.edx
leer si c = c.si
leer di c = c.di
leer pc c = c.pc

abbrev pub escribir : Registro → ℕ → Registros → Registros
escribir ax v c = record c { ax = v }
escribir bx v c = record c { bx = v }
escribir cx v c = record c { cx = v }
escribir dx v c = record c { dx = v }
escribir eax v c = record c { eax = v }
escribir ebx v c = record c { ebx = v }
escribir ecx v c = record c { ecx = v }
escribir edx v c = record c { edx = v }
escribir si v c = record c { si = v }
escribir di v c = record c { di = v }
escribir pc v c = record c { pc = v }

-- The four bytes at the place of a register in `t_contexto`, the low one first: an 8-bit register is
-- followed by its neighbours, and those by EAX.
abbrev pub leer_cuatro : Registro → Registros → ℕ
leer_cuatro ax c = c.ax + 2 ^ 8 * c.bx + 2 ^ 16 * c.cx + 2 ^ 24 * c.dx
leer_cuatro bx c = c.bx + 2 ^ 8 * c.cx + 2 ^ 16 * c.dx + 2 ^ 24 * (c.eax % 2 ^ 8)
leer_cuatro cx c = c.cx + 2 ^ 8 * c.dx + 2 ^ 16 * (c.eax % 2 ^ 16)
leer_cuatro dx c = c.dx + 2 ^ 8 * (c.eax % 2 ^ 24)
leer_cuatro r c = leer r c

-- The value read through a pointer of the width of `dest` at the place of `orig`.
abbrev pub leer_como : Registro → Registro → Registros → ℕ
leer_como dest orig c = if es_registro_32bits dest then leer_cuatro orig c else leer orig c % 2 ^ 8

abbrev pub es_pc : Registro → Bool
es_pc pc = true
es_pc _ = false

-- The registers, and whether the instruction has set `pc_modificado`.
abbrev pub Efecto : Type 0
Efecto = Option (Registros × Bool)

unfoldable pub ejecutar_set : Registro → ℕ → Registros → Efecto
ejecutar_set dest valor c = some (escribir dest (valor % modulo dest) c, es_pc dest)

unfoldable pub ejecutar_sum : Registro → Registro → Registros → Efecto
ejecutar_sum dest orig c =
    some (escribir dest ((leer dest c + leer_como dest orig c) % modulo dest) c, false)

unfoldable pub ejecutar_sub : Registro → Registro → Registros → Efecto
ejecutar_sub dest orig c =
    some
      (escribir dest ((leer dest c + modulo dest - leer_como dest orig c) % modulo dest) c, false)

unfoldable pub ejecutar_jnz : Registro → ℕ → Registros → Efecto
ejecutar_jnz r destino c =
    if not (leer r c == 0) then some (record c { pc = destino }, true) else some (c, false)

module _ (strtoul atoi : String → ℕ) (string_split : String → List String) where
  -- The parameters are copied to an array of ten; a longer instruction writes behind it.
  unfoldable pub decode : String → Option Instruccion
  unfolding identificar_codigo
  decode texto = elim (string_split texto) [
    | [] ↦ none
    | t ∷ ts ↦ elim (get_elem? ts 10) [
      | none ↦ some (record { codigo = identificar_codigo t; params = ts })
      | some sobra ↦ none
    ]
  ]

  -- The register that a parameter names.
  abbrev pub registro : List String → ℕ → Option Registro
  registro ps n = get_elem? ps n >>= obtener_registro

  abbrev pub segun_codigo : Codigo → List String → Registros → Efecto
  segun_codigo noop ps c = some (c, false)
  segun_codigo set ps c =
      registro ps 0 >>= λ r. get_elem? ps 1 >>= λ t. ejecutar_set r (strtoul t) c
  segun_codigo sum ps c = registro ps 0 >>= λ d. registro ps 1 >>= λ o. ejecutar_sum d o c
  segun_codigo sub ps c = registro ps 0 >>= λ d. registro ps 1 >>= λ o. ejecutar_sub d o c
  segun_codigo jnz ps c = registro ps 0 >>= λ r. get_elem? ps 1 >>= λ t. ejecutar_jnz r (atoi t) c
  segun_codigo _ ps c = none

  -- `execute` on the instructions on registers. Nothing comes of one that reads memory or makes a
  -- syscall, which are not modelled, nor where a null pointer is followed.
  unfoldable pub execute_registros : Instruccion → Registros → Efecto
  unfolding obtener_registro
  execute_registros i c = segun_codigo i.codigo i.params c

-- The loop's step to the next instruction.
unfoldable pub avanzar_pc : Bool → Registros → Registros
avanzar_pc pc_modificado c = if pc_modificado then c else record c { pc = (c.pc + 1) % 2 ^ 32 }
