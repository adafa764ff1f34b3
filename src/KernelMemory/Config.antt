-- ===== src/KernelMemory/Config.antt =====
-- What the handlers read of the configuration file, `config_km`.
use Prim.Native.String.{String}
use tp_so_limpio.Base.{ℕ}

pub record Config : Type 0 where
  pub segment_max_size : ℕ
  pub allocation_strategy : String
  pub scripts_basepath : String
