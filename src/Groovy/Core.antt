-- ===== src/Groovy/Core.antt =====
-- internal/groovy/core.go: which core answered, and INIT byte 1 of a GroovyNLC session.
use Prim.Native.Nat.{bit_or}
use mi_ster_groovy_relay.Prelude.{ℕ, ◌*◌, ◌%◌, ◌^◌, Bool, List, [], ◌∷◌, leb, if◌then◌else◌}
use mi_ster_groovy_relay.Groovy.{nlc_codec_mode, cmd_get_version, cmd_get_status}

pub data Core : Type 0 where
  unknown : Core
  groovy : Core
  groovy_nlc : Core

unfoldable pub core_from_version : ℕ → Core
core_from_version v = if leb 2 v then groovy_nlc else groovy

-- `near & 3` is the remainder by 4, also of a negative `near`; the callers pass 0 to 3.
unfoldable pub nlc_compression_byte : ℕ → Bool → ℕ
nlc_compression_byte near rice =
    let b = bit_or (bit_or (bit_or nlc_codec_mode (near % 4 * 2 ^ 2)) (1 * 2 ^ 4)) (2 * 2 ^ 5) in
    if rice then bit_or b (1 * 2 ^ 7) else b

unfoldable pub build_get_version : List ℕ
build_get_version = cmd_get_version ∷ []

unfoldable pub build_get_status : List ℕ
build_get_status = cmd_get_status ∷ []
