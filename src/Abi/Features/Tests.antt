-- ===== src/Abi/Features/Tests.antt =====
-- The theorems of the configurations at the build for macOS with the features up to abi-7-15.
use async_fuse_rs.Prelude.{◌≡◌, ◌↔◌, arith, leb, true, some, All}
use async_fuse_rs.Abi.Features.{Config, IsClosed, allows, compiled}
use async_fuse_rs.Abi.Features.Codes.{
  AnyOpcode, NotifyCode, opcode_variant, notify_variant, opcode_try_from, notify_try_from,
}
use async_fuse_rs.Abi.Features.Codes.Laws.{codes_iff}
use async_fuse_rs.Abi.Features.Structs.{structs}
use async_fuse_rs.Abi.Features.Layouts.{HasNoGaps, structs-HasNoGaps}

abbrev fifteen : Config
fifteen = record { feature = λ n. leb n 15; macos = true }

fifteen-IsClosed : IsClosed fifteen
fifteen-IsClosed n p q h = ground arith

codes_iff_example :
    ((op : AnyOpcode)
      → (opcode_try_from fifteen 41 ≡ some op)
        ↔ ((allows fifteen (opcode_variant op).0 ≡ true) × (41 ≡ (opcode_variant op).1)))
    × ((code : NotifyCode)
        → (notify_try_from fifteen 41 ≡ some code)
          ↔ ((allows fifteen (notify_variant code).0 ≡ true) × (41 ≡ (notify_variant code).1)))
codes_iff_example = codes_iff fifteen 41

structs-HasNoGaps_example : All (HasNoGaps fifteen) (compiled fifteen structs)
structs-HasNoGaps_example = structs-HasNoGaps fifteen
