-- ===== src/Channel/Tests.antt =====
-- The test of src/channel.rs, and a mount with concrete results of the system's calls.
use async_fuse_rs.Prelude.{
  ◌<◌, ◌^◌, ℕ, ◌≡◌, ◌⊎◌, ◌==◌, refl, true, false, some, List, [], ◌∷◌, All, length,
}
use async_fuse_rs.Bytes.{Bytes}
use async_fuse_rs.Ll.Display.{ascii}
use async_fuse_rs.Channel.Mount.{
  io_ok, System, sys_close, sys_umount, sys_fuse_unmount, Channel, has_nul, program_name, fuse_args,
  mount, new, drop,
}
use async_fuse_rs.Channel.Mount.Laws.{new_lem, drop_lem}

-- `fuse_args`: the options "foo" and "bar".
abbrev FuseArgsTest : Type 0
FuseArgsTest =
    (args : List Bytes) × (fuse_args ((0x66 ∷ 0x6f ∷ 0x6f ∷ []) ∷ (0x62 ∷ 0x61 ∷ 0x72 ∷ []) ∷ [])
      ≡ some args)
    × (length args ≡ 3)
    × (args ≡ ascii "fuse-rs" ∷ ascii "foo" ∷ ascii "bar" ∷ [])

fuse_args_lem : FuseArgsTest
unfolding fuse_args
fuse_args_lem =
    (program_name ∷ (0x66 ∷ 0x6f ∷ 0x6f ∷ []) ∷ (0x62 ∷ 0x61 ∷ 0x72 ∷ []) ∷ [], refl, refl, refl)

-- "/mnt", and the option "ro".
abbrev mnt : Bytes
mnt = 0x2f ∷ 0x6d ∷ 0x6e ∷ 0x74 ∷ []

abbrev ro : Bytes
ro = 0x72 ∷ 0x6f ∷ []

-- A system on which unmounting is denied with EPERM.
abbrev unprivileged : System
unprivileged = record {
  canonicalize = λ path. io_ok path;
  fuse_mount = λ path args. 5;
  mount_error = λ path args. 0;
  umount = λ path. some 1;
  is_denied = λ e. e == 1;
}

abbrev channel : Channel
channel = record { mountpoint = mnt; fd = 5 }

channel_made : new unprivileged mnt (ro ∷ []) ≡ some (io_ok channel)
unfolding new mount fuse_args
channel_made = refl

new_lem_example :
    (unprivileged.canonicalize mnt ≡ io_ok mnt)
    × (has_nul mnt ≡ false)
    × All (λ o. has_nul o ≡ false) (ro ∷ [])
    × (unprivileged.fuse_mount mnt (program_name ∷ ro ∷ []) ≡ 5)
    × (5 < 2 ^ 31)
new_lem_example = new_lem unprivileged mnt (ro ∷ []) channel channel_made

drop_lem_example :
    ((drop unprivileged channel ≡ sys_close 5 ∷ sys_umount mnt ∷ [])
      × ((e : ℕ) → unprivileged.umount mnt ≡ some e → unprivileged.is_denied e ≡ false))
    ⊎ ((drop unprivileged channel ≡ sys_close 5 ∷ sys_umount mnt ∷ sys_fuse_unmount mnt ∷ [])
        × ((e : ℕ) × ((unprivileged.umount mnt ≡ some e) × (unprivileged.is_denied e ≡ true))))
drop_lem_example = drop_lem unprivileged mnt (ro ∷ []) channel channel_made
