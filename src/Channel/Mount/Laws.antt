-- ===== src/Channel/Mount/Laws.antt =====
-- Which mounts succeed, and how a mount ends (src/channel.rs).
use async_fuse_rs.Prelude.{
  ℕ, ◌<◌, ◌^◌, ◌≡◌, arith, true, false, Bool-cases, ◌⊎◌, inl, inr, Option-cases, some, List, [],
  ◌∷◌, All,
}
use async_fuse_rs.Bytes.{Bytes}
use async_fuse_rs.Channel.Mount.{
  io_ok, System, sys_close, sys_umount, sys_fuse_unmount, Channel, has_nul, c_strings, program_name,
  fuse_args, mount, new, libc_umount, unmount, macos_libc_umount, macos_unmount, drop,
}

-- The options can be C strings exactly if none has a zero in it.
c_strings-All :
    (options : List Bytes) (args : List Bytes)
    → c_strings options ≡ some args
    → (args ≡ options) × All (λ o. has_nul o ≡ false) options
c_strings-All [] args e = (ground arith, tt)
c_strings-All (o ∷ os) args e = elim (Bool-cases (has_nul o)) [
  | inl bad ↦ absurd (let e' = rw bad at e in cc e')
  | inr good ↦ elim (Option-cases (c_strings os)) [
    | inl failed ↦ absurd (let e' = rw (good, failed) at e in cc e')
    | inr (rest, made) ↦
        let (same, clean) = c_strings-All os rest made in
        let e' = rw (good, made) at e in (cc (e', same), (good, clean))
  ]
]

new-parts :
    (sys : System) (mountpoint : Bytes) (options : List Bytes) (ch : Channel)
    → new sys mountpoint options ≡ some (io_ok ch)
    → (args : List Bytes) × (c_strings options ≡ some args)
      × (sys.canonicalize mountpoint ≡ io_ok ch.mountpoint)
      × (has_nul ch.mountpoint ≡ false)
      × (sys.fuse_mount ch.mountpoint (program_name ∷ args) ≡ ch.fd)
      × (ch.fd < 2 ^ 31)
unfolding new mount fuse_args
new-parts sys mountpoint options ch e = ground arith

-- A channel that was made has the canonical path of the mount point, which has no zero in it, and the
-- descriptor that libfuse returned for that path and the program's name with the options, which have no
-- zero in them; it is not negative.
pub new_lem :
    (sys : System) (mountpoint : Bytes) (options : List Bytes) (ch : Channel)
    → new sys mountpoint options ≡ some (io_ok ch)
    → (sys.canonicalize mountpoint ≡ io_ok ch.mountpoint)
      × (has_nul ch.mountpoint ≡ false)
      × All (λ o. has_nul o ≡ false) options
      × (sys.fuse_mount ch.mountpoint (program_name ∷ options) ≡ ch.fd)
      × (ch.fd < 2 ^ 31)
new_lem sys mountpoint options ch e =
    let (args, made, path, clean, opened, positive) = new-parts sys mountpoint options ch e in
    let (same, all_clean) = c_strings-All options args made in
    (path, clean, all_clean, rw same at opened, positive)

-- The end of a channel that was made closes the descriptor, then unmounts the canonical mount point, and
-- asks libfuse to do so exactly if the system denied it.
pub drop_lem :
    (sys : System) (mountpoint : Bytes) (options : List Bytes) (ch : Channel)
    → new sys mountpoint options ≡ some (io_ok ch)
    → ((drop sys ch ≡ sys_close ch.fd ∷ sys_umount ch.mountpoint ∷ [])
        × ((e : ℕ) → sys.umount ch.mountpoint ≡ some e → sys.is_denied e ≡ false))
      ⊎ ((drop sys ch
            ≡ sys_close ch.fd ∷ sys_umount ch.mountpoint ∷ sys_fuse_unmount ch.mountpoint ∷ [])
          × ((e : ℕ) × ((sys.umount ch.mountpoint ≡ some e) × (sys.is_denied e ≡ true))))
unfolding drop unmount libc_umount
drop_lem sys mountpoint options ch e =
    let (_, clean, _, _, _) = new_lem sys mountpoint options ch e in ground (arith, clean)

-- On macOS and BSD a mount is ended as on Linux where the system does not deny it: the calls and the result
-- are the same.
macos_unmount-unmount :
    (sys : System) (mountpoint : Bytes)
    → ((e : ℕ) → sys.umount mountpoint ≡ some e → sys.is_denied e ≡ false)
    → macos_unmount sys mountpoint ≡ unmount sys mountpoint
unfolding macos_unmount macos_libc_umount unmount libc_umount
macos_unmount-unmount sys mountpoint h = elim (Option-cases (sys.umount mountpoint)) [
  | inl fine ↦ ground (arith, fine)
  | inr (e, failed) ↦ ground (arith, failed, h e failed)
]
