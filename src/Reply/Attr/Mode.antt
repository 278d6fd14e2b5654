-- ===== src/Reply/Attr/Mode.antt =====
-- The parts of a file's mode (src/reply.rs).
use async_fuse_rs.Prelude.{ℕ, ◌/◌, ◌%◌, ◌+◌, ◌<◌, ◌≡◌, arith, bit_or, sym, subst, ◌∙◌}
use async_fuse_rs.Bits.{bit_or_disjoint}
use async_fuse_rs.Libc.{Libc}
use async_fuse_rs.FileAttr.{FileType}
use async_fuse_rs.Reply.Attr.{kind_bits, mode_from_kind_and_perm}

-- What POSIX says of the file types: they differ, and leave the low 12 bits to the permissions.
pub record IsFileTypes (libc : Libc) : Type 0 where
  pub high : (k : FileType) → kind_bits libc k % 4096 ≡ 0
  pub differ : (k l : FileType) → kind_bits libc k ≡ kind_bits libc l → k ≡ l

-- Permissions of 12 bits are the low bits of the mode, and the file type is the rest.
pub mode_parts :
    (libc : Libc) (k : FileType) (perm : ℕ)
    → IsFileTypes libc
    → perm < 4096
    → mode_from_kind_and_perm libc k perm ≡ kind_bits libc k + perm
unfolding mode_from_kind_and_perm
mode_parts libc k perm h p =
    subst (λ (t : ℕ). bit_or t perm ≡ t + perm) (omega (arith, h.high k))
      (bit_or_disjoint 12 (kind_bits libc k / 4096) perm p)

-- Where the file types are as POSIX says and the permissions have 12 bits, equal modes come from equal
-- types and permissions.
pub mode-injective :
    (libc : Libc) (k l : FileType) (p q : ℕ)
    → IsFileTypes libc
    → p < 4096
    → q < 4096
    → mode_from_kind_and_perm libc k p ≡ mode_from_kind_and_perm libc l q
    → (k ≡ l) × (p ≡ q)
mode-injective libc k l p q h hp hq e = (
  h.differ k l (omega (arith, sums, h.high k, h.high l)),
  omega (arith, sums, h.high k, h.high l),
)
  where
    sums : kind_bits libc k + p ≡ kind_bits libc l + q
    sums = sym (mode_parts libc k p h hp) ∙ e ∙ mode_parts libc l q h hq
