-- ===== src/Abi/Features/Layouts.antt =====
-- The layouts of the structs in every configuration (fuse-abi/src/lib.rs).
use Prim.Native.String.{String}
use async_fuse_rs.Prelude.{
  ℕ, ◌≡◌, refl, arith, true, false, Bool-cases, inl, inr, List, All, All-append, map-All, map,
}
use async_fuse_rs.Abi.Layout.{field_offsets, packed_offsets, size_of_fields}
use async_fuse_rs.Abi.Features.{Config, IsClosed, Gate, Fields, compiled}
use async_fuse_rs.Abi.Features.Version.{on_below}
use async_fuse_rs.Abi.Features.Compiled.{compiled-All}
use async_fuse_rs.Abi.Features.Structs.{varied_structs, fixed_structs, structs}
use async_fuse_rs.Abi.Features.Attributes.{
  fuse_attr_fields, fuse_entry_out_fields, fuse_attr_out_fields, fuse_mknod_in_fields,
  fuse_mkdir_in_fields, fuse_setattr_in_fields,
}
use async_fuse_rs.Abi.Features.Files.{
  fuse_create_in_fields, fuse_read_in_fields, fuse_write_in_fields, fuse_setxattr_in_fields,
  fuse_getxattr_in_fields, fuse_lk_in_fields, fuse_init_out_fields,
}
use async_fuse_rs.Abi.Features.Messages.{fuse_notify_retrieve_in_fields}

-- The widths of the fields that are compiled, and the size of the struct.
abbrev pub widths : Config → Fields → List ℕ
unfolding compiled
widths c fs = map (λ (f : String × ℕ). f.1) (compiled c fs)

abbrev pub size : Config → Fields → ℕ
size c fs = size_of_fields (widths c fs)

abbrev pub HasNoGaps : Config → Fields → Type 0
HasNoGaps c fs = field_offsets 0 (widths c fs) ≡ packed_offsets 0 (widths c fs)

module _ (c : Config) (fs : Fields) where
  -- A property of the layout, by the value of a feature or of the system.
  by_feature :
      (n : ℕ)
      → (c.feature n ≡ true → HasNoGaps c fs)
      → (c.feature n ≡ false → HasNoGaps c fs)
      → HasNoGaps c fs
  by_feature n on off = elim (Bool-cases (c.feature n)) [ inl e ↦ on e | inr e ↦ off e ]

  by_system :
      (c.macos ≡ true → HasNoGaps c fs) → (c.macos ≡ false → HasNoGaps c fs) → HasNoGaps c fs
  by_system on off = elim (Bool-cases c.macos) [ inl e ↦ on e | inr e ↦ off e ]

module _ (c : Config) where
  attr-HasNoGaps : HasNoGaps c fuse_attr_fields
  unfolding compiled
  attr-HasNoGaps =
      by_feature c fuse_attr_fields 9
        (λ e. by_system c fuse_attr_fields (λ m. rw (e, m) refl) (λ m. rw (e, m) refl))
        (λ e. by_system c fuse_attr_fields (λ m. rw (e, m) refl) (λ m. rw (e, m) refl))

  entry_out-HasNoGaps : HasNoGaps c fuse_entry_out_fields
  unfolding compiled
  entry_out-HasNoGaps =
      by_feature c fuse_entry_out_fields 9
        (λ e. by_system c fuse_entry_out_fields (λ m. rw (e, m) refl) (λ m. rw (e, m) refl))
        (λ e. by_system c fuse_entry_out_fields (λ m. rw (e, m) refl) (λ m. rw (e, m) refl))

  attr_out-HasNoGaps : HasNoGaps c fuse_attr_out_fields
  unfolding compiled
  attr_out-HasNoGaps =
      by_feature c fuse_attr_out_fields 9
        (λ e. by_system c fuse_attr_out_fields (λ m. rw (e, m) refl) (λ m. rw (e, m) refl))
        (λ e. by_system c fuse_attr_out_fields (λ m. rw (e, m) refl) (λ m. rw (e, m) refl))

  setattr_in-HasNoGaps : HasNoGaps c fuse_setattr_in_fields
  unfolding compiled
  setattr_in-HasNoGaps =
      by_feature c fuse_setattr_in_fields 9
        (λ e. by_system c fuse_setattr_in_fields (λ m. rw (e, m) refl) (λ m. rw (e, m) refl))
        (λ e. by_system c fuse_setattr_in_fields (λ m. rw (e, m) refl) (λ m. rw (e, m) refl))

  varied-HasNoGaps : All (λ (x : Gate × Fields). HasNoGaps c x.1) varied_structs
  unfolding compiled
  varied-HasNoGaps = (
    attr-HasNoGaps,
    (
      entry_out-HasNoGaps,
      (
        attr_out-HasNoGaps,
        (
          by_feature c fuse_mknod_in_fields 12 (λ e. rw e refl) (λ e. rw e refl),
          (
            by_feature c fuse_mkdir_in_fields 12 (λ e. rw e refl) (λ e. rw e refl),
            (
              setattr_in-HasNoGaps,
              (
                by_feature c fuse_create_in_fields 12 (λ e. rw e refl) (λ e. rw e refl),
                (
                  by_feature c fuse_read_in_fields 9 (λ e. rw e refl) (λ e. rw e refl),
                  (
                    by_feature c fuse_write_in_fields 9 (λ e. rw e refl) (λ e. rw e refl),
                    (
                      by_system c fuse_setxattr_in_fields (λ m. rw m refl) (λ m. rw m refl),
                      (
                        by_system c fuse_getxattr_in_fields (λ m. rw m refl) (λ m. rw m refl),
                        (
                          by_feature c fuse_lk_in_fields 9 (λ e. rw e refl) (λ e. rw e refl),
                          (
                            by_feature c fuse_init_out_fields 13 (λ e. rw e refl) (λ e. rw e refl),
                            tt,
                          ),
                        ),
                      ),
                    ),
                  ),
                ),
              ),
            ),
          ),
        ),
      ),
    ),
  )

  fixed-HasNoGaps : All (λ (x : Gate × Fields). HasNoGaps c x.1) fixed_structs
  unfolding compiled
  fixed-HasNoGaps =
      map-All (λ (x : Gate × Fields). field_offsets 0 (widths c x.1))
        (λ (x : Gate × Fields). packed_offsets 0 (widths c x.1)) fixed_structs refl

  -- In every configuration, the C layout puts the fields of every compiled struct one behind the other
  -- with no gap.
  pub structs-HasNoGaps : All (HasNoGaps c) (compiled c structs)
  structs-HasNoGaps = compiled-All c (HasNoGaps c) structs (
      All-append (λ (x : Gate × Fields). HasNoGaps c x.1) varied_structs fixed_structs
        varied-HasNoGaps fixed-HasNoGaps)

  -- If every feature turns on the one before it, and the struct `fuse_notify_retrieve_in` is compiled, it has
  -- the size of `fuse_write_in`.
  pub retrieve_in-size :
      IsClosed c
      → c.feature 15 ≡ true
      → size c fuse_notify_retrieve_in_fields ≡ size c fuse_write_in_fields
  unfolding compiled
  retrieve_in-size h on = rw (on_below c h 15 9 (omega arith) (omega arith) (omega arith) on) refl
