-- ===== src/Ll/Request/Errors/Insufficient.antt =====
-- When a packet is refused for its arguments (src/ll/request.rs).
use async_fuse_rs.Prelude.{
  ℕ, ◌≤◌, ◌≡◌, ◌↔◌, refl, sym, ◌∙◌, arith, le→ltb, Option, none, some, inl, inr, length,
}
use async_fuse_rs.Bytes.{Bytes}
use async_fuse_rs.Abi.FileRequests.{FuseInHeader}
use async_fuse_rs.Abi.Opcode.{Opcode, code}
use async_fuse_rs.Abi.Opcode.Laws.{try_from_iff}
use async_fuse_rs.Ll.Operation.{Operation, parse}
use async_fuse_rs.Ll.Request.{insufficient_data, err, try_from}
use async_fuse_rs.Ll.Request.Errors.{
  header_of, behind_header, finish, try_from_long, try_from_short, Size-cases,
}

finish_insufficient :
    {O : Type 0} (n : ℕ) (h : FuseInHeader) (oc : Option O) (f : O → Option Operation)
    → finish n h oc f ≡ err insufficient_data
    → (op : O) × (oc ≡ some op) × (h.len ≤ n) × (f op ≡ none)
finish_insufficient n h oc f e = ground arith

-- A packet is refused for its arguments exactly when it has a header with the code of an operation, which
-- states no more bytes than there are, and the bytes behind it do not give that operation.
pub insufficient_data_iff :
    (bytes : Bytes)
    → (try_from bytes ≡ err insufficient_data) ↔ (
        (40 ≤ length bytes)
        × ((header_of bytes).len ≤ length bytes)
        × (op : Opcode) × (code op ≡ (header_of bytes).opcode)
        × ((parse op (behind_header bytes)).0 ≡ none))
insufficient_data_iff bytes = (forth, back)
  where
    forth :
        try_from bytes ≡ err insufficient_data
        → (40 ≤ length bytes)
          × ((header_of bytes).len ≤ length bytes)
          × (op : Opcode) × (code op ≡ (header_of bytes).opcode)
          × ((parse op (behind_header bytes)).0 ≡ none)
    forth e = elim (Size-cases bytes) [
      | inl short ↦ cc (try_from_short bytes short, e)
      | inr long ↦
          let (op, known, fits, missing) =
            finish_insufficient _ _ _ _ (sym (try_from_long bytes long) ∙ e) in
          (long, fits, op, sym ((try_from_iff _ op).0 known), missing)
    ]

    back :
        (40 ≤ length bytes)
          × ((header_of bytes).len ≤ length bytes)
          × (op : Opcode) × (code op ≡ (header_of bytes).opcode)
          × ((parse op (behind_header bytes)).0 ≡ none)
        → try_from bytes ≡ err insufficient_data
    back (long, fits, op, known, missing) =
        try_from_long bytes long
        ∙ rw ((try_from_iff _ op).1 (sym known))
            (rw (le→ltb (length bytes) (header_of bytes).len fits) (rw missing refl))
