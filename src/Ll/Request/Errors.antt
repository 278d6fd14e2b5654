-- ===== src/Ll/Request/Errors.antt =====
-- When a packet is refused, and what holds of one that is accepted (`Request::try_from` of
-- src/ll/request.rs).
pub mod Insufficient
use async_fuse_rs.Prelude.{
  ℕ, ◌≤◌, ◌<◌, ◌≡◌, ◌≢◌, ◌↔◌, ◌⊎◌, inl, inr, sym, ap, ◌∙◌, arith, ltb, if◌then◌else◌, Option,
  Option-cases, none, some, length, take, drop, All, lt→ltb,
}
use async_fuse_rs.Bytes.{Bytes, IsByte}
use async_fuse_rs.Abi.Layout.{decode}
use async_fuse_rs.Abi.Layout.Laws.{decode-Fits, take-IsByte, drop-IsByte}
use async_fuse_rs.Abi.FileRequests.{FuseInHeader, in_header_repr}
use async_fuse_rs.Abi.Opcode
use async_fuse_rs.Abi.Opcode.{Opcode, code}
use async_fuse_rs.Abi.Opcode.Laws.{try_from_iff}
use async_fuse_rs.Ll.Argument
use async_fuse_rs.Ll.Argument.{ArgumentIterator, fetch}
use async_fuse_rs.Ll.Argument.Laws.{at, fetch_short, fetch_enough}
use async_fuse_rs.Ll.Operation.{Operation, parse}
use async_fuse_rs.Ll.Validity.{parse-IsParsed}
use async_fuse_rs.Ll.Request.{
  Request, short_read_header, unknown_operation, short_read, insufficient_data, Result, ok, err,
  ok_or, ◌>>=◌, try_from,
}
use async_fuse_rs.Ll.Request.RoundTrip.{IsWireRequest}

-- The header at the front of a packet, and what stands behind it.
abbrev pub header_of : Bytes → FuseInHeader
header_of bytes = decode in_header_repr (take 40 bytes)

abbrev pub behind_header : Bytes → ArgumentIterator
behind_header bytes = at (drop 40 bytes)

-- What is decided behind a complete header, by three values.
abbrev pub finish :
    {O : Type 0} → ℕ → FuseInHeader → Option O → (O → Option Operation) → Result Request
finish data_len header opcode operation = do
  op ← ok_or opcode (unknown_operation header.opcode)
  _ ← if ltb data_len header.len then err (short_read data_len header.len) else ok tt
  o ← ok_or (operation op) insufficient_data
  ok (record { header = header; operation = o })

pub try_from_long :
    (bytes : Bytes)
    → 40 ≤ length bytes
    → try_from bytes
      ≡ finish
          (length bytes)
          (header_of bytes)
          (Opcode.try_from (header_of bytes).opcode)
          (λ op. (parse op (behind_header bytes)).0)
unfolding try_from Argument.new
try_from_long bytes h = rw (fetch_enough in_header_repr (at bytes) h)

pub try_from_short :
    (bytes : Bytes) → length bytes < 40 → try_from bytes ≡ err (short_read_header (length bytes))
unfolding try_from Argument.new Argument.len
try_from_short bytes h = rw (fetch_short in_header_repr (at bytes) h)

module _ {O : Type 0} (n : ℕ) (h : FuseInHeader) (oc : Option O) (f : O → Option Operation) where
  finish_unknown :
      {c : ℕ} → finish n h oc f ≡ err (unknown_operation c) → (oc ≡ none) × (c ≡ h.opcode)
  finish_unknown e = ground arith

  finish_short_read :
      {a b : ℕ}
      → finish n h oc f ≡ err (short_read a b)
      → ((op : O) × (oc ≡ some op)) × (a ≡ n) × (b ≡ h.len) × (n < h.len)
  finish_short_read e = ground arith

  finish-ok :
      {r : Request}
      → finish n h oc f ≡ ok r
      → (op : O) × (oc ≡ some op) × (f op ≡ some r.operation) × (r.header ≡ h) × (h.len ≤ n)
  finish-ok e = ground arith

  finish-ne-short_read_header : {m : ℕ} → finish n h oc f ≡ err (short_read_header m) → ⊥
  finish-ne-short_read_header e = ground arith

pub Size-cases : (bytes : Bytes) → (length bytes < 40) ⊎ (40 ≤ length bytes)
Size-cases bytes = grind arith

-- A number is the code of no operation exactly when `Opcode.try_from` refuses it.
no_code_iff : (c : ℕ) → (Opcode.try_from c ≡ none) ↔ ((op : Opcode) → code op ≢ c)
no_code_iff c = (λ e op h. cc (e, (try_from_iff c op).1 (sym h)), back)
  where
    back : ((op : Opcode) → code op ≢ c) → Opcode.try_from c ≡ none
    back h = elim (Option-cases (Opcode.try_from c)) [
      | inl e ↦ e
      | inr (op, e) ↦ absurd (h op (sym ((try_from_iff c op).0 e)))
    ]

long_header :
    (bytes : Bytes) (n : ℕ) → 40 ≤ length bytes → try_from bytes ≡ err (short_read_header n) → ⊥
long_header bytes n long e =
    finish-ne-short_read_header (length bytes) (header_of bytes)
      (Opcode.try_from (header_of bytes).opcode) (λ op. (parse op (behind_header bytes)).0)
      (sym (try_from_long bytes long) ∙ e)

-- A packet is refused for its header exactly when it is shorter than one, with its length.
pub short_read_header_iff :
    (bytes : Bytes) (n : ℕ)
    → (try_from bytes ≡ err (short_read_header n)) ↔ ((length bytes < 40) × (n ≡ length bytes))
short_read_header_iff bytes n = (forth, λ h. rw (h.1) (try_from_short bytes h.0))
  where
    forth : try_from bytes ≡ err (short_read_header n) → (length bytes < 40) × (n ≡ length bytes)
    forth e = elim (Size-cases bytes) [
      | inl short ↦ (short, cc (try_from_short bytes short, e))
      | inr long ↦ absurd (long_header bytes n long e)
    ]

-- A packet is refused for its operation exactly when it has a header and the number there is the
-- code of no operation.
pub unknown_operation_iff :
    (bytes : Bytes) (c : ℕ)
    → (try_from bytes ≡ err (unknown_operation c))
      ↔ ((40 ≤ length bytes) × (c ≡ (header_of bytes).opcode) × ((op : Opcode) → code op ≢ c))
unknown_operation_iff bytes c = (forth, back)
  where
    forth :
        try_from bytes ≡ err (unknown_operation c)
        → (40 ≤ length bytes) × (c ≡ (header_of bytes).opcode) × ((op : Opcode) → code op ≢ c)
    forth e = elim (Size-cases bytes) [
      | inl short ↦ cc (try_from_short bytes short, e)
      | inr long ↦
          let (refused, same) = finish_unknown _ _ _ _ (sym (try_from_long bytes long) ∙ e) in
          (long, same, (no_code_iff c).0 (ap Opcode.try_from same ∙ refused))
    ]

    back :
        (40 ≤ length bytes) × (c ≡ (header_of bytes).opcode) × ((op : Opcode) → code op ≢ c)
        → try_from bytes ≡ err (unknown_operation c)
    back (long, same, h) =
        try_from_long bytes long
        ∙ rw (sym (ap Opcode.try_from same) ∙ (no_code_iff c).1 h) (cc same)

-- A packet is refused as cut off exactly when it has a header with the code of an operation, and the
-- header states more bytes than there are.
pub short_read_iff :
    (bytes : Bytes) (len total : ℕ)
    → (try_from bytes ≡ err (short_read len total)) ↔ (
        (40 ≤ length bytes)
        × ((op : Opcode) × (code op ≡ (header_of bytes).opcode))
        × (len ≡ length bytes)
        × (total ≡ (header_of bytes).len)
        × (len < total))
short_read_iff bytes len total = (forth, back)
  where
    forth :
        try_from bytes ≡ err (short_read len total)
        → (40 ≤ length bytes)
          × ((op : Opcode) × (code op ≡ (header_of bytes).opcode))
          × (len ≡ length bytes)
          × (total ≡ (header_of bytes).len)
          × (len < total)
    forth e = elim (Size-cases bytes) [
      | inl short ↦ cc (try_from_short bytes short, e)
      | inr long ↦
          let ((op, known), same_len, same_total, less) =
            finish_short_read _ _ _ _ (sym (try_from_long bytes long) ∙ e) in
          (long, (op, sym ((try_from_iff _ op).0 known)), same_len, same_total, omega arith)
    ]

    back :
        (40 ≤ length bytes)
          × ((op : Opcode) × (code op ≡ (header_of bytes).opcode))
          × (len ≡ length bytes)
          × (total ≡ (header_of bytes).len)
          × (len < total)
        → try_from bytes ≡ err (short_read len total)
    back (long, (op, known), same_len, same_total, less) =
        try_from_long bytes long
        ∙ rw ((try_from_iff _ op).1 (sym known)) (
            rw (lt→ltb (length bytes) (header_of bytes).len (omega arith))
              (cc (same_len, same_total)))

-- A packet of bytes that is accepted gives the header at its front, which states no more bytes than
-- there are, and an operation of the header's code; all numbers fit their fields and no string holds
-- a terminator.
pub try_from-IsWireRequest :
    (bytes : Bytes) (r : Request)
    → All IsByte bytes
    → try_from bytes ≡ ok r
    → IsWireRequest r × (r.header ≡ header_of bytes) × (r.header.len ≤ length bytes)
try_from-IsWireRequest bytes r b e = elim (Size-cases bytes) [
  | inl short ↦ cc (try_from_short bytes short, e)
  | inr long ↦
      let (op, known, parsed, same, fits) =
        finish-ok _ _ _ _ (sym (try_from_long bytes long) ∙ e) in
      let (of_code, well_formed) =
        parse-IsParsed op (behind_header bytes) r.operation _ (drop-IsByte 40 bytes b)
          (λ i. (parsed i, (parse op (behind_header bytes)).1)) in
      (
        record {
          header_fits =
              rw same (decode-Fits in_header_repr (take 40 bytes) (take-IsByte 40 bytes b));
          opcode_named =
              ap (λ (h : FuseInHeader). h.opcode) same
              ∙ (try_from_iff _ op).0 known
              ∙ ap code (sym of_code);
          arguments_fit = well_formed;
        },
        same,
        rw same fits,
      )
]
