-- ===== src/Reply/Tests/Serialize.antt =====
-- The first tests of src/reply.rs: the bytes of C structs, and of a raw reply with such a struct. A test is
-- the proposition that its assertion holds.
use async_fuse_rs.Prelude.{ℕ, ◌≡◌, refl, false, List, [], ◌∷◌, get_or}
use async_fuse_rs.Bytes.{Bytes, to_le_bytes}
use async_fuse_rs.Abi.Layout.{Repr, pack, encode}
use async_fuse_rs.Libc.{linux}
use async_fuse_rs.Channel.{ChannelSender}
use async_fuse_rs.Reply.Raw
use async_fuse_rs.Reply.Raw.{Outcome, as_bytes}

-- `struct Data`.
record Data : Type 0 where
  a : ℕ
  b : ℕ
  c : ℕ

abbrev data_repr : Repr Data
data_repr = record {
  widths = 1 ∷ 1 ∷ 2 ∷ [];
  of_fields = λ vs. record { a = get_or vs 0 0; b = get_or vs 1 0; c = get_or vs 2 0 };
  to_fields = λ t. t.a ∷ t.b ∷ t.c ∷ [];
  of_fields-to_fields = λ t. refl;
  to_fields-of_fields = λ bs. refl;
  no_gaps = refl;
}

-- `()`, `[u8; 4]` and `(Data, Data)`.
abbrev unit_repr : Repr (Unit {0})
unit_repr = record {
  widths = [];
  of_fields = λ vs. tt;
  to_fields = λ t. [];
  of_fields-to_fields = λ t. refl;
  to_fields-of_fields = λ bs. refl;
  no_gaps = refl;
}

abbrev array_repr : Repr (ℕ × ℕ × ℕ × ℕ)
array_repr = record {
  widths = 1 ∷ 1 ∷ 1 ∷ 1 ∷ [];
  of_fields = λ vs. (get_or vs 0 0, get_or vs 1 0, get_or vs 2 0, get_or vs 3 0);
  to_fields = λ t. t.0 ∷ t.1 ∷ t.2 ∷ t.3 ∷ [];
  of_fields-to_fields = λ t. refl;
  to_fields-of_fields = λ bs. refl;
  no_gaps = refl;
}

abbrev pair_repr : Repr (Data × Data)
pair_repr = record {
  widths = 1 ∷ 1 ∷ 2 ∷ 1 ∷ 1 ∷ 2 ∷ [];
  of_fields = λ vs. (
    record { a = get_or vs 0 0; b = get_or vs 1 0; c = get_or vs 2 0 },
    record { a = get_or vs 3 0; b = get_or vs 4 0; c = get_or vs 5 0 },
  );
  to_fields = λ t. t.0.a ∷ t.0.b ∷ t.0.c ∷ t.1.a ∷ t.1.b ∷ t.1.c ∷ [];
  of_fields-to_fields = λ t. refl;
  to_fields-of_fields = λ bs. refl;
  no_gaps = refl;
}

-- `serialize_empty`.
abbrev SerializeEmptyTest : Type 0
SerializeEmptyTest = as_bytes unit_repr tt ≡ []

serialize_empty : SerializeEmptyTest
unfolding as_bytes encode pack to_le_bytes
serialize_empty = refl

-- `serialize_slice`.
abbrev SerializeSliceTest : Type 0
SerializeSliceTest =
    as_bytes array_repr (0x12, 0x34, 0x56, 0x78) ≡ (0x12 ∷ 0x34 ∷ 0x56 ∷ 0x78 ∷ []) ∷ []

serialize_slice : SerializeSliceTest
unfolding as_bytes encode pack to_le_bytes
serialize_slice = refl

-- `serialize_struct`.
abbrev SerializeStructTest : Type 0
SerializeStructTest =
    as_bytes data_repr (record { a = 0x12; b = 0x34; c = 0x5678 })
    ≡ (0x12 ∷ 0x34 ∷ 0x78 ∷ 0x56 ∷ []) ∷ []

serialize_struct : SerializeStructTest
unfolding as_bytes encode pack to_le_bytes
serialize_struct = refl

-- `serialize_tuple`.
abbrev SerializeTupleTest : Type 0
SerializeTupleTest =
    as_bytes pair_repr
      ((record { a = 0x12; b = 0x34; c = 0x5678 }), record { a = 0x9a; b = 0xbc; c = 0xdef0 })
    ≡ (0x12 ∷ 0x34 ∷ 0x78 ∷ 0x56 ∷ 0x9a ∷ 0xbc ∷ 0xf0 ∷ 0xde ∷ []) ∷ []

serialize_tuple : SerializeTupleTest
unfolding as_bytes encode pack to_le_bytes
serialize_tuple = refl

-- `AssertSender`, which asserts what is sent; here it is a channel, on which these slices are sent as one
-- message, and the call does not panic.
abbrev pub assert_sender : ChannelSender
assert_sender = record { fd = 5 }

abbrev pub passes : List Bytes → Outcome
passes expected = record { sent = record { fd = 5; slices = expected } ∷ []; panicked = false }

abbrev expected_raw : List Bytes
expected_raw =
    (0x14 ∷ 0x00 ∷ 0x00 ∷ 0x00 ∷ 0x00 ∷ 0x00 ∷ 0x00 ∷ 0x00 ∷ 0xef ∷ 0xbe ∷ 0xad ∷ 0xde ∷ 0x00 ∷ 0x00
      ∷ 0x00 ∷ 0x00 ∷ [])
    ∷ (0x12 ∷ 0x34 ∷ 0x78 ∷ 0x56 ∷ [])
    ∷ []

-- `reply_raw`.
abbrev ReplyRawTest : Type 0
ReplyRawTest =
    Raw.ok linux data_repr (Raw.new 0xdeadbeef assert_sender)
      (record { a = 0x12; b = 0x34; c = 0x5678 })
    ≡ passes expected_raw

reply_raw : ReplyRawTest
unfolding Raw.new encode pack to_le_bytes Raw.consume Raw.ok
reply_raw = refl

abbrev expected_error : List Bytes
expected_error =
    (0x10 ∷ 0x00 ∷ 0x00 ∷ 0x00 ∷ 0xbe ∷ 0xff ∷ 0xff ∷ 0xff ∷ 0xef ∷ 0xbe ∷ 0xad ∷ 0xde ∷ 0x00 ∷ 0x00
      ∷ 0x00 ∷ 0x00 ∷ [])
    ∷ []

-- `reply_error`.
abbrev ReplyErrorTest : Type 0
ReplyErrorTest = Raw.error linux (Raw.new 0xdeadbeef assert_sender) 66 ≡ passes expected_error

reply_error : ReplyErrorTest
unfolding Raw.new encode pack to_le_bytes Raw.consume Raw.error
reply_error = refl
