-- ===== src/Ll/Tests/Arguments.antt =====
-- The tests of src/ll/argument.rs. A test is the proposition that its assertions hold; `unwrap` is the end
-- with `none` of the calls behind it.
use async_fuse_rs.Prelude.{ℕ, ◌≡◌, refl, Option, none, some, [], ◌∷◌, get_or, take}
use async_fuse_rs.Bytes.{Bytes, from_le_bytes}
use async_fuse_rs.Abi.Layout.{Repr, decode}
use async_fuse_rs.Ll.Argument
use async_fuse_rs.Ll.Argument.{
  ArgumentIterator, ◌>>=◌, pure, len, fetch_bytes, fetch, fetch_all, fetch_str, fetch_str_at,
  position_zero,
}

-- `TEST_DATA` of src/ll/argument.rs: "foo", "bar", "ba".
abbrev pub test_data : Bytes
test_data = 0x66 ∷ 0x6f ∷ 0x6f ∷ 0x00 ∷ 0x62 ∷ 0x61 ∷ 0x72 ∷ 0x00 ∷ 0x62 ∷ 0x61 ∷ []

-- `struct TestArgument`.
record TestArgument : Type 0 where
  p1 : ℕ
  p2 : ℕ
  p3 : ℕ

abbrev test_argument_repr : Repr TestArgument
test_argument_repr = record {
  widths = 1 ∷ 1 ∷ 2 ∷ [];
  of_fields = λ vs. record { p1 = get_or vs 0 0; p2 = get_or vs 1 0; p3 = get_or vs 2 0 };
  to_fields = λ t. t.p1 ∷ t.p2 ∷ t.p3 ∷ [];
  of_fields-to_fields = λ t. refl;
  to_fields-of_fields = λ bs. refl;
  no_gaps = refl;
}

-- `all_data`.
abbrev AllDataTest : Type 0
AllDataTest =
    let run : Option Bytes × ArgumentIterator =
      (do name ← fetch_str; arg ← fetch_all; pure arg) (Argument.new test_data) in
    run.0 ≡ some (0x62 ∷ 0x61 ∷ 0x72 ∷ 0x00 ∷ 0x62 ∷ 0x61 ∷ [])

all_data : AllDataTest
unfolding fetch_str fetch_str_at position_zero fetch_bytes fetch_all Argument.new
all_data = refl

-- `bytes_data`.
abbrev BytesDataTest : Type 0
BytesDataTest =
    let run : Option (Bytes × Bytes) × ArgumentIterator =
      (do first ← fetch_bytes 5; second ← fetch_bytes 2; pure (first, second))
        (Argument.new test_data) in
    (run.0 ≡ some (0x66 ∷ 0x6f ∷ 0x6f ∷ 0x00 ∷ 0x62 ∷ [], 0x61 ∷ 0x72 ∷ [])) × (len run.1 ≡ 3)

bytes_data : BytesDataTest
unfolding fetch_bytes Argument.new len
bytes_data = (refl, refl)

-- `generic_argument`.
abbrev GenericArgumentTest : Type 0
GenericArgumentTest =
    let run : Option (TestArgument × TestArgument) × ArgumentIterator =
      (do first ← fetch test_argument_repr; second ← fetch test_argument_repr; pure (first, second))
        (Argument.new test_data) in
    (run.0
      ≡ some (
        record { p1 = 0x66; p2 = 0x6f; p3 = 0x006f },
        record { p1 = 0x62; p2 = 0x61; p3 = 0x0072 },
      ))
    × (len run.1 ≡ 2)

generic_argument : GenericArgumentTest
unfolding fetch fetch_bytes Argument.new len decode from_le_bytes
generic_argument = (refl, refl)

-- `string_argument`: "foo" and "bar".
abbrev StringArgumentTest : Type 0
StringArgumentTest =
    let run : Option (Bytes × Bytes) × ArgumentIterator =
      (do first ← fetch_str; second ← fetch_str; pure (first, second)) (Argument.new test_data) in
    (run.0 ≡ some (0x66 ∷ 0x6f ∷ 0x6f ∷ [], 0x62 ∷ 0x61 ∷ 0x72 ∷ [])) × (len run.1 ≡ 2)

string_argument : StringArgumentTest
unfolding fetch_str fetch_str_at position_zero fetch_bytes Argument.new len
string_argument = (refl, refl)

-- `mixed_arguments`.
abbrev MixedArgumentsTest : Type 0
MixedArgumentsTest =
    let run : Option (TestArgument × Bytes × Bytes) × ArgumentIterator =
      (do
        arg ← fetch test_argument_repr
        name ← fetch_str
        rest ← fetch_all
        pure (arg, name, rest))
        (Argument.new test_data) in
    run.0
    ≡ some (record { p1 = 0x66; p2 = 0x6f; p3 = 0x006f }, 0x62 ∷ 0x61 ∷ 0x72 ∷ [], 0x62 ∷ 0x61 ∷ [])

mixed_arguments : MixedArgumentsTest
unfolding fetch_str fetch_str_at position_zero fetch fetch_bytes fetch_all Argument.new decode
    from_le_bytes
mixed_arguments = refl

-- `out_of_data`.
abbrev OutOfDataTest : Type 0
OutOfDataTest =
    let first : Option Bytes × ArgumentIterator = fetch_bytes 8 (Argument.new test_data) in
    let second : Option TestArgument × ArgumentIterator = fetch test_argument_repr first.1 in
    let third : Option Bytes × ArgumentIterator = fetch_str second.1 in
    (first.0 ≡ some (take 8 test_data))
    × (second.0 ≡ none)
    × (len second.1 ≡ 2)
    × (third.0 ≡ none)
    × (len third.1 ≡ 2)

out_of_data : OutOfDataTest
unfolding fetch_str position_zero fetch fetch_bytes Argument.new len
out_of_data = (refl, refl, refl, refl, refl)
