-- ===== src/Reply/Raw/Once.antt =====
-- The message of a raw reply object, and how the kernel reads it (src/reply.rs).
use async_fuse_rs.Prelude.{
  ◌-◌, ◌%◌, ◌^◌, refl, drop as list_drop, take, take-append, drop-append, length-append, ℕ, ◌+◌,
  ◌<◌, ◌≡◌, ap, ◌∙◌, arith, false, List, [], ◌∷◌, ◌++◌, length,
}
use mathlib.Core.List.{foldl}
use async_fuse_rs.Bytes.{Bytes, u32_mod, u64_mod, neg_i32, to_le_bytes}
use async_fuse_rs.Abi.Layout.{Fits, encode, pack}
use async_fuse_rs.Abi.Layout.Laws.{decode-encode, length-encode}
use async_fuse_rs.Abi.Layout.{decode}
use async_fuse_rs.Abi.Replies.{FuseOutHeader, out_header_repr}
use async_fuse_rs.Libc.{Libc}
use async_fuse_rs.Channel.{ChannelSender, Message}
use async_fuse_rs.Reply.Raw.{forsake, as_bytes, new, header_for, drop, consume}

-- The bytes of a message, as the kernel receives them.
abbrev pub flat : List Bytes → Bytes
flat [] = []
flat (b ∷ bs) = b ++ flat bs

-- The one message that a use of a reply object for request `unique` comes to.
unfoldable pub reply_message : ℕ → ℕ → ℕ → List Bytes → Message
reply_message fd unique err payload = record {
  fd = fd;
  slices =
      encode out_header_repr
        (record { len = 16 + length (flat payload); error = neg_i32 err; unique = unique })
      ∷ payload;
}

-- The same, with the length in the header as it is computed.
unfoldable pub raw_message : ℕ → ℕ → ℕ → List Bytes → Message
raw_message fd unique err payload = record {
  fd = fd;
  slices = as_bytes out_header_repr (header_for unique err payload) ++ payload;
}

abbrev pub Sendable : List Bytes → Type 0
Sendable payload = 16 + length (flat payload) < u32_mod

foldl-length :
    (n : ℕ) (bs : List Bytes) → foldl (λ l (b : Bytes). l + length b) n bs ≡ n + length (flat bs)
foldl-length n [] = omega arith
foldl-length n (b ∷ bs) = foldl-length (n + length b) bs ∙ omega (arith, length-append b (flat bs))

header_for_lem :
    (unique err : ℕ) (payload : List Bytes)
    → Sendable payload
    → header_for unique err payload
      ≡ record { len = 16 + length (flat payload); error = neg_i32 err; unique = unique }
unfolding header_for
header_for_lem unique err payload h =
    ap (λ (n : ℕ). record { len = n; error = neg_i32 err; unique = unique })
      (omega (arith, foldl-length 0 payload))

pub raw_message-reply_message :
    (fd unique err : ℕ) (payload : List Bytes)
    → Sendable payload
    → raw_message fd unique err payload ≡ reply_message fd unique err payload
unfolding raw_message reply_message as_bytes
raw_message-reply_message fd unique err payload h = rw (header_for_lem unique err payload h)

module _ (libc : Libc) (unique : ℕ) (s : ChannelSender) where
  -- A fresh reply object that is consumed with an error number and a payload whose message has a length of
  -- 32 bits sends that message, and no other when its life ends.
  pub consume-new :
      (err : ℕ) (payload : List Bytes)
      → Sendable payload
      → consume libc (new unique s) err payload
        ≡ record { sent = reply_message s.fd unique err payload ∷ []; panicked = false }
  unfolding consume new reply_message
  consume-new err payload h = rw (header_for_lem unique err payload h)

  -- So it is for a payload of any length; the length in the header then wraps.
  pub consume_raw :
      (err : ℕ) (payload : List Bytes)
      → consume libc (new unique s) err payload
        ≡ record { sent = raw_message s.fd unique err payload ∷ []; panicked = false }
  unfolding consume new raw_message
  consume_raw err payload = refl

  pub drop_raw : drop libc (new unique s) ≡ raw_message s.fd unique libc.eio [] ∷ []
  unfolding drop new raw_message
  drop_raw = refl

  pub forsake_raw :
      forsake libc (new unique s)
      ≡ record { sent = raw_message s.fd unique libc.eio [] ∷ []; panicked = false }
  unfolding forsake new raw_message
  forsake_raw = refl

  pub drop-new : drop libc (new unique s) ≡ reply_message s.fd unique libc.eio [] ∷ []
  unfolding drop new reply_message
  drop-new = rw (header_for_lem unique libc.eio [] (omega arith))

-- The kernel's reading of a reply: the header, and what follows.
abbrev pub read_reply : Bytes → FuseOutHeader × Bytes
read_reply bytes = (decode out_header_repr (take 16 bytes), list_drop 16 bytes)

read_reply-append :
    (h : FuseOutHeader) (rest : Bytes)
    → Fits out_header_repr h
    → read_reply (encode out_header_repr h ++ rest) ≡ (h, rest)
read_reply-append h rest f = rw (
  take-append 16 (encode out_header_repr h) rest (length-encode out_header_repr h),
  drop-append 16 (encode out_header_repr h) rest (length-encode out_header_repr h),
  decode-encode out_header_repr h f,
)

length-packet :
    (h : FuseOutHeader) (rest : Bytes)
    → length (encode out_header_repr h ++ rest) ≡ 16 + length rest
length-packet h rest =
    omega (arith, length-append (encode out_header_repr h) rest, length-encode out_header_repr h)

-- If the length of the message has 32 bits and the id of the request 64, the kernel reads back the header,
-- with the length of the whole message, the negated error and the id, and the payload.
pub read_reply-reply_message :
    (fd unique err : ℕ) (payload : List Bytes)
    → unique < u64_mod
    → Sendable payload
    → let bytes = flat (reply_message fd unique err payload).slices in
      read_reply bytes
      ≡ (record { len = length bytes; error = neg_i32 err; unique = unique }, flat payload)
unfolding reply_message
read_reply-reply_message fd unique err payload hu hp =
    rw (length-packet header (flat payload)) (read_reply-append header (flat payload) fits)
  where
    header : FuseOutHeader
    header = record { len = 16 + length (flat payload); error = neg_i32 err; unique = unique }

    fits : Fits out_header_repr header
    fits = omega arith

-- The header in bytes.
header-bytes :
    (h : FuseOutHeader) (rest : Bytes)
    → encode out_header_repr h ++ rest
      ≡ to_le_bytes 4 h.len ++ (to_le_bytes 4 h.error ++ (to_le_bytes 8 h.unique ++ rest))
unfolding encode pack to_le_bytes
header-bytes h rest = refl

-- A fresh reply object that is consumed with an error number and a payload, when the length of the message has
-- 32 bits, does not panic, and until its life ends sends one message, on the channel of its sender: four
-- bytes with the length of the whole message, four with the negated error number in 32 bits, eight
-- with the id of the request, all with the lowest byte first, and then the payload.
pub consume-bytes :
    (libc : Libc) (unique : ℕ) (s : ChannelSender) (err : ℕ) (payload : List Bytes)
    → Sendable payload
    → (m : Message) × (consume libc (new unique s) err payload
        ≡ record { sent = m ∷ []; panicked = false })
      × (m.fd ≡ s.fd)
      × (flat m.slices
          ≡ to_le_bytes 4 (length (flat m.slices))
            ++ (to_le_bytes 4 ((2 ^ 32 - err % 2 ^ 32) % 2 ^ 32)
                ++ (to_le_bytes 8 unique ++ flat payload)))
unfolding reply_message
consume-bytes libc unique s err payload h = (
  reply_message s.fd unique err payload,
  consume-new libc unique s err payload h,
  refl,
  rw (length-packet header (flat payload)) (header-bytes header (flat payload)),
)
  where
    header : FuseOutHeader
    header = record { len = 16 + length (flat payload); error = neg_i32 err; unique = unique }
