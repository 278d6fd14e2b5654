-- ===== src/Reply/Directory/Filling.antt =====
-- What the buffer of a directory reply holds while it is filled (src/reply.rs).
use async_fuse_rs.Reply.Raw.{Outcome, new}
use async_fuse_rs.Reply.Raw.Once.{raw_message, consume_raw, forsake_raw}
use async_fuse_rs.Prelude.{
  ℕ, ◌+◌, ◌-◌, ◌%◌, ◌≤◌, ◌<◌, ◌≡◌, refl, ap, ◌∙◌, sym, arith, true, false, ltb, Bool-cases, ◌⊎◌,
  inl, inr, List, [], ◌∷◌, ◌++◌, append-nil, append_assoc, length, length-append, length-replicate,
  replicate,
}
use async_fuse_rs.Bytes.{Bytes}
use async_fuse_rs.Libc.{Libc}
use async_fuse_rs.Channel.{ChannelSender}
use async_fuse_rs.Abi.Layout.Laws.{length-encode}
use async_fuse_rs.Abi.Layout.{encode}
use async_fuse_rs.Abi.Replies.{dirent_repr}
use async_fuse_rs.Reply.Directory
use async_fuse_rs.Reply.Directory.{
  ReplyDirectory, DirEntry, ent_len, ent_size, dirent, entry_bytes, add, Listing, add_entry, finish,
  fail, abandon, run_listing,
}

-- An entry takes a multiple of 8 bytes, the least that holds the struct and the name.
pub ent_size_bounds :
    (e : DirEntry) → (ent_len e ≤ ent_size e) × (ent_size e < ent_len e + 8) × (ent_size e % 8 ≡ 0)
unfolding ent_size
ent_size_bounds e = omega arith

pub length-entry_bytes : (libc : Libc) (e : DirEntry) → length (entry_bytes libc e) ≡ ent_size e
unfolding entry_bytes
length-entry_bytes libc e = omega (
  arith,
  length-append (encode dirent_repr (dirent libc e))
      (e.name ++ replicate (ent_size e - ent_len e) 0),
  length-append e.name (replicate (ent_size e - ent_len e) 0),
  length-encode dirent_repr (dirent libc e),
  length-replicate {A = ℕ} (ent_size e - ent_len e) 0,
)

-- The entries of a list, one behind the other.
abbrev pub all_bytes : Libc → List DirEntry → Bytes
all_bytes libc [] = []
all_bytes libc (e ∷ es) = entry_bytes libc e ++ all_bytes libc es

-- The buffer holds exactly these entries, within its capacity, and ends at a multiple of 8.
pub record Holds (libc : Libc) (d : ReplyDirectory) (es : List DirEntry) : Type 0 where
  pub same : d.contents ≡ all_bytes libc es
  pub within : length d.contents ≤ d.capacity
  pub aligned : length d.contents % 8 ≡ 0

pub new-Holds :
    (libc : Libc) (unique : ℕ) (s : ChannelSender) (capacity : ℕ)
    → Holds libc (Directory.new unique s capacity) []
unfolding Directory.new
new-Holds libc unique s capacity = record { same = refl; within = omega arith; aligned = refl }

all_bytes-append :
    (libc : Libc) (es fs : List DirEntry)
    → all_bytes libc (es ++ fs) ≡ all_bytes libc es ++ all_bytes libc fs
all_bytes-append libc [] fs = refl
all_bytes-append libc (e ∷ es) fs =
    ap (λ t. entry_bytes libc e ++ t) (all_bytes-append libc es fs)
    ∙ sym (append_assoc (entry_bytes libc e) (all_bytes libc es) (all_bytes libc fs))

append-Holds :
    (libc : Libc) (d : ReplyDirectory) (e : DirEntry) (es : List DirEntry)
    → Holds libc d es
    → length d.contents + ent_size e ≤ d.capacity
    → Holds libc (record d { contents = d.contents ++ entry_bytes libc e }) (es ++ e ∷ [])
append-Holds libc d e es h room = record {
  same =
      ap (λ t. t ++ entry_bytes libc e) h.same
      ∙ sym (ap (λ t. all_bytes libc es ++ t) (append-nil (entry_bytes libc e)))
      ∙ sym (all_bytes-append libc es (e ∷ []));
  within = omega (arith, length-append d.contents (entry_bytes libc e), length-entry_bytes libc e);
  aligned = omega (
    arith,
    length-append d.contents (entry_bytes libc e),
    length-entry_bytes libc e,
    ent_size_bounds e,
  );
}

-- `add` either reports a full buffer and changes nothing, exactly when the entry with its padding does
-- not fit what is left, or appends the entry; the buffer keeps holding whole entries within its
-- capacity.
pub add-Holds :
    (libc : Libc) (d : ReplyDirectory) (e : DirEntry) (es : List DirEntry)
    → Holds libc d es
    → ((add libc d e ≡ (d, true)) × (d.capacity < length d.contents + ent_size e))
      ⊎ (((add libc d e).1 ≡ false)
          × (length d.contents + ent_size e ≤ d.capacity)
          × Holds libc (add libc d e).0 (es ++ e ∷ [])
          × ((add libc d e).0.reply ≡ d.reply)
          × ((add libc d e).0.capacity ≡ d.capacity))
unfolding add
add-Holds libc d e es h = elim (Bool-cases (ltb d.capacity (length d.contents + ent_size e))) [
  | inl full ↦ inl (rw full refl, ground (arith, full))
  | inr room ↦
      let fits : length d.contents + ent_size e ≤ d.capacity = ground (arith, room) in
      inr
        (rw room refl, fits, rw room (append-Holds libc d e es h fits), rw room refl, rw room refl)
]

-- How a directory reply of capacity `capacity` for request `unique` ends: an error with no payload, or
-- whole entries that fit the capacity.
pub data Ends (libc : Libc) (unique : ℕ) (s : ChannelSender) (capacity : ℕ) (o : Outcome)
    : Type 0 where
  failed :
      (err : ℕ)
      → o ≡ record { sent = raw_message s.fd unique err [] ∷ []; panicked = false }
      → Ends libc unique s capacity o
  listed :
      (es : List DirEntry)
      → o ≡ record {
        sent = raw_message s.fd unique 0 (all_bytes libc es ∷ []) ∷ [];
        panicked = false;
      }
      → length (all_bytes libc es) ≤ capacity
      → Ends libc unique s capacity o

module _ (libc : Libc) (unique : ℕ) (s : ChannelSender) where
  run_listing-Holds :
      (l : Listing) (d : ReplyDirectory) (es : List DirEntry)
      → d.reply ≡ new unique s
      → Holds libc d es
      → Ends libc unique s d.capacity (run_listing libc d l)
  unfolding run_listing
  run_listing-Holds (add_entry e next) d es r h = elim (add-Holds libc d e es h) [
    | inl (full, _) ↦ rw full (run_listing-Holds (next true) d es r h)
    | inr (added, _, h', r', c') ↦
        rw added
          (rw c' at (run_listing-Holds (next false) (add libc d e).0 (es ++ e ∷ []) (r' ∙ r) h'))
  ]
  run_listing-Holds finish d es r h =
      listed es (rw (r, h.same) (consume_raw libc unique s 0 (all_bytes libc es ∷ [])))
        (rw h.same at h.within)
  run_listing-Holds (fail err) d es r h = failed err (rw r (consume_raw libc unique s err []))
  run_listing-Holds abandon d es r h = failed libc.eio (rw r (forsake_raw libc unique s))

  -- Whatever entries a filesystem adds to a new directory reply, and however it goes on after a full
  -- buffer, exactly one message goes out: an error with no payload, or whole entries within the
  -- capacity.
  pub run_listing-Ends :
      (l : Listing) (capacity : ℕ)
      → Ends libc unique s capacity (run_listing libc (Directory.new unique s capacity) l)
  unfolding Directory.new
  run_listing-Ends l capacity =
      run_listing-Holds l (Directory.new unique s capacity) [] refl
        (new-Holds libc unique s capacity)
