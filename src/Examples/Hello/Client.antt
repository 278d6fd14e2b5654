-- ===== src/Examples/Hello/Client.antt =====
-- A reader of the hello directory (examples/hello.rs): it asks for page after page, each from the offset
-- of the last entry that it saw, until a page is empty.
use async_fuse_rs.Prelude.{
  ℕ, zero, suc, ◌+◌, ◌*◌, ◌≤◌, ◌<◌, ◌≡◌, refl, ap, ◌∙◌, arith, List, [], ◌∷◌, ◌++◌, map, All, take,
  drop, length, length-append, append-nil, take-All, drop-All, length-take, length-drop,
}
use async_fuse_rs.Bytes.{Bytes, u32_mod, u64_mod}
use async_fuse_rs.Libc.{linux}
use async_fuse_rs.Channel.{ChannelSender, Message}
use async_fuse_rs.Abi.Replies.{FuseDirent}
use async_fuse_rs.Reply.Raw.{Outcome}
use async_fuse_rs.Reply.Raw.Once.{
  flat, read_reply, raw_message-reply_message, read_reply-reply_message,
}
use async_fuse_rs.Reply.Attr.{mode_from_kind_and_perm}
use async_fuse_rs.Reply.Directory
use async_fuse_rs.Reply.Directory.{DirEntry, dirent, ent_size, ent_len, entry_bytes, run_listing}
use async_fuse_rs.Reply.Directory.Filling.{all_bytes, length-entry_bytes}
use async_fuse_rs.Reply.Directory.Reader.{
  read_entries, IsEntry, seen, read_entries-all_bytes, linux-HasDirentTypes,
}
use async_fuse_rs.Examples.Hello.{entries, hello_listing}
use async_fuse_rs.Examples.Hello.Pages.{hello_listing-page}

-- The payload of a reply.
abbrev payload : List Message → Bytes
payload [] = []
payload (m ∷ ms) = (read_reply (flat m.slices)).1

-- The entries of the page that starts at an offset.
unfoldable pub page : ℕ → ChannelSender → ℕ → ℕ → List (FuseDirent × Bytes)
unfolding run_listing Directory.new hello_listing read_entries
page unique s capacity offset = read_entries capacity (
    payload
      (run_listing linux (Directory.new unique s capacity) (hello_listing linux 1 offset)).sent)

abbrev last_offset : FuseDirent × Bytes → List (FuseDirent × Bytes) → ℕ
last_offset e [] = e.0.off
last_offset e (f ∷ fs) = last_offset f fs

abbrev go_on :
    List (FuseDirent × Bytes) → (ℕ → List (FuseDirent × Bytes)) → List (FuseDirent × Bytes)
go_on [] next = []
go_on (e ∷ es) next = (e ∷ es) ++ next (last_offset e es)

-- All entries from an offset on, in at most `fuel` pages.
unfoldable pub read_all : ℕ → ℕ → ChannelSender → ℕ → ℕ → List (FuseDirent × Bytes)
unfolding page
read_all zero unique s capacity offset = []
read_all (suc fuel) unique s capacity offset =
    go_on (page unique s capacity offset) (read_all fuel unique s capacity)

-- An entry that the kernel can read, and that has at most 40 bytes.
abbrev IsSmall : DirEntry → Type 0
IsSmall e = IsEntry e × (ent_size e ≤ 40)

entries-IsSmall : All IsSmall entries
unfolding dirent mode_from_kind_and_perm ent_size ent_len
entries-IsSmall =
    ((omega arith, omega arith), ((omega arith, omega arith), ((omega arith, omega arith), tt)))

All-IsEntry : (es : List DirEntry) → All IsSmall es → All IsEntry es
All-IsEntry [] h = tt
All-IsEntry (e ∷ es) (h, hs) = (h.0, All-IsEntry es hs)

length-all_bytes :
    (es : List DirEntry) → All IsSmall es → length (all_bytes linux es) ≤ 40 * length es
length-all_bytes [] h = omega arith
length-all_bytes (e ∷ es) (h, hs) = omega (
  arith,
  h.1,
  length-append (entry_bytes linux e) (all_bytes linux es),
  length-entry_bytes linux e,
  length-all_bytes es hs,
)

-- The entries of a page.
module _ (n offset : ℕ) where
  pages-IsSmall : All IsSmall (take n (drop offset entries))
  pages-IsSmall =
      take-All IsSmall n (drop offset entries) (drop-All IsSmall offset entries entries-IsSmall)

  entries-IsEntry : All IsEntry (take n (drop offset entries))
  entries-IsEntry = All-IsEntry (take n (drop offset entries)) pages-IsSmall

  entries_short : length (take n (drop offset entries)) ≤ 3
  entries_short = omega (arith, length-take n (drop offset entries), length-drop offset entries)

  pages_short : length (all_bytes linux (take n (drop offset entries))) ≤ 120
  pages_short =
      omega (arith, length-all_bytes (take n (drop offset entries)) pages-IsSmall, entries_short)

page_lem :
    (unique : ℕ) (s : ChannelSender) (capacity offset : ℕ)
    → unique < u64_mod
    → 40 ≤ capacity
    → (n : ℕ) × (page unique s capacity offset ≡ map seen (take n (drop offset entries)))
      × (offset < 3 → 1 ≤ n)
unfolding page
page_lem unique s capacity offset hu hc =
    let (n, (sent, progress)) = hello_listing-page linux unique s capacity offset in
    let body : List Bytes = all_bytes linux (take n (drop offset entries)) ∷ [] in
    let short : 16 + length (flat body) < u32_mod = omega (
      arith,
      ap length (append-nil (all_bytes linux (take n (drop offset entries)))),
      pages_short n offset,
    ) in
    (
      n,
      ap (λ (o : Outcome). read_entries capacity (payload o.sent)) sent
          ∙ ap (λ (m : Message). read_entries capacity (payload (m ∷ [])))
              (raw_message-reply_message s.fd unique 0 body short)
          ∙ ap (λ x. read_entries capacity x.1)
              (read_reply-reply_message s.fd unique 0 body hu short)
          ∙ ap (read_entries capacity) (append-nil (all_bytes linux (take n (drop offset entries))))
          ∙ read_entries-all_bytes linux (take n (drop offset entries)) capacity
              linux-HasDirentTypes (entries-IsEntry n offset)
              (omega (arith, hc, entries_short n offset)),
      progress hc,
    )

-- Where a reader goes on behind a page of the next `n` entries: nowhere, or at a later offset, from which on
-- there are the entries that are missing.
data Next (n offset : ℕ) : Type 0 where
  none_left : map seen (take n (drop offset entries)) ≡ [] → offset ≡ 3 → Next n offset
  goes_on :
      (later : ℕ)
      → later ≤ 3
      → offset < later
      → ((next : ℕ → List (FuseDirent × Bytes))
          → go_on (map seen (take n (drop offset entries))) next
            ≡ map seen (take n (drop offset entries)) ++ next later)
      → map seen (take n (drop offset entries)) ++ map seen (drop later entries)
        ≡ map seen (drop offset entries)
      → Next n offset

Next-cases : (n offset : ℕ) → offset ≤ 3 → (offset < 3 → 1 ≤ n) → Next n offset
unfolding dirent
Next-cases (suc zero) zero h p = goes_on 1 (omega arith) (omega arith) (λ next. refl) refl
Next-cases (suc (suc zero)) zero h p = goes_on 2 (omega arith) (omega arith) (λ next. refl) refl
Next-cases (suc (suc (suc zero))) zero h p =
    goes_on 3 (omega arith) (omega arith) (λ next. refl) refl
Next-cases (suc (suc (suc (suc n)))) zero h p =
    goes_on 3 (omega arith) (omega arith) (λ next. refl) refl
Next-cases (suc zero) (suc zero) h p = goes_on 2 (omega arith) (omega arith) (λ next. refl) refl
Next-cases (suc (suc zero)) (suc zero) h p =
    goes_on 3 (omega arith) (omega arith) (λ next. refl) refl
Next-cases (suc (suc (suc n))) (suc zero) h p =
    goes_on 3 (omega arith) (omega arith) (λ next. refl) refl
Next-cases (suc zero) (suc (suc zero)) h p =
    goes_on 3 (omega arith) (omega arith) (λ next. refl) refl
Next-cases (suc (suc n)) (suc (suc zero)) h p =
    goes_on 3 (omega arith) (omega arith) (λ next. refl) refl
Next-cases zero zero h p = absurd (omega (arith, p (omega arith)))
Next-cases zero (suc zero) h p = absurd (omega (arith, p (omega arith)))
Next-cases zero (suc (suc zero)) h p = absurd (omega (arith, p (omega arith)))
Next-cases zero (suc (suc (suc zero))) h p = none_left refl refl
Next-cases (suc n) (suc (suc (suc zero))) h p = none_left refl refl
Next-cases n (suc (suc (suc (suc offset)))) h p = absurd (omega arith)

module _ (unique : ℕ) (s : ChannelSender) (capacity : ℕ) (hu : unique < u64_mod)
    (hc : 40 ≤ capacity) where
  abbrev from : ℕ → ℕ → List (FuseDirent × Bytes)
  from fuel offset = read_all fuel unique s capacity offset

  read_all_step :
      (fuel offset : ℕ) (es : List (FuseDirent × Bytes))
      → page unique s capacity offset ≡ es
      → from (suc fuel) offset ≡ go_on es (from fuel)
  unfolding read_all
  read_all_step fuel offset es h = ap (λ x. go_on x (from fuel)) h

  -- Behind the page at an offset, and in it, are all entries from there on.
  read_from :
      (fuel offset : ℕ)
      → offset ≤ 3
      → 3 < fuel + offset
      → from fuel offset ≡ map seen (drop offset entries)
  read_from zero offset h f = absurd (omega arith)
  read_from (suc fuel) offset h f =
      let (n, page_same, progress) = page_lem unique s capacity offset hu hc in
      let now : List (FuseDirent × Bytes) = map seen (take n (drop offset entries)) in
      read_all_step fuel offset now page_same ∙ elim (Next-cases n offset h progress) [
        | none_left empty last ↦ rw (empty, last) refl
        | goes_on later le lt followed same ↦
            followed (from fuel)
            ∙ ap (λ es. now ++ es) (read_from fuel later le (omega (arith, lt, f)))
            ∙ same
      ]

-- With a buffer of at least 40 bytes and fuel for four pages, a reader that asks for the directory page by
-- page, each time from the offset of the last entry that it saw, sees all entries of the directory, each
-- once and in their order, whatever number of entries a page has room for.
pub read_all_lem :
    (unique : ℕ) (s : ChannelSender) (capacity fuel : ℕ)
    → unique < u64_mod
    → 40 ≤ capacity
    → 4 ≤ fuel
    → read_all fuel unique s capacity 0 ≡ map seen entries
read_all_lem unique s capacity fuel hu hc hf =
    read_from unique s capacity hu hc fuel 0 (omega arith) (omega arith)
