-- ===== src/Examples/Hello/Pages.antt =====
-- What a readdir of the hello filesystem lists (examples/hello.rs).
use async_fuse_rs.Prelude.{
  ℕ, zero, suc, ◌+◌, ◌≤◌, ◌<◌, ◌≡◌, refl, sym, ap, ◌∙◌, arith, ltb, Bool-cases, inl, inr, false,
  List, [], ◌∷◌, ◌++◌, All, take, drop, length, append-nil, append_assoc,
}
use async_fuse_rs.Libc.{Libc}
use async_fuse_rs.Channel.{ChannelSender}
use async_fuse_rs.Reply.Raw.Once.{raw_message, consume_raw}
use async_fuse_rs.Reply.Directory
use async_fuse_rs.Reply.Directory.{
  ReplyDirectory, DirEntry, ent_len, ent_size, entry_bytes, add, run_listing,
}
use async_fuse_rs.Reply.Directory.Filling.{all_bytes}
use async_fuse_rs.Examples.Hello.{entries, add_all, hello_listing}

-- No entry is smaller than one before it.
abbrev Growing : List DirEntry → Type 0
Growing [] = Unit
Growing (e ∷ es) = All (λ f. ent_size e ≤ ent_size f) es × Growing es

add_full :
    (libc : Libc) (d : ReplyDirectory) (e : DirEntry)
    → d.capacity < length d.contents + ent_size e
    → (add libc d e).0 ≡ d
unfolding add
add_full libc d e h = elim (Bool-cases (ltb d.capacity (length d.contents + ent_size e))) [
  | inl full ↦ rw full refl
  | inr room ↦ absurd (ground (arith, room, h))
]

-- What does not fit is passed over.
run-full :
    (libc : Libc) (d : ReplyDirectory) (es : List DirEntry)
    → All (λ f. d.capacity < length d.contents + ent_size f) es
    → run_listing libc d (add_all es) ≡ Directory.ok libc d
unfolding run_listing
run-full libc d [] h = refl
run-full libc d (e ∷ es) (h, hs) =
    ap (λ x. run_listing libc x (add_all es)) (add_full libc d e h) ∙ run-full libc d es hs

All-mono :
    {A : Type 0} (P Q : A → Type 0) (xs : List A) → ((x : A) → P x → Q x) → All P xs → All Q xs
All-mono P Q [] f h = tt
All-mono P Q (x ∷ xs) f (h, hs) = (f x h, All-mono P Q xs f hs)

abbrev FirstFits : ReplyDirectory → List DirEntry → Type 0
FirstFits d [] = ⊥
FirstFits d (e ∷ es) = length d.contents + ent_size e ≤ d.capacity

-- The entries of the page that a directory reply comes to.
abbrev IsPage : Libc → ReplyDirectory → List DirEntry → ℕ → Type 0
IsPage libc d es n =
    (run_listing libc d (add_all es)
      ≡ Directory.ok libc (record d { contents = d.contents ++ all_bytes libc (take n es) }))
    × (FirstFits d es → 1 ≤ n)

add_room :
    (libc : Libc) (d : ReplyDirectory) (e : DirEntry)
    → length d.contents + ent_size e ≤ d.capacity
    → (add libc d e).0 ≡ record d { contents = d.contents ++ entry_bytes libc e }
unfolding add
add_room libc d e h = elim (Bool-cases (ltb d.capacity (length d.contents + ent_size e))) [
  | inl full ↦ absurd (ground (arith, full, h))
  | inr room ↦ rw room refl
]

IsPage-full :
    (libc : Libc) (d : ReplyDirectory) (e : DirEntry) (es : List DirEntry)
    → Growing (e ∷ es)
    → d.capacity < length d.contents + ent_size e
    → IsPage libc d (e ∷ es) 0
IsPage-full libc d e es (g, gs) h = (
  run-full libc d (e ∷ es) (h, All-mono _ _ es (λ f le. omega (arith, le, h)) g)
      ∙ sym (ap (λ c. Directory.ok libc (record d { contents = c })) (append-nil d.contents)),
  λ fits. omega (arith, fits, h),
)

IsPage-room :
    (libc : Libc) (d : ReplyDirectory) (e : DirEntry) (es : List DirEntry) (n : ℕ)
    → length d.contents + ent_size e ≤ d.capacity
    → IsPage libc (record d { contents = d.contents ++ entry_bytes libc e }) es n
    → IsPage libc d (e ∷ es) (suc n)
unfolding run_listing
IsPage-room libc d e es n h p = (
  ap (λ x. run_listing libc x (add_all es)) (add_room libc d e h)
      ∙ p.0
      ∙ ap (λ c. Directory.ok libc (record d { contents = c }))
          (append_assoc d.contents (entry_bytes libc e) (all_bytes libc (take n es))),
  λ _. omega arith,
)

-- Growing entries are listed up to the first that does not fit; the first is listed if it fits.
Growing-IsPage :
    (libc : Libc) (d : ReplyDirectory) (es : List DirEntry)
    → Growing es
    → (n : ℕ) × IsPage libc d es n
unfolding run_listing
Growing-IsPage libc d [] g = (
  0,
  (
    sym (ap (λ c. Directory.ok libc (record d { contents = c })) (append-nil d.contents)),
    λ f. elim f [ ],
  ),
)
Growing-IsPage libc d (e ∷ es) g =
    elim (Bool-cases (ltb d.capacity (length d.contents + ent_size e))) [
      | inl full ↦ (0, IsPage-full libc d e es g (ground (arith, full)))
      | inr room ↦
          let (n, p) =
            Growing-IsPage libc (record d { contents = d.contents ++ entry_bytes libc e }) es g.1 in
          (suc n, IsPage-room libc d e es n (ground (arith, room)) p)
    ]

Growing-drop : (n : ℕ) → Growing (drop n [])
Growing-drop zero = tt
Growing-drop (suc n) = tt

entries-Growing : (offset : ℕ) → Growing (drop offset entries)
unfolding ent_size ent_len
entries-Growing zero = ground arith
entries-Growing (suc zero) = ground arith
entries-Growing (suc (suc zero)) = ground arith
entries-Growing (suc (suc (suc offset))) = Growing-drop offset

first_fits :
    (unique : ℕ) (s : ChannelSender) (capacity offset : ℕ)
    → 40 ≤ capacity
    → offset < 3
    → FirstFits (Directory.new unique s capacity) (drop offset entries)
unfolding Directory.new ent_size ent_len
first_fits unique s capacity zero h o = omega arith
first_fits unique s capacity (suc zero) h o = omega arith
first_fits unique s capacity (suc (suc zero)) h o = omega arith
first_fits unique s capacity (suc (suc (suc offset))) h o = absurd (omega arith)

-- A readdir of the directory at any offset, with any capacity, answers with the next entries from that
-- offset, without a gap; with at least one if 40 bytes are there and the offset is not the end.
pub hello_listing-page :
    (libc : Libc) (unique : ℕ) (s : ChannelSender) (capacity offset : ℕ)
    → (n : ℕ) × ((run_listing libc (Directory.new unique s capacity) (hello_listing libc 1 offset)
          ≡ record {
            sent =
                raw_message s.fd unique 0 (all_bytes libc (take n (drop offset entries)) ∷ []) ∷ [];
            panicked = false;
          })
        × (40 ≤ capacity → offset < 3 → 1 ≤ n))
unfolding hello_listing Directory.new Directory.ok
hello_listing-page libc unique s capacity offset =
    let (n, (page, progress)) =
      Growing-IsPage libc (Directory.new unique s capacity) (drop offset entries)
        (entries-Growing offset) in
    (
      n,
      (
        page ∙ consume_raw libc unique s 0 (all_bytes libc (take n (drop offset entries)) ∷ []),
        λ h o. progress (first_fits unique s capacity offset h o),
      ),
    )
