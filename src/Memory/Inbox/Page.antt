-- ===== src/Memory/Inbox/Page.antt =====
-- What a page of the inbox covers: the sequence that its cursor stands for, and the rows after it.
use a2a_superhub.Memory.Notes.{MemoryError, Note}
use a2a_superhub.Memory.Inbox.Fetch.{Row, waiting, scan, Page, add_item, is_skipped}
use a2a_superhub.Prelude.{
  ℕ, List, String, sort_by, ◌∷◌, suc, Bool, ◌≤◌, leb, ◌≡◌, select, Result, ◌<◌, max, ◌==◌, arith,
  Bool-cases, true, ltb, take, zero, ◌&&◌, inl, false, inr, ok, err, ap, [], refl, ◌∙◌,
}

-- a table by its key: each row's sequence above the row's before
abbrev pub IsAscending : ℕ → List Row → Type 0
IsAscending after [] = Unit {0}
IsAscending after (r ∷ rs) = (after < r.sequence) × IsAscending r.sequence rs

-- the greatest sequence of the rows, or `start`
abbrev pub last_sequence : ℕ → List Row → ℕ
last_sequence start [] = start
last_sequence start (r ∷ rs) = last_sequence (max start r.sequence) rs

abbrev pub drop_rows : ℕ → List Row → List Row
drop_rows zero rows = rows
drop_rows (suc n) [] = []
drop_rows (suc n) (r ∷ rs) = drop_rows n rs

abbrev wants : String → ℕ → Row → Bool
wants recipient after r = r.recipient == recipient && ltb after r.sequence

IsAscending-weaken : (a b : ℕ) (rows : List Row) → a ≤ b → IsAscending b rows → IsAscending a rows
IsAscending-weaken a b [] h k = tt
IsAscending-weaken a b (r ∷ rs) h (k, ks) = (omega arith, ks)

select-IsAscending :
    (p : Row → Bool) (a : ℕ) (rows : List Row) → IsAscending a rows → IsAscending a (select p rows)
select-IsAscending p a [] h = tt
select-IsAscending p a (r ∷ rs) (h, hs) = elim (Bool-cases (p r)) [
  | inl e ↦ rw e (h, select-IsAscending p r.sequence rs hs)
  | inr e ↦ rw e (
      IsAscending-weaken a r.sequence (select p rs) (omega arith)
        (select-IsAscending p r.sequence rs hs))
]

sort_by-IsAscending :
    (a : ℕ) (rows : List Row)
    → IsAscending a rows
    → sort_by (λ x y. leb x.sequence y.sequence) rows ≡ rows
unfolding sort_by
sort_by-IsAscending a [] h = refl
sort_by-IsAscending a (r ∷ []) h = refl
sort_by-IsAscending a (r ∷ q ∷ rs) (h, (k, ks)) =
    let before : leb r.sequence q.sequence ≡ true = ground arith in
    rw (sort_by-IsAscending r.sequence (q ∷ rs) (k, ks), before) refl

-- a table in the order of its key is read in that order
pub waiting-IsAscending :
    (p : String) (a : ℕ) (rows : List Row)
    → IsAscending 0 rows
    → waiting p a rows ≡ select (wants p a) rows
unfolding waiting
waiting-IsAscending p a rows h =
    sort_by-IsAscending 0 (select (wants p a) rows) (select-IsAscending (wants p a) 0 rows h)

abbrev after : ℕ → Row → Bool
after b r = ltb b r.sequence

select-wants :
    (p : String) (a b : ℕ) (rows : List Row)
    → a ≤ b
    → select (wants p b) rows ≡ select (after b) (select (wants p a) rows)
select-wants p a b [] h = refl
select-wants p a b (r ∷ rs) h = ground (arith, select-wants p a b rs h)

-- rows that are all after `b` pass
select-after :
    (a b : ℕ) (rows : List Row) → b ≤ a → IsAscending a rows → select (after b) rows ≡ rows
select-after a b [] h k = refl
select-after a b (r ∷ rs) h (k, ks) =
    let later : ltb b r.sequence ≡ true = ground arith in
    rw (later, select-after r.sequence b rs (omega arith) ks) refl

le-last_sequence : (a : ℕ) (rows : List Row) → a ≤ last_sequence a rows
le-last_sequence a [] = omega arith
le-last_sequence a (r ∷ rs) = omega (arith, le-last_sequence (max a r.sequence) rs)

select-after_page :
    (n a m : ℕ) (rows : List Row)
    → m ≡ last_sequence a (take n rows)
    → IsAscending a rows
    → select (after m) rows ≡ drop_rows n rows
select-after_page zero a m rows e h = select-after a m rows (omega arith) h
select-after_page (suc n) a m [] e h = refl
select-after_page (suc n) a m (r ∷ rs) e (h, hs) =
    let top : max a r.sequence ≡ r.sequence = omega arith in
    let e' : m ≡ last_sequence r.sequence (take n rs) =
      e ∙ ap (λ k. last_sequence k (take n rs)) top in
    let passed : ltb m r.sequence ≡ false =
      ground (arith, le-last_sequence r.sequence (take n rs)) in
    rw passed (select-after_page n r.sequence m rs e' hs)

select-wants-IsAscending :
    (p : String) (a c : ℕ) (rows : List Row)
    → IsAscending c rows
    → IsAscending a (select (wants p a) rows)
select-wants-IsAscending p a c [] h = tt
select-wants-IsAscending p a c (r ∷ rs) (h, hs) = elim (Bool-cases (wants p a r)) [
  | inl e ↦
      let first : a < r.sequence = ground arith in
      rw e (first, select-IsAscending (wants p a) r.sequence rs hs)
  | inr e ↦ rw e (select-wants-IsAscending p a r.sequence rs hs)
]

add_item-ok :
    (r : Row) (x : Result MemoryError Note) (y : Result MemoryError Page) (page : Page)
    → add_item r x y ≡ ok page
    → (rest : Page) × (y ≡ ok rest) × (rest.scanned ≡ page.scanned)
unfolding add_item
add_item-ok r (ok note) (ok rest) page h = (rest, refl, cc)
add_item-ok r (ok note) (err e) page h = cc
add_item-ok r (err e) y page h = elim (Bool-cases (is_skipped e)) [
  | inl skipped ↦ (page, rw skipped at h, refl)
  | inr other ↦ let h' : err e ≡ ok page = rw other at h in cc
]

-- the page's sequence is the greatest of its rows, those included that are left out of the answer
scan-scanned :
    (read : String → Result MemoryError Note) (a : ℕ) (rows : List Row) (page : Page)
    → scan read a rows ≡ ok page
    → page.scanned ≡ last_sequence a rows
unfolding scan
scan-scanned read a [] page h = cc
scan-scanned read a (r ∷ rs) page h =
    let (rest, found, same) =
      add_item-ok r (read r.note_id) (scan read (max a r.sequence) rs) page h in
    cc (scan-scanned read (max a r.sequence) rs rest found)

-- Where the table of deliveries is in the order of its key, and a page of at most `n` rows was read
-- after the sequence `a`: the rows that wait after the sequence that the page's cursor stands for
-- are those that waited after `a`, without the first `n`, whatever notes could not be read.
pub page_covers_its_rows :
    (read : String → Result MemoryError Note) (recipient : String) (a n : ℕ) (rows : List Row)
    (page : Page)
    → IsAscending 0 rows
    → scan read a (take n (waiting recipient a rows)) ≡ ok page
    → waiting recipient page.scanned rows ≡ drop_rows n (waiting recipient a rows)
page_covers_its_rows read recipient a n rows page h found =
    let now = select (wants recipient a) rows in
    let found' : scan read a (take n now) ≡ ok page =
      rw (waiting-IsAscending recipient a rows h) at found in
    let scanned = scan-scanned read a (take n now) page found' in
    let later = le-last_sequence a (take n now) in
    rw
      (
        waiting-IsAscending recipient a rows h,
        waiting-IsAscending recipient page.scanned rows h,
        select-wants recipient a page.scanned rows (omega arith),
      )
      (select-after_page n a page.scanned now scanned
        (select-wants-IsAscending recipient a 0 rows h))
