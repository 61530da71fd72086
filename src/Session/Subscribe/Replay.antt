-- ===== src/Session/Subscribe/Replay.antt =====
-- The replay that Subscribe reads from the store, against the rows that the store holds.
use mathlib.Core.Path.{ap₂}
use capd.Prelude.{
  ℕ, zero, suc, ◌+◌, ◌^◌, ◌≤◌, ◌<◌, ◌≡◌, refl, sym, ap, subst, ◌∙◌, String, inl, inr, none, some,
  List, [], ◌∷◌, ◌++◌, map, map-append, arith, Result, ok, take, drop, keep, All-map, All-keep,
  Bool-cases, ltb, leb, if◌then◌else◌, take-append-drop, lt→ltb, le→ltb_false, lt→leb_false,
  keep_none, ltb→lt,
}
use capd.Protocol.{Event}
use capd.Session.Store.{Codec, StoreError, Io, EventRow, Store, load_events, rows_of, to_event}
use capd.Session.Pump.{Session, succ_u64}
use capd.Session.Rows.{Rising, Below, Rising-weaken, sort_Rising}
use capd.Session.Subscribe.{
  collect, last_of, after_page, on_page, replay_pages, replay_of, page_size,
}

abbrev from_seq : ℕ → List EventRow → List EventRow
from_seq c = keep (λ r. leb c r.seq)

-- Rows in rising order: those from `c` on, and what is left behind the first page of them.
from_seq-Rising : (m c : ℕ) (rs : List EventRow) → Rising m rs → Rising m (from_seq c rs)
from_seq-Rising m c [] h = tt
from_seq-Rising m c (r ∷ rs) h =
    ground
      (arith, from_seq-Rising (suc r.seq) c rs h.1, Rising-weaken m (suc r.seq) (from_seq c rs))

from_seq-Rising_from : (m c : ℕ) (rs : List EventRow) → Rising m rs → Rising c (from_seq c rs)
from_seq-Rising_from m c [] h = tt
from_seq-Rising_from m c (r ∷ rs) h =
    ground (arith, from_seq-Rising (suc r.seq) c rs h.1, from_seq-Rising_from (suc r.seq) c rs h.1)

Below-take : (n k : ℕ) (rs : List EventRow) → Below n rs → Below n (take k rs)
Below-take n zero rs h = tt
Below-take n (suc k) [] h = tt
Below-take n (suc k) (r ∷ rs) h = (h.0, Below-take n k rs h.1)

from_seq_all : (m c : ℕ) (rs : List EventRow) → Rising m rs → c ≤ m → from_seq c rs ≡ rs
from_seq_all m c [] h le = refl
from_seq_all m c (r ∷ rs) h le = ground (arith, from_seq_all (suc r.seq) c rs h.1)

from_seq-from_seq :
    (c d : ℕ) (rs : List EventRow) → c ≤ d → from_seq d (from_seq c rs) ≡ from_seq d rs
from_seq-from_seq c d [] le = refl
from_seq-from_seq c d (r ∷ rs) le = ground (arith, from_seq-from_seq c d rs le)

last_row : EventRow → List EventRow → ℕ
last_row r [] = r.seq
last_row r (x ∷ rs) = last_row x rs

last_row-ge :
    (n m : ℕ) (r : EventRow) (rs : List EventRow)
    → Rising m (r ∷ rs)
    → r.seq ≤ last_row r (take n rs)
unfolding last_row
last_row-ge zero m r rs h = omega arith
last_row-ge (suc n) m r [] h = omega arith
last_row-ge (suc n) m r (x ∷ rs) h = omega (arith, last_row-ge n (suc r.seq) x rs h.1)

from_seq_skip :
    (c : ℕ) (r : EventRow) (rs : List EventRow) → r.seq < c → from_seq c (r ∷ rs) ≡ from_seq c rs
from_seq_skip c r rs h = rw (lt→leb_false r.seq c h)

-- What lies past the last row of the first page is what the page leaves.
from_seq-take :
    (n m : ℕ) (r : EventRow) (rs : List EventRow)
    → Rising m (r ∷ rs)
    → from_seq (suc (last_row r (take n rs))) (r ∷ rs) ≡ drop n rs
unfolding last_row
from_seq-take zero m r rs h = ground (arith, from_seq_all (suc r.seq) (suc r.seq) rs h.1)
from_seq-take (suc n) m r [] h = ground arith
from_seq-take (suc n) m r (x ∷ rs) h =
    from_seq_skip (suc (last_row x (take n rs))) r (x ∷ rs)
      (omega (arith, last_row-ge n (suc r.seq) x rs h.1))
    ∙ from_seq-take n (suc r.seq) x rs h.1

-- The events of rows, and their last number.
last_of-map :
    (json : Codec) (r : EventRow) (rs : List EventRow)
    → last_of (to_event json r) (map (to_event json) rs) ≡ last_row r rs
unfolding last_of last_row to_event
last_of-map json r [] = refl
last_of-map json r (x ∷ rs) = last_of-map json x rs

last_row-Below :
    (n k : ℕ) (r : EventRow) (rs : List EventRow) → Below n (r ∷ rs) → last_row r (take k rs) < n
unfolding last_row
last_row-Below n zero r rs h = h.0
last_row-Below n (suc k) r [] h = h.0
last_row-Below n (suc k) r (x ∷ rs) h = last_row-Below n k x rs h.1

-- A page whose numbers are all below `next` is taken whole.
collect_all :
    (json : Codec) (next c : ℕ) (r : EventRow) (rs : List EventRow)
    → next < 2 ^ 64
    → Below next (r ∷ rs)
    → collect next c (map (to_event json) (r ∷ rs))
      ≡ (map (to_event json) (r ∷ rs), suc (last_row r rs))
unfolding collect last_row to_event
collect_all json next c r [] h b =
    rw (lt→leb_false r.seq next b.0) (λ i. (to_event json r ∷ [], wrapped i))
  where
    wrapped : succ_u64 r.seq ≡ suc r.seq
    wrapped = omega arith
collect_all json next c r (x ∷ rs) h b = rw (lt→leb_false r.seq next b.0) (
    ap (λ (p : List Event × ℕ). (to_event json r ∷ p.0, p.1))
      (collect_all json next (succ_u64 r.seq) x rs h b.1))

module _ (json : Codec) (next : ℕ) (load : ℕ → Result StoreError (List Event)) where
  -- One round of the loop.
  page_step :
      (fuel c : ℕ) (r : EventRow) (page : List EventRow)
      → next < 2 ^ 64
      → c < next
      → Below next (r ∷ page)
      → load c ≡ ok (map (to_event json) (r ∷ page))
      → replay_pages (suc fuel) load next c
        ≡ map (to_event json) (r ∷ page) ++ replay_pages fuel load next (suc (last_row r page))
  unfolding replay_pages on_page after_page
  page_step fuel c r page h lt b e =
      ap (λ b. if b then on_page next c more (load c) else []) (lt→ltb c next lt)
      ∙ ap (on_page next c more) e
      ∙ ap₂ (after_page more) (last_of-map json r page) (collect_all json next c r page h b)
      ∙ ap
          (λ b.
            if b
            then map (to_event json) (r ∷ page)
            else map (to_event json) (r ∷ page) ++ more (suc (last_row r page)))
          (lt→leb_false (last_row r page) (suc (last_row r page)) (omega arith))
    where
      more : ℕ → List Event
      more k = replay_pages fuel load next k

  last_page : (fuel c : ℕ) → load c ≡ ok [] → replay_pages (suc fuel) load next c ≡ []
  unfolding replay_pages on_page
  last_page fuel c e = elim (Bool-cases (ltb c next)) [
    | inl t ↦ rw t (ap (on_page next c (λ k. replay_pages fuel load next k)) e)
    | inr f ↦ rw f refl
  ]

  past_the_end : (fuel c : ℕ) → next ≤ c → replay_pages fuel load next c ≡ []
  unfolding replay_pages
  past_the_end zero c h = refl
  past_the_end (suc fuel) c h = rw (le→ltb_false next c h)

module _ (json : Codec) (next size : ℕ) (load : ℕ → Result StoreError (List Event))
    (rows : List EventRow) (rising : Rising 0 rows) (below : Below next rows) (fits : next < 2 ^ 64)
    (loads : (c : ℕ) → load c ≡ ok (map (to_event json) (take (suc size) (from_seq c rows)))) where
  page_rows :
      (fuel c : ℕ) (found : List EventRow)
      → from_seq c rows ≡ found
      → ((c' : ℕ)
          → c < c'
          → replay_pages fuel load next c' ≡ map (to_event json) (from_seq c' rows))
      → c < next
      → replay_pages (suc fuel) load next c ≡ map (to_event json) found
  page_rows fuel c [] e ih lt =
      last_page json next load fuel c
        (loads c ∙ ap (λ rs. ok (map (to_event json) (take (suc size) rs))) e)
  page_rows fuel c (r ∷ rs) e ih lt =
      page_step json next load fuel c r (take size rs) fits lt
        (here.0, Below-take next size rs here.1)
        (loads c ∙ ap (λ l. ok (map (to_event json) (take (suc size) l))) e)
      ∙ ap (◌++◌ (map (to_event json) (r ∷ take size rs)))
          (ih after later ∙ ap (map (to_event json)) rest)
      ∙ sym (map-append (to_event json) (r ∷ take size rs) (drop size rs))
      ∙ ap (λ l. map (to_event json) (r ∷ l)) (take-append-drop size rs)
    where
      after : ℕ
      after = suc (last_row r (take size rs))

      here : Below next (r ∷ rs)
      here = subst (Below next) e (All-keep (λ x. x.seq < next) (λ x. leb c x.seq) rows below)

      order : Rising c (r ∷ rs)
      order = subst (Rising c) e (from_seq-Rising_from 0 c rows rising)

      first : c ≤ r.seq
      first = order.0

      reached : r.seq ≤ last_row r (take size rs)
      reached = last_row-ge size c r rs order

      later : c < suc (last_row r (take size rs))
      later = omega (arith, first, reached)

      rest : from_seq after rows ≡ drop size rs
      rest =
          sym (from_seq-from_seq c after rows (omega (arith, later)))
          ∙ ap (from_seq after) e
          ∙ from_seq-take size c r rs order

  -- The loop reads every row from the cursor on, each once and in order.
  replay_rows :
      (fuel c : ℕ)
      → next < fuel + c
      → replay_pages fuel load next c ≡ map (to_event json) (from_seq c rows)
  replay_rows zero c h =
      past_the_end json next load zero c (omega arith) ∙ ap (map (to_event json)) (sym none_left)
    where
      none_left : from_seq c rows ≡ []
      none_left =
          keep_none (λ r. leb c r.seq) rows
            (All-map (λ r k. lt→leb_false r.seq c (omega arith)) rows below)
  replay_rows (suc fuel) c h = elim (Bool-cases (ltb c next)) [
    | inl before ↦
        page_rows fuel c (from_seq c rows) refl (λ c' k. replay_rows fuel c' (omega arith))
          (ltb→lt c next before)
    | inr past ↦
        past_the_end json next load (suc fuel) c (ground arith)
        ∙ ap (map (to_event json)) (
            sym (
              keep_none (λ r. leb c r.seq) rows
                (All-map (λ r k. lt→leb_false r.seq c (ground arith)) rows below)))
  ]

-- The query of one page, when it runs.
load_events-rows :
    (json : Codec) (io : Io) (id : String) (c size : ℕ) (st : Store)
    → io.fault ≡ none
    → Rising 0 (rows_of id st)
    → load_events json io id c size st
      ≡ ok (map (to_event json) (take size (from_seq c (rows_of id st))))
unfolding load_events
load_events-rows json io id c size st h r = rw h (
    ap (λ l. ok (map (to_event json) (take size l)))
      (sort_Rising 0 (from_seq c (rows_of id st)) (from_seq-Rising 0 c (rows_of id st) r)))

-- When the store's rows of a session rise and are older than its `next_seq`, which is a uint64, and no
-- query fails, the replay is the stored events from the wanted number on, each once and in order,
-- however many pages they take.
pub replay_of-store :
    (json : Codec) (pages : ℕ → Io) (from : ℕ) (s : Session) (st : Store)
    → Rising 0 (rows_of s.id st)
    → Below s.next_seq (rows_of s.id st)
    → s.next_seq < 2 ^ 64
    → ((c : ℕ) → (pages c).fault ≡ none)
    → replay_of json pages from s (some st)
      ≡ map (to_event json) (keep (λ r. leb from r.seq) (rows_of s.id st))
unfolding replay_of
replay_of-store json pages from s st rising below fits h =
    replay_rows json s.next_seq 4999 (λ c. load_events json (pages c) s.id c page_size st)
      (rows_of s.id st) rising below fits
      (λ c. load_events-rows json (pages c) s.id c page_size st (h c) rising) (suc s.next_seq) from
      (omega arith)
