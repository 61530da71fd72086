-- ===== src/Session/Subscribe.antt =====
-- internal/session/manager.go: Subscribe. The replay is read from the store in pages, or taken from the
-- buffer where there is no store, and the new channel is registered behind it. `pages` answers the
-- query at each cursor. The loop has fuel: each round raises the cursor, which stays below `next_seq`,
-- so `next_seq + 1` rounds are enough.
pub mod Replay
use capd.Prelude.{
  ◌≡◌, ap, ℕ, zero, suc, ◌+◌, String, Bool, true, false, not, Option, none, some, List, [], ◌∷◌,
  ◌++◌, Result, ok, err, length, keep, ltb, leb, if◌then◌else◌,
}
use capd.Protocol.{Event}
use capd.Session.Store.{Codec, StoreError, Io, Store, load_events}
use capd.Session.Channel.{Subscriber}
use capd.Session.Pump.{Session, sub_buffer, succ_u64}

abbrev pub page_size : ℕ
page_size = 5000

-- The loop over one page: what it appends to the replay, and the cursor after it.
unfoldable pub collect : ℕ → ℕ → List Event → List Event × ℕ
collect next cursor [] = ([], cursor)
collect next cursor (ev ∷ evs) =
    let (rest, c) = collect next (succ_u64 ev.seq) evs in
    if leb next ev.seq then ([], cursor) else (ev ∷ rest, c)

-- events[len(events)-1].Seq, of a page that is not empty.
unfoldable pub last_of : Event → List Event → ℕ
last_of ev [] = ev.seq
last_of ev (e ∷ evs) = last_of e evs

-- What follows one page, where `more` is the rest of the loop: a cursor that has not passed the page
-- ends it.
unfoldable pub after_page : (ℕ → List Event) → ℕ → List Event × ℕ → List Event
after_page more last (events, c) = if leb c last then events else events ++ more c

-- A failed or empty query ends the loop.
unfoldable pub on_page : ℕ → ℕ → (ℕ → List Event) → Result StoreError (List Event) → List Event
unfolding collect last_of after_page
on_page next cursor more (err e) = []
on_page next cursor more (ok []) = []
on_page next cursor more (ok (ev ∷ evs)) =
    after_page more (last_of ev evs) (collect next cursor (ev ∷ evs))

unfoldable pub replay_pages : ℕ → (ℕ → Result StoreError (List Event)) → ℕ → ℕ → List Event
unfolding on_page
replay_pages zero load next cursor = []
replay_pages (suc fuel) load next cursor =
    if ltb cursor next
    then on_page next cursor (λ c. replay_pages fuel load next c) (load cursor)
    else []

unfoldable pub replay_of : Codec → (ℕ → Io) → ℕ → Session → Option Store → List Event
unfolding replay_pages load_events
replay_of json pages from s none = keep (λ ev. leb from ev.seq) s.buf
replay_of json pages from s (some st) =
    replay_pages (suc s.next_seq) (λ c. load_events json (pages c) s.id c page_size st) s.next_seq
      from

abbrev pub new_channel : ℕ → List Event → Bool → Subscriber
new_channel id replay live = record {
  id = id;
  sent = replay;
  taken = 0;
  capacity = length replay + sub_buffer;
  registered = live;
  closed = not live;
  overflow = false;
}

abbrev pub attached : List Event → Session → Subscriber × ℕ × Session
attached replay s =
    let sub = new_channel s.next_sub replay true in
    (sub, s.next_seq, record s { subs = s.subs ++ sub ∷ []; next_sub = s.next_sub + 1 })

-- The channel, the number that the live stream goes on from, and the session. The channel of a session
-- that has ended is closed behind the replay and not registered.
unfoldable pub subscribe : Codec → (ℕ → Io) → ℕ → Session → Option Store → Subscriber × ℕ × Session
subscribe json pages from s st =
    let replay = replay_of json pages from s st in
    if s.ended then (new_channel s.next_sub replay false, s.next_seq, s) else attached replay s

pub subscribe_live :
    (json : Codec) (pages : ℕ → Io) (from : ℕ) (s : Session) (st : Option Store)
    → s.ended ≡ false
    → subscribe json pages from s st ≡ attached (replay_of json pages from s st) s
unfolding subscribe
subscribe_live json pages from s st h =
    ap
      (λ b.
        if b
        then (new_channel s.next_sub (replay_of json pages from s st) false, s.next_seq, s)
        else attached (replay_of json pages from s st) s)
      h
