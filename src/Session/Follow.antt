-- ===== src/Session/Follow.antt =====
-- internal/session/manager.go: a client that attaches and follows: the replay of Subscribe, and behind it
-- what the pump broadcasts.
use capd.Prelude.{
  ℕ, ◌+◌, ◌*◌, ◌^◌, ◌≤◌, ◌<◌, ◌≡◌, refl, sym, ap, subst, ◌∙◌, false, none, some, List, [], ◌∷◌,
  ◌++◌, map, map-append, arith, length, keep, leb,
}
use capd.Protocol.{Event}
use capd.Session.Store.{Codec, Io, Store, EventRow, rows_of, to_event}
use capd.Session.Channel.{Subscriber}
use capd.Session.Pump.{Session, PersistIo, max_buffer, pump_loop}
use capd.Session.Log.{deliver, grow, log_of, pump_loop-grow}
use capd.Session.Delivery.{Fed, deliver-Fed}
use capd.Session.Rows.{Rising, Below}
use capd.Session.Numbering.{Numbered, log_of-Numbered}
use capd.Session.Subscribe.{replay_of, subscribe, attached, subscribe_live}
use capd.Session.Subscribe.Replay.{replay_of-store}

-- What holds of the answer of Subscribe, when the pump runs behind it.
abbrev Follows :
    Codec
    → List EventRow
    → List (PersistIo × Event)
    → Session
    → Store
    → Subscriber × ℕ × Session
    → Type 0
Follows json rows evs s st a =
    let log = log_of json evs a.2 (some st) in
    (a.0.sent ≡ map (to_event json) rows)
    × ((pump_loop json evs a.2 (some st)).0.subs ≡ map (deliver log) s.subs ++ deliver log a.0 ∷ [])
    × Numbered a.1 log (pump_loop json evs a.2 (some st)).0.next_seq
    × Fed log a.0 (deliver log a.0)

follow_attached :
    (json : Codec) (evs : List (PersistIo × Event)) (s : Session) (st : Store) (replay : List Event)
    (rows : List EventRow)
    → replay ≡ map (to_event json) rows
    → length s.buf ≤ max_buffer
    → s.next_seq + 2 * length evs < 2 ^ 64
    → Follows json rows evs s st (attached replay s)
unfolding grow
follow_attached json evs s st replay rows e short bound =
    let a = attached replay s in
    let log = log_of json evs a.2 (some st) in
    (
      e,
      ap (λ t. t.subs) (pump_loop-grow json evs a.2 (some st) short)
          ∙ map-append (deliver log) s.subs (a.0 ∷ []),
      (log_of-Numbered json evs a.2 (some st) bound).0,
      deliver-Fed log a.0 refl,
    )

-- A client attaches from a number to a live session, whose rows in the store rise and are older than
-- its `next_seq`, with no query failing, and the pump then runs. Its channel was sent the stored events
-- from that number on; the subscribers after the run are those of before and, last, this channel with
-- the log of the run offered to it; that log is numbered from the number that Subscribe returned; and
-- the channel has either replay and log whole, in order, or it is closed with its overflow signalled.
pub subscribe_then_follow :
    (json : Codec) (pages : ℕ → Io) (from : ℕ) (s : Session) (st : Store)
    (evs : List (PersistIo × Event))
    → s.ended ≡ false
    → Rising 0 (rows_of s.id st)
    → Below s.next_seq (rows_of s.id st)
    → length s.buf ≤ max_buffer
    → s.next_seq + 2 * length evs < 2 ^ 64
    → ((c : ℕ) → (pages c).fault ≡ none)
    → let attached = subscribe json pages from s (some st) in
      let log = log_of json evs attached.2 (some st) in
      (attached.0.sent ≡ map (to_event json) (keep (λ r. leb from r.seq) (rows_of s.id st)))
      × ((pump_loop json evs attached.2 (some st)).0.subs
          ≡ map (deliver log) s.subs ++ deliver log attached.0 ∷ [])
      × Numbered attached.1 log (pump_loop json evs attached.2 (some st)).0.next_seq
      × Fed log attached.0 (deliver log attached.0)
subscribe_then_follow json pages from s st evs live rising below short bound h =
    subst (λ a. Follows json (keep (λ r. leb from r.seq) (rows_of s.id st)) evs s st a)
      (sym (subscribe_live json pages from s (some st) live))
      (follow_attached json evs s st (replay_of json pages from s (some st)) _
        (replay_of-store json pages from s st rising below (omega arith) h) short bound)
