-- ===== src/Rewind/Rewinder.antt =====
-- js/src/streammachine/rewind/rewinder.js: a client's queue of audio, and the stream that it reads.
-- The debounced read and the interval of the listen log are timers, which only call `_read` and
-- `listen_report` below.
pub mod Delivery
use stream_machine.Prelude.{
  ◌+◌, ◌++◌, ◌-◌, Bool, List, Option, String, [], false, none, some, suc, true, ℕ, ◌∷◌,
}
use stream_machine.Prelude.Tests.{if◌then◌else◌, ltb}
use stream_machine.Prelude.Lists.{length}
use stream_machine.Prelude.Int.{negsuc, ℤ}

-- What `_insert` queues: a chunk of the buffer, or many joined in one, which has no `ts`.
pub record Piece : Type 0 where
  pub ts : Option ℕ
  pub duration : ℕ
  pub bytes : List ℕ
  pub meta : Option String

-- `none` in the queue is an `undefined` that `_insert` was given.
pub record Rewinder : Type 0 where
  pub conn_id : ℕ
  pub sent_duration : ℕ
  pub sent_bytes : ℕ
  pub content_time : Option ℕ
  pub pump_only : Bool
  pub offset : ℤ
  pub queue : List (Option Piece)
  pub queued_bytes : ℕ
  pub reading : Bool

-- What the stream shows its reader: audio, metadata, an empty push, the end, a new "readable", or an
-- exception.
pub data Output : Type 0 where
  audio : List ℕ → Output
  meta_event : String → Output
  empty_push : Output
  end_of_stream : Output
  readable : Output
  threw : Output

unfoldable pub new_rewinder : ℕ → Rewinder
new_rewinder id = record {
  conn_id = id;
  sent_duration = 0;
  sent_bytes = 0;
  content_time = none;
  pump_only = false;
  offset = negsuc 0;
  queue = [];
  queued_bytes = 0;
  reading = false;
}

unfoldable pub insert : Rewinder → Piece → Rewinder
insert r b = record r {
  queue = r.queue ++ some b ∷ [];
  queued_bytes = r.queued_bytes + length b.bytes;
  content_time = elim r.content_time [ none ↦ b.ts | some t ↦ some t ];
}

-- `_insert` of `undefined`: it is queued, and then reading its length throws.
pub insert_undefined : Rewinder → Rewinder
insert_undefined r = record r { queue = r.queue ++ none ∷ [] }

-- `_handleEmpty`.
handle_empty : Rewinder → Rewinder × List Output
handle_empty r =
    (record r { reading = false }, (if r.pump_only then end_of_stream else empty_push) ∷ [])

-- Enough was sent: the queue decides how the read ends.
pause : Rewinder → List (Option Piece) → Rewinder × List Output
unfolding handle_empty
pause r [] = handle_empty r
pause r (_ ∷ _) = (record r { reading = false }, empty_push ∷ [])

-- The lines of `_pushQueue` that account for the shifted piece.
shift_piece : Rewinder → Piece → List (Option Piece) → Rewinder
shift_piece r b rest = record r {
  queue = rest;
  queued_bytes = r.queued_bytes - length b.bytes;
  sent_bytes = r.sent_bytes + length b.bytes;
  sent_duration = r.sent_duration + b.duration;
}

meta_events : Option String → List Output
meta_events none = []
meta_events (some m) = meta_event m ∷ []

-- `accepts n` is what the n-th push of this read returns, which the stream's own buffer decides.
module _ (accepts : ℕ → Bool) (size : ℕ) where
  -- `_pushQueue` on the queue, with the pushes and the bytes sent so far. An `undefined` is taken out
  -- of the queue, and then reading its length throws.
  push_queue : Rewinder → List (Option Piece) → ℕ → ℕ → Rewinder × List Output
  unfolding handle_empty pause shift_piece meta_events
  push_queue r [] n sent = handle_empty r
  push_queue r (none ∷ rest) n sent = (record r { queue = rest }, threw ∷ [])
  push_queue r (some b ∷ rest) n sent =
      let r' = shift_piece r b rest in
      let sent' = sent + length b.bytes in
      let shown = meta_events b.meta ++ audio b.bytes ∷ [] in
      let (next, more) = push_queue r' rest (suc n) sent' in
      if accepts n
      then (if ltb sent' size
          then (next, shown ++ more)
          else (let (paused, tail) = pause r' rest in (paused, shown ++ tail)))
      else (record r' { reading = false }, shown ++ readable ∷ [])

  pub read : Rewinder → Rewinder × List Output
  unfolding push_queue
  read r = if r.reading then (r, []) else push_queue (record r { reading = true }) r.queue 0 0

pub record ListenReport : Type 0 where
  pub id : ℕ
  pub bytes : ℕ
  pub seconds : ℕ
  pub content_time : Option ℕ

-- The interval's function: report what was sent since the last one, and start again.
pub listen_report : Rewinder → Rewinder × ListenReport
listen_report r = (
  record r { sent_bytes = 0; sent_duration = 0; content_time = none },
  record {
    id = r.conn_id;
    bytes = r.sent_bytes;
    seconds = r.sent_duration;
    content_time = r.content_time;
  },
)
