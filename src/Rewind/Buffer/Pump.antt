-- ===== src/Rewind/Buffer/Pump.antt =====
-- rewind_buffer.js: `pumpFrom`, `pumpSeconds`, `burstFrom` and `getRewinder`, with the constructor
-- of rewind/rewinder.js. What is not modelled of the constructor: `opts.live_segment`, which
-- rewind/hls_index.js serves, and `opts.timestamp`.
pub mod Joining
pub mod Handover
use stream_machine.Rewind.Rewinder
use stream_machine.Prelude.{
  ◌+◌, ◌++◌, Bool, List, Option, String, [], false, none, some, true, zero, ◌||◌, ℕ, ◌∷◌,
}
use stream_machine.Prelude.Int.{◌-ℤ◌, ltb_ℤ, pos, sub_ℕ, ℤ}
use stream_machine.Rewind.Store.{Chunk}
use stream_machine.Rewind.Store.Seek.{Offset, Reply, date, number, ok, range, type_error, ◌>>=◌}
use stream_machine.Rewind.Rewinder.{Piece, Rewinder, new_rewinder}
use stream_machine.Rewind.Buffer.{
  RewindBuffer, add_listener, check_offset, check_offset_secs, offset_to_secs, secs_to_offset,
  to_piece,
}
use stream_machine.Prelude.Tests.{if◌then◌else◌}
use stream_machine.Prelude.Lists.{last?, length}

-- The offset of the client in seconds, which the callback is told: rounded from chunks, or the
-- milliseconds up to the newest chunk.
pub data OffsetSeconds : Type 0 where
  whole_seconds : Option ℤ → OffsetSeconds
  milliseconds : ℤ → OffsetSeconds

pub record PumpInfo : Type 0 where
  pub meta : Option String
  pub duration : ℕ
  pub bytes : ℕ
  pub offset_seconds : OffsetSeconds

total_duration : List Chunk → ℕ
total_duration [] = 0
total_duration (c ∷ cs) = c.duration + total_duration cs

total_bytes : List Chunk → ℕ
total_bytes [] = 0
total_bytes (c ∷ cs) = length c.bytes + total_bytes cs

first_meta : List Chunk → Option String
first_meta [] = none
first_meta (c ∷ cs) = elim c.meta [ none ↦ first_meta cs | some m ↦ some m ]

-- Buffer.concat
pub concat_bytes : List Chunk → List ℕ
concat_bytes [] = []
concat_bytes (c ∷ cs) = c.bytes ++ concat_bytes cs

pub insert_all : Rewinder → List Chunk → Rewinder
unfolding to_piece
insert_all w [] = w
insert_all w (c ∷ cs) = insert_all (Rewinder.insert w (to_piece c)) cs

joined : List Chunk → Piece
unfolding total_duration first_meta concat_bytes
joined cs = record {
  ts = none;
  duration = total_duration cs;
  bytes = concat_bytes cs;
  meta = first_meta cs;
}

fill : Rewinder → Bool → List Chunk → Rewinder
unfolding joined insert_all
fill w concat cs = if concat then Rewinder.insert w (joined cs) else insert_all w cs

-- `none` where the code reads `ts` of an `undefined` last chunk.
offset_seconds_of : RewindBuffer → Offset → Option OffsetSeconds
offset_seconds_of r (number o) = some (whole_seconds (offset_to_secs r.secs_per_chunk o))
offset_seconds_of r (date ts) = elim (last? r.store.buffer) [
  | none ↦ none
  | some lb ↦ some (milliseconds (sub_ℕ lb.ts ts))
]

is_zero : ℤ → Bool
is_zero (pos zero) = true
is_zero _ = false

starts_at_zero : Offset → Bool
unfolding is_zero
starts_at_zero (number o) = is_zero o
starts_at_zero (date ts) = false

module _ (bs : List Chunk → ℕ → ℤ) where
  -- The callback of `range`. The error "Timestamp not found" is not looked at: the loop over the
  -- chunks, which are then `undefined`, throws.
  pumped :
      RewindBuffer
      → Rewinder
      → Offset
      → Bool
      → Reply (List Chunk)
      → Reply (Rewinder × Option PumpInfo)
  unfolding fill offset_seconds_of total_duration first_meta total_bytes
  pumped r w offset concat (ok chunks) = elim (offset_seconds_of r offset) [
    | none ↦ type_error
    | some o ↦ ok (
      fill w concat chunks,
      some (record {
        meta = first_meta chunks;
        duration = total_duration chunks;
        bytes = total_bytes chunks;
        offset_seconds = o;
      }),
    )
  ]
  pumped r w offset concat _ = type_error

  -- `pumpFrom`.
  pub pump_from : RewindBuffer → Rewinder → Offset → ℤ → Bool → Reply (Rewinder × Option PumpInfo)
  unfolding starts_at_zero pumped
  pump_from r w offset n concat =
      if starts_at_zero offset || is_zero n
      then ok (w, none)
      else pumped r w offset concat (range bs r.store offset n)

  -- `pumpSeconds`.
  pub pump_seconds : RewindBuffer → Rewinder → ℤ → Bool → Reply (Rewinder × Option PumpInfo)
  unfolding pump_from
  pump_seconds r w secs concat =
      let frames = check_offset_secs r secs in pump_from r w (number frames) frames concat

  -- `burstFrom`, with the new offset that it hands to the callback.
  pub burst_from : RewindBuffer → Rewinder → ℤ → ℤ → Reply (Rewinder × ℤ)
  unfolding pump_from
  burst_from r w offset burst_secs =
      let burst = check_offset_secs r burst_secs in
      if ltb_ℤ burst offset
      then (do (w', info) ← pump_from r w (number offset) burst false; ok (w', offset -ℤ burst))
      else (do (w', info) ← pump_from r w (number offset) offset false; ok (w', pos 0))

-- The options of a client. `none` is `undefined`, `false` or 0, as the code tests them.
pub record OpenOptions : Type 0 where
  pub offset_secs : Option ℤ
  pub offset : Option ℤ
  pub pump_only : Bool
  pub pump : Option ℤ

start_offset : RewindBuffer → OpenOptions → ℤ
start_offset r opts = elim opts.offset_secs [
  | some secs ↦ check_offset_secs r secs
  | none ↦ elim opts.offset [ some o ↦ check_offset r o | none ↦ pos 0 ]
]

or_zero : Option ℤ → ℤ
or_zero none = pos 0
or_zero (some n) = n

module _ (bs : List Chunk → ℕ → ℤ) where
  burst_open : RewindBuffer → Rewinder → ℤ → Reply Rewinder
  burst_open r w secs =
      if is_zero w.offset
      then (do (w', info) ← pump_seconds bs r w secs true; ok w')
      else (do (w', o) ← burst_from bs r w w.offset secs; ok (record w' { offset = o }))

  -- The constructor of Rewinder.
  pub construct : RewindBuffer → ℕ → OpenOptions → Reply Rewinder
  unfolding start_offset or_zero burst_open
  construct r id opts =
      let w = record (new_rewinder id) { offset = start_offset r opts } in
      if opts.pump_only
      then (do
        (w', info) ←
            pump_from bs r (record w { pump_only = true }) (number w.offset)
              (secs_to_offset r.secs_per_chunk (or_zero opts.pump)) false
        ok w')
      else elim opts.pump [ none ↦ ok w | some secs ↦ burst_open r w secs ]

  -- `getRewinder`.
  pub get_rewinder : RewindBuffer → ℕ → OpenOptions → Reply (RewindBuffer × Rewinder)
  get_rewinder r id opts = do
    w ← construct r id opts
    if opts.pump_only then ok (r, w) else ok ((add_listener r w).0, w)
