-- ===== src/Rewind/Buffer.antt =====
-- js/src/streammachine/rewind_buffer.js: the store of a stream, the clients that read from it, and
-- the conversion of seconds into offsets. Seconds are counted in milliseconds.
pub mod Pump
pub mod Offsets
pub mod Feed
pub mod Keys
use stream_machine.Rewind.Store
use stream_machine.Rewind.Rewinder
use text.Mathlib.Text.{◌==◌ as str_eq}
use stream_machine.Prelude.{
  ◌*◌, ◌++◌, Bool, List, Option, String, [], false, none, some, suc, true, ℕ, ◌∷◌,
}
use stream_machine.Prelude.Tests.{◌==◌, if◌then◌else◌, leb}
use stream_machine.Rewind.Store.{Chunk, MemoryStore, StoreEvent, new_store, reset, set_max}
use stream_machine.Rewind.Rewinder.{Piece, Rewinder}
use stream_machine.Rewind.Store.Seek.{at, number, ok, not_found, type_error}
use stream_machine.Prelude.Lists.{length}
use stream_machine.Prelude.Int.{ltb_ℤ, negsuc, pos, pos_part, sub_ℕ, ℤ}
use stream_machine.Prelude.Rounding.{round_div}

-- Vitals, and `_rsecsPerChunk`: Infinity at first, and then the source's emitDuration, which
-- sources/base.js keeps from being 0. `millis n` is n + 1 milliseconds.
pub data PerChunk : Type 0 where
  infinity : PerChunk
  millis : ℕ → PerChunk

pub record Vitals : Type 0 where
  pub emit_duration : PerChunk
  pub stream_key : String

pub record RewindBuffer : Type 0 where
  pub rsecs : ℕ
  pub rburstsecs : ℕ
  pub secs_per_chunk : PerChunk
  pub rmax : Option ℕ
  pub rburst : Option ℕ
  pub stream_key : Option String
  pub is_loading : Bool
  pub listeners : List Rewinder
  pub store : MemoryStore

pub new_buffer : ℕ → ℕ → RewindBuffer
new_buffer seconds burst = record {
  rsecs = seconds;
  rburstsecs = burst;
  secs_per_chunk = infinity;
  rmax = none;
  rburst = none;
  stream_key = none;
  is_loading = false;
  listeners = [];
  store = new_store none;
}

-- `secsToOffset`. A quotient by Infinity is 0.
pub secs_to_offset : PerChunk → ℤ → ℤ
secs_to_offset infinity secs = pos 0
secs_to_offset (millis d) secs = round_div secs d

-- `offsetToSecs`, in whole seconds; `none` where the code has Infinity or NaN.
pub offset_to_secs : PerChunk → ℤ → Option ℤ
offset_to_secs infinity offset = none
offset_to_secs (millis d) (pos o) = some (round_div (pos (o * suc d)) 999)
offset_to_secs (millis d) (negsuc o) = some (round_div (sub_ℕ 0 (suc o * suc d)) 999)

-- `checkOffset`.
check_offset_of : ℕ → ℤ → ℤ
check_offset_of bl (negsuc o) = pos 0
check_offset_of bl (pos o) = if leb o bl then pos o else sub_ℕ bl 1

pub check_offset : RewindBuffer → ℤ → ℤ
unfolding check_offset_of
check_offset r offset = check_offset_of (length r.store.buffer) offset

unfoldable pub check_offset_secs : RewindBuffer → ℤ → ℤ
unfolding check_offset secs_to_offset
check_offset_secs r secs = check_offset r (secs_to_offset r.secs_per_chunk secs)

-- `bufferedSecs`.
pub buffered_secs : RewindBuffer → Option ℤ
unfolding offset_to_secs
buffered_secs r = offset_to_secs r.secs_per_chunk (pos (length r.store.buffer))

-- A whole number that is not below zero, as a maximum.
unfoldable pub chunks_of : PerChunk → ℕ → ℕ
unfolding secs_to_offset
chunks_of per secs = pos_part (secs_to_offset per (pos secs))

-- `_rUpdateMax`.
pub update_max : RewindBuffer → RewindBuffer × List StoreEvent
unfolding chunks_of
update_max r =
    let m = chunks_of r.secs_per_chunk r.rsecs in
    let (store, events) = set_max r.store (some m) in
    (
      record r {
        rmax = some m;
        store = store;
        rburst = some (chunks_of r.secs_per_chunk r.rburstsecs);
      },
      events,
    )

-- `setRewind`.
pub set_rewind : RewindBuffer → ℕ → ℕ → RewindBuffer × List StoreEvent
unfolding update_max
set_rewind r secs burst = update_max (record r { rsecs = secs; rburstsecs = burst })

same_key : Option String → String → Bool
same_key none k = false
same_key (some j) k = str_eq j k

-- A key that is not the empty string is truthy, and then the old chunks are dropped.
drop_if_keyed : RewindBuffer → MemoryStore
drop_if_keyed r = elim r.stream_key [
  | none ↦ r.store
  | some k ↦ if str_eq k "" then r.store else reset r.store
]

-- `_rChunkLength`.
pub chunk_length : RewindBuffer → Vitals → RewindBuffer × List StoreEvent
unfolding same_key drop_if_keyed
chunk_length r v =
    if same_key r.stream_key v.stream_key
    then (r, [])
    else update_max (record r {
      store = drop_if_keyed r;
      secs_per_chunk = v.emit_duration;
      stream_key = some v.stream_key;
    })

-- `_raddListener`: a client that has no valid offset is not added.
pub add_listener : RewindBuffer → Rewinder → RewindBuffer × Bool
add_listener r obj =
    if ltb_ℤ obj.offset (pos 0)
    then (r, false)
    else (record r { listeners = r.listeners ++ obj ∷ [] }, true)

without : ℕ → List Rewinder → List Rewinder
without id [] = []
without id (l ∷ ls) = let rest = without id ls in if l.conn_id == id then rest else l ∷ rest

-- `_rremoveListener`. An object is known by its connection's id.
pub remove_listener : RewindBuffer → Rewinder → RewindBuffer
unfolding without
remove_listener r obj = record r { listeners = without obj.conn_id r.listeners }

pub to_piece : Chunk → Piece
to_piece c = record { ts = some c.ts; duration = c.duration; bytes = c.bytes; meta = c.meta }

-- The clients after one of them, which throws or does not.
go_on : Rewinder × Bool → List Rewinder → List Rewinder × Bool → List Rewinder × Bool
go_on (l, true) ls (rest, fine) = (l ∷ rest, fine)
go_on (l, false) ls rest = (l ∷ ls, false)

module _ (bs : List Chunk → ℕ → ℤ) where
  -- One client of `_rdataFunc`, and whether there was no exception. Where the store has no chunk, or
  -- gives an error, `_insert` gets `undefined`.
  feed : MemoryStore → Rewinder → Rewinder × Bool
  unfolding to_piece
  feed s l = elim (at bs s (number l.offset)) [
    | ok (some b) ↦ (Rewinder.insert l (to_piece b), true)
    | ok none ↦ (Rewinder.insert_undefined l, false)
    | not_found ↦ (Rewinder.insert_undefined l, false)
    | type_error ↦ (l, false)
  ]

  -- The loop of `_rdataFunc`: an exception leaves the clients behind it without the chunk.
  feed_all : MemoryStore → List Rewinder → List Rewinder × Bool
  unfolding feed go_on
  feed_all s [] = ([], true)
  feed_all s (l ∷ ls) = go_on (feed s l) ls (feed_all s ls)

  -- `_rdataFunc`; the flag tells whether it returned without an exception.
  pub data_func : RewindBuffer → Chunk → RewindBuffer × List StoreEvent × Bool
  unfolding feed_all
  data_func r c =
      let (store, events) = Store.insert r.store c in
      let (listeners, fine) = feed_all store r.listeners in
      (record r { store = store; listeners = listeners }, events, fine)
