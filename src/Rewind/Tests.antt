-- ===== src/Rewind/Tests.antt =====
-- Runs of the rewind buffer on small inputs.
mod Search
mod Dumps
use stream_machine.Rewind.Store.{insert}
use stream_machine.Rewind.Rewinder
use stream_machine.Prelude.{
  ◌*◌, List, [], arith, false, none, refl, some, ℕ, ◌∷◌, ◌≡◌, ◌+◌, ◌++◌, ◌<◌, true, ◌≤◌, Bool,
}
use stream_machine.Rewind.Store.{Chunk, MemoryStore, push, shift, unshift}
use stream_machine.Rewind.Store.Events.{Explains, insert-Explains}
use stream_machine.Rewind.Store.Order.{IsSorted, insert-IsSorted}
use stream_machine.Rewind.Buffer.{
  RewindBuffer, check_offset, check_offset_secs, millis, data_func, secs_to_offset,
}
use stream_machine.Rewind.Store.Seek.{at, date, number, ok, range, type_error}
use stream_machine.Rewind.Store.Seek.Timestamps.{at-after_end, at-covered}
use stream_machine.Rewind.Buffer.Offsets.{at-check_offset, secs_to_offset_nearest}
use stream_machine.Rewind.Store.Seek.Reading.{at-reverse, range-take}
use stream_machine.Rewind.Store.Bounds.{full_store, insert-keep_last, keep_last, placed}
use stream_machine.Prelude.Int.{pos, negsuc}
use stream_machine.Rewind.Rewinder.Delivery.{Delivers, queued, read-Delivers}
use stream_machine.Rewind.Buffer.Feed.{Fed, data_func-Fed}
use stream_machine.Rewind.Rewinder.{Rewinder, new_rewinder, read, insert_undefined, threw}
use stream_machine.Rewind.Buffer.Pump.{burst_from, concat_bytes, get_rewinder}
use stream_machine.Rewind.Buffer.Pump.Joining.{
  burst_from_lem, from_offset, get_rewinder-empty, open_live,
}
use stream_machine.Rewind.Buffer.Pump.Handover.{full_offset_throws, live_client_misses_newest}
use stream_machine.Rewind.Tests.Search.{linear_search, linear_search-IsSearch}

-- A second of audio that begins at the given second.
abbrev chunk_at : ℕ → Chunk
chunk_at n = record { ts = 1000 * n; duration = 1000; bytes = n ∷ []; meta = none }

abbrev three : List Chunk
three = chunk_at 1 ∷ chunk_at 2 ∷ chunk_at 3 ∷ []

abbrev full_of_three : MemoryStore
full_of_three = full_store three

insert_drops_oldest : insert full_of_three (chunk_at 4) ≡ (
  record { max_length = some 3; buffer = chunk_at 2 ∷ chunk_at 3 ∷ chunk_at 4 ∷ [] },
  push (chunk_at 4) ∷ shift (chunk_at 1) ∷ [],
)
unfolding insert
insert_drops_oldest = refl

insert-IsSorted_example : IsSorted (insert full_of_three (chunk_at 4)).0.buffer
insert-IsSorted_example = insert-IsSorted full_of_three (chunk_at 4) (omega arith) (omega arith)

insert-keep_last_example :
    (insert full_of_three (chunk_at 4)).0.buffer
    ≡ keep_last 3 (placed (chunk_at 1) (chunk_at 3) three (chunk_at 4))
insert-keep_last_example =
    insert-keep_last full_of_three 2 (chunk_at 1) (chunk_at 3) (chunk_at 4)
      (chunk_at 2 ∷ chunk_at 3 ∷ []) refl refl refl (omega arith)

insert-Explains_example :
    Explains three
      (insert full_of_three (chunk_at 4)).1
      (insert full_of_three (chunk_at 4)).0.buffer
insert-Explains_example = insert-Explains full_of_three (chunk_at 4)

insert_older :
    insert full_of_three (chunk_at 0)
    ≡ (full_of_three, unshift (chunk_at 0) ∷ shift (chunk_at 0) ∷ [])
unfolding insert
insert_older = refl

abbrev rewind_of_three : RewindBuffer
rewind_of_three = record {
  rsecs = 3000;
  rburstsecs = 1000;
  secs_per_chunk = millis 999;
  rmax = some 3;
  rburst = some 1;
  stream_key = some "mp3-44100-64-s";
  is_loading = false;
  listeners = [];
  store = full_of_three;
}

burst_of_one : check_offset_secs rewind_of_three (pos 1000) ≡ pos 1
unfolding check_offset_secs
burst_of_one = refl

abbrev two_back : Rewinder
two_back = record {
  conn_id = 8;
  sent_duration = 0;
  sent_bytes = 0;
  content_time = none;
  pump_only = false;
  offset = pos 2;
  queue = [];
  queued_bytes = 0;
  reading = false;
}

live_client_misses_newest_example :
    (w w' : Rewinder) × (r' : RewindBuffer) × (get_rewinder linear_search rewind_of_three 7
        (record { offset_secs = none; offset = none; pump_only = false; pump = some (pos 1000) })
      ≡ ok (r', w))
    × ((data_func linear_search r' (chunk_at 4)).0.listeners ≡ w' ∷ [])
    × (queued w'.queue ≡ concat_bytes (from_offset 1 1 three) ++ 4 ∷ [])
    × (concat_bytes (chunk_at 2 ∷ chunk_at 3 ∷ []) ≡ concat_bytes (from_offset 1 1 three) ++ 3 ∷ [])
live_client_misses_newest_example =
    live_client_misses_newest linear_search rewind_of_three 7 0 (pos 1000) (chunk_at 3) (chunk_at 4)
      refl burst_of_one (omega arith) refl (omega arith)

full_offset_throws_example :
    (w : Rewinder) × (r' : RewindBuffer) × (get_rewinder linear_search rewind_of_three 7
        (record { offset_secs = none; offset = some (pos 3); pump_only = false; pump = none })
      ≡ ok (r', w))
    × (w.offset ≡ pos 3)
    × (let listening = record r' { listeners = r'.listeners ++ two_back ∷ [] } in
        let after = data_func linear_search listening (chunk_at 4) in
        (after.2 ≡ false)
        × (after.0.listeners ≡ insert_undefined w ∷ two_back ∷ [])
        × ((read (λ n. true) 100 (insert_undefined w)).1 ≡ threw ∷ []))
full_offset_throws_example =
    full_offset_throws linear_search rewind_of_three 7 (chunk_at 1) (chunk_at 3) (chunk_at 4)
      (chunk_at 2 ∷ chunk_at 3 ∷ []) (two_back ∷ []) (λ n. true) 100 refl refl refl (omega arith)
      (omega arith)

data_func-Fed_example :
    let r = record rewind_of_three { listeners = two_back ∷ [] } in
    let after = data_func linear_search r (chunk_at 4) in
    (after.2 ≡ true)
    × (after.0.store ≡ (insert full_of_three (chunk_at 4)).0)
    × Fed after.0.store (two_back ∷ []) after.0.listeners
unfolding insert
data_func-Fed_example =
    data_func-Fed linear_search (record rewind_of_three { listeners = two_back ∷ [] }) (chunk_at 4)
      ((2, refl, omega arith), tt)

read-Delivers_example :
    let w = record two_back {
      queue =
          some (record { ts = none; duration = 500; bytes = 1 ∷ 2 ∷ []; meta = some "news" }) ∷ [];
      queued_bytes = 2;
    } in
    Delivers 0 w.queue (read (λ n. true) 100 w)
read-Delivers_example = read-Delivers (λ n. true) 100 _ refl refl
