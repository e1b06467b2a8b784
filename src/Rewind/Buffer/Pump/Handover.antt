-- ===== src/Rewind/Buffer/Pump/Handover.antt =====
-- From the burst to the live stream: what a client of rewind_buffer.js misses between them, and
-- what a client at the very end of a full buffer does to the stream.
use stream_machine.Rewind.Rewinder
use stream_machine.Rewind.Store
use stream_machine.Prelude.{
  ◌++◌, ◌-◌, ◌<◌, List, [], ap, arith, false, none, refl, some, suc, sym, true, ℕ, ◌∙◌, ◌∷◌, ◌≡◌,
  Bool,
}
use stream_machine.Rewind.Store.{Chunk, MemoryStore}
use stream_machine.Rewind.Buffer.{
  RewindBuffer, check_offset_secs, data_func, feed, feed_all, to_piece, check_offset, go_on,
}
use stream_machine.Rewind.Rewinder.{Rewinder, new_rewinder, threw}
use mathlib.Core.List.{append-nil, append_assoc}
use stream_machine.Rewind.Store.Seek.{at, number, ok}
use stream_machine.Rewind.Store.Seek.Reading.{at_newest}
use stream_machine.Rewind.Buffer.Pump.{concat_bytes, get_rewinder, construct, joined}
use stream_machine.Prelude.Lists.{
  drop, last?, last?-drop, length, length-drop, take, take-last?, cons_of_pos_length,
}
use stream_machine.Rewind.Buffer.Pump.Joining.{from_offset, open_live}
use stream_machine.Prelude.Int.{pos, ℤ}
use stream_machine.Rewind.Rewinder.Delivery.{queued, queued-insert, read_undefined}
use stream_machine.Rewind.Store.Bounds.{full_store, length-insert_full}
use stream_machine.Rewind.Store.Order.{last?-insert}
use stream_machine.Rewind.Buffer.Feed.{data_func_throws, add_listener_lem}

concat_bytes-append :
    (xs ys : List Chunk) → concat_bytes (xs ++ ys) ≡ concat_bytes xs ++ concat_bytes ys
unfolding concat_bytes
concat_bytes-append [] ys = refl
concat_bytes-append (x ∷ xs) ys =
    rw (concat_bytes-append xs ys) (sym (append_assoc x.bytes (concat_bytes xs) (concat_bytes ys)))

-- All that the buffer has from an offset on is what a pump takes from there, and the newest chunk.
from_offset-newest :
    (k : ℕ) (cs : List Chunk) (lb : Chunk)
    → k < length cs
    → last? cs ≡ some lb
    → concat_bytes (drop (length cs - 1 - k) cs) ≡ concat_bytes (from_offset k k cs) ++ lb.bytes
from_offset-newest k cs lb h l =
    let i = length cs - 1 - k in
    let split =
      take-last? k (drop i cs) lb (omega (arith, length-drop i cs))
        (last?-drop i cs (omega arith) ∙ l) in
    ap concat_bytes split
    ∙ concat_bytes-append (take k (drop i cs)) (lb ∷ [])
    ∙ ap (λ t. concat_bytes (take k (drop i cs)) ++ t) (unfold concat_bytes in append-nil lb.bytes)

feed_one :
    (bs : List Chunk → ℕ → ℤ) (s : MemoryStore) (w : Rewinder) (c : Chunk)
    → w.offset ≡ pos 0
    → last? s.buffer ≡ some c
    → feed_all bs s (w ∷ []) ≡ (Rewinder.insert w (to_piece c) ∷ [], true)
unfolding feed_all go_on
feed_one bs s w c e l =
    let found = ap (λ o. at bs s (number o)) e ∙ at_newest bs s c l in
    let fed : feed bs s w ≡ (Rewinder.insert w (to_piece c), true) =
      unfold feed in rw (found, feed) in
    rw fed refl

-- A live client joins with a burst of n + 1 chunks, of a buffer that has more, and then a newer
-- chunk arrives. What the client has been queued is the n + 1 chunks before the newest, and then
-- the arrived chunk: the chunk that was the newest when the client joined stands between the two
-- in the buffer, and the client never gets it.
pub live_client_misses_newest :
    (bs : List Chunk → ℕ → ℤ) (r : RewindBuffer) (id n : ℕ) (secs : ℤ) (lb c : Chunk)
    → r.listeners ≡ []
    → check_offset_secs r secs ≡ pos (suc n)
    → suc n < length r.store.buffer
    → last? r.store.buffer ≡ some lb
    → lb.ts < c.ts
    → (w w' : Rewinder) × (r' : RewindBuffer) × (get_rewinder bs r id
          (record { offset_secs = none; offset = none; pump_only = false; pump = some secs })
        ≡ ok (r', w))
      × ((data_func bs r' c).0.listeners ≡ w' ∷ [])
      × (queued w'.queue ≡ concat_bytes (from_offset (suc n) (suc n) r.store.buffer) ++ c.bytes)
      × (concat_bytes (drop (length r.store.buffer - 1 - suc n) r.store.buffer)
          ≡ concat_bytes (from_offset (suc n) (suc n) r.store.buffer) ++ lb.bytes)
unfolding data_func
live_client_misses_newest bs r id n secs lb c alone e h l newer =
    let (w, joined, live, burst) = open_live bs r id n secs e h in
    let r' = record r { listeners = r.listeners ++ w ∷ [] } in
    let fed = feed_one bs (Store.insert r.store c).0 w c live (last?-insert r.store lb c l newer) in
    (
      w,
      Rewinder.insert w (to_piece c),
      r',
      joined,
      ap (λ ls. (feed_all bs (Store.insert r.store c).0 (ls ++ w ∷ [])).0) alone
          ∙ ap (λ p. p.0) fed,
      queued-insert w (to_piece c) ∙ ap (λ t. t ++ c.bytes) burst,
      from_offset-newest (suc n) r.store.buffer lb h l,
    )

-- On a full buffer with no other clients than some who joined later, a client who asks for as many
-- chunks back as the buffer has, with no pump, is granted that offset. The next newer chunk then
-- raises an exception: an `undefined` is put into the client's queue, the next read of the client
-- throws as well, and those who joined later get nothing.
pub full_offset_throws :
    (bs : List Chunk → ℕ → ℤ) (r : RewindBuffer) (id : ℕ) (fb lb c : Chunk) (rest : List Chunk)
    (later : List Rewinder) (accepts : ℕ → Bool) (size : ℕ)
    → r.listeners ≡ []
    → r.store ≡ full_store (fb ∷ rest)
    → last? (fb ∷ rest) ≡ some lb
    → 0 < lb.ts
    → lb.ts < c.ts
    → let o = pos (length (fb ∷ rest)) in
      (w : Rewinder) × (r' : RewindBuffer) × (get_rewinder bs r id
          (record { offset_secs = none; offset = some o; pump_only = false; pump = none })
        ≡ ok (r', w))
      × (w.offset ≡ o)
      × (let after = data_func bs (record r' { listeners = r'.listeners ++ later }) c in
          (after.2 ≡ false)
          × (after.0.listeners ≡ Rewinder.insert_undefined w ∷ later)
          × ((Rewinder.read accepts size (Rewinder.insert_undefined w)).1 ≡ threw ∷ []))
unfolding get_rewinder construct new_rewinder
full_offset_throws bs r id fb lb c rest later accepts size alone full l p newer =
    let n = length (fb ∷ rest) in
    let w = record (Rewinder.new_rewinder id) { offset = pos n } in
    let r' = record r { listeners = r.listeners ++ w ∷ [] } in
    let r'' = record r { listeners = (r.listeners ++ w ∷ []) ++ later } in
    let granted : check_offset r (pos n) ≡ pos n = unfold check_offset in rw full (ground arith) in
    let kept : length (Store.insert r.store c).0.buffer ≡ n =
      rw full (length-insert_full fb lb c rest l p newer) in
    let (x, xs, shape) = cons_of_pos_length (Store.insert r.store c).0.buffer (omega arith) in
    let listening : r''.listeners ≡ w ∷ later = ap (λ ls. (ls ++ w ∷ []) ++ later) alone in
    let (threw_then, queue, _) =
      data_func_throws bs r'' c x xs w later listening shape
        (ap pos (sym kept ∙ ap length shape)) in
    (
      w,
      r',
      rw (granted, add_listener_lem r w n refl),
      refl,
      (threw_then, queue, read_undefined accepts size w refl refl),
    )
