-- ===== src/Rewind/Buffer/Feed.antt =====
-- What the clients of rewind_buffer.js get when a chunk arrives (`_rdataFunc`).
use stream_machine.Rewind.Rewinder
use stream_machine.Rewind.Store
use stream_machine.Prelude.{
  ◌<◌, List, [], refl, reverse, some, sym, true, ℕ, ◌∙◌, ◌∷◌, ◌≡◌, ap, false, none, ◌++◌, arith,
}
use stream_machine.Rewind.Store.{Chunk, MemoryStore}
use stream_machine.Rewind.Buffer.{
  RewindBuffer, data_func, feed, feed_all, to_piece, add_listener, go_on,
}
use stream_machine.Rewind.Rewinder.{Rewinder, read}
use stream_machine.Rewind.Store.Seek.Reading.{at-reverse, at_within, at_outside}
use stream_machine.Prelude.Lists.{get_elem?, length}
use stream_machine.Prelude.Int.{pos, ℤ, ltb_ℤ}
use stream_machine.Rewind.Store.Seek.{at, number, ok}

-- The client's offset is one at which the store has a chunk.
abbrev pub InReach : MemoryStore → Rewinder → Type 0
InReach s l = (k : ℕ) × (l.offset ≡ pos k) × (k < length s.buffer)

abbrev pub AllInReach : MemoryStore → List Rewinder → Type 0
AllInReach s [] = Unit {0}
AllInReach s (l ∷ ls) = InReach s l × AllInReach s ls

-- Each client gets the chunk so many places from the newest as its offset says.
abbrev pub Fed : MemoryStore → List Rewinder → List Rewinder → Type 0
Fed s [] ms = ms ≡ []
Fed s (l ∷ ls) [] = ⊥
Fed s (l ∷ ls) (m ∷ ms) =
    (k : ℕ) × (c : Chunk) × (l.offset ≡ pos k)
    × (get_elem? (reverse s.buffer) k ≡ some c)
    × (m ≡ Rewinder.insert l (to_piece c))
    × Fed s ls ms

module _ (bs : List Chunk → ℕ → ℤ) (s : MemoryStore) where
  feed-InReach :
      (l : Rewinder) (k : ℕ)
      → l.offset ≡ pos k
      → k < length s.buffer
      → (c : Chunk) × (get_elem? (reverse s.buffer) k ≡ some c)
        × (feed bs s l ≡ (Rewinder.insert l (to_piece c), true))
  unfolding feed
  feed-InReach l k e h =
      let (c, found) = at_within bs s k h in
      let read = at-reverse bs s k h in
      let found' : at bs s (number l.offset) ≡ ok (some c) =
        ap (λ o. at bs s (number o)) e ∙ found in
      (c, cc (read, found), rw (found', feed))

  feed_all-Fed :
      (ls : List Rewinder)
      → AllInReach s ls
      → ((feed_all bs s ls).1 ≡ true) × Fed s ls (feed_all bs s ls).0
  unfolding feed_all go_on
  feed_all-Fed [] h = (refl, refl)
  feed_all-Fed (l ∷ ls) ((k, e, r), h) =
      let (c, found, fed) = feed-InReach l k e r in
      let (fine, rest) = feed_all-Fed ls h in rw fed (fine, (k, c, e, found, refl, rest))

-- If after the insertion every client's offset is one that the store has, the chunk's arrival
-- raises no exception, and each client is queued exactly the chunk at its offset.
pub data_func-Fed :
    (bs : List Chunk → ℕ → ℤ) (r : RewindBuffer) (c : Chunk)
    → AllInReach (Store.insert r.store c).0 r.listeners
    → let after = data_func bs r c in
      (after.2 ≡ true)
      × (after.0.store ≡ (Store.insert r.store c).0)
      × Fed after.0.store r.listeners after.0.listeners
unfolding data_func
data_func-Fed bs r c h =
    let (fine, fed) = feed_all-Fed bs (Store.insert r.store c).0 r.listeners h in (fine, refl, fed)

-- A client whose offset is not below zero is added.
pub add_listener_lem :
    (r : RewindBuffer) (l : Rewinder) (k : ℕ)
    → l.offset ≡ pos k
    → add_listener r l ≡ (record r { listeners = r.listeners ++ l ∷ [] }, true)
unfolding add_listener
add_listener_lem r l k e =
    let valid : ltb_ℤ l.offset (pos 0) ≡ false = ap (λ o. ltb_ℤ o (pos 0)) e ∙ ground arith in
    rw valid

-- A client for whom the store has nothing ends the loop.
feed_all-missing :
    (bs : List Chunk → ℕ → ℤ) (s : MemoryStore) (l : Rewinder) (ls : List Rewinder)
    → at bs s (number l.offset) ≡ ok none
    → feed_all bs s (l ∷ ls) ≡ (Rewinder.insert_undefined l ∷ ls, false)
unfolding feed_all go_on
feed_all-missing bs s l ls missing =
    let unfed : feed bs s l ≡ (Rewinder.insert_undefined l, false) =
      unfold feed in rw (missing, feed) refl in
    rw unfed refl

-- The client at the front of the list has the store's length as its offset: the chunk's arrival
-- raises an exception after an `undefined` was queued for this client, and no other client gets
-- anything, though the store has taken the chunk.
pub data_func_throws :
    (bs : List Chunk → ℕ → ℤ) (r : RewindBuffer) (c fb : Chunk) (rest : List Chunk) (l : Rewinder)
    (ls : List Rewinder)
    → r.listeners ≡ l ∷ ls
    → (Store.insert r.store c).0.buffer ≡ fb ∷ rest
    → l.offset ≡ pos (length (fb ∷ rest))
    → let after = data_func bs r c in
      (after.2 ≡ false)
      × (after.0.listeners ≡ Rewinder.insert_undefined l ∷ ls)
      × (after.0.store ≡ (Store.insert r.store c).0)
unfolding data_func
data_func_throws bs r c fb rest l ls e b o =
    let s = (Store.insert r.store c).0 in
    let missing : at bs s (number l.offset) ≡ ok none =
      ap (λ k. at bs s (number k)) (o ∙ ap (λ xs. pos (length xs)) (sym b))
      ∙ (at_outside bs s fb rest b).2 in
    let all = ap (feed_all bs s) e ∙ feed_all-missing bs s l ls missing in rw all (refl, refl, refl)
