-- ===== src/SlaveStream.antt =====
-- js/src/streammachine/slave/stream.js: the listeners of a slave's stream, which wait until its source
-- has been loaded. What `getRewinder` answers to a listener, and the sources' callbacks, are inputs.
pub mod Answers
pub mod Runs
mod Tests
use stream_machine.Prelude.Tests.{◌==◌, if◌then◌else◌}
use stream_machine.Prelude.{
  Bool, List, Option, [], none, true, false, ℕ, ◌∷◌, ◌+◌, ◌++◌, ◌/◌, some, ◌||◌,
}

-- `waiting` are the listeners that wait for "_source_init", `key_waiting` the callers that wait for
-- "source" to ask for its key; `source_seen` tells that the constructor's listeners to it are gone.
pub record SlaveStream : Type 0 where
  pub next_id : ℕ
  pub lmeta : List ℕ
  pub total_connections : ℕ
  pub total_kbytes : ℕ
  pub source : Option ℕ
  pub source_seen : Bool
  pub initializing : Bool
  pub timer_runs : Bool
  pub waiting : List ℕ
  pub stream_key : Option ℕ
  pub key_waiting : List ℕ

-- What a caller is told: a rewinder or an error for a listener, an answer from the options or from
-- the source about the key; and what the source is asked.
pub data Effect : Type 0 where
  listens refused : ℕ → Effect
  key_told : ℕ → ℕ → Effect
  asks_source : ℕ → ℕ → Effect
  asks_rewind : ℕ → Effect
  disconnects : ℕ → Effect
  not_found : ℕ → Effect
  logged : ℕ → ℕ → Effect

-- The constructor, with the option `stream_key`.
unfoldable pub new_slave_stream : Option ℕ → SlaveStream
new_slave_stream key = record {
  next_id = 1;
  lmeta = [];
  total_connections = 0;
  total_kbytes = 0;
  source = none;
  source_seen = false;
  initializing = true;
  timer_runs = true;
  waiting = [];
  stream_key = key;
  key_waiting = [];
}

module _ (grants : ℕ → Bool) where
  -- The callback of `_once_source_loaded`: the rewinder, or its error.
  pub admit : ℕ → SlaveStream → SlaveStream × List Effect
  admit id s =
      if grants id
      then (record s { lmeta = s.lmeta ++ id ∷ [] }, listens id ∷ [])
      else (s, refused id ∷ [])

  pub admit_all : List ℕ → SlaveStream → SlaveStream × List Effect
  unfolding admit
  admit_all [] s = (s, [])
  admit_all (id ∷ ids) s =
      let (s', now) = admit id s in let (s'', later) = admit_all ids s' in (s'', now ++ later)

  -- The emission of "_source_init": those who wait are called once, in order.
  pub source_init : SlaveStream → SlaveStream × List Effect
  unfolding admit_all
  source_init s = admit_all s.waiting (record s { initializing = false; waiting = [] })

  -- `listen`
  unfoldable pub listen : SlaveStream → SlaveStream × List Effect
  unfolding admit
  listen s =
      let id = s.next_id in
      let s' = record s { next_id = id + 1; total_connections = s.total_connections + 1 } in
      if s.initializing then (record s' { waiting = s.waiting ++ id ∷ [] }, []) else admit id s'

  -- The timer of 15 seconds.
  unfoldable pub time_out : SlaveStream → SlaveStream × List Effect
  unfolding source_init
  time_out s = if s.timer_runs then source_init (record s { timer_runs = false }) else (s, [])

  -- The end of the load of the source's rewind buffer, or the error that takes its place.
  unfoldable pub source_loaded : SlaveStream → SlaveStream × List Effect
  unfolding source_init
  source_loaded s = source_init s

ask_all : ℕ → List ℕ → List Effect
ask_all src [] = []
ask_all src (k ∷ ks) = asks_source src k ∷ ask_all src ks

-- The emission of "source". Those who wait for the key ask it; and the first time it is asked for its
-- rewind buffer, and the stream is initializing again, also after the timer has run out.
pub emit_source : ℕ → SlaveStream → SlaveStream × List Effect
unfolding ask_all
emit_source src s =
    if s.source_seen then (record s { key_waiting = [] }, ask_all src s.key_waiting) else (
      record s { source_seen = true; timer_runs = false; initializing = true; key_waiting = [] },
      asks_rewind src ∷ ask_all src s.key_waiting,
    )

is_same : Option ℕ → ℕ → Bool
is_same none src = false
is_same (some old) src = old == src

-- `useSource`
unfoldable pub use_source : ℕ → SlaveStream → SlaveStream × List Effect
unfolding emit_source is_same
use_source src s =
    if is_same s.source src then (s, []) else emit_source src (record s { source = some src })

-- `getStreamKey`, for the caller k.
key_from_source : Option ℕ → ℕ → SlaveStream → SlaveStream × List Effect
key_from_source none k s = (record s { key_waiting = s.key_waiting ++ k ∷ [] }, [])
key_from_source (some src) k s = (s, asks_source src k ∷ [])

key_of : Option ℕ → ℕ → SlaveStream → SlaveStream × List Effect
unfolding key_from_source
key_of none k s = key_from_source s.source k s
key_of (some key) k s = (s, key_told k key ∷ [])

unfoldable pub get_stream_key : ℕ → SlaveStream → SlaveStream × List Effect
unfolding key_of
get_stream_key k s = key_of s.stream_key k s

pub has_listener : ℕ → List ℕ → Bool
has_listener id [] = false
has_listener id (l ∷ ls) = l == id || has_listener id ls

pub remove_listener : ℕ → List ℕ → List ℕ
remove_listener id [] = []
remove_listener id (l ∷ ls) = let rest = remove_listener id ls in if l == id then rest else l ∷ rest

-- `disconnectListener`
unfoldable pub disconnect_listener : ℕ → SlaveStream → SlaveStream × List Effect
unfolding has_listener remove_listener
disconnect_listener id s =
    if has_listener id s.lmeta
    then (record s { lmeta = remove_listener id s.lmeta }, [])
    else (s, not_found id ∷ [])

-- `recordListen`, with bytes, or else with kilobytes if they are a number.
kbytes_of : Option ℕ → Option ℕ → Option ℕ
kbytes_of none kbytes = kbytes
kbytes_of (some bytes) kbytes = if bytes == 0 then kbytes else some (bytes / 1024)

or_zero : Option ℕ → ℕ
or_zero none = 0
or_zero (some n) = n

unfoldable pub record_listen : ℕ → Option ℕ → Option ℕ → SlaveStream → SlaveStream × List Effect
unfolding kbytes_of or_zero has_listener
record_listen id bytes kbytes s =
    let sent = or_zero (kbytes_of bytes kbytes) in
    (
      record s { total_kbytes = s.total_kbytes + sent },
      if has_listener id s.lmeta then logged id sent ∷ [] else [],
    )

disconnect_all : List ℕ → List Effect
disconnect_all [] = []
disconnect_all (l ∷ ls) = disconnects l ∷ disconnect_all ls

-- `disconnect`: the listeners are disconnected, and all who wait for an event are removed. The timer
-- runs on.
unfoldable pub disconnect : SlaveStream → SlaveStream × List Effect
unfolding disconnect_all
disconnect s = (
  record s { source = none; source_seen = true; waiting = []; key_waiting = [] },
  disconnect_all s.lmeta,
)

pub data Input : Type 0 where
  starts_listening times_out loads leaves : Input
  uses stops_listening asks_key : ℕ → Input
  records : ℕ → Option ℕ → Option ℕ → Input

module _ (grants : ℕ → Bool) where
  unfoldable pub react : SlaveStream → Input → SlaveStream × List Effect
  unfolding listen time_out source_loaded use_source disconnect_listener get_stream_key
      record_listen disconnect
  react s starts_listening = listen grants s
  react s times_out = time_out grants s
  react s loads = source_loaded grants s
  react s leaves = disconnect s
  react s (uses src) = use_source src s
  react s (stops_listening id) = disconnect_listener id s
  react s (asks_key k) = get_stream_key k s
  react s (records id bytes kbytes) = record_listen id bytes kbytes s

  unfoldable pub react_all : SlaveStream → List Input → SlaveStream × List Effect
  unfolding react
  react_all s [] = (s, [])
  react_all s (i ∷ is) =
      let (s', now) = react s i in let (s'', later) = react_all s' is in (s'', now ++ later)
