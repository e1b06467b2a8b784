-- ===== src/Rewind/Buffer/Keys.antt =====
-- What `_rChunkLength` of rewind_buffer.js does to a buffer that has no key yet.
use stream_machine.Rewind.Store.Bounds.{set_max-empty}
use stream_machine.Prelude.{[], none, some, ◌≡◌, Option, String, false, refl, arith}
use stream_machine.Rewind.Buffer.{
  RewindBuffer, Vitals, chunk_length, chunks_of, drop_if_keyed, same_key, update_max,
}

-- The vitals are taken over, and the empty store gets the maximum that they give.
pub record IsTuned (r : RewindBuffer) (v : Vitals) (r' : RewindBuffer) : Type 0 where
  pub no_chunks : r'.store.buffer ≡ []
  pub maximum : r'.store.max_length ≡ some (chunks_of v.emit_duration r.rsecs)
  pub length_kept : r'.secs_per_chunk ≡ v.emit_duration
  pub key_kept : r'.stream_key ≡ some v.stream_key

keyless-same_key : (o : Option String) (k : String) → o ≡ none → same_key o k ≡ false
unfolding same_key
keyless-same_key none k e = refl
keyless-same_key (some j) k e = cc

keyless-drop_if_keyed : (r : RewindBuffer) → r.stream_key ≡ none → drop_if_keyed r ≡ r.store
unfolding drop_if_keyed
keyless-drop_if_keyed r e = ground arith

pub chunk_length-IsTuned :
    (r : RewindBuffer) (v : Vitals)
    → r.stream_key ≡ none
    → r.store.buffer ≡ []
    → IsTuned r v (chunk_length r v).0
unfolding chunk_length update_max
chunk_length-IsTuned r v keyless e =
    let fits = set_max-empty r.store (some (chunks_of v.emit_duration r.rsecs)) e in
    rw (keyless-same_key r.stream_key v.stream_key keyless, keyless-drop_if_keyed r keyless)
      (record { no_chunks = fits.0; maximum = fits.1; length_kept = refl; key_kept = refl })
