-- ===== src/SlaveStream/Tests.antt =====
-- Runs of slave/stream.js, and the theorems applied to them.
use stream_machine.SlaveStream.Runs.{disconnect-forgets_waiting}
use stream_machine.SlaveStream.Answers.{answers}
use stream_machine.SlaveStream.{
  Input, SlaveStream, asks_key, asks_rewind, asks_source, disconnect, listens, loads, logged,
  new_slave_stream, react, react_all, records, refused, starts_listening, stops_listening,
  times_out, uses,
}
use stream_machine.Prelude.Tests.{◌==◌}
use stream_machine.Prelude.{◌++◌, Bool, List, [], none, not, refl, some, ℕ, ◌∷◌, ◌≡◌}

-- The buffer gives no rewinder to the second listener.
abbrev grants : ℕ → Bool
grants id = not (id == 2)

-- Two listeners wait, one comes after the timer has run out, and one when the source loads.
abbrev late_source : List Input
late_source =
    starts_listening
    ∷ asks_key 8
    ∷ starts_listening
    ∷ times_out
    ∷ starts_listening
    ∷ uses 5
    ∷ starts_listening
    ∷ stops_listening 1
    ∷ records 3 (some 4096) none
    ∷ []

answers_in_order :
    (react_all grants (new_slave_stream none) (late_source ++ loads ∷ [])).1
    ≡ listens 1
      ∷ refused 2
      ∷ listens 3
      ∷ asks_rewind 5
      ∷ asks_source 5 8
      ∷ logged 3 4
      ∷ listens 4
      ∷ []
unfolding react_all react new_slave_stream
answers_in_order = refl

abbrev one_waits : SlaveStream
one_waits = (react_all grants (new_slave_stream none) (starts_listening ∷ [])).0

disconnect-forgets_waiting_example :
    let out = react_all grants (disconnect one_waits).0 (loads ∷ starts_listening ∷ []) in
    (answers (disconnect one_waits).1 ≡ []) × (answers out.1 ++ out.0.waiting ≡ 2 ∷ [])
unfolding react_all react new_slave_stream
disconnect-forgets_waiting_example =
    disconnect-forgets_waiting grants one_waits (loads ∷ starts_listening ∷ []) refl
