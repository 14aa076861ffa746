-- ===== src/Hub/Examples.antt =====
-- A hub with a call over the relay that is finished and one that is not, and the theorems about it.
use infermesh.Prelude.{
  ℕ, ◌≡◌, refl, String, true, false, none, some, str_eq, List, [], ◌∷◌, arith, pos, leb, length,
  lookup, insert, delete, get_elem?,
}
use infermesh.Hub.{
  RelayCall, new_hub, max_in_flight_for, relay_in_flight_at, register_relay_call, relay_lost, Call,
  sets_worker_max, registers, finishes, times_out, run, step, refused, rate_limited,
}
use infermesh.Hub.Relay.{Agrees, open_of}
use infermesh.Hub.Histories.{run-new_hub-Agrees}
use infermesh.Hub.Limits.{expected_answer, is_open, register_relay_call-run}
use infermesh.Hub.Bounds.{AtMost, open_of-run_bound}
use infermesh.Hub.Losses.{relay_lost-run}

abbrev history : List Call
history =
    sets_worker_max "w" (pos 1)
    ∷ registers "a" "w" 10
    ∷ registers "b" "w" 11
    ∷ finishes 0 20
    ∷ registers "c" "w" 30
    ∷ times_out "w"
    ∷ []

-- The second call was refused, the third is in flight.
in_flight : relay_in_flight_at "w" (run new_hub history) ≡ 1
unfolding relay_in_flight_at lookup run step insert new_hub delete
in_flight = refl

refused_at_cap : (register_relay_call "d" "w" 40 (run new_hub history)).0 ≡ refused rate_limited
unfolding register_relay_call lookup run step insert new_hub delete
refused_at_cap = refl

run-new_hub-Agrees_example : Agrees (run new_hub history)
run-new_hub-Agrees_example = run-new_hub-Agrees history

register_relay_call-run_example :
    (register_relay_call "c" "v" 40 (run new_hub history)).0
    ≡ expected_answer
        (leb
          (max_in_flight_for "v" (run new_hub history))
          (open_of "v" (run new_hub history).calls))
        (is_open "c" (run new_hub history).calls)
        (length (run new_hub history).calls)
register_relay_call-run_example = register_relay_call-run history "c" "v" 40 refl

open_of-run_bound_example : AtMost 4 (run new_hub history).calls
open_of-run_bound_example =
    open_of-run_bound 4 history (omega arith) (omega arith, (tt, (tt, (tt, (tt, (tt, tt))))))

relay_lost-run_example :
    ((r : ℕ) (c : RelayCall)
      → get_elem? (relay_lost 50 (run new_hub history)).calls r ≡ some c
      → c.closed ≡ true)
    × ((id : String) → lookup id (relay_lost 50 (run new_hub history)).relay_pending ≡ none)
    × ((w : String)
        → str_eq w "" ≡ false
        → relay_in_flight_at w (relay_lost 50 (run new_hub history)) ≡ 0)
relay_lost-run_example = relay_lost-run history 50
