-- ===== src/CallCounter/Examples.antt =====
-- A run of the counter, and its theorem at that run.
use infermesh.Prelude.{◌≡◌, refl, some, List, [], ◌∷◌, arith, lookup, insert, delete}
use infermesh.CallCounter.{new_call_counter, snapshot, Call, records, snapshots, ticks, step, run}
use infermesh.CallCounter.Window.{snapshot_exact}

abbrev history : List Call
history = records "llama" 10 ∷ records "phi" 20 ∷ snapshots 25 ∷ records "llama" 30 ∷ ticks 115 ∷ []

counts_one : lookup "llama" (snapshot 130 (run (new_call_counter 100) history)).1 ≡ some 1
unfolding snapshot run step new_call_counter lookup insert delete
counts_one = refl

snapshot_exact_example :
    lookup "llama" (snapshot 120 (run (new_call_counter 100) history)).1 ≡ some 1
snapshot_exact_example = snapshot_exact 100 120 history "llama" (omega arith)
