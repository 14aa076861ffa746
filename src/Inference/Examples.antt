-- ===== src/Inference/Examples.antt =====
-- A run of the tracker, and its theorems at that run. Floating-point values are stood in for by
-- natural numbers of ten-thousandths.
use infermesh.Prelude.{
  ℕ, ◌*◌, ◌≡◌, refl, ◌↔◌, String, some, List, [], ◌∷◌, Memᴰ, arith, filter_by, ℤ, pos, negsuc,
  pos_part,
}
use infermesh.Floats.Fixed.{fixed}
use infermesh.Protocol.{InferenceStatsSnapshot}
use infermesh.Inference.{
  InferenceTracker, new_inference_tracker, prune_locked, record_sample, total_loop, speed_loop,
  has_sample, averages, aggregate, snapshot, snapshots, Call, records, reads, step, run,
}
use infermesh.Inference.Sums.{of_model, summary_if_any}
use infermesh.Inference.Window.{live, recorded, snapshot-live}
use infermesh.Inference.Listing.{snapshots-snapshot}

-- Durations here are whole seconds.
abbrev seconds : ℤ → ℕ
seconds d = pos_part d * 10000

abbrev history : List Call
history =
    records "llama" (pos 5) (pos 40) (pos 1) (pos 4) 10
    ∷ records "phi" (pos 3) (pos 9) (pos 1) (pos 3) 20
    ∷ reads 60
    ∷ records "llama" (pos 7) (pos 30) (pos 2) (pos 3) 70
    ∷ records "llama" (negsuc 0) (pos 20) (pos 2) (pos 2) 90
    ∷ []

-- The first sample has left the window: 50 tokens in 5 seconds.
rate_of_two :
    (snapshot fixed seconds "llama" 115 (run (new_inference_tracker (pos 100)) history)).1
    ≡ some (record {
      model = "llama";
      tokens_per_second = 100000;
      avg_ttft_ms = 0;
      avg_prompt_tokens = 35000;
      avg_completion_tokens = 250000;
      samples = pos 2;
    })
unfolding snapshot run step record_sample prune_locked new_inference_tracker aggregate averages
    total_loop speed_loop has_sample
rate_of_two = refl

snapshot-live_example :
    (snapshot fixed seconds "llama" 115 (run (new_inference_tracker (pos 100)) history)).1
    ≡ summary_if_any fixed seconds "llama" (
        filter_by
          (of_model "llama")
          (live (new_inference_tracker (pos 100)).window 115 (recorded history)))
snapshot-live_example = snapshot-live fixed seconds (pos 100) "llama" 115 history (omega arith)

abbrev tracker : InferenceTracker
tracker = run (new_inference_tracker (pos 100)) history

abbrev found : InferenceStatsSnapshot ℕ
found = record {
  model = "phi";
  tokens_per_second = 30000;
  avg_ttft_ms = 0;
  avg_prompt_tokens = 30000;
  avg_completion_tokens = 90000;
  samples = pos 1;
}

snapshots-snapshot_example :
    Memᴰ found (snapshots fixed seconds (λ xs. xs) 95 tracker).1
    ↔ ((model : String) × ((snapshot fixed seconds model 95 tracker).1 ≡ some found))
snapshots-snapshot_example =
    snapshots-snapshot fixed seconds (λ xs. xs) (λ xs x. (λ h. h, λ h. h)) 95 tracker found
