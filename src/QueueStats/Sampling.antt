-- ===== src/QueueStats/Sampling.antt =====
-- What the reservoir of pkg/router/queue_stats.go holds.
use infermesh.Prelude.{
  ℕ, zero, suc, ◌≤◌, ◌<◌, ◌≡◌, refl, ap, ◌∙◌, inl, inr, Bool, true, false, List, [], ◌∷◌, ◌++◌,
  arith, ltb, ltb→lt, if◌then◌else◌, Bool-cases, length, length-append, set, length-set, Memᴰ, All,
  All-append, All-map,
}
use infermesh.QueueStats.{
  queue_stats_capacity, Reservoir, new_reservoir, filled, replaced, record_wait, run,
}
use mathlib.Core.List.{append_assoc, append-nil}

-- The waits of a history.
abbrev pub waits_of : List (ℕ × ℕ) → List ℕ
waits_of [] = []
waits_of ((d, draw) ∷ waits) = d ∷ waits_of waits

-- The smaller of a count and the capacity.
abbrev pub held : ℕ → ℕ
held n = if ltb n queue_stats_capacity then n else queue_stats_capacity

-- The reservoir after the waits `seen`.
pub record Samples (seen : List ℕ) (r : Reservoir) : Type 0 where
  pub counted : r.count ≡ length seen
  pub sized : length r.samples ≡ held (length seen)
  pub recorded : All (λ d. Memᴰ d seen) r.samples
  -- Up to the capacity it is the waits themselves.
  pub complete : length seen ≤ queue_stats_capacity → r.samples ≡ seen

Memᴰ-append : (d : ℕ) (xs ys : List ℕ) → Memᴰ d xs → Memᴰ d (xs ++ ys)
Memᴰ-append d [] ys h = elim h [ ]
Memᴰ-append d (x ∷ xs) ys (Memᴰ.head q) = Memᴰ.head q
Memᴰ-append d (x ∷ xs) ys (Memᴰ.tail h) = Memᴰ.tail (Memᴰ-append d xs ys h)

Memᴰ-last : (d : ℕ) (xs : List ℕ) → Memᴰ d (xs ++ d ∷ [])
Memᴰ-last d [] = Memᴰ.head refl
Memᴰ-last d (x ∷ xs) = Memᴰ.tail (Memᴰ-last d xs)

All-set : (P : ℕ → Type 0) (xs : List ℕ) (i d : ℕ) → All P xs → P d → All P (set xs i d)
All-set P [] i d h p = tt
All-set P (x ∷ xs) zero d h p = (p, h.1)
All-set P (x ∷ xs) (suc i) d h p = (h.0, All-set P xs i d h.1 p)

held_small : (xs : List ℕ) → length xs ≤ queue_stats_capacity → length xs ≡ held (length xs)
held_small xs h = ground (arith, h)

held_full : (n m : ℕ) → queue_stats_capacity ≤ n → n ≤ m → held n ≡ held m
held_full n m h k = ground (arith, h, k)

not_below : (n : ℕ) → ltb n queue_stats_capacity ≡ false → queue_stats_capacity ≤ n
not_below n h = ground (arith, h)

filled-Samples :
    (d : ℕ) (seen : List ℕ) (r : Reservoir)
    → length seen < queue_stats_capacity
    → Samples seen r
    → Samples (seen ++ d ∷ []) (filled d r)
filled-Samples d seen r room k = record {
  counted = omega (arith, k.counted, length-append seen (d ∷ []));
  sized =
      rw (k.complete (omega (arith, room)))
        (held_small (seen ++ d ∷ []) (omega (arith, room, length-append seen (d ∷ []))));
  recorded =
      All-append (λ x. Memᴰ x (seen ++ d ∷ [])) r.samples (d ∷ [])
        (All-map (λ x m. Memᴰ-append x seen (d ∷ []) m) r.samples k.recorded)
        (Memᴰ-last d seen, tt);
  complete = λ small. ap (λ xs. xs ++ d ∷ []) (k.complete (omega (arith, room)));
}

replaced-Samples :
    (b : Bool) (d draw : ℕ) (seen : List ℕ) (r : Reservoir)
    → queue_stats_capacity ≤ length seen
    → Samples seen r
    → Samples (seen ++ d ∷ []) (replaced b d draw r)
replaced-Samples true d draw seen r full k = record {
  counted = omega (arith, k.counted, length-append seen (d ∷ []));
  sized =
      length-set r.samples draw d
      ∙ k.sized
      ∙ held_full (length seen) (length (seen ++ d ∷ [])) full
          (omega (arith, length-append seen (d ∷ [])));
  recorded =
      All-set (λ x. Memᴰ x (seen ++ d ∷ [])) r.samples draw d
        (All-map (λ x m. Memᴰ-append x seen (d ∷ []) m) r.samples k.recorded) (Memᴰ-last d seen);
  complete = λ small. absurd (omega (arith, small, full, length-append seen (d ∷ [])));
}
replaced-Samples false d draw seen r full k = record {
  counted = omega (arith, k.counted, length-append seen (d ∷ []));
  sized =
      k.sized
      ∙ held_full (length seen) (length (seen ++ d ∷ [])) full
          (omega (arith, length-append seen (d ∷ [])));
  recorded = All-map (λ x m. Memᴰ-append x seen (d ∷ []) m) r.samples k.recorded;
  complete = λ small. absurd (omega (arith, small, full, length-append seen (d ∷ [])));
}

record_wait-Samples :
    (d draw : ℕ) (seen : List ℕ) (r : Reservoir)
    → Samples seen r
    → Samples (seen ++ d ∷ []) (record_wait d draw r)
unfolding record_wait
record_wait-Samples d draw seen r k = elim (Bool-cases (ltb r.count queue_stats_capacity)) [
  | inl room ↦
      rw (room, record_wait)
        (filled-Samples d seen r (rw k.counted at (ltb→lt r.count queue_stats_capacity room)) k)
  | inr full ↦
      rw (full, record_wait)
        (replaced-Samples (ltb draw queue_stats_capacity) d draw seen r
          (not_below (length seen) (rw k.counted at full)) k)
]

run-Samples :
    (seen : List ℕ) (waits : List (ℕ × ℕ)) (r : Reservoir)
    → Samples seen r
    → Samples (seen ++ waits_of waits) (run r waits)
unfolding run
run-Samples seen [] r k = rw append-nil k
run-Samples seen ((d, draw) ∷ waits) r k = rw append_assoc at (
    run-Samples (seen ++ d ∷ []) waits (record_wait d draw r) (record_wait-Samples d draw seen r k))

-- After any number of waits, whatever the draws, the reservoir has counted them all and holds as many
-- samples as there were waits, at most 1,024; each is one of the waits; and up to 1,024 waits it holds
-- exactly these, in their order.
pub run-new_reservoir-Samples :
    (waits : List (ℕ × ℕ)) → Samples (waits_of waits) (run new_reservoir waits)
unfolding new_reservoir
run-new_reservoir-Samples waits =
    run-Samples [] waits new_reservoir
      (record { counted = refl; sized = refl; recorded = tt; complete = λ small. refl })
