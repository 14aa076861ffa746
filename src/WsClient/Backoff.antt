-- ===== src/WsClient/Backoff.antt =====
-- `nextBackoff` of pkg/worker/ws_client.go and the delays of WSRegisterLoop. Delays are nanoseconds and
-- not negative; `jitter` is the value of time.Duration(rand.Float64() * float64(2*delta)).
use infermesh.Prelude.{
  ℕ, ◌+◌, ◌-◌, ◌*◌, ◌/◌, ◌≤◌, ◌≡◌, ◌&&◌, List, [], ◌∷◌, arith, ltb, ◌==◌, if◌then◌else◌, ◌⊎◌, inl,
  inr,
}

-- One second.
abbrev pub ws_register_backoff_base : ℕ
ws_register_backoff_base = 1000000000

-- The doubled delay, up to `max` where there is one.
unfoldable pub doubled : ℕ → ℕ → ℕ
doubled prev max =
    let from = if prev == 0 then ws_register_backoff_base else prev in
    let next = from * 2 in if ltb 0 max && ltb max next then max else next

unfoldable pub next_backoff : ℕ → ℕ → ℕ → ℕ
unfolding doubled
next_backoff prev max jitter = let next = doubled prev max in next - next / 5 + jitter

-- The waits of the loop, one for each connection that is lost, from `delay` on. Each turn has its
-- jitter.
unfoldable pub delays : ℕ → ℕ → List ℕ → List ℕ
unfolding next_backoff
delays delay max [] = delay ∷ []
delays delay max (jitter ∷ jitters) = delay ∷ delays (next_backoff delay max jitter) max jitters

-- `rand.Float64` is in [0, 1), so that a jitter is at most twice the fifth of the doubled delay.
abbrev pub InRange : ℕ → ℕ → List ℕ → Type 0
InRange delay max [] = Unit
InRange delay max (jitter ∷ jitters) =
    (jitter ≤ 2 * (doubled delay max / 5)) × InRange (next_backoff delay max jitter) max jitters

doubled-bounds :
    (prev max : ℕ)
    → ws_register_backoff_base ≤ prev
    → ws_register_backoff_base * 2 ≤ max
    → (doubled prev max ≤ max)
      × (ws_register_backoff_base * 2 ≤ doubled prev max)
      × ((doubled prev max ≡ prev * 2) ⊎ (doubled prev max ≡ max))
unfolding doubled
doubled-bounds prev max b m = ground (arith, b, m)

-- A delay that follows another.
abbrev pub Follows : ℕ → ℕ → ℕ → Type 0
Follows max d e =
    (ws_register_backoff_base ≤ e) × (e ≤ max + max / 5) × ((3 * d ≤ 2 * e) ⊎ (max - max / 5 ≤ e))

jittered :
    (prev max next jitter : ℕ)
    → next ≤ max
    → ws_register_backoff_base * 2 ≤ next
    → jitter ≤ 2 * (next / 5)
    → ((next ≡ prev * 2) ⊎ (next ≡ max))
    → Follows max prev (next - next / 5 + jitter)
jittered prev max next jitter l g j (inl e) =
    (omega (arith, l, g, j), omega (arith, l, g, j), inl (omega (arith, l, g, j, e)))
jittered prev max next jitter l g j (inr e) =
    (omega (arith, l, g, j), omega (arith, l, g, j), inr (omega (arith, l, g, j, e)))

next_backoff-Follows :
    (prev max jitter : ℕ)
    → ws_register_backoff_base ≤ prev
    → ws_register_backoff_base * 2 ≤ max
    → jitter ≤ 2 * (doubled prev max / 5)
    → Follows max prev (next_backoff prev max jitter)
unfolding next_backoff
next_backoff-Follows prev max jitter b m j =
    let (l, g, e) = doubled-bounds prev max b m in
    jittered prev max (doubled prev max) jitter l g j e

-- Each delay follows the one before it.
abbrev pub Paced : ℕ → ℕ → List ℕ → Type 0
Paced max d [] = Unit
Paced max d (e ∷ es) = Follows max d e × Paced max e es

abbrev pub rest_of : List ℕ → List ℕ
rest_of [] = []
rest_of (d ∷ ds) = ds

delays-Paced_from :
    (delay max : ℕ) (jitters : List ℕ)
    → ws_register_backoff_base ≤ delay
    → ws_register_backoff_base * 2 ≤ max
    → InRange delay max jitters
    → Paced max delay (rest_of (delays delay max jitters))
unfolding delays
delays-Paced_from delay max [] b m r = tt
delays-Paced_from delay max (jitter ∷ jitters) b m r =
    let f = next_backoff-Follows delay max jitter b m r.0 in
    cons_Paced (next_backoff delay max jitter) jitters f
      (delays-Paced_from (next_backoff delay max jitter) max jitters f.0 m r.1)
  where
    cons_Paced :
        (next : ℕ) (js : List ℕ)
        → Follows max delay next
        → Paced max next (rest_of (delays next max js))
        → Paced max delay (delays next max js)
    cons_Paced next [] f p = (f, tt)
    cons_Paced next (j ∷ js) f p = (f, p)

-- Through any number of lost connections, with a maximum of at least two seconds, no wait is shorter
-- than a second or longer than the maximum and a fifth of it, and each wait is at least half as long
-- again as the one before it or within a fifth of the maximum. (The jitters are those that a number in
-- [0, 1) gives.)
pub delays-Paced :
    (max : ℕ) (jitters : List ℕ)
    → ws_register_backoff_base * 2 ≤ max
    → InRange ws_register_backoff_base max jitters
    → Paced max ws_register_backoff_base (rest_of (delays ws_register_backoff_base max jitters))
delays-Paced max jitters m r =
    delays-Paced_from ws_register_backoff_base max jitters (omega arith) m r
