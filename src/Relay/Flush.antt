-- ===== src/Relay/Flush.antt =====
-- The flush of cmd/relay/main.go: what stands between the workers and the router before and after it.
use infermesh.Prelude.{
  ℕ, suc, ◌≡◌, refl, sym, ap, ◌∙◌, arith, ltb, Option, none, some, List, [], ◌∷◌, ◌++◌, map,
  Bool-cases, inl, inr, length, drop, get_elem?, set, get_elem?-set, ==_iff,
}
use infermesh.Relay.{
  Message, Relay, offer, take_queue, flush_loop, flush_to, flush_buffered_messages, send_queue_size,
}

drop-append : {A : Type 0} (xs ys : List A) → drop (length xs) (xs ++ ys) ≡ ys
drop-append [] ys = refl
drop-append (x ∷ xs) ys = drop-append xs ys

append_assoc : {A : Type 0} (xs ys zs : List A) → (xs ++ ys) ++ zs ≡ xs ++ (ys ++ zs)
append_assoc [] ys zs = refl
append_assoc (x ∷ xs) ys zs = ap (λ l. x ∷ l) (append_assoc xs ys zs)

append_nil : {A : Type 0} (xs : List A) → xs ++ [] ≡ xs
append_nil [] = refl
append_nil (x ∷ xs) = ap (λ l. x ∷ l) (append_nil xs)

length-append_one : {A : Type 0} (xs : List A) (x : A) → length (xs ++ x ∷ []) ≡ suc (length xs)
length-append_one [] x = refl
length-append_one (y ∷ xs) x = omega (arith, length-append_one xs x)

set_self :
    {A : Type 0} (cs : List A) (ch : ℕ) (old new : A)
    → get_elem? cs ch ≡ some old
    → get_elem? (set cs ch new) ch ≡ some new
set_self cs ch old new h = ground (arith, get_elem?-set cs ch ch new old h, ==_iff ch ch)

module _ {P Frame : Type 0} where
  -- The frames on their way to the router: those of the channel, then those of the messages kept back.
  abbrev pub on_the_way : (Message P → Frame) → ℕ → Relay P Frame → Option (List Frame)
  on_the_way frame ch r = elim (get_elem? r.channels ch) [
    | none ↦ none
    | some queued ↦ some (queued ++ map frame r.worker_queue)
  ]

  on_the_way-found :
      (frame : Message P → Frame) (ch : ℕ) (queued : List Frame) (ms : List (Message P))
      (r : Relay P Frame)
      → get_elem? r.channels ch ≡ some queued
      → r.worker_queue ≡ ms
      → on_the_way frame ch r ≡ some (queued ++ map frame ms)
  on_the_way-found frame ch queued ms r g e = rw (g, e, on_the_way) refl

  flush_loop-on_the_way :
      (marshal : Message P → Option Frame) (frame : Message P → Frame) (ch : ℕ)
      (done rest : List (Message P)) (queued : List Frame) (r : Relay P Frame)
      → ((m : Message P) → marshal m ≡ some (frame m))
      → get_elem? r.channels ch ≡ some queued
      → r.worker_queue ≡ []
      → on_the_way frame ch (flush_loop marshal (some ch) (done ++ rest) (length done) rest r)
        ≡ some (queued ++ map frame rest)
  unfolding flush_loop offer
  flush_loop-on_the_way marshal frame ch done [] queued r total g e =
      on_the_way-found frame ch queued [] r g e
  flush_loop-on_the_way marshal frame ch done (m ∷ rest) queued r total g e =
      elim (Bool-cases (ltb (length queued) send_queue_size)) [
        | inr full ↦
            rw (total m, g, full, flush_loop)
              (on_the_way-found frame ch queued (m ∷ rest)
                (record r {
                  worker_queue = r.worker_queue ++ drop (length done) (done ++ m ∷ rest);
                })
                g (rw e (drop-append done (m ∷ rest))))
        | inl room ↦
            let sent : Relay P Frame = record r {
              channels = set r.channels ch (queued ++ frame m ∷ []);
            } in
            let next =
              flush_loop-on_the_way marshal frame ch (done ++ m ∷ []) rest (queued ++ frame m ∷ [])
                sent total (set_self r.channels ch queued (queued ++ frame m ∷ []) g) e in
            rw (total m, g, room, flush_loop)
              (rw
                (
                  append_assoc done (m ∷ []) rest,
                  length-append_one done m,
                  append_assoc queued (frame m ∷ []) (map frame rest),
                )
                at next)
      ]

  flush_buffered_messages-connected :
      (marshal : Message P → Option Frame) (conn ch : ℕ) (r : Relay P Frame)
      → r.router_conn ≡ some conn
      → r.router_send_ch ≡ some ch
      → flush_buffered_messages marshal r
        ≡ flush_loop marshal
            (some ch)
            r.worker_queue
            0
            r.worker_queue
            (record r { worker_queue = [] })
  unfolding flush_buffered_messages flush_to take_queue
  flush_buffered_messages-connected marshal conn ch r c s =
      ap (λ o. flush_to marshal o r) c
      ∙ ap
          (λ o.
            flush_loop marshal o r.worker_queue 0 r.worker_queue (record r { worker_queue = [] }))
          s

  -- A flush to a connected router, with a channel whose writer lives, neither loses nor repeats nor
  -- reorders what is on its way: the frames of the channel followed by those of the messages kept back
  -- are the same before and after, however many of them the channel has room for, where every message
  -- can be marshaled and nothing else happens during the flush.
  pub flush_buffered_messages-on_the_way :
      (marshal : Message P → Option Frame) (frame : Message P → Frame) (conn ch : ℕ)
      (queued : List Frame) (r : Relay P Frame)
      → ((m : Message P) → marshal m ≡ some (frame m))
      → r.router_conn ≡ some conn
      → r.router_send_ch ≡ some ch
      → get_elem? r.channels ch ≡ some queued
      → on_the_way frame ch (flush_buffered_messages marshal r) ≡ on_the_way frame ch r
  flush_buffered_messages-on_the_way marshal frame conn ch queued r total c s g =
      ap (on_the_way frame ch) (flush_buffered_messages-connected marshal conn ch r c s)
      ∙ flush_loop-on_the_way marshal frame ch [] r.worker_queue queued
          (record r { worker_queue = [] }) total g refl
      ∙ sym (on_the_way-found frame ch queued r.worker_queue r g refl)
