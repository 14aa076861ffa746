-- ===== src/WsClient/Streams/Loop.antt =====
-- The selects of `streamOrFallback`, of pkg/worker/ws_client.go, through all that happens to a stream.
use mathlib.Core.List.{append_assoc, append-nil}
use infermesh.Prelude.{
  ℕ, ◌+◌, arith, length, length-append, ◌≡◌, refl, sym, ap, ◌∙◌, subst, String, Bool, true, false,
  List, [], ◌∷◌, ◌++◌, Memᴰ,
}
use infermesh.WsClient.{
  Delivery, sent, Message, Action, grace_ends, Stream, new_stream, End, running, fell_back,
  Completion, send_completion, Turn, waits, sends, returns, falls_back, turn, follow, stream_loop,
  stream_or_fallback,
}
use infermesh.WsClient.Streams.{chunk_of, emitted, count_after, waiting, all_sent, Relays}
use infermesh.WsClient.Streams.Turns.{Explained, Turned, turn-Turned}
use infermesh.WsClient.Streams.Missing.{Missing-onward, Missing-next, Missing-Ended}

module _ (accepted : Bool) (id kind : String) (c : Completion) (whole : List Action) where
  -- The chunks before and after a turn.
  chunks-onward :
      (ahead held taken later rest cs : List (String × Delivery))
      → held ++ taken ≡ ahead ++ later
      → cs ≡ later ++ rest
      → ahead ++ cs ≡ held ++ (taken ++ rest)
  chunks-onward ahead held taken later rest cs p q =
      ap (λ l. ahead ++ l) q
      ∙ sym (append_assoc ahead later rest)
      ∙ ap (λ l. l ++ rest) (sym p)
      ∙ append_assoc held taken rest

  -- The number of chunks taken before and after a turn: `n` in all, `a` by the turn.
  taken-onward :
      (s t : Stream) (x : Action) (ahead : List (String × Delivery)) (before : List Action) (n : ℕ)
      → s.chunks ++ chunk_of x ≡ ahead ++ t.chunks
      → count_after (length s.chunks) x ≡ length t.chunks
      → n + waiting (length t.chunks) before ≡ length t.chunks + length (emitted before)
      → length ahead + n + waiting (length s.chunks) (x ∷ before)
        ≡ length s.chunks + length (emitted (x ∷ before))
  taken-onward s t x ahead before n p q h = rw q (
      omega (
        arith,
        h,
        sym (length-append s.chunks (chunk_of x)) ∙ ap length p ∙ length-append ahead t.chunks,
        length-append (chunk_of x) (emitted before),
      ))

  -- The relaying of a stream by a turn and by what follows it.
  follow-Relays :
      (first : Bool) (s : Stream) (x : Action) (xs : List Action) (t : Turn)
      (again next : Stream → List Message × End) (fallback : List Message × End)
      → Turned accepted id kind c whole s x t
      → ((k : Stream)
          → Explained accepted id kind c whole k
          → Relays accepted id kind c whole first k xs (again k))
      → ((k : Stream)
          → Explained accepted id kind c whole k
          → Relays accepted id kind c whole false k xs (next k))
      → (x ≡ grace_ends → Relays accepted id kind c whole first s (x ∷ xs) fallback)
      → Relays accepted id kind c whole first s (x ∷ xs) (follow t again next fallback)
  follow-Relays first s x xs (waits k) again next fallback o a n f =
      let r = a k o.explained in
      record {
        before = x ∷ r.before;
        rest = r.rest;
        split = ap (λ l. x ∷ l) r.split;
        quiet = o.quiet first r.before r.quiet;
        decided = r.decided;
        relayed = r.relayed;
        lost = r.lost;
        taken =
            omega
              (arith, taken-onward s k x [] r.before (length r.relayed) o.held o.counted r.taken);
        chunks =
            chunks-onward [] s.chunks (chunk_of x) k.chunks (emitted xs)
              (all_sent r.relayed ++ r.lost) o.held r.chunks;
        messages = r.messages;
        missing =
            Missing-onward first s.chunks_closed k.chunks_closed (x ∷ xs) xs (again k).1 r.relayed
              r.lost (o.orderly xs) r.missing;
        cause = r.cause;
      }
  follow-Relays first s x xs (sends m k) again next fallback (text, q, o) a n f =
      let r = n k o.explained in
      record {
        before = x ∷ r.before;
        rest = r.rest;
        split = ap (λ l. x ∷ l) r.split;
        quiet = o.quiet first r.before r.quiet;
        decided = r.decided;
        relayed = text ∷ r.relayed;
        lost = r.lost;
        taken = omega (
          arith,
          taken-onward s k x ((text, sent) ∷ []) r.before (length r.relayed) o.held o.counted
              r.taken,
        );
        chunks =
            chunks-onward ((text, sent) ∷ []) s.chunks (chunk_of x) k.chunks (emitted xs)
              (all_sent r.relayed ++ r.lost) o.held r.chunks;
        messages = rw (q, r.messages) refl;
        missing = Missing-next first s.chunks_closed (x ∷ xs) (next k).1 text r.relayed r.lost (
            Missing-onward false s.chunks_closed k.chunks_closed (x ∷ xs) xs (next k).1 r.relayed
              r.lost (o.orderly xs) r.missing);
        cause = r.cause;
      }
  follow-Relays first s x xs (returns ms end) again next fallback (q, w, d, h) a n f = record {
    before = [];
    rest = x ∷ xs;
    split = refl;
    quiet = tt;
    decided = d;
    relayed = [];
    lost = s.chunks ++ emitted (x ∷ xs);
    taken = omega arith;
    chunks = refl;
    messages = q;
    missing = Missing-Ended accepted id kind c whole first s (x ∷ xs) end h;
    cause = w;
  }
  follow-Relays first s x xs falls_back again next fallback q a n f = f q

  abbrev Within : List Action → Type 0
  Within xs = (x : Action) → Memᴰ x xs → Memᴰ x whole

  running-Relays :
      (first : Bool) (s : Stream) → Relays accepted id kind c whole first s [] ([], running s)
  running-Relays first s = record {
    before = [];
    rest = [];
    split = refl;
    quiet = tt;
    decided = tt;
    relayed = [];
    lost = s.chunks;
    taken = omega arith;
    chunks = sym (append-nil s.chunks);
    messages = refl;
    missing = refl;
    cause = tt;
  }

  -- The loop goes on after the end of a grace period.
  past_grace :
      (s : Stream) (x : Action) (xs : List Action) (r : List Message × End)
      → x ≡ grace_ends
      → Relays accepted id kind c whole false s xs r
      → Relays accepted id kind c whole false s (x ∷ xs) r
  past_grace s x xs r q h =
      subst (λ y. Relays accepted id kind c whole false s (y ∷ xs) r) (sym q)
        (record {
          before = grace_ends ∷ h.before;
          rest = h.rest;
          split = ap (λ l. grace_ends ∷ l) h.split;
          quiet = (refl, h.quiet);
          decided = h.decided;
          relayed = h.relayed;
          lost = h.lost;
          taken = h.taken;
          chunks = h.chunks;
          messages = h.messages;
          missing =
              Missing-onward false s.chunks_closed s.chunks_closed (grace_ends ∷ xs) xs r.1
                h.relayed h.lost (λ o. o.1) h.missing;
          cause = h.cause;
        })

  stream_loop-Relays :
      (s : Stream) (xs : List Action)
      → Within xs
      → Explained accepted id kind c whole s
      → Relays accepted id kind c whole false s xs (stream_loop accepted id kind s xs)
  unfolding stream_loop
  stream_loop-Relays s [] w e = running-Relays false s
  stream_loop-Relays s (x ∷ xs) w e =
      let rest : Within xs = λ y m. w y (Memᴰ.tail m) in
      follow-Relays false s x xs (turn accepted id kind s x) _ _ _
        (turn-Turned accepted id kind c whole s x (w x (Memᴰ.head refl)) e)
        (λ t k. stream_loop-Relays t xs rest k) (λ t k. stream_loop-Relays t xs rest k)
        (λ q. past_grace s x xs _ q (stream_loop-Relays s xs rest e))

  stream_or_fallback-Relays :
      (s : Stream) (xs : List Action)
      → Within xs
      → Explained accepted id kind c whole s
      → Relays accepted id kind c whole true s xs (stream_or_fallback accepted id kind c s xs)
  unfolding stream_or_fallback send_completion
  stream_or_fallback-Relays s [] w e = running-Relays true s
  stream_or_fallback-Relays s (x ∷ xs) w e =
      let rest : Within xs = λ y m. w y (Memᴰ.tail m) in
      follow-Relays true s x xs (turn accepted id kind s x) _ _
        (send_completion accepted id c, fell_back)
        (turn-Turned accepted id kind c whole s x (w x (Memᴰ.head refl)) e)
        (λ t k. stream_or_fallback-Relays t xs rest k) (λ t k. stream_loop-Relays t xs rest k)
        (λ q. record {
          before = [];
          rest = x ∷ xs;
          split = refl;
          quiet = tt;
          decided = q;
          relayed = [];
          lost = s.chunks ++ emitted (x ∷ xs);
          taken = omega arith;
          chunks = refl;
          messages = refl;
          missing = refl;
          cause = subst (λ y. Memᴰ y whole) q (w x (Memᴰ.head refl));
        })

  new_stream-Explained : Explained accepted id kind c whole new_stream
  new_stream-Explained = record {
    chunks = λ q m. elim m [ ];
    chunks_closed = λ e. cc;
    errors = λ e m. elim m [ ];
    errors_closed = λ e. cc;
  }

-- From the start, with all that happens.
pub new_stream-Relays :
    (accepted : Bool) (id kind : String) (c : Completion) (xs : List Action)
    → Relays accepted id kind c xs true new_stream xs
        (stream_or_fallback accepted id kind c new_stream xs)
new_stream-Relays accepted id kind c xs =
    stream_or_fallback-Relays accepted id kind c xs new_stream xs (λ x m. m)
      (new_stream-Explained accepted id kind c xs)
