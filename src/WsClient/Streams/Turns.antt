-- ===== src/WsClient/Streams/Turns.antt =====
-- What a turn of the selects of `streamOrFallback` does, in pkg/worker/ws_client.go.
use mathlib.Core.List.{append-nil}
use infermesh.Prelude.{
  suc, length, ap, arith, ◌≡◌, refl, sym, ◌∙◌, subst, inl, inr, String, Bool, true, false, Option,
  List, [], ◌∷◌, ◌++◌, Memᴰ,
}
use infermesh.WsClient.{
  inference_chunk, Delivery, sent, unmarshalable, undeliverable, Action, emits, closes_chunks,
  fails, closes_errors, takes_chunk, takes_error, cancels, grace_ends, Stream, End, running,
  drained, failed_with, unmarshaled, refused, stopped, fell_back, Completion, Turn, waits, sends,
  returns, falls_back, send_chunk, take_chunk, take_error, turn,
}
use infermesh.WsClient.Streams.{
  chunk_of, count_after, offers_error, Orderly, QuietAt, Decides, last_message, send_if_any, Cause,
}

length-append_one : {A : Type 0} (xs : List A) (y : A) → length (xs ++ y ∷ []) ≡ suc (length xs)
length-append_one [] y = refl
length-append_one (x ∷ xs) y = ap suc (length-append_one xs y)

offers_error-append :
    (es : List (Option String)) (e : Option String) (closed : Bool)
    → offers_error (es ++ e ∷ []) closed ≡ true
offers_error-append [] e closed = refl
offers_error-append (x ∷ es) e closed = refl

offers_error-closed : (es : List (Option String)) → offers_error es true ≡ true
offers_error-closed [] = refl
offers_error-closed (e ∷ es) = refl

-- What holds of the elements of a list and of one more.
Memᴰ-append_one :
    {A : Type 0} (P : A → Type 0) (xs : List A) (y : A)
    → ((x : A) → Memᴰ x xs → P x)
    → P y
    → (x : A) → Memᴰ x (xs ++ y ∷ [])
    → P x
Memᴰ-append_one P [] y h k x (Memᴰ.head q) = subst P (sym q) k
Memᴰ-append_one P [] y h k x (Memᴰ.tail m) = elim m [ ]
Memᴰ-append_one P (z ∷ zs) y h k x (Memᴰ.head q) = h x (Memᴰ.head q)
Memᴰ-append_one P (z ∷ zs) y h k x (Memᴰ.tail m) =
    Memᴰ-append_one P zs y (λ w n. h w (Memᴰ.tail n)) k x m

module _ (accepted : Bool) (id kind : String) (c : Completion) (whole : List Action) where
  -- What the channels hold comes from the actions.
  pub record Explained (s : Stream) : Type 0 where
    pub chunks : (q : String × Delivery) → Memᴰ q s.chunks → Memᴰ (emits q.0 q.1) whole
    pub chunks_closed : s.chunks_closed ≡ true → Memᴰ closes_chunks whole
    pub errors : (e : Option String) → Memᴰ e s.errors → Memᴰ (fails e) whole
    pub errors_closed : s.errors_closed ≡ true → Memᴰ closes_errors whole

  -- The stream `t` comes after the action `x`, which does not end `s`, with the chunks `ahead` taken;
  -- `next` is whether the grace period is still waited for, where it was so at `first`.
  pub record Onward (ahead : List (String × Delivery)) (next : Bool → Bool) (s : Stream)
      (x : Action) (t : Stream) : Type 0 where
    pub held : s.chunks ++ chunk_of x ≡ ahead ++ t.chunks
    pub counted : count_after (length s.chunks) x ≡ length t.chunks
    pub quiet :
        (first : Bool) (xs : List Action) → QuietAt (next first) t xs → QuietAt first s (x ∷ xs)
    pub orderly : (xs : List Action) → Orderly s.chunks_closed (x ∷ xs) → Orderly t.chunks_closed xs
    pub explained : Explained t

  abbrev pub Ended : Stream → End → Type 0
  Ended s (running t) = ⊥
  Ended s drained = (s.chunks ≡ []) × (s.chunks_closed ≡ true)
  Ended s (failed_with e) = Unit
  Ended s unmarshaled = Unit
  Ended s refused = Unit
  Ended s stopped = Unit
  Ended s fell_back = ⊥

  -- What a turn is to do.
  abbrev pub Turned : Stream → Action → Turn → Type 0
  Turned s x (waits t) = Onward [] (λ first. first) s x t
  Turned s x (sends m t) =
      (text : String) × (m ≡ inference_chunk id kind text)
      × Onward ((text, sent) ∷ []) (λ first. false) s x t
  Turned s x (returns ms end) =
      (ms ≡ send_if_any accepted (last_message id c end))
      × Cause whole end
      × Decides x end
      × Ended s end
  Turned s x falls_back = x ≡ grace_ends

  Explained-more :
      (s : Stream) (text : String) (d : Delivery)
      → Memᴰ (emits text d) whole
      → Explained s
      → Explained (record s { chunks = s.chunks ++ (text, d) ∷ [] })
  Explained-more s text d m e = record {
    chunks = Memᴰ-append_one (λ q. Memᴰ (emits q.0 q.1) whole) s.chunks (text, d) e.chunks m;
    chunks_closed = e.chunks_closed;
    errors = e.errors;
    errors_closed = e.errors_closed;
  }

  take_chunk-Turned :
      (s : Stream) (cs : List (String × Delivery)) (closed : Bool)
      → s.chunks ≡ cs
      → s.chunks_closed ≡ closed
      → Explained s
      → Turned s takes_chunk (take_chunk accepted id kind s cs closed)
  unfolding take_chunk send_chunk
  take_chunk-Turned s ((text, sent) ∷ cs) closed q k e = (
    text,
    refl,
    record {
      held = append-nil s.chunks ∙ q;
      counted = rw q refl;
      quiet = λ first xs h. rw q ((λ z. absurd (ground (arith, z))), h);
      orderly = λ xs o. o.1;
      explained = record {
        chunks = λ p m. e.chunks p (subst (Memᴰ p) (sym q) (Memᴰ.tail m));
        chunks_closed = e.chunks_closed;
        errors = e.errors;
        errors_closed = e.errors_closed;
      };
    },
  )
  take_chunk-Turned s ((text, unmarshalable) ∷ cs) closed q k e = (
    refl,
    (text, e.chunks (text, unmarshalable) (subst (Memᴰ _) (sym q) (Memᴰ.head refl))),
    refl,
    tt,
  )
  take_chunk-Turned s ((text, undeliverable) ∷ cs) closed q k e = (
    refl,
    (text, e.chunks (text, undeliverable) (subst (Memᴰ _) (sym q) (Memᴰ.head refl))),
    refl,
    tt,
  )
  take_chunk-Turned s [] true q k e = (refl, e.chunks_closed k, refl, (q, k))
  take_chunk-Turned s [] false q k e = record {
    held = append-nil s.chunks;
    counted = rw q refl;
    quiet = λ first xs h. rw q ((λ z. k), rw q at h);
    orderly = λ xs o. o.1;
    explained = e;
  }

  take_error-Turned :
      (s : Stream) (es : List (Option String)) (closed : Bool)
      → s.errors ≡ es
      → s.errors_closed ≡ closed
      → Explained s
      → Turned s takes_error (take_error accepted id s es closed)
  unfolding take_error
  take_error-Turned s (err ∷ es) closed q k e =
      (refl, inl (e.errors err (subst (Memᴰ err) (sym q) (Memᴰ.head refl))), refl, tt)
  take_error-Turned s [] true q k e = (refl, inr (refl, e.errors_closed k), refl, tt)
  take_error-Turned s [] false q k e = record {
    held = append-nil s.chunks;
    counted = refl;
    quiet = λ first xs h. (ap (λ es. offers_error es s.errors_closed) q ∙ k, h);
    orderly = λ xs o. o.1;
    explained = e;
  }

  pub turn-Turned :
      (s : Stream) (x : Action)
      → Memᴰ x whole
      → Explained s
      → Turned s x (turn accepted id kind s x)
  unfolding turn
  turn-Turned s (emits text d) m e = record {
    held = refl;
    counted = sym (length-append_one s.chunks (text, d));
    quiet = λ first xs h. rw length-append_one at h;
    orderly = λ xs o. o.1;
    explained = Explained-more s text d m e;
  }
  turn-Turned s closes_chunks m e = record {
    held = append-nil s.chunks;
    counted = refl;
    quiet = λ first xs h. h;
    orderly = λ xs o. o.1;
    explained = record {
      chunks = e.chunks;
      chunks_closed = λ k. m;
      errors = e.errors;
      errors_closed = e.errors_closed;
    };
  }
  turn-Turned s (fails err) m e = record {
    held = append-nil s.chunks;
    counted = refl;
    quiet = λ first xs h. rw offers_error-append at h;
    orderly = λ xs o. o.1;
    explained = record {
      chunks = e.chunks;
      chunks_closed = e.chunks_closed;
      errors = Memᴰ-append_one (λ q. Memᴰ (fails q) whole) s.errors err e.errors m;
      errors_closed = e.errors_closed;
    };
  }
  turn-Turned s closes_errors m e = record {
    held = append-nil s.chunks;
    counted = refl;
    quiet = λ first xs h. rw offers_error-closed at h;
    orderly = λ xs o. o.1;
    explained = record {
      chunks = e.chunks;
      chunks_closed = e.chunks_closed;
      errors = e.errors;
      errors_closed = λ k. m;
    };
  }
  turn-Turned s takes_chunk m e = take_chunk-Turned s s.chunks s.chunks_closed refl refl e
  turn-Turned s takes_error m e = take_error-Turned s s.errors s.errors_closed refl refl e
  turn-Turned s cancels m e = (refl, m, refl, tt)
  turn-Turned s grace_ends m e = refl
