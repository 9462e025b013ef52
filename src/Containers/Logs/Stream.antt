-- ===== src/Containers/Logs/Stream.antt =====
-- The life of a stream. Two tasks run side by side: one feeds what `tail` prints to the socket, the
-- other reads the socket. The first that ends cancels the group, as does the cancellation of the
-- handler; then the process is killed, unless it ended before. A task does what it does with one item
-- without a break.
use mathlib.Core.List.{append-nil, append_assoc}
use mathlib.Core.Path.{subst}
use node_debug_dashboard.Prelude.{
  ◌⊎◌, inl, inr, Bool-cases, text_eq_iff, ◌≡◌, refl, arith, Bool, true, false, not, ◌||◌, List, [],
  ◌∷◌, ◌++◌, if◌then◌else◌, any, Text, lit, text_eq, ap, sym, ◌∙◌, All,
}

-- What the process's output gives to the first task: a line that is sent, a line that cannot be
-- sent, since the client is gone, or the end.
pub data TailOutput : Type 0 where
  line : Text → TailOutput
  unsent_line : Text → TailOutput
  end_of_output : TailOutput

-- What happens to a stream: to the first task; to the second one, a message of this type or an
-- exception; the cancellation of the handler; and the end of the process.
pub data StreamEvent : Type 0 where
  pumped : TailOutput → StreamEvent
  received : Text → StreamEvent
  receive_failed cancelled exited : StreamEvent

pub record Stream : Type 0 where
  pub sent : List Text
  pub is_open : Bool
  pub has_exited : Bool
  pub killed : Bool

abbrev pub opened : Stream
opened = record { sent = []; is_open = true; has_exited = false; killed = false }

-- The `finally` block.
unfoldable pub release_stream : Stream → Stream
release_stream s = record s { is_open = false; killed = not s.has_exited }

-- What a task does after one item: it goes on, or it cancels the group, which leaves the `try`.
unfoldable pub after_item : Bool → Stream → Stream
unfolding release_stream
after_item goes_on s = if goes_on then s else release_stream s

-- One round of `pump`.
unfoldable pub pump : TailOutput → Stream → Stream
unfolding after_item
pump (line t) s = after_item true (record s { sent = s.sent ++ t ∷ [] })
pump (unsent_line t) s = after_item false s
pump end_of_output s = after_item false s

-- One round of `until_disconnect`.
unfoldable pub until_disconnect : Text → Stream → Stream
unfolding after_item lit
until_disconnect kind s = after_item (not (text_eq kind (lit "websocket.disconnect"))) s

-- An event of a stream whose tasks run.
unfoldable pub on_event : StreamEvent → Stream → Stream
unfolding pump until_disconnect release_stream
on_event (pumped o) s = pump o s
on_event (received kind) s = until_disconnect kind s
on_event receive_failed s = after_item false s
on_event cancelled s = release_stream s
on_event exited s = record s { has_exited = true }

-- A stream that was released stays as it is.
unfoldable pub stream_step : StreamEvent → Stream → Stream
unfolding on_event
stream_step e s = if s.is_open then on_event e s else s

unfoldable pub run_stream : List StreamEvent → Stream → Stream
unfolding stream_step
run_stream [] s = s
run_stream (e ∷ es) s = run_stream es (stream_step e s)

-- The lines that are sent among some events.
abbrev pub lines_of : List StreamEvent → List Text
lines_of [] = []
lines_of (pumped (line t) ∷ es) = t ∷ lines_of es
lines_of (_ ∷ es) = lines_of es

abbrev pub is_exit : StreamEvent → Bool
is_exit exited = true
is_exit _ = false

-- The events that a stream outlives: a line, a message other than the disconnection, and the end of
-- the process, whose output may not be read yet.
pub data GoesOn : StreamEvent → Type 0 where
  a_line : (t : Text) → GoesOn (pumped (line t))
  a_message :
      (kind : Text) → text_eq kind (lit "websocket.disconnect") ≡ false → GoesOn (received kind)
  an_exit : GoesOn exited

-- The events that end it.
pub data Ends : StreamEvent → Type 0 where
  an_unsent_line : (t : Text) → Ends (pumped (unsent_line t))
  the_end_of_output : Ends (pumped end_of_output)
  a_disconnection : Ends (received (lit "websocket.disconnect"))
  a_failure : Ends receive_failed
  a_cancellation : Ends cancelled

-- An event is one or the other.
pub StreamEvent-cases : (e : StreamEvent) → GoesOn e ⊎ Ends e
StreamEvent-cases (pumped (line t)) = inl (a_line t)
StreamEvent-cases (pumped (unsent_line t)) = inr (an_unsent_line t)
StreamEvent-cases (pumped end_of_output) = inr the_end_of_output
StreamEvent-cases (received kind) = elim (Bool-cases (text_eq kind (lit "websocket.disconnect"))) [
  | inr other ↦ inl (a_message kind other)
  | inl same ↦ inr (
      subst (λ t. Ends (received t)) (sym ((text_eq_iff kind (lit "websocket.disconnect")).0 same))
        a_disconnection)
]
StreamEvent-cases receive_failed = inr a_failure
StreamEvent-cases cancelled = inr a_cancellation
StreamEvent-cases exited = inl an_exit

-- The state that a stream is in after events that it outlives.
record Outlived (es : List StreamEvent) (s s' : Stream) : Type 0 where
  still_open : s'.is_open ≡ true
  lines_sent : s'.sent ≡ s.sent ++ lines_of es
  exit_seen : s'.has_exited ≡ (s.has_exited || any is_exit es)
  not_killed : s'.killed ≡ s.killed

Outlived-step :
    {e : StreamEvent} (s : Stream)
    → GoesOn e
    → s.is_open ≡ true
    → Outlived (e ∷ []) s (stream_step e s)
unfolding stream_step on_event pump until_disconnect after_item
Outlived-step s (a_line t) h = record {
  still_open = ground (arith, h);
  lines_sent = ground (arith, h);
  exit_seen = ground (arith, h);
  not_killed = ground (arith, h);
}
Outlived-step s (a_message kind other) h = record {
  still_open = ground (arith, h, other);
  lines_sent = ground (arith, h, other, append-nil s.sent);
  exit_seen = ground (arith, h, other);
  not_killed = ground (arith, h, other);
}
Outlived-step s an_exit h = record {
  still_open = ground (arith, h);
  lines_sent = ground (arith, h, append-nil s.sent);
  exit_seen = ground (arith, h);
  not_killed = ground (arith, h);
}

lines_of-cons :
    (e : StreamEvent) (es : List StreamEvent) → lines_of (e ∷ es) ≡ lines_of (e ∷ []) ++ lines_of es
lines_of-cons (pumped (line t)) es = refl
lines_of-cons (pumped (unsent_line t)) es = refl
lines_of-cons (pumped end_of_output) es = refl
lines_of-cons (received kind) es = refl
lines_of-cons receive_failed es = refl
lines_of-cons cancelled es = refl
lines_of-cons exited es = refl

run_stream-Outlived :
    (es : List StreamEvent) (s : Stream)
    → All GoesOn es
    → s.is_open ≡ true
    → Outlived es s (run_stream es s)
unfolding run_stream
run_stream-Outlived [] s g h = record {
  still_open = h;
  lines_sent = sym (append-nil s.sent);
  exit_seen = ground arith;
  not_killed = refl;
}
run_stream-Outlived (e ∷ es) s (g, gs) h =
    let first = Outlived-step s g h in
    let rest = run_stream-Outlived es (stream_step e s) gs first.still_open in
    record {
      still_open = rest.still_open;
      lines_sent =
          rest.lines_sent
          ∙ ap (λ x. x ++ lines_of es) first.lines_sent
          ∙ append_assoc s.sent (lines_of (e ∷ [])) (lines_of es)
          ∙ ap (λ x. s.sent ++ x) (sym (lines_of-cons e es));
      exit_seen = ground (arith, rest.exit_seen, first.exit_seen);
      not_killed = rest.not_killed ∙ first.not_killed;
    }

run_stream-append :
    (es fs : List StreamEvent) (s : Stream)
    → run_stream (es ++ fs) s ≡ run_stream fs (run_stream es s)
unfolding run_stream
run_stream-append [] fs s = refl
run_stream-append (e ∷ es) fs s = run_stream-append es fs (stream_step e s)

run_stream-closed : (es : List StreamEvent) (s : Stream) → s.is_open ≡ false → run_stream es s ≡ s
unfolding run_stream stream_step
run_stream-closed [] s h = refl
run_stream-closed (e ∷ es) s h =
    ap (λ b. run_stream es (if b then on_event e s else s)) h ∙ run_stream-closed es s h

stream_step-Ends :
    {e : StreamEvent} (s : Stream) → Ends e → s.is_open ≡ true → stream_step e s ≡ release_stream s
unfolding stream_step on_event pump until_disconnect after_item text_eq lit
stream_step-Ends s (an_unsent_line t) h = rw h refl
stream_step-Ends s the_end_of_output h = rw h refl
stream_step-Ends s a_disconnection h = rw h refl
stream_step-Ends s a_failure h = rw h refl
stream_step-Ends s a_cancellation h = rw h refl

release_stream-closed :
    (s : Stream)
    → ((release_stream s).is_open ≡ false)
      × ((release_stream s).sent ≡ s.sent)
      × ((release_stream s).killed ≡ not s.has_exited)
unfolding release_stream
release_stream-closed s = (refl, refl, refl)

run_stream-Ends :
    {e : StreamEvent} (after : List StreamEvent) (s : Stream)
    → Ends e
    → s.is_open ≡ true
    → run_stream (e ∷ after) s ≡ release_stream s
unfolding run_stream
run_stream-Ends after s ends h =
    ap (run_stream after) (stream_step-Ends s ends h)
    ∙ run_stream-closed after (release_stream s) (release_stream-closed s).0

-- While only lines, other messages and the end of the process happen, the stream stays open, it has
-- sent the lines in order, and the process was not killed.
pub run_stream-GoesOn :
    (es : List StreamEvent)
    → All GoesOn es
    → ((run_stream es opened).is_open ≡ true)
      × ((run_stream es opened).sent ≡ lines_of es)
      × ((run_stream es opened).killed ≡ false)
run_stream-GoesOn es g =
    let o = run_stream-Outlived es opened g refl in (o.still_open, o.lines_sent, o.not_killed)

-- A stream to which first lines, other messages and the end of the process happen, and then an event
-- that ends it (a line that cannot be sent, the end of the output, the client's disconnection, a
-- failure to receive, or the cancellation of the handler), whatever comes after: it is released, the
-- lines that were sent are those from before that event, in order, and the process was killed exactly
-- if it had not ended by then.
pub run_stream-releases :
    (before : List StreamEvent) (e : StreamEvent) (after : List StreamEvent)
    → All GoesOn before
    → Ends e
    → ((run_stream (before ++ e ∷ after) opened).is_open ≡ false)
      × ((run_stream (before ++ e ∷ after) opened).sent ≡ lines_of before)
      × ((run_stream (before ++ e ∷ after) opened).killed ≡ not (any is_exit before))
run_stream-releases before e after g ends =
    let o = run_stream-Outlived before opened g refl in
    let final : run_stream (before ++ e ∷ after) opened
        ≡ release_stream (run_stream before opened) =
      run_stream-append before (e ∷ after) opened
      ∙ run_stream-Ends after (run_stream before opened) ends o.still_open in
    let (closed, kept, judged) = release_stream-closed (run_stream before opened) in
    (
      ap (λ (s : Stream). s.is_open) final ∙ closed,
      ap (λ (s : Stream). s.sent) final ∙ kept ∙ o.lines_sent,
      ap (λ (s : Stream). s.killed) final ∙ judged ∙ ap not o.exit_seen,
    )
