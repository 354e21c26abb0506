-- ===== src/RequestChannel/Closing.antt =====
-- When a channel finishes its stream.
use rsocket_py.Prelude.{
  ◌≡◌, refl, sym, ap, ◌∙◌, ◌⊎◌, inl, inr, ℕ, zero, suc, ◌++◌, Bool-cases, if◌then◌else◌, Bool, true,
  false, ◌&&◌, ◌||◌, Option, none, some, List, [], ◌∷◌,
}
use rsocket_py.Bytes.{pos, negsuc}
use rsocket_py.Frame.Slots.{Body, Frame}
use rsocket_py.RequestChannel.{
  Channel, Effect, Outcome, frame_received, on_complete, on_error, complete_remote_subscriber,
  subscribe, cancel, request, Step, frame_step, next_step, complete_step, error_step, dispose_step,
  remote_step, subscribe_step, cancel_step, request_step, initial_step, initial_request_n,
  finish_stream, requester_step, responder_step, setup, and_then, RequestChannelRequester,
  send_channel_request, without_publisher, requester_subscribe, opened, request_received,
  responder_received, responder_frame_received,
}
use rsocket_py.RequestChannel.Marks.{
  finishes, is_finished, Closes, mark_received-Closes, mark_sent-Closes, after-Closes, unmarked,
  OnOk, OnOk-ok, received_at, on_next-Closes, dispose_at, remote_at, subscribe-Closes,
}

or_split : (a b : Bool) → (a || b) ≡ true → (a ≡ true) ⊎ (b ≡ true)
or_split true b e = inl refl
or_split false b e = inr e

or_right : (a b : Bool) → b ≡ true → (a || b) ≡ true
or_right true b e = refl
or_right false b e = e

is_finished-append :
    (es fs : List Effect) → is_finished (es ++ fs) ≡ (is_finished es || is_finished fs)
is_finished-append [] fs = refl
is_finished-append (e ∷ es) fs =
    ap (λ (b : Bool). finishes e || b) (is_finished-append es fs)
    ∙ or_assoc (finishes e) (is_finished es) (is_finished fs)
  where
    or_assoc : (a b c : Bool) → (a || (b || c)) ≡ ((a || b) || c)
    or_assoc true b c = refl
    or_assoc false b c = refl

-- One method behind another.
and_then-Closes :
    (c : Channel) (o : Outcome) (f : Channel → Outcome)
    → Closes c o
    → Closes o.0 (f o.0)
    → Closes c (and_then o f)
and_then-Closes c o f h k =
    let both = is_finished-append o.1 (f o.0).1 in
    record {
      still_sent = λ p. k.still_sent (h.still_sent p);
      still_received = λ p. k.still_received (h.still_received p);
      finished_closed = λ p. elim (or_split (is_finished o.1) _ (sym both ∙ p)) [
        | inl first ↦
            let closed = h.finished_closed first in
            (k.still_sent closed.0, k.still_received closed.1)
        | inr second ↦ k.finished_closed second
      ];
      closed_finished = λ p q. elim (Bool-cases (o.0.sent_complete && o.0.received_complete)) [
        | inl first ↦
            both ∙ ap (λ (b : Bool). b || is_finished (f o.0).1) (h.closed_finished p first)
        | inr second ↦ both ∙ or_right _ _ (k.closed_finished second q)
      ];
    }

setup-Closes : (publisher : Option Bool) (c : Channel) → Closes c (setup publisher c)
setup-Closes none c = record {
  still_sent = λ p. p;
  still_received = λ p. p;
  finished_closed = λ p. cc p;
  closed_finished = λ p q. cc (p, q);
}
setup-Closes (some b) c = record {
  still_sent = λ p. p;
  still_received = λ p. p;
  finished_closed = λ p. cc p;
  closed_finished = λ p q. cc (p, q);
}

without_publisher-Closes :
    (publisher : Option Bool) (c : Channel) → Closes c (without_publisher publisher c)
without_publisher-Closes none c = mark_sent-Closes c
without_publisher-Closes (some b) c = unmarked c [] refl

requester_subscribe-Closes :
    (r : RequestChannelRequester) (there : Bool) (c : Channel)
    → Closes c (requester_subscribe r there c)
unfolding requester_subscribe send_channel_request
requester_subscribe-Closes r there c =
    let first =
      and_then-Closes c _ (subscribe there) (setup-Closes r.publisher c)
        (subscribe-Closes there _) in
    let second = and_then-Closes c _ (send_channel_request r) first (unmarked _ _ refl) in
    and_then-Closes c _ (without_publisher r.publisher) second
      (without_publisher-Closes r.publisher _)

opened-Closes : (n : ℕ) (subscriber : Option Bool) (c : Channel) → Closes c (opened n subscriber c)
opened-Closes n (some true) c = unmarked c _ refl
opened-Closes n (some false) c = after-Closes c _ _ refl (mark_sent-Closes c)
opened-Closes n none c = after-Closes c _ _ refl (mark_sent-Closes c)

remote-Closes : (c : Channel) → Closes c (complete_remote_subscriber c)
remote-Closes c =
    remote_at c.sent_complete c.received_complete c.subscriber c.has_remote_subscriber
      c.has_sending_done

completed-Closes :
    (complete : Bool) (c : Channel)
    → Closes c (if complete then complete_remote_subscriber c else (c, []))
completed-Closes true c = remote-Closes c
completed-Closes false c = unmarked c [] refl

request_received-Closes :
    (publisher : Option Bool) (n : ℕ) (complete : Bool) (c : Channel)
    → Closes c (request_received publisher n complete c)
request_received-Closes publisher n complete c =
    let first =
      and_then-Closes c _ (λ c'. opened n c'.subscriber c') (setup-Closes publisher c)
        (opened-Closes n _ _) in
    and_then-Closes c _ (λ c'. if complete then complete_remote_subscriber c' else (c', [])) first
      (completed-Closes complete _)

frame-Closes : (f : Frame) (c : Channel) → OnOk (Closes c) (frame_received f c)
unfolding frame_received
frame-Closes f c =
    received_at f.body f c.sent_complete c.received_complete c.subscriber c.has_remote_subscriber
      c.has_sending_done

responder-Closes :
    (publisher : Option Bool) (b : Body) (f : Frame) (c : Channel)
    → OnOk (Closes c) (responder_received publisher b f c)
responder-Closes publisher (Body.request_channel n) f c =
    request_received-Closes publisher n f.flags_complete c
responder-Closes publisher b f c = frame-Closes f c

-- What a step does: it closes sides as `Closes` says, but a number for the initial request that is not
-- positive finishes the stream and leaves the channel as it is.
abbrev pub Closing : {c : Channel} {o : Outcome} → Step c o → Type 0
Closing {c = c} (initial_step (pos zero)) = initial_request_n (pos zero) c ≡ (c, finish_stream ∷ [])
Closing {c = c} (initial_step (negsuc n)) = initial_request_n (negsuc n) c ≡ (c, finish_stream ∷ [])
Closing {c = c} {o = o} s = Closes c o

-- Every step of a channel, but an initial request number that is not positive, keeps closed sides
-- closed, finishes the stream only when both sides are closed, and finishes it when it has closed the
-- second side; such a number finishes the stream whatever sides are open, and changes no side.
pub Step-Closes : (c : Channel) {o : Outcome} (s : Step c o) → Closing s
unfolding initial_request_n on_complete on_error cancel request responder_frame_received
Step-Closes c (frame_step f o e) = OnOk-ok (Closes c) (frame_received f c) o (frame-Closes f c) e
Step-Closes c (next_step p is_complete) = on_next-Closes p is_complete c
Step-Closes c complete_step = after-Closes c _ _ refl (mark_sent-Closes c)
Step-Closes c (error_step exception) = after-Closes c _ _ refl (mark_sent-Closes c)
Step-Closes c dispose_step =
    dispose_at c.sent_complete c.received_complete c.subscriber c.has_remote_subscriber
      c.has_sending_done
Step-Closes c remote_step = remote-Closes c
Step-Closes c (subscribe_step there) = subscribe-Closes there c
Step-Closes c cancel_step = after-Closes c _ _ refl (mark_received-Closes c)
Step-Closes c (request_step n) = unmarked c _ refl
Step-Closes c (initial_step (pos (suc n))) = unmarked c [] refl
Step-Closes c (initial_step (pos zero)) = refl
Step-Closes c (initial_step (negsuc n)) = refl
Step-Closes c (requester_step r there) = requester_subscribe-Closes r there c
Step-Closes c (responder_step publisher f o e) =
    OnOk-ok (Closes c) (responder_received publisher f.body f c) o
      (responder-Closes publisher f.body f c) e
