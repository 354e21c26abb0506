-- ===== src/RequestChannel/Marks.antt =====
-- The operations of the shared part, each on its own, close the sides of a channel one by one.
use rsocket_py.Prelude.{
  ◌≡◌, refl, sym, ◌∙◌, Bool, true, false, ◌&&◌, ◌||◌, Option, none, some, List, [], ◌∷◌, Error,
  ◌>>=◌, Result, ok, err,
}
use rsocket_py.Frame.Slots.{Body, Frame}
use rsocket_py.Frame.Serialize.{bytes_of}
use rsocket_py.Frame.Errors.{error_frame_to_exception}
use rsocket_py.FrameBuilders.{Payload}
use rsocket_py.RequestChannel.{
  Channel, Effect, Outcome, finish_stream, after, error_on_remote, finish_if_both_closed,
  mark_received, mark_sent, received, received_payload, on_next, dispose,
  complete_remote_subscriber, subscribe,
}

abbrev pub finishes : Effect → Bool
finishes finish_stream = true
finishes e = false

-- Whether the stream is finished by one of the effects.
abbrev pub is_finished : List Effect → Bool
is_finished [] = false
is_finished (e ∷ es) = finishes e || is_finished es

-- No side that was closed is open again; the stream is finished only when both sides are closed,
-- and it is finished when the operation has closed the second side.
pub record Closes (c : Channel) (o : Outcome) : Type 0 where
  pub still_sent : c.sent_complete ≡ true → o.0.sent_complete ≡ true
  pub still_received : c.received_complete ≡ true → o.0.received_complete ≡ true
  pub finished_closed :
      is_finished o.1 ≡ true → (o.0.sent_complete ≡ true) × (o.0.received_complete ≡ true)
  pub closed_finished :
      (c.sent_complete && c.received_complete) ≡ false
      → (o.0.sent_complete && o.0.received_complete) ≡ true
      → is_finished o.1 ≡ true

-- A channel by its slots.
abbrev pub with_slots : Bool → Bool → Option Bool → Bool → Bool → Channel
with_slots s r sub remote done = record {
  sent_complete = s;
  received_complete = r;
  subscriber = sub;
  has_remote_subscriber = remote;
  has_sending_done = done;
}

pub mark_received_at :
    (s r : Bool) (sub : Option Bool) (remote done : Bool)
    → Closes (with_slots s r sub remote done) (mark_received (with_slots s r sub remote done))
unfolding mark_received finish_if_both_closed
mark_received_at true r sub remote done = record {
  still_sent = λ h. h;
  still_received = λ h. refl;
  finished_closed = λ h. (refl, refl);
  closed_finished = λ h k. refl;
}
mark_received_at false r sub remote done = record {
  still_sent = λ h. h;
  still_received = λ h. refl;
  finished_closed = λ h. cc h;
  closed_finished = λ h k. k;
}

pub mark_sent_at :
    (s r : Bool) (sub : Option Bool) (remote done : Bool)
    → Closes (with_slots s r sub remote done) (mark_sent (with_slots s r sub remote done))
unfolding mark_sent finish_if_both_closed
mark_sent_at s true sub remote true = record {
  still_sent = λ h. refl;
  still_received = λ h. h;
  finished_closed = λ h. (refl, refl);
  closed_finished = λ h k. refl;
}
mark_sent_at s true sub remote false = record {
  still_sent = λ h. refl;
  still_received = λ h. h;
  finished_closed = λ h. (refl, refl);
  closed_finished = λ h k. refl;
}
mark_sent_at s false sub remote true = record {
  still_sent = λ h. refl;
  still_received = λ h. h;
  finished_closed = λ h. cc h;
  closed_finished = λ h k. k;
}
mark_sent_at s false sub remote false = record {
  still_sent = λ h. refl;
  still_received = λ h. h;
  finished_closed = λ h. cc h;
  closed_finished = λ h k. k;
}

pub mark_received-Closes : (c : Channel) → Closes c (mark_received c)
mark_received-Closes c =
    mark_received_at c.sent_complete c.received_complete c.subscriber c.has_remote_subscriber
      c.has_sending_done

pub mark_sent-Closes : (c : Channel) → Closes c (mark_sent c)
mark_sent-Closes c =
    mark_sent_at c.sent_complete c.received_complete c.subscriber c.has_remote_subscriber
      c.has_sending_done

-- Effects that do not finish the stream, in front of others.
pub after-Closes :
    (c : Channel) (e : Effect) (o : Outcome)
    → finishes e ≡ false
    → Closes c o
    → Closes c (after (e ∷ []) o)
after-Closes c e o h k = record {
  still_sent = k.still_sent;
  still_received = k.still_received;
  finished_closed = λ p. k.finished_closed (sym (without h) ∙ p);
  closed_finished = λ p q. without h ∙ k.closed_finished p q;
}
  where
    without : finishes e ≡ false → (finishes e || is_finished o.1) ≡ is_finished o.1
    without h = rw h

pub unmarked : (c : Channel) (es : List Effect) → is_finished es ≡ false → Closes c (c, es)
unmarked c es h = record {
  still_sent = λ p. p;
  still_received = λ p. p;
  finished_closed = λ p. cc (h, p);
  closed_finished = λ p q. cc (p, q);
}

-- What a result is, if it is one.
abbrev pub OnOk : (Outcome → Type 0) → Result Outcome → Type 0
OnOk P (ok o) = P o
OnOk P (err e) = Unit

pub OnOk-ok : (P : Outcome → Type 0) (r : Result Outcome) (o : Outcome) → OnOk P r → r ≡ ok o → P o
OnOk-ok P r o h e = rw e at h

pub received_payload_at :
    (next complete : Bool) (f : Frame) (s r : Bool) (sub : Option Bool) (remote done : Bool)
    → OnOk
        (Closes (with_slots s r sub remote done))
        (received_payload next complete f (with_slots s r sub remote done))
received_payload_at true true f s r sub true done =
    after-Closes _ _ _ refl (mark_received_at s r sub true done)
received_payload_at true false f s r sub true done = unmarked _ _ refl
received_payload_at true complete f s r sub false done = tt
received_payload_at false true f s r sub true done =
    after-Closes _ _ _ refl (mark_received_at s r sub true done)
received_payload_at false true f s r sub false done = tt
received_payload_at false false f s r sub remote done = unmarked _ _ refl

error-Closes :
    (exception : Result Error) (s r : Bool) (sub : Option Bool) (done : Bool)
    → let c = with_slots s r sub true done in
      OnOk (Closes c) (error_on_remote c exception >>= λ es. ok (after es (mark_received c)))
error-Closes (ok e) s r sub done = after-Closes _ _ _ refl (mark_received_at s r sub true done)
error-Closes (err e) s r sub done = tt

pub received_at :
    (b : Body) (f : Frame) (s r : Bool) (sub : Option Bool) (remote done : Bool)
    → OnOk (Closes (with_slots s r sub remote done)) (received b f (with_slots s r sub remote done))
received_at Body.cancel f s r (some true) remote done =
    after-Closes _ _ _ refl (mark_sent_at s r (some true) remote done)
received_at Body.cancel f s r (some false) remote done = tt
received_at Body.cancel f s r none remote done = tt
received_at (Body.request_n n) f s r (some true) remote done = unmarked _ _ refl
received_at (Body.request_n n) f s r (some false) remote done = unmarked _ _ refl
received_at (Body.request_n n) f s r none remote done = tt
received_at (Body.payload next) f s r sub remote done =
    received_payload_at next f.flags_complete f s r sub remote done
received_at (Body.error code) f s r sub true done =
    error-Closes (error_frame_to_exception code (bytes_of f.data_bytes)) s r sub done
received_at (Body.error code) f s r sub false done = tt
received_at b f s r sub remote done = unmarked _ _ refl

pub on_next-Closes :
    (p : Payload) (is_complete : Bool) (c : Channel) → Closes c (on_next p is_complete c)
unfolding on_next
on_next-Closes p true c = after-Closes c _ _ refl (mark_sent-Closes c)
on_next-Closes p false c = unmarked c _ refl

pub dispose_at :
    (s r : Bool) (sub : Option Bool) (remote done : Bool)
    → Closes (with_slots s r sub remote done) (dispose (with_slots s r sub remote done))
unfolding dispose
dispose_at s r (some true) remote done = unmarked _ _ refl
dispose_at s r (some false) remote done = unmarked _ _ refl
dispose_at s r none remote done = unmarked _ _ refl

pub remote_at :
    (s r : Bool) (sub : Option Bool) (remote done : Bool)
    → Closes
        (with_slots s r sub remote done)
        (complete_remote_subscriber (with_slots s r sub remote done))
unfolding complete_remote_subscriber
remote_at s r sub true done = after-Closes _ _ _ refl (mark_received_at s r sub true done)
remote_at s r sub false done = mark_received_at s r sub false done

pub subscribe-Closes : (there : Bool) (c : Channel) → Closes c (subscribe there c)
unfolding subscribe
subscribe-Closes true c = record {
  still_sent = λ p. p;
  still_received = λ p. p;
  finished_closed = λ p. cc p;
  closed_finished = λ p q. cc (p, q);
}
subscribe-Closes false c = mark_received-Closes c
