-- ===== src/Connection/SetupFirst.antt =====
-- The setup frame goes out before everything that waits.
use rsocket_py.Prelude.{
  ℕ, ◌≡◌, refl, sym, ap, ◌∙◌, Bool, true, false, ◌&&◌, Option, none, some, List, [], ◌∷◌, ◌++◌,
  append_assoc, append-nil, if◌then◌else◌,
}
use rsocket_py.Bytes.{Bytes}
use rsocket_py.Frame.Slots.{Frame}
use rsocket_py.Frame.Fragmenting.{is_fragmentable_frame}
use rsocket_py.FrameBuilders.{Payload, to_setup_frame}
use rsocket_py.Connection.{Source, source, Socket}
use rsocket_py.Connection.Sending.{put_each, send_priority_frame, connect}
use rsocket_py.Connection.Sender.{sending, get_next_frame_to_send}

put_each_lem : (items queue : List Source) → put_each items queue ≡ queue ++ items
unfolding put_each
put_each_lem [] queue = sym (append-nil queue)
put_each_lem (item ∷ items) queue =
    put_each_lem items (queue ++ (item ∷ [])) ∙ append_assoc queue (item ∷ []) items

module _ {ℓ} {A : Type ℓ} where
  -- A priority frame goes in front of the queue, which stays in order.
  pub send_priority_frame_first :
      (f : Frame) (s : Socket A) → (send_priority_frame f s).send_queue ≡ source f ∷ s.send_queue
  unfolding send_priority_frame
  send_priority_frame_first f s =
      put_each_lem (put_each s.send_queue []) (source f ∷ [])
      ∙ ap (λ (q : List Source). source f ∷ q) (put_each_lem s.send_queue [])

setup_whole :
    (payload : Option Payload) (data_encoding metadata_encoding : Bytes) (keep_alive lifetime : ℕ)
    (honor : Bool)
    → is_fragmentable_frame
        (to_setup_frame payload data_encoding metadata_encoding keep_alive lifetime honor)
      ≡ false
unfolding is_fragmentable_frame to_setup_frame
setup_whole none data_encoding metadata_encoding keep_alive lifetime honor = refl
setup_whole (some p) data_encoding metadata_encoding keep_alive lifetime honor = refl

whole_first :
    (rounds : ℕ) (required : Bool) (f : Frame) (queue : List Source)
    → is_fragmentable_frame f ≡ false
    → get_next_frame_to_send rounds required (source f ∷ queue) ≡ (queue, sending f)
unfolding get_next_frame_to_send
whole_first rounds required f queue e = rw e refl

module _ {ℓ} {A : Type ℓ} (subscribe_to_lease_publisher : Socket A → Socket A)
    (subscribe_appends : (s : Socket A)
      → (more : List Source) × ((subscribe_to_lease_publisher s).send_queue
          ≡ s.send_queue ++ more)) where
  connected :
      (b : Bool) (s : Socket A)
      → (more : List Source) × ((if b then subscribe_to_lease_publisher s else s).send_queue
          ≡ s.send_queue ++ more)
  connected true s = subscribe_appends s
  connected false s = ([], sym (append-nil s.send_queue))

  -- If a subscription to the leases only puts frames behind the others, then after `connect` the
  -- next frame that the sender gives the transport is the setup frame, whatever the queue held, and
  -- what the queue held follows in its order.
  pub connect_setup_first :
      (rounds : ℕ) (required : Bool) (data_encoding metadata_encoding : Bytes)
      (payload : Option Payload) (keep_alive lifetime : ℕ) (s : Socket A)
      → (more : List Source) × (get_next_frame_to_send rounds required
            (connect subscribe_to_lease_publisher data_encoding metadata_encoding payload keep_alive
              lifetime s).send_queue
          ≡ (
            s.send_queue ++ more,
            sending (
                to_setup_frame payload data_encoding metadata_encoding keep_alive lifetime
                  s.honor_lease),
          ))
  unfolding connect send_priority_frame
  connect_setup_first rounds required data_encoding metadata_encoding payload keep_alive lifetime
        s =
      let setup =
        to_setup_frame payload data_encoding metadata_encoding keep_alive lifetime s.honor_lease in
      let (more, appended) =
        connected (s.honor_lease && s.has_lease_publisher) (send_priority_frame setup s) in
      (
        more,
        ap (get_next_frame_to_send rounds required)
              (appended ∙ ap (λ (q : List Source). q ++ more) (send_priority_frame_first setup s))
            ∙ whole_first rounds required setup (s.send_queue ++ more) (
                setup_whole payload data_encoding metadata_encoding keep_alive lifetime
                  s.honor_lease),
      )
