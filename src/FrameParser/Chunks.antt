-- ===== src/FrameParser/Chunks.antt =====
-- With a size header the frames do not depend on how the bytes were cut into chunks.
use rsocket_py.Prelude.{
  ℕ, zero, suc, ◌+◌, ◌≤◌, ◌<◌, ◌≡◌, refl, sym, ap, ◌∙◌, inl, inr, true, List, [], ◌∷◌, ◌++◌, Option,
  none, some, Result, ok, err, arith, lt→ltb, ge→ltb, ◌==◌, ◌⊎◌, length, length-append, take, drop,
  take-append_le, drop-append_le, length-take, length-drop, append_assoc,
}
use native.Mathlib.Decide.{dec_le}
use Prim.Native.Nat.{min}
use mathlib.Core.Path.{ap₂}
use rsocket_py.Bytes.{Bytes, unpack, un_be}
use rsocket_py.Frame.Slots.{Frame}
use rsocket_py.Frame.Parse.{parse_or_ignore}
use rsocket_py.FrameParser.{
  Item, Stop, finished, Received, emit, frame_size, receive_loop, receive_data,
}

-- The loop on a buffer whose length is `total`, with the size header of three bytes.
abbrev pub run : ℕ → Bytes → Bytes → Received
run rounds received buffer = receive_loop rounds received 3 buffer (length buffer)

abbrev pub waiting : Bytes → Received
waiting buffer = record { items = []; buffer = buffer; stop = finished }

-- The size that the first three bytes tell.
unfoldable pub size_of : Bytes → ℕ
size_of b = un_be (0 ∷ take 3 b)

frame_size_three : (received b : Bytes) → 3 ≤ length b → frame_size 3 received b ≡ ok (size_of b)
unfolding frame_size unpack size_of
frame_size_three received b h = rw (length-take 3 b, full)
  where
    full : (suc (min 3 (length b)) == 4) ≡ true
    full = ground arith

-- A whole frame stands at the front.
pub record IsWhole (b : Bytes) : Type 0 where
  pub sized : 3 ≤ length b
  pub held : size_of b + 3 ≤ length b

IsWhole-dec :
    (b : Bytes) → IsWhole b ⊎ ((length b < 3) ⊎ ((3 ≤ length b) × (length b < size_of b + 3)))
IsWhole-dec b = elim (dec_le 3 (length b)) [
  | no short ↦ inr (inl (omega arith))
  | yes sized ↦ elim (dec_le (size_of b + 3) (length b)) [
    | yes held ↦ inl (record { sized = sized; held = held })
    | no part ↦ inr (inr (sized, omega arith))
  ]
]

module _ (rounds : ℕ) (received b : Bytes) where
  run_short : length b < 3 → run (suc rounds) received b ≡ waiting b
  unfolding receive_loop
  run_short h = rw (lt→ltb (length b) 3 h)

  run_part : 3 ≤ length b → length b < size_of b + 3 → run (suc rounds) received b ≡ waiting b
  unfolding receive_loop
  run_part sized part = rw (
    ge→ltb (length b) 3 sized,
    frame_size_three received b sized,
    lt→ltb (length b) (size_of b + 3) part,
  )

  pub run_whole :
      IsWhole b
      → run (suc rounds) received b
        ≡ emit
            (parse_or_ignore (take (size_of b) (drop 3 b)))
            (run rounds received (drop (size_of b + 3) b))
  unfolding receive_loop
  run_whole w = rw (
    ge→ltb (length b) 3 w.sized,
    frame_size_three received b w.sized,
    ge→ltb (length b) (size_of b + 3) w.held,
    length-drop (size_of b + 3) b,
  )

  run_wait :
      ((length b < 3) ⊎ ((3 ≤ length b) × (length b < size_of b + 3)))
      → run (suc rounds) received b ≡ waiting b
  run_wait (inl h) = run_short h
  run_wait (inr h) = run_part h.0 h.1

-- The front of a buffer does not change when more bytes come.
module _ (b more : Bytes) (w : IsWhole b) where
  size_of-append : size_of (b ++ more) ≡ size_of b
  unfolding size_of
  size_of-append = rw (take-append_le 3 b more w.sized)

  IsWhole-append : IsWhole (b ++ more)
  IsWhole-append = record {
    sized = omega (arith, length-append b more, w.sized);
    held = omega (arith, length-append b more, size_of-append, w.held);
  }

  front-append : take (size_of (b ++ more)) (drop 3 (b ++ more)) ≡ take (size_of b) (drop 3 b)
  front-append =
      rw (size_of-append, drop-append_le 3 b more w.sized)
        (take-append_le (size_of b) (drop 3 b) more (omega (arith, length-drop 3 b, w.held)))

  rest-append : drop (size_of (b ++ more) + 3) (b ++ more) ≡ drop (size_of b + 3) b ++ more
  rest-append = rw size_of-append (drop-append_le (size_of b + 3) b more w.held)

shrinks : (b : Bytes) (j : ℕ) → IsWhole b → length b < suc j → length (drop (size_of b + 3) b) < j
shrinks b j w h = omega (arith, length-drop (size_of b + 3) b, w.held)

-- Enough rounds are enough, and then the loop has returned.
pub run_fuel :
    (j k : ℕ) (received received' b : Bytes)
    → length b < j
    → length b < k
    → run j received b ≡ run k received' b
run_fuel zero k received received' b hj hk = absurd (omega arith)
run_fuel (suc j) zero received received' b hj hk = absurd (omega arith)
run_fuel (suc j) (suc k) received received' b hj hk = elim (IsWhole-dec b) [
  | inl w ↦
      run_whole j received b w
      ∙ ap (emit (parse_or_ignore (take (size_of b) (drop 3 b)))) (
          run_fuel j k received received' (drop (size_of b + 3) b) (shrinks b j w hj)
            (shrinks b k w hk))
      ∙ sym (run_whole k received' b w)
  | inr h ↦ run_wait j received b h ∙ sym (run_wait k received' b h)
]

emit-stop : (o : Result (Option Frame)) (r : Received) → (emit o r).stop ≡ r.stop
emit-stop (ok none) r = refl
emit-stop (ok (some f)) r = refl
emit-stop (err e) r = refl

emit-buffer : (o : Result (Option Frame)) (r : Received) → (emit o r).buffer ≡ r.buffer
emit-buffer (ok none) r = refl
emit-buffer (ok (some f)) r = refl
emit-buffer (err e) r = refl

-- What was yielded before, in front of what is yielded now.
abbrev pub prepend : List Item → Received → Received
prepend items r = record r { items = items ++ r.items }

emit-prepend :
    (o : Result (Option Frame)) (r z : Received)
    → prepend (emit o r).items z ≡ emit o (prepend r.items z)
emit-prepend (ok none) r z = refl
emit-prepend (ok (some f)) r z = refl
emit-prepend (err e) r z = refl

pub run_finishes :
    (k : ℕ) (received b : Bytes)
    → length b < k
    → ((run k received b).stop ≡ finished) × (length (run k received b).buffer ≤ length b)
run_finishes zero received b h = absurd (omega arith)
run_finishes (suc k) received b h = elim (IsWhole-dec b) [
  | inl w ↦
      let rest = drop (size_of b + 3) b in
      let o = parse_or_ignore (take (size_of b) (drop 3 b)) in
      let (ends, less) = run_finishes k received rest (shrinks b k w h) in
      rw (run_whole k received b w) (
        emit-stop o (run k received rest) ∙ ends,
        rw (emit-buffer o (run k received rest))
            (omega (arith, less, length-drop (size_of b + 3) b)),
      )
  | inr wait ↦ rw (run_wait k received b wait) (refl, omega arith)
]

-- More bytes are parsed behind what was kept of the earlier ones.
pub run-append :
    (k : ℕ) (received b more : Bytes)
    → length (b ++ more) < k
    → run k received (b ++ more)
      ≡ prepend (run k received b).items (run k received ((run k received b).buffer ++ more))
run-append zero received b more h = absurd (omega arith)
run-append (suc k) received b more h = elim (IsWhole-dec b) [
  | inr wait ↦ rw (run_wait k received b wait)
  | inl w ↦
      let rest = drop (size_of b + 3) b in
      let o = parse_or_ignore (take (size_of b) (drop 3 b)) in
      let r = run k received rest in
      let small : length (rest ++ more) < k = omega (
        arith,
        length-append b more,
        length-append rest more,
        length-drop (size_of b + 3) b,
        w.held,
      ) in
      let kept = run_finishes k received rest (omega (arith, small, length-append rest more)) in
      let again : length (r.buffer ++ more) < k =
        omega (arith, small, kept.1, length-append rest more, length-append r.buffer more) in
      run_whole k received (b ++ more) (IsWhole-append b more w)
      ∙ ap₂ (λ (c d : Bytes). emit (parse_or_ignore c) (run k received d)) (front-append b more w)
          (rest-append b more w)
      ∙ ap (emit o) (run-append k received rest more small)
      ∙ sym (emit-prepend o r (run k received (r.buffer ++ more)))
      ∙ ap (prepend (emit o r).items)
          (run_fuel k (suc k) received received (r.buffer ++ more) again (omega arith))
      ∙ rw (run_whole k received b w, emit-buffer o r)
]

-- Two chunks give the frames of their concatenation, and leave the same bytes in the buffer: what
-- the second call yields follows what the first has yielded, and both calls return.
pub receive_data-append :
    (rounds : ℕ) (buffer chunk more : Bytes)
    → length (buffer ++ (chunk ++ more)) < rounds
    → let first = receive_data rounds buffer chunk 3 in
      let second = receive_data rounds first.buffer more 3 in
      (first.stop ≡ finished)
      × (second.stop ≡ finished)
      × (receive_data rounds buffer (chunk ++ more) 3
          ≡ record { items = first.items ++ second.items; buffer = second.buffer; stop = finished })
unfolding receive_data
receive_data-append rounds buffer chunk more h =
    let b = buffer ++ chunk in
    let fits : length (b ++ more) < rounds = rw (append_assoc buffer chunk more) h in
    let one = run_finishes rounds chunk b (omega (arith, length-append b more)) in
    let r = run rounds chunk b in
    let again : length (r.buffer ++ more) < rounds =
      omega (arith, length-append b more, length-append r.buffer more, one.1) in
    let two = run_finishes rounds more (r.buffer ++ more) again in
    (
      one.0,
      two.0,
      ap (run rounds (chunk ++ more)) (sym (append_assoc buffer chunk more))
          ∙ run_fuel rounds rounds (chunk ++ more) chunk (b ++ more) fits fits
          ∙ run-append rounds chunk b more fits
          ∙ ap (prepend r.items) (run_fuel rounds rounds chunk more (r.buffer ++ more) again again)
          ∙ ap
              (λ (s : Stop). record {
                items = r.items ++ (run rounds more (r.buffer ++ more)).items;
                buffer = (run rounds more (r.buffer ++ more)).buffer;
                stop = s;
              })
              two.0,
    )
