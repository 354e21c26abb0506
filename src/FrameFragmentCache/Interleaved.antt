-- ===== src/FrameFragmentCache/Interleaved.antt =====
-- Fragments of several streams, received in any interleaving.
use native.Mathlib.Omega.{arith}
use rsocket_py.Prelude.{
  ℕ, ◌≡◌, refl, sym, ap, ◌∙◌, subst, inl, inr, Bool, true, false, Option, none, some, List, [], ◌∷◌,
  cons_if, Result, ok, err, ◌>>=◌, Result-cases, ◌==◌, ==_iff, if◌then◌else◌, Bool-cases,
}
use rsocket_py.Frame.Slots.{Frame}
use rsocket_py.FrameFragmentCache.{Cache, append_all, completed}
use rsocket_py.FrameFragmentCache.Reassembly.{same_id}
use rsocket_py.FrameFragmentCache.Slot.{
  append_slot, append_slot_all, HasStream, Matches, append-Matches,
}

-- The frames of one stream among some frames.
abbrev pub on_stream : ℕ → List Frame → List Frame
on_stream i [] = []
on_stream i (f ∷ fs) = cons_if (f.stream_id == i) f (on_stream i fs)

-- Each cached frame is a frame of its stream.
abbrev pub IsKeyed : Cache → Type 0
IsKeyed c = (i : ℕ) → HasStream i (c i)

abbrev pub IsOk {ℓ} : {A : Type ℓ} → Result A → Type ℓ
IsOk {A = A} r = (a : A) × (r ≡ ok a)

-- Behind the first frame of a run of one slot.
abbrev pub then_slot :
    List Frame → Result (Option Frame × Option Frame) → Result (Option Frame × List Frame)
then_slot fs r = r >>= λ (slot, complete).
    append_slot_all slot fs >>= λ (slot', rest). ok (slot', completed complete rest)

-- The frames of the stream of a completed frame.
on_stream-completed :
    (id i : ℕ) (o : Option Frame) (fs : List Frame)
    → HasStream id o
    → on_stream i (completed o fs)
      ≡ (if id == i then completed o (on_stream i fs) else on_stream i fs)
on_stream-completed id i none fs h = elim (Bool-cases (id == i)) [ inl e ↦ rw e | inr e ↦ rw e ]
on_stream-completed id i (some f) fs h =
    rw h (elim (Bool-cases (id == i)) [ inl e ↦ rw e | inr e ↦ rw e ])

-- A run of the whole cache, and the runs of its slots.
abbrev pub Agrees : Cache → List Frame → Cache → List Frame → Type 0
Agrees c fs cache out =
    (i : ℕ) → append_slot_all (c i) (on_stream i fs) ≡ ok (cache i, on_stream i out)

swapped_ids : (i j : ℕ) → (j == i) ≡ false → (i == j) ≡ false
swapped_ids i j e = ground arith

-- A run of the whole cache that agrees with the runs of its slots.
abbrev pub Runs : Cache → List Frame → Result (Cache × List Frame) → Type 0
Runs c fs run =
    (cache : Cache) × (out : List Frame) × (run ≡ ok (cache, out)) × Agrees c fs cache out

then_IsOk :
    (slot complete : Option Frame) (fs : List Frame)
    → IsOk (then_slot fs (ok (slot, complete)))
    → IsOk (append_slot_all slot fs)
then_IsOk slot complete fs (a, e) = elim (Result-cases (append_slot_all slot fs)) [
  | inl there ↦ there
  | inr (e', raises) ↦ cc (
      sym (
        ap
          (λ (r : Result (Option Frame × List Frame)).
            r >>= λ (slot', rest). ok (slot', completed complete rest))
          raises)
      ∙ e)
]

pub next-IsKeyed :
    (c : Cache) (f : Frame) (slot : Option Frame) (next : Cache)
    → IsKeyed c
    → next f.stream_id ≡ slot
    → ((i : ℕ) → (i == f.stream_id) ≡ false → next i ≡ c i)
    → HasStream f.stream_id slot
    → IsKeyed next
next-IsKeyed c f slot next keyed at elsewhere slot_stream i = elim (Bool-cases (f.stream_id == i)) [
  | inl e ↦
      subst (λ (j : ℕ). HasStream j (next j)) ((==_iff f.stream_id i).0 e)
        (subst (HasStream f.stream_id) (sym at) slot_stream)
  | inr e ↦ subst (HasStream i) (sym (elsewhere i (swapped_ids i f.stream_id e))) (keyed i)
]

module _ (c : Cache) (f : Frame) (fs : List Frame) (keyed : IsKeyed c)
    (runs : (i : ℕ) → IsOk (append_slot_all (c i) (on_stream i (f ∷ fs)))) where
  -- The run of the frame's own slot, and those of the other slots.
  own_run :
      IsOk (then_slot (on_stream f.stream_id fs) (append_slot f.flags_follows (c f.stream_id) f))
  own_run =
      subst
        (λ (b : Bool).
          IsOk (append_slot_all (c f.stream_id) (cons_if b f (on_stream f.stream_id fs))))
        (same_id f.stream_id) (runs f.stream_id)

  other_run : (i : ℕ) → (f.stream_id == i) ≡ false → IsOk (append_slot_all (c i) (on_stream i fs))
  other_run i e =
      subst (λ (b : Bool). IsOk (append_slot_all (c i) (cons_if b f (on_stream i fs)))) e (runs i)

  -- What the rest of the run has to do, behind the frame's append.
  module _ (slot complete : Option Frame) (next : Cache)
      (slot_run : append_slot f.flags_follows (c f.stream_id) f ≡ ok (slot, complete))
      (at : next f.stream_id ≡ slot)
      (elsewhere : (i : ℕ) → (i == f.stream_id) ≡ false → next i ≡ c i)
      (slot_stream : HasStream f.stream_id slot)
      (complete_stream : HasStream f.stream_id complete) where
    same_stream : (i : ℕ) → (f.stream_id == i) ≡ true → f.stream_id ≡ i
    same_stream i e = (==_iff f.stream_id i).0 e

    next_runs : (i : ℕ) → IsOk (append_slot_all (next i) (on_stream i fs))
    next_runs i = elim (Bool-cases (f.stream_id == i)) [
      | inl e ↦
          subst (λ (j : ℕ). IsOk (append_slot_all (next j) (on_stream j fs))) (same_stream i e)
            (subst (λ (o : Option Frame). IsOk (append_slot_all o (on_stream f.stream_id fs)))
              (sym at)
              (then_IsOk slot complete _ (
                subst
                  (λ (r : Result (Option Frame × Option Frame)).
                    IsOk (then_slot (on_stream f.stream_id fs) r))
                  slot_run own_run)))
      | inr e ↦
          subst (λ (o : Option Frame). IsOk (append_slot_all o (on_stream i fs)))
            (sym (elsewhere i (swapped_ids i f.stream_id e))) (other_run i e)
    ]

    all_agree :
        (cache : Cache) (out : List Frame)
        → Agrees next fs cache out
        → Agrees c (f ∷ fs) cache (completed complete out)
    all_agree cache out agrees i = elim (Bool-cases (f.stream_id == i)) [
      | inl e ↦
          subst
            (λ (j : ℕ).
              append_slot_all (c j) (on_stream j (f ∷ fs))
              ≡ ok (cache j, on_stream j (completed complete out)))
            (same_stream i e) own_agrees
      | inr e ↦
          ap (λ (b : Bool). append_slot_all (c i) (cons_if b f (on_stream i fs))) e
          ∙ ap (λ (o : Option Frame). append_slot_all o (on_stream i fs))
              (sym (elsewhere i (swapped_ids i f.stream_id e)))
          ∙ agrees i
          ∙ ap (λ (l : List Frame). ok (cache i, l))
              (sym (
                on_stream-completed f.stream_id i complete out complete_stream
                ∙ ap
                    (λ (b : Bool).
                      if b then completed complete (on_stream i out) else on_stream i out)
                    e))
    ]
      where
        own_agrees :
            append_slot_all (c f.stream_id) (on_stream f.stream_id (f ∷ fs))
            ≡ ok (cache f.stream_id, on_stream f.stream_id (completed complete out))
        own_agrees =
            ap
              (λ (b : Bool).
                append_slot_all (c f.stream_id) (cons_if b f (on_stream f.stream_id fs)))
              (same_id f.stream_id)
            ∙ ap (then_slot (on_stream f.stream_id fs)) slot_run
            ∙ ap
                (λ (r : Result (Option Frame × List Frame)).
                  r >>= λ (slot', rest). ok (slot', completed complete rest))
                (ap (λ (o : Option Frame). append_slot_all o (on_stream f.stream_id fs)) (sym at)
                  ∙ agrees f.stream_id)
            ∙ ap (λ (l : List Frame). ok (cache f.stream_id, l))
                (sym (
                  on_stream-completed f.stream_id f.stream_id complete out complete_stream
                  ∙ ap
                      (λ (b : Bool).
                        if b
                        then completed complete (on_stream f.stream_id out)
                        else on_stream f.stream_id out)
                      (same_id f.stream_id)))

  advance :
      (r : Result (Option Frame × Option Frame)) (q : Result (Cache × Option Frame))
      → append_slot f.flags_follows (c f.stream_id) f ≡ r
      → Matches c f r q
      → ((next : Cache)
          → IsKeyed next
          → ((i : ℕ) → IsOk (append_slot_all (next i) (on_stream i fs)))
          → Runs next fs (append_all next fs))
      → Runs c
          (f ∷ fs)
          (q >>= λ (next, o). append_all next fs >>= λ (c', gs). ok (c', completed o gs))
  advance (ok (slot, complete)) (ok (next, complete')) e (same, at, elsewhere, ss, cs) ih =
      let (cache, out, ran, agrees) =
        ih next (next-IsKeyed c f slot next keyed at elsewhere ss)
          (next_runs slot complete next e at elsewhere ss cs) in
      (
        cache,
        completed complete out,
        rw (ran, same) refl,
        all_agree slot complete next e at elsewhere ss cs cache out agrees,
      )
  advance (ok p) (err e') e m ih = absurd m
  advance (err e') (ok p) e m ih = absurd m
  advance (err e') (err e'') e m ih =
      let (a, there) = own_run in cc (sym (ap (then_slot (on_stream f.stream_id fs)) e) ∙ there)

-- If the fragments of each stream, alone, can be joined in the stream's slot, then all of them can,
-- in whatever interleaving they arrive; the frames that are completed on each stream, and what is
-- left in its slot, are those of the stream alone.
pub append_all-on_stream :
    (c : Cache) (fs : List Frame)
    → IsKeyed c
    → ((i : ℕ) → IsOk (append_slot_all (c i) (on_stream i fs)))
    → (cache : Cache) × (out : List Frame) × (append_all c fs ≡ ok (cache, out))
      × Agrees c fs cache out
unfolding append_all
append_all-on_stream c [] keyed runs = (c, [], refl, λ i. refl)
append_all-on_stream c (f ∷ fs) keyed runs =
    advance c f fs keyed runs _ _ refl (append-Matches c f (keyed f.stream_id))
      (λ next k r. append_all-on_stream next fs k r)
