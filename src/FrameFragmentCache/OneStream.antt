-- ===== src/FrameFragmentCache/OneStream.antt =====
-- A run of the cache on the fragments of one stream is a run of its slot.
use rsocket_py.Prelude.{
  ℕ, ◌≡◌, refl, sym, ap, ◌∙◌, Option, List, [], ◌∷◌, All, Result, ok, err, ◌>>=◌,
}
use rsocket_py.Frame.Slots.{Frame}
use rsocket_py.FrameFragmentCache.{Cache, append_all, completed}
use rsocket_py.FrameFragmentCache.Slot.{append_slot, append_slot_all, Matches, append-Matches}
use rsocket_py.FrameFragmentCache.Interleaved.{IsKeyed, then_slot, next-IsKeyed}

-- What a run of the cache says of a slot.
abbrev pub slot_part : ℕ → Result (Cache × List Frame) → Result (Option Frame × List Frame)
slot_part k (ok (cache, out)) = ok (cache k, out)
slot_part k (err e) = err e

abbrev pub IsOnly : ℕ → List Frame → Type 0
IsOnly k fs = All (λ (f : Frame). f.stream_id ≡ k) fs

abbrev then_frames : List Frame → Result (Cache × Option Frame) → Result (Cache × List Frame)
then_frames fs q = q >>= λ (next, o). append_all next fs >>= λ (c', gs). ok (c', completed o gs)

-- The rest of the run, with a frame that may be complete in front.
rest_part :
    (k : ℕ) (complete : Option Frame) (run : Result (Cache × List Frame))
    (slot_run : Result (Option Frame × List Frame))
    → slot_run ≡ slot_part k run
    → (slot_run >>= λ (slot, gs). ok (slot, completed complete gs))
      ≡ slot_part k (run >>= λ (c, gs). ok (c, completed complete gs))
rest_part k complete (ok p) slot_run e =
    ap
      (λ (r : Result (Option Frame × List Frame)).
        r >>= λ (slot, gs). ok (slot, completed complete gs))
      e
rest_part k complete (err e') slot_run e =
    ap
      (λ (r : Result (Option Frame × List Frame)).
        r >>= λ (slot, gs). ok (slot, completed complete gs))
      e

-- Behind the append of the first frame.
behind :
    (k : ℕ) (c : Cache) (f : Frame) (fs : List Frame) (r : Result (Option Frame × Option Frame))
    (q : Result (Cache × Option Frame))
    → IsKeyed c
    → f.stream_id ≡ k
    → Matches c f r q
    → ((next : Cache)
        → IsKeyed next
        → append_slot_all (next k) fs ≡ slot_part k (append_all next fs))
    → then_slot fs r ≡ slot_part k (then_frames fs q)
behind k c f fs (ok (slot, complete)) (ok (next, complete')) keyed here
      (same, at, elsewhere, ss, cs) ih =
    rest_part k complete _ _ (
      ap (λ (o : Option Frame). append_slot_all o fs) (sym at ∙ ap next here)
      ∙ ih next (next-IsKeyed c f slot next keyed at elsewhere ss))
    ∙ ap (λ (o : Option Frame). slot_part k (then_frames fs (ok (next, o)))) (sym same)
behind k c f fs (ok p) (err e') keyed here m ih = absurd m
behind k c f fs (err e') (ok p) keyed here m ih = absurd m
behind k c f fs (err e') (err e'') keyed here m ih = ap err m

pub append_slot_all-append_all :
    (k : ℕ) (c : Cache) (fs : List Frame)
    → IsKeyed c
    → IsOnly k fs
    → append_slot_all (c k) fs ≡ slot_part k (append_all c fs)
unfolding append_all
append_slot_all-append_all k c [] keyed only = refl
append_slot_all-append_all k c (f ∷ fs) keyed (here, only) =
    ap (λ (j : ℕ). then_slot fs (append_slot f.flags_follows (c j) f)) (sym here)
    ∙ behind k c f fs _ _ keyed here (append-Matches c f (keyed f.stream_id))
        (λ next k'. append_slot_all-append_all k next fs k' only)
