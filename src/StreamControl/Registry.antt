-- ===== src/StreamControl/Registry.antt =====
-- Registering and finishing streams.
use rsocket_py.Prelude.{
  ℕ, ◌≤◌, ◌≡◌, ◌≢◌, refl, sym, ◌∙◌, inl, inr, false, none, some, List, [], ◌∷◌, arith, ok, err,
  stream_id_in_use, ge→ltb, ◌==◌, ==_iff, Bool-cases,
}
use rsocket_py.Frame.Codes.{connection_stream_id}
use rsocket_py.StreamControl.{
  StreamControl, lookup, insert, remove, finish_stream, register_stream, assert_stream_id_available,
}

other_id : (k id : ℕ) → k ≢ id → (k == id) ≡ false
other_id k id h = ground arith

module _ {ℓ} {H : Type ℓ} where
  pub lookup-insert : (id : ℕ) (h : H) (l : List (ℕ × H)) → lookup id (insert id h l) ≡ some h
  unfolding lookup insert
  lookup-insert id h [] = rw ((==_iff id id).1 refl)
  lookup-insert id h ((k, v) ∷ l) = elim (Bool-cases (k == id)) [
    | inl e ↦ rw (e, e)
    | inr e ↦ rw (e, e) (lookup-insert id h l)
  ]

  lookup-insert_other :
      (other id : ℕ) (h : H) (l : List (ℕ × H))
      → other ≢ id
      → lookup other (insert id h l) ≡ lookup other l
  unfolding lookup insert
  lookup-insert_other other id h [] ne = rw (other_id id other (λ e. ne (sym e)))
  lookup-insert_other other id h ((k, v) ∷ l) ne = elim (Bool-cases (k == id)) [
    | inl e ↦
        let away : (k == other) ≡ false =
          other_id k other (λ same. ne (sym same ∙ (==_iff k id).0 e)) in
        rw (e, away) refl
    | inr e ↦ elim (Bool-cases (k == other)) [
      | inl f ↦ rw (e, f) refl
      | inr f ↦ rw (e, f) (lookup-insert_other other id h l ne)
    ]
  ]

  pub lookup-remove : (id : ℕ) (l : List (ℕ × H)) → lookup id (remove id l) ≡ none
  unfolding lookup remove
  lookup-remove id [] = refl
  lookup-remove id ((k, v) ∷ l) = elim (Bool-cases (k == id)) [
    | inl e ↦ rw e (lookup-remove id l)
    | inr e ↦ rw (e, e) (lookup-remove id l)
  ]

  pub lookup-remove_other :
      (other id : ℕ) (l : List (ℕ × H)) → other ≢ id → lookup other (remove id l) ≡ lookup other l
  unfolding lookup remove
  lookup-remove_other other id [] ne = refl
  lookup-remove_other other id ((k, v) ∷ l) ne = elim (Bool-cases (k == id)) [
    | inl e ↦
        let away : (k == other) ≡ false =
          other_id k other (λ same. ne (sym same ∙ (==_iff k id).0 e)) in
        rw (e, away) (lookup-remove_other other id l ne)
    | inr e ↦ elim (Bool-cases (k == other)) [
      | inl f ↦ rw (e, f) refl
      | inr f ↦ rw (e, f) (lookup-remove_other other id l ne)
    ]
  ]

  -- A stream is registered on an id in range that is not the connection's: then its handler is
  -- found and the id is refused, and after `finish_stream` the id is available again; the other
  -- streams stay as they are throughout.
  pub register_stream-finish_stream :
      (id : ℕ) (h : H) (s : StreamControl H)
      → id ≢ connection_stream_id
      → id ≤ s.maximum_stream_id
      → (s' : StreamControl H) × (register_stream id h s ≡ ok s')
        × (lookup id s'.streams ≡ some h)
        × (assert_stream_id_available id s' ≡ err (stream_id_in_use id))
        × (assert_stream_id_available id (finish_stream id s') ≡ ok tt)
        × ((other : ℕ)
            → other ≢ id
            → (lookup other s'.streams ≡ lookup other s.streams)
              × (lookup other (finish_stream id s').streams ≡ lookup other s.streams))
  unfolding register_stream assert_stream_id_available finish_stream
  register_stream-finish_stream id h s ne small =
      let l = insert id h s.streams in
      (
        record s { streams = l },
        rw (other_id id 0 ne, ge→ltb s.maximum_stream_id id small) refl,
        lookup-insert id h s.streams,
        rw (lookup-insert id h s.streams) refl,
        rw (lookup-remove id l) refl,
        λ other away. (
          lookup-insert_other other id h s.streams away,
          lookup-remove_other other id l away ∙ lookup-insert_other other id h s.streams away,
        ),
      )
