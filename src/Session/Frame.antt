-- ===== src/Session/Frame.antt =====
-- What stamping does to a session, as equations: the frames are the rewritten texts, and of the
-- session only the map of fresh ids changes.
use substrate_ws_poc.Prelude.{
  ℕ, ◌+◌, List, [], ◌∷◌, Option, some, ◌>>=◌, ◌≡◌, refl, arith, inl, inr, nat_eq, Option-cases,
}
use substrate_ws_poc.Prelude.Bytes.{Bytes, bytes_eq}
use substrate_ws_poc.Prelude.Dict.{insert}
use substrate_ws_poc.SocketMode.{Json, rewrite_envelope_id}
use substrate_ws_poc.Session.State.{Session, PendingEvent}
use substrate_ws_poc.Session.Ops.{build_event_frames}

-- The entries that a delivery adds.
unfoldable pub register : (ℕ → Bytes) → ℕ → List PendingEvent → List (Bytes × ℕ) → List (Bytes × ℕ)
register ids i [] m = m
register ids i (e ∷ es) m = register ids (i + 1) es (insert (ids i) e.key m)

module _ ⦃json : Json⦄ where
  -- The frames of a delivery.
  unfoldable pub rewritten_frames : (ℕ → Bytes) → ℕ → List PendingEvent → Option (List Bytes)
  rewritten_frames ids i [] = some []
  rewritten_frames ids i (e ∷ es) = rewrite_envelope_id e.raw (ids i) >>= λ frame.
      rewritten_frames ids (i + 1) es >>= λ frames. some (frame ∷ frames)

  pub build_event_frames_lem :
      (ids : ℕ → Bytes) (i : ℕ) (es : List PendingEvent) (s : Session)
      → build_event_frames ids i es s ≡ (
          rewritten_frames ids i es >>= λ frames.
          some (record s { fresh_ids = register ids i es s.fresh_ids }, frames))
  unfolding build_event_frames rewritten_frames register
  build_event_frames_lem ids i [] s = refl
  build_event_frames_lem ids i (e ∷ es) s =
      elim (Option-cases (rewrite_envelope_id e.raw (ids i))) [
        | inl panics ↦ rw panics
        | inr (frame, here) ↦ rw here (
            rw
              (build_event_frames_lem ids (i + 1) es
                (record s { fresh_ids = insert (ids i) e.key s.fresh_ids }))
              (ground arith))
      ]
