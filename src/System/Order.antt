-- ===== src/System/Order.antt =====
-- The order in which the goroutines of cmd/egress-broker/registry.go take the mutex of writers, and
-- the order of their regions.
use substrate_ws_poc.Prelude.{
  ℕ, true, false, List, [], ◌∷◌, none, some, ◌≡◌, refl, arith, nat_eq, get_elem?, eq_refl,
}
use substrate_ws_poc.Prelude.Bytes.{Bytes, bytes_eq}
use substrate_ws_poc.Prelude.Dict.{insert}
use substrate_ws_poc.Session.Cases.{buffered}
use substrate_ws_poc.SocketMode.{Json, rewrite_envelope_id}
use substrate_ws_poc.Session.State.{Config, Session, done, write, deliver, note}
use substrate_ws_poc.Session.Ops.{deliver_buffered, on_event}
use substrate_ws_poc.Session.Sections.{delivers, receives, exec}
use substrate_ws_poc.Session.Frame.{rewritten_frames, register, build_event_frames_lem}
use substrate_ws_poc.System.State.{
  Shared, Place, runs, writing, sending, serves, listens, Thread, System,
}
use substrate_ws_poc.System.Steps.{
  goes, hears, move, region, Event, moves, placed, run, step_moves, run_then, run_nil, with_session,
  logged,
}

-- The goroutine that reads Slack, and one that has seen a heartbeat.
abbrev pub facing : ℕ → List Thread → List Thread
facing k rest =
    record { role = listens; place = runs done }
    ∷ record { role = serves k; place = runs (deliver k) }
    ∷ rest

-- The delivery of the buffer, and then an event whose frame is written first.
abbrev pub overtaking : (ℕ → Bytes) → Bytes → Bytes → List Event
overtaking ids raw fresh =
    moves 1 (goes ids)
    ∷ moves 0 (hears raw fresh)
    ∷ moves 0 (goes ids)
    ∷ moves 0 (goes ids)
    ∷ moves 0 (goes ids)
    ∷ []

abbrev pub delivered_all : (ℕ → Bytes) → Session → Session
delivered_all ids s = record s {
  settled = true;
  deliver_tmr = none;
  fresh_ids = register ids 0 s.buffer s.fresh_ids;
}

module _ ⦃json : Json⦄ (c : Config) where
  abbrev delivered_now : Bytes → Bytes → Session → Session
  delivered_now raw fresh s = record (buffered raw s) {
    fresh_ids = insert fresh s.next_key s.fresh_ids;
  }

  pub deliver_region :
      (sh : Shared) (k : ℕ) (ids : ℕ → Bytes) (frames : List Bytes)
      → sh.session.sink ≡ some k
      → sh.session.settled ≡ false
      → rewritten_frames ids 0 sh.session.buffer ≡ some frames
      → region c sh (delivers ids k)
        ≡ some (with_session sh (delivered_all ids sh.session), runs (write k frames note))
  unfolding region exec deliver_buffered
  deliver_region sh k ids frames here unsettled built = ground (
    arith,
    build_event_frames_lem ids 0 sh.session.buffer
        (record sh.session { settled = true; deliver_tmr = none }),
  )

  event_region :
      (sh : Shared) (k : ℕ) (raw fresh frame : Bytes)
      → sh.session.sink ≡ some k
      → sh.session.settled ≡ true
      → rewrite_envelope_id raw fresh ≡ some frame
      → region c sh (receives raw fresh)
        ≡ some
            (with_session sh (delivered_now raw fresh sh.session), runs (write k (frame ∷ []) note))
  unfolding region exec on_event
  event_region sh k raw fresh frame here settled out = ground arith

  -- If a connection is current and not settled and no goroutine writes, then when its heartbeat is
  -- handled and an event comes, there is an order of the steps in which that event's frame is given
  -- to the connection while the frames of the whole buffer, which are older, still wait.
  pub run-overtaking :
      (sh : Shared) (k : ℕ) (rest : List Thread) (ids : ℕ → Bytes) (raw fresh frame : Bytes)
      (frames : List Bytes)
      → sh.session.sink ≡ some k
      → sh.session.settled ≡ false
      → sh.locked ≡ false
      → rewritten_frames ids 0 sh.session.buffer ≡ some frames
      → rewrite_envelope_id raw fresh ≡ some frame
      → (z : System) × (run c
            (overtaking ids raw fresh)
            (record { shared = sh; threads = facing k rest })
          ≡ some z)
        × (z.shared.log ≡ record { sink = k; frame = frame; written = true } ∷ sh.log)
        × (get_elem? z.threads 1
            ≡ some (record { role = serves k; place = runs (write k frames note) }))
  unfolding move
  run-overtaking sh k rest ids raw fresh frame frames here unsettled free built out =
      let slack : Thread = record { role = listens; place = runs done } in
      let handler : Thread = record { role = serves k; place = runs (deliver k) } in
      let y0 : System = record { shared = sh; threads = facing k rest } in
      let sh1 = with_session sh (delivered_all ids sh.session) in
      let y1 = placed 1 y0 handler sh1 (runs (write k frames note)) in
      let sh2 = with_session sh1 (delivered_now raw fresh sh1.session) in
      let y2 = placed 0 y1 slack sh2 (runs (write k (frame ∷ []) note)) in
      let sh3 = record sh2 { locked = true } in
      let y3 = placed 0 y2 slack sh3 (writing k (frame ∷ []) note) in
      let y4 = placed 0 y3 slack sh3 (sending k frame [] note) in
      let y5 = placed 0 y4 slack (logged k frame true sh3) (writing k [] note) in
      let go : Event = moves 0 (goes ids) in
      let at : Place → Thread = λ p. record slack { place = p } in
      (
        y5,
        run_then c _ (moves 0 (hears raw fresh) ∷ go ∷ go ∷ go ∷ []) y0 y1 y5
            (step_moves c 1 (goes ids) y0 handler sh1 _ refl
              (deliver_region sh k ids frames here unsettled built))
            (run_then c _ (go ∷ go ∷ go ∷ []) y1 y2 y5
              (step_moves c 0 (hears raw fresh) y1 slack sh2 _ refl
                (event_region sh1 k raw fresh frame here refl out))
              (run_then c go (go ∷ go ∷ []) y2 y3 y5
                (step_moves c 0 (goes ids) y2 (at (runs (write k (frame ∷ []) note))) sh3 _ refl
                  (rw free refl))
                (run_then c go (go ∷ []) y3 y4 y5
                  (step_moves c 0 (goes ids) y3 (at (writing k (frame ∷ []) note)) sh3 _ refl
                    (ground (arith, eq_refl k)))
                  (run_then c go [] y4 y5 y5
                    (step_moves c 0 (goes ids) y4 (at (sending k frame [] note)) _ _ refl refl)
                    (run_nil c y5))))),
        refl,
        refl,
      )
