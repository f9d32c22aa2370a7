-- ===== src/System/Delivery.antt =====
-- What `Attach`, the first heartbeat and `deliverBufferedNow` of cmd/egress-broker/registry.go do
-- together for one connection.
use substrate_ws_poc.Prelude.{
  ℕ, true, false, List, [], ◌∷◌, ◌++◌, none, some, ◌≡◌, refl, arith, nat_eq, ◌==◌, if◌then◌else◌,
  Bool-cases, inl, inr, length, ap, ◌∙◌, ltb,
}
use substrate_ws_poc.Prelude.Bytes.{Bytes, bytes_eq}
use substrate_ws_poc.SocketMode.{Json}
use substrate_ws_poc.Session.State.{Config, Session, done, deliver, arm}
use substrate_ws_poc.Session.Ops.{attach, arm_fallback, arm_idle, note_activity}
use substrate_ws_poc.Session.Sections.{exec}
use substrate_ws_poc.Session.Outbox.{elem}
use substrate_ws_poc.Session.Frame.{rewritten_frames}
use substrate_ws_poc.System.State.{Write, Shared, runs, serves, System}
use substrate_ws_poc.System.Steps.{move, region, connects, step, spawn}
use substrate_ws_poc.System.Greeting.{given_to}
use substrate_ws_poc.System.Alone.{
  Alone, stays, Ends, moves_on, beats_once, takes, delivers_all, written_all, given_to-written_all,
  get_elem?-spawn, append_cons,
}

-- The session that `Attach` leaves.
abbrev attached_to : ℕ → Session → Session
attached_to k s = record s { sink = some k; resuming = false; settled = false; deliver_tmr = none }

note_activity-buffer : (c : Config) (s : Session) → (note_activity c s).buffer ≡ s.buffer
unfolding note_activity arm_idle
note_activity-buffer c s = ground arith

note_activity-settled : (c : Config) (s : Session) → (note_activity c s).settled ≡ s.settled
unfolding note_activity arm_idle
note_activity-settled c s = ground arith

module _ ⦃json : Json⦄ (c : Config) where
  -- The connection has been given the hello and then the frames, and its events are kept.
  pub record Delivered (k : ℕ) (frames : List Bytes) (before after : System) : Type 0 where
    pub given : given_to k after.shared.log ≡ given_to k before.shared.log ++ c.hello_frame ∷ frames
    pub settled : after.shared.session.settled ≡ true
    pub kept : after.shared.session.buffer ≡ before.shared.session.buffer
    pub free : after.shared.locked ≡ false

  -- The new connection after its `Attach`.
  abbrev joined : ℕ → System → System
  joined k y = record {
    shared = record y.shared {
      session = attached_to k y.shared.session;
      attached = k ∷ y.shared.attached;
    };
    threads = spawn (serves k) (runs (attach c k y.shared.session).1) y.threads;
  }

  joins :
      (k : ℕ) (y : System)
      → elem k y.shared.attached ≡ false
      → step c (connects k) y ≡ some (joined k y)
  unfolding step attach
  joins k y new = rw new refl

  abbrev greeted : ℕ → System → Shared
  greeted k y = record (joined k y).shared {
    locked = false;
    log = written_all k (c.hello_frame ∷ []) y.shared.log;
  }

  -- After the hello the handler delivers, if need be after a heartbeat.
  hears_heartbeat :
      (ids : ℕ → Bytes) (i k : ℕ) (y m : System) (n : ℕ)
      → Ends c i ids k m
          (greeted k y)
          (runs (if n == 0 then deliver k else if ltb 0 c.deliver_delay then arm k else done))
      → (sh : Shared) × Ends c i ids k m sh (runs (deliver k))
        × (sh.session.sink ≡ some k)
        × (sh.session.settled ≡ false)
        × (sh.session.buffer ≡ y.shared.session.buffer)
        × (sh.locked ≡ false)
        × (sh.log ≡ (greeted k y).log)
  unfolding move region exec arm_fallback
  hears_heartbeat ids i k y m n e = elim (Bool-cases (n == 0)) [
    | inl nothing ↦ (greeted k y, rw nothing at e, refl, refl, refl, refl, refl)
    | inr held ↦ elim (Bool-cases (ltb 0 c.deliver_delay)) [
      | inr no_fallback ↦ (
        greeted k y,
        beats_once c i ids k m (greeted k y) (rw (held, no_fallback) at e),
        refl,
        refl,
        refl,
        refl,
        refl,
      )
      | inl fallback ↦
          let sh = greeted k y in
          let armed = record sh { session = arm_fallback k sh.session; armed = k ∷ sh.armed } in
          (
            armed,
            beats_once c i ids k m armed (
                moves_on c i ids k m sh armed (runs (arm k)) (runs done) (rw (held, fallback) at e)
                  refl),
            refl,
            refl,
            refl,
            refl,
            refl,
          )
    ]
  ]

  given-joined :
      (k : ℕ) (frames : List Bytes) (log : List Write)
      → given_to k (written_all k frames (written_all k (c.hello_frame ∷ []) log))
        ≡ given_to k log ++ c.hello_frame ∷ frames
  given-joined k frames log =
      given_to-written_all k frames (written_all k (c.hello_frame ∷ []) log)
      ∙ ap (λ given. given ++ frames) (given_to-written_all k (c.hello_frame ∷ []) log)
      ∙ append_cons (given_to k log) frames c.hello_frame

  -- A new connection, if the mutex of writers is free and the buffered events are rewritten, is given
  -- the hello and then the whole buffer in order by steps of its own goroutine alone, of which some
  -- may be heartbeats and no write fails; the connection is then settled, the mutex free, and every
  -- event kept.
  pub connects-Delivered :
      (k : ℕ) (ids : ℕ → Bytes) (y : System) (frames : List Bytes)
      → elem k y.shared.attached ≡ false
      → y.shared.locked ≡ false
      → rewritten_frames ids 0 y.shared.session.buffer ≡ some frames
      → (m z : System) × (step c (connects k) y ≡ some m)
        × Alone c (length y.threads) ids m z
        × Delivered k frames y z
  unfolding attach
  connects-Delivered k ids y frames new free built =
      let i = length y.threads in
      let m = joined k y in
      let session = y.shared.session in
      let task = (attach c k session).1 in
      let start : Ends c i ids k m m.shared (runs task) = record {
        last = m;
        alone = stays;
        at = get_elem?-spawn y.threads (record { role = serves k; place = runs task });
        shared = refl;
      } in
      let (sh, ready, here, unsettled, same, unlocked, logged) =
        hears_heartbeat ids i k y m (length session.buffer)
          (takes c i ids k (c.hello_frame ∷ []) _ m m.shared refl free start) in
      let e = delivers_all c i ids k frames m sh here unsettled unlocked (rw same built) ready in
      (
        m,
        e.last,
        joins k y new,
        e.alone,
        record {
          given = rw (e.shared, logged) (given-joined k frames y.shared.log);
          settled = rw e.shared (note_activity-settled c _);
          kept = rw e.shared (note_activity-buffer c _ ∙ same);
          free = rw e.shared refl;
        },
      )
