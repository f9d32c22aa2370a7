-- ===== src/System/Hello.antt =====
-- The steps of the goroutines of cmd/egress-broker/registry.go, and the hello of a connection.
use substrate_ws_poc.Prelude.{
  ℕ, true, false, [], ◌∷◌, some, ◌≡◌, inl, inr, refl, arith, nat_eq, eq_iff, Bool-cases,
  >>=-eq-some,
}
use substrate_ws_poc.Prelude.Bytes.{Bytes, bytes_eq}
use substrate_ws_poc.SocketMode.{Json}
use substrate_ws_poc.Session.State.{Config, Session, Task, done, write, deliver, note, arm}
use substrate_ws_poc.Session.Ops.{is_current}
use substrate_ws_poc.Session.Sections.{detaches, arms_fallback, acks, notes_activity, exec}
use substrate_ws_poc.System.State.{
  Shared, Place, runs, writing, sending, gone, Role, serves, listens,
}
use substrate_ws_poc.System.Steps.{
  Choice, goes, fails, beats, confirms, leaves, hears, logged, region, wait, move,
}
use substrate_ws_poc.System.Greeting.{is_ready, is_polite, Greets, Moved}
use substrate_ws_poc.System.Polite.{
  follows-is_ready, Later-past, Later-polite, Later-same, locked-Moved, armed-Moved, Moved-trans,
  logged-Moved,
}
use substrate_ws_poc.System.Regions.{quiet-Moved, receives-Moved, delivers-Moved}

module _ ⦃json : Json⦄ (c : Config) where
  notes_idle :
      (s t : Session) (task : Task) → exec c notes_activity s ≡ some (t, task) → task ≡ done
  unfolding exec
  notes_idle s t task e = ground arith

  arms_idle :
      (k : ℕ) (s t : Session) (task : Task)
      → exec c (arms_fallback k) s ≡ some (t, task)
      → task ≡ done
  unfolding exec
  arms_idle k s t task e = ground arith

  acks_idle :
      (id : Bytes) (s t : Session) (task : Task) → exec c (acks id) s ≡ some (t, task) → task ≡ done
  unfolding exec
  acks_idle id s t task e = ground arith

  detaches_idle :
      (k : ℕ) (s t : Session) (task : Task) → exec c (detaches k) s ≡ some (t, task) → task ≡ done
  unfolding exec
  detaches_idle k s t task e = ground arith

  wait-Moved :
      (r : Role) (ch : Choice) (sh sh' : Shared) (p' : Place)
      → wait c r ch sh ≡ some (sh', p')
      → Greets c.hello_frame sh
      → is_polite c.hello_frame sh r (runs done) ≡ true
      → Moved c.hello_frame sh r sh' p'
  unfolding wait
  wait-Moved (serves k) beats sh sh' p' e g pol =
      let now : sh' ≡ sh = ground arith in
      let place : p' ≡ runs (deliver k) = ground arith in
      rw (now, place)
        (record { greets = g; later = Later-same sh; ready = ground arith; polite = pol })
  wait-Moved (serves k) (confirms id) sh sh' p' e g pol =
      quiet-Moved c (acks id) sh sh' (serves k) (runs done) p' refl (acks_idle id) e g (λ j. refl)
        pol
  wait-Moved (serves k) leaves sh sh' p' e g pol =
      let ((s, p), here, out) = >>=-eq-some (region c sh (detaches k)) _ e in
      let m =
        quiet-Moved c (detaches k) sh s (serves k) (runs done) p refl (detaches_idle k) here g
          (λ j. refl) pol in
      let now : sh' ≡ s = ground arith in
      let place : p' ≡ gone = ground arith in
      rw (now, place)
        (record {
          greets = m.greets;
          later = m.later;
          ready = refl;
          polite =
              Later-past c.hello_frame sh s (serves k) (runs done) gone m.later (λ j. refl) pol;
        })
  wait-Moved listens (hears raw fresh) sh sh' p' e g pol =
      receives-Moved c raw fresh sh sh' listens (runs done) p' e g (λ j. refl) pol
  wait-Moved _ _ sh sh' p' e g pol = cc

  pub move-Moved :
      (r : Role) (ch : Choice) (p : Place) (sh sh' : Shared) (p' : Place)
      → move c r ch p sh ≡ some (sh', p')
      → Greets c.hello_frame sh
      → is_ready c.hello_frame sh p ≡ true
      → is_polite c.hello_frame sh r p ≡ true
      → Moved c.hello_frame sh r sh' p'
  unfolding move
  move-Moved r ch (runs done) sh sh' p' e g ready pol = wait-Moved r ch sh sh' p' e g pol
  move-Moved r (goes ids) (runs (write k frames t)) sh sh' p' e g ready pol =
      let now : sh' ≡ record sh { locked = true } = ground arith in
      let place : p' ≡ writing k frames t = ground arith in
      rw (now, place)
        (locked-Moved c.hello_frame sh r true (runs (write k frames t)) (writing k frames t) g ready
          (λ j h. ground arith) pol)
  move-Moved r (goes ids) (runs (deliver k)) sh sh' p' e g ready pol =
      delivers-Moved c ids k sh sh' r (runs (deliver k)) p' e ready g (λ j. refl) pol
  move-Moved r (goes ids) (runs note) sh sh' p' e g ready pol =
      quiet-Moved c notes_activity sh sh' r (runs note) p' refl notes_idle e g (λ j. refl) pol
  move-Moved r (goes ids) (runs (arm k)) sh sh' p' e g ready pol =
      let armed = armed-Moved c.hello_frame k sh r (runs (arm k)) ready g ready pol in
      Moved-trans c.hello_frame sh (record sh { armed = k ∷ sh.armed }) sh' r (runs (arm k)) p'
        armed
        (quiet-Moved c (arms_fallback k) (record sh { armed = k ∷ sh.armed }) sh' r (runs (arm k))
          p' refl (arms_idle k) e armed.greets (λ j. refl) armed.polite)
  move-Moved r (goes ids) (writing k [] t) sh sh' p' e g ready pol =
      let now : sh' ≡ record sh { locked = false } = ground arith in
      let place : p' ≡ runs t = ground arith in
      rw (now, place)
        (locked-Moved c.hello_frame sh r false (writing k [] t) (runs t) g
          (follows-is_ready c.hello_frame k t sh (ground arith) (ground arith))
          (λ j h. ground arith) pol)
  move-Moved r (goes ids) (writing k (f ∷ frames) t) sh sh' p' e g ready pol =
      elim (Bool-cases (is_current k sh.session.sink)) [
        | inl cur ↦
            let now : sh' ≡ sh = ground arith in
            let place : p' ≡ sending k f frames t = ground arith in
            rw (now, place)
              (record {
                greets = g;
                later = Later-same sh;
                ready = ground arith;
                polite =
                    Later-polite c.hello_frame sh sh r (writing k (f ∷ frames) t)
                      (sending k f frames t) (Later-same sh) (λ j h. ground arith) pol;
              })
        | inr other ↦
            let now : sh' ≡ record sh { locked = false } = ground arith in
            let place : p' ≡ runs t = ground arith in
            rw (now, place)
              (locked-Moved c.hello_frame sh r false (writing k (f ∷ frames) t) (runs t) g
                (follows-is_ready c.hello_frame k t sh (ground arith) (ground arith))
                (λ j h. ground (arith, eq_iff k j)) pol)
      ]
  move-Moved r (goes ids) (sending k f frames t) sh sh' p' e g ready pol =
      let now : sh' ≡ logged k f true sh = ground arith in
      let place : p' ≡ writing k frames t = ground arith in
      rw (now, place)
        (logged-Moved c.hello_frame sh r k f frames t true (writing k frames t) g ready
          (λ past. ground arith) pol)
  move-Moved r fails (sending k f frames t) sh sh' p' e g ready pol =
      let now : sh' ≡ record (logged k f false sh) { locked = false } = ground arith in
      let place : p' ≡ runs t = ground arith in
      let m =
        logged-Moved c.hello_frame sh r k f frames t false (runs t) g ready
          (λ past. follows-is_ready c.hello_frame k t (logged k f false sh) past (ground arith))
          pol in
      rw (now, place)
        (Moved-trans c.hello_frame sh (logged k f false sh)
          (record (logged k f false sh) { locked = false }) r (runs t) (runs t) m
          (locked-Moved c.hello_frame (logged k f false sh) r false (runs t) (runs t) m.greets
            m.ready (λ j h. ground arith) m.polite))
  move-Moved _ _ _ sh sh' p' e g ready pol = cc
