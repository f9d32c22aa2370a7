-- ===== src/System/Regions.antt =====
-- The regions that a goroutine runs, and the hello of every connection.
use substrate_ws_poc.Prelude.{
  ℕ, true, false, Option, none, some, ◌≡◌, refl, arith, nat_eq, eq_iff, >>=-eq-some, ◌∙◌, ap,
}
use substrate_ws_poc.Prelude.Bytes.{Bytes, bytes_eq}
use substrate_ws_poc.SocketMode.{Json}
use substrate_ws_poc.Session.State.{Config, Session, Task, done}
use substrate_ws_poc.Session.Ops.{is_current}
use substrate_ws_poc.Session.Sections.{Section, delivers, receives, exec}
use substrate_ws_poc.Session.Cases.{
  skipped, stamped, deliver_buffered-Delivery, delivered, held, left, on_event-Arrival,
}
use substrate_ws_poc.System.State.{Shared, Place, runs, Role}
use substrate_ws_poc.System.Steps.{rest_of, with_session, region}
use substrate_ws_poc.System.Cases.{keeps_sink, exec-KeepsSink, KeepsSink-same}
use substrate_ws_poc.System.Greeting.{is_past, is_polite, is_greeting, Greets, Later, Moved}
use substrate_ws_poc.System.Polite.{Later-past, kept-Moved}

same_sink :
    (j k : ℕ) (sink : Option ℕ) → is_current j sink ≡ true → is_current k sink ≡ true → j ≡ k
same_sink j k none h g = cc
same_sink j k (some i) h g = ground (arith, eq_iff i j, eq_iff i k)

module _ ⦃json : Json⦄ (c : Config) where
  pub region-exec :
      (sh sh' : Shared) (sec : Section) (p' : Place)
      → region c sh sec ≡ some (sh', p')
      → (t : Session) × (task : Task) × (exec c sec sh.session ≡ some (t, task))
        × (sh' ≡ with_session sh t)
        × (p' ≡ runs (rest_of task))
  unfolding region
  region-exec sh sh' sec p' e =
      let ((t, task), here, out) = >>=-eq-some (exec c sec sh.session) _ e in
      (t, task, here, ground arith, ground arith)

  -- The goroutine runs a region that gives no task.
  pub quiet-Moved :
      (sec : Section) (sh sh' : Shared) (r : Role) (p p' : Place)
      → keeps_sink sec ≡ true
      → ((s t : Session) (task : Task) → exec c sec s ≡ some (t, task) → task ≡ done)
      → region c sh sec ≡ some (sh', p')
      → Greets c.hello_frame sh
      → ((k : ℕ) → is_greeting c.hello_frame k p ≡ false)
      → is_polite c.hello_frame sh r p ≡ true
      → Moved c.hello_frame sh r sh' p'
  quiet-Moved sec sh sh' r p p' keeps idle e g quiet pol =
      let (t, task, here, now, place) = region-exec sh sh' sec p' e in
      let nothing : p' ≡ runs done =
        place ∙ ap (λ u. runs (rest_of u)) (idle sh.session t task here) in
      rw (now, nothing)
        (kept-Moved c.hello_frame sh r t p (runs done)
          (exec-KeepsSink c sec sh.session t task keeps here) g quiet pol refl)

  pub receives-Moved :
      (raw fresh : Bytes) (sh sh' : Shared) (r : Role) (p p' : Place)
      → region c sh (receives raw fresh) ≡ some (sh', p')
      → Greets c.hello_frame sh
      → ((k : ℕ) → is_greeting c.hello_frame k p ≡ false)
      → is_polite c.hello_frame sh r p ≡ true
      → Moved c.hello_frame sh r sh' p'
  unfolding exec
  receives-Moved raw fresh sh sh' r p p' e g quiet pol =
      let (t, task, here, now, place) = region-exec sh sh' (receives raw fresh) p' e in
      let v = exec-KeepsSink c (receives raw fresh) sh.session t task refl here in
      rw (now, place)
        (kept-Moved c.hello_frame sh r t p (runs (rest_of task)) v g quiet pol
          (elim (on_event-Arrival raw fresh sh.session t task here) [
            | delivered k frame at settled out later next ↦
                rw next (ground (arith, g.current k, g.settled k))
            | held k at settled later next ↦ rw next refl
            | left away later next ↦ rw next (ground arith)
          ]))

  -- A connection whose hello is behind it may be settled.
  settled-Greets :
      (j : ℕ) (sh : Shared) (t : Session)
      → is_past j sh ≡ true
      → is_current j sh.session.sink ≡ true
      → t.sink ≡ sh.session.sink
      → Greets c.hello_frame sh
      → Greets c.hello_frame (with_session sh t) × Later sh (with_session sh t)
  settled-Greets j sh t past cur same g = (
    record {
      opening = g.opening;
      settled = λ k at set. ground (arith, same_sink j k sh.session.sink);
      current = λ k at. ground (arith, g.current k);
      armed = λ k a. ground (arith, g.armed k);
    },
    record { greeted = λ k h. h; past = λ k h. ground arith; attached = λ k h. h },
  )

  pub delivers-Moved :
      (ids : ℕ → Bytes) (j : ℕ) (sh sh' : Shared) (r : Role) (p p' : Place)
      → region c sh (delivers ids j) ≡ some (sh', p')
      → is_past j sh ≡ true
      → Greets c.hello_frame sh
      → ((k : ℕ) → is_greeting c.hello_frame k p ≡ false)
      → is_polite c.hello_frame sh r p ≡ true
      → Moved c.hello_frame sh r sh' p'
  unfolding exec
  delivers-Moved ids j sh sh' r p p' e past g quiet pol =
      let (t, task, here, now, place) = region-exec sh sh' (delivers ids j) p' e in
      elim (deliver_buffered-Delivery ids j sh.session t task here) [
        | skipped why same next ↦
            rw (now, place)
              (kept-Moved c.hello_frame sh r t p (runs (rest_of task))
                (KeepsSink-same sh.session t same) g quiet pol (rw next refl))
        | stamped frames cur unsettled built changed next ↦
            let (greets, later) = settled-Greets j sh t past cur (rw changed refl) g in
            rw (now, place)
              (record {
                greets = greets;
                later = later;
                ready = rw next (ground (arith, g.current j, later.past j past));
                polite =
                    Later-past c.hello_frame sh (with_session sh t) r p (runs (rest_of task)) later
                      quiet pol;
              })
      ]
