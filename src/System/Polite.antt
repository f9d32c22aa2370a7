-- ===== src/System/Polite.antt =====
-- What the steps of one goroutine have to keep for the hello of a connection.
use substrate_ws_poc.Prelude.{
  ℕ, Bool, true, false, ◌||◌, List, ◌∷◌, ◌≡◌, refl, arith, nat_eq, eq_iff, eq_refl,
}
use substrate_ws_poc.Prelude.Bytes.{Bytes, bytes_eq}
use substrate_ws_poc.Session.State.{Session, Task, done, deliver, note, arm}
use substrate_ws_poc.Session.Outbox.{elem}
use substrate_ws_poc.System.State.{Shared, Place, runs, sending, Role, serves, listens, ends}
use substrate_ws_poc.System.Steps.{with_session, logged}
use substrate_ws_poc.System.Cases.{KeepsSink}
use substrate_ws_poc.System.Greeting.{
  is_past, is_ready, is_polite, is_greeting, Greets, Later, Later-is_ready, Later-is_polite,
  KeepsSink-Later, KeepsSink-Greets, logged-Later, logged-Greets, Moved, is_greeted, follows,
}

-- What follows a write to a connection may run once its hello is behind it.
pub follows-is_ready :
    (hello : Bytes) (k : ℕ) (t : Task) (sh : Shared)
    → is_past k sh ≡ true
    → follows k t ≡ true
    → is_ready hello sh (runs t) ≡ true
follows-is_ready hello k done sh past h = refl
follows-is_ready hello k note sh past h = refl
follows-is_ready hello k (deliver j) sh past h = ground (arith, eq_iff j k)
follows-is_ready hello k (arm j) sh past h = ground (arith, eq_iff j k)
follows-is_ready hello k _ sh past h = cc

-- A goroutine whose hello is behind it stays so.
pub Later-past :
    (hello : Bytes) (sh sh' : Shared) (r : Role) (p p' : Place)
    → Later sh sh'
    → ((k : ℕ) → is_greeting hello k p ≡ false)
    → is_polite hello sh r p ≡ true
    → is_polite hello sh' r p' ≡ true
Later-past hello sh sh' (serves k) p p' l quiet pol =
    ground (arith, quiet k, l.past k, l.attached k)
Later-past hello sh sh' listens p p' l quiet pol = refl
Later-past hello sh sh' ends p p' l quiet pol = refl

-- A goroutine whose hello is still to come afterwards, or is then behind it.
pub Later-polite :
    (hello : Bytes) (sh sh' : Shared) (r : Role) (p p' : Place)
    → Later sh sh'
    → ((k : ℕ) → is_greeting hello k p ≡ true → (is_past k sh' || is_greeting hello k p') ≡ true)
    → is_polite hello sh r p ≡ true
    → is_polite hello sh' r p' ≡ true
Later-polite hello sh sh' (serves k) p p' l go pol = ground (arith, go k, l.past k, l.attached k)
Later-polite hello sh sh' listens p p' l go pol = refl
Later-polite hello sh sh' ends p p' l go pol = refl

pub Later-same : (sh : Shared) → Later sh sh
Later-same sh = record { greeted = λ k h. h; past = λ k h. h; attached = λ k h. h }

-- The mutex of writers is taken or freed.
pub locked-Moved :
    (hello : Bytes) (sh : Shared) (r : Role) (b : Bool) (p p' : Place)
    → Greets hello sh
    → is_ready hello sh p' ≡ true
    → ((k : ℕ) → is_greeting hello k p ≡ true → (is_past k sh || is_greeting hello k p') ≡ true)
    → is_polite hello sh r p ≡ true
    → Moved hello sh r (record sh { locked = b }) p'
locked-Moved hello sh r b p p' g ready go pol =
    let later : Later sh (record sh { locked = b }) = record {
      greeted = λ k h. h;
      past = λ k h. h;
      attached = λ k h. h;
    } in
    record {
      greets = record {
        opening = g.opening;
        settled = g.settled;
        current = g.current;
        armed = g.armed;
      };
      later = later;
      ready = Later-is_ready hello sh (record sh { locked = b }) p' later ready;
      polite = Later-polite hello sh (record sh { locked = b }) r p p' later go pol;
    }

-- A fallback timer is started.
pub armed-Moved :
    (hello : Bytes) (k : ℕ) (sh : Shared) (r : Role) (p : Place)
    → is_past k sh ≡ true
    → Greets hello sh
    → is_ready hello sh p ≡ true
    → is_polite hello sh r p ≡ true
    → Moved hello sh r (record sh { armed = k ∷ sh.armed }) p
unfolding elem
armed-Moved hello k sh r p past g ready pol =
    let later : Later sh (record sh { armed = k ∷ sh.armed }) = record {
      greeted = λ j h. h;
      past = λ j h. h;
      attached = λ j h. h;
    } in
    record {
      greets = record {
        opening = g.opening;
        settled = g.settled;
        current = g.current;
        armed = λ j h. ground (arith, g.armed j, eq_iff k j);
      };
      later = later;
      ready = Later-is_ready hello sh (record sh { armed = k ∷ sh.armed }) p later ready;
      polite = Later-is_polite hello sh (record sh { armed = k ∷ sh.armed }) r p later pol;
    }

pub Moved-trans :
    (hello : Bytes) (sh sh' sh'' : Shared) (r : Role) (p' p'' : Place)
    → Moved hello sh r sh' p'
    → Moved hello sh' r sh'' p''
    → Moved hello sh r sh'' p''
Moved-trans hello sh sh' sh'' r p' p'' m n = record {
  greets = n.greets;
  later = record {
    greeted = λ k h. n.later.greeted k (m.later.greeted k h);
    past = λ k h. n.later.past k (m.later.past k h);
    attached = λ k h. n.later.attached k (m.later.attached k h);
  };
  ready = n.ready;
  polite = n.polite;
}

-- A frame is given to the connection, and the mutex is kept or freed.
pub logged-Moved :
    (hello : Bytes) (sh : Shared) (r : Role) (k : ℕ) (f : Bytes) (frames : List Bytes) (t : Task)
    (ok : Bool) (p' : Place)
    → Greets hello sh
    → is_ready hello sh (sending k f frames t) ≡ true
    → (is_past k (logged k f ok sh) ≡ true → is_ready hello (logged k f ok sh) p' ≡ true)
    → is_polite hello sh r (sending k f frames t) ≡ true
    → Moved hello sh r (logged k f ok sh) p'
unfolding is_greeted
logged-Moved hello sh r k f frames t ok p' g ready next pol =
    let later = logged-Later hello k f ok sh in
    record {
      greets = logged-Greets hello k f ok sh (ground arith) g;
      later = later;
      ready = next (ground (arith, eq_refl k));
      polite =
          Later-polite hello sh (logged k f ok sh) r (sending k f frames t) p' later
            (λ j h. ground arith) pol;
    }

pub kept-Moved :
    (hello : Bytes) (sh : Shared) (r : Role) (t : Session) (p p' : Place)
    → KeepsSink sh.session t
    → Greets hello sh
    → ((k : ℕ) → is_greeting hello k p ≡ false)
    → is_polite hello sh r p ≡ true
    → is_ready hello (with_session sh t) p' ≡ true
    → Moved hello sh r (with_session sh t) p'
kept-Moved hello sh r t p p' v g quiet pol ready = record {
  greets = KeepsSink-Greets hello sh t v g;
  later = KeepsSink-Later hello sh t v;
  ready = ready;
  polite = Later-past hello sh (with_session sh t) r p p' (KeepsSink-Later hello sh t v) quiet pol;
}
