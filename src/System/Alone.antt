-- ===== src/System/Alone.antt =====
-- One goroutine of cmd/egress-broker/registry.go that runs while the others wait: the calls of
-- `writeToSink`, and `deliverBufferedNow`.
use substrate_ws_poc.Prelude.{
  ℕ, true, false, List, [], ◌∷◌, ◌++◌, some, ◌≡◌, refl, nat_eq, eq_refl, get_elem?,
  get_elem?-set_self, length, ap, ◌∙◌, sym,
}
use substrate_ws_poc.Prelude.Bytes.{Bytes, bytes_eq}
use substrate_ws_poc.SocketMode.{Json}
use substrate_ws_poc.Session.State.{Config, Task, done, write, deliver, note}
use substrate_ws_poc.Session.Ops.{note_activity}
use substrate_ws_poc.Session.Sections.{exec}
use substrate_ws_poc.Session.Frame.{rewritten_frames}
use substrate_ws_poc.System.State.{
  Write, Shared, Place, runs, writing, sending, serves, Thread, System,
}
use substrate_ws_poc.System.Steps.{
  goes, beats, move, wait, region, moves, placed, step, step_moves, with_session, logged,
}
use substrate_ws_poc.System.Greeting.{given_to}
use substrate_ws_poc.System.Order.{delivered_all, deliver_region}

-- The log after the frames were written.
abbrev pub written_all : ℕ → List Bytes → List Write → List Write
written_all k [] log = log
written_all k (f ∷ frames) log =
    written_all k frames (record { sink = k; frame = f; written = true } ∷ log)

pub append_cons : (xs ys : List Bytes) (x : Bytes) → (xs ++ x ∷ []) ++ ys ≡ xs ++ x ∷ ys
append_cons [] ys x = refl
append_cons (a ∷ xs) ys x = ap (◌∷◌ a) (append_cons xs ys x)

append_nil : (xs : List Bytes) → xs ++ [] ≡ xs
append_nil [] = refl
append_nil (a ∷ xs) = ap (◌∷◌ a) (append_nil xs)

pub given_to-written_all :
    (k : ℕ) (frames : List Bytes) (log : List Write)
    → given_to k (written_all k frames log) ≡ given_to k log ++ frames
unfolding given_to
given_to-written_all k [] log = sym (append_nil (given_to k log))
given_to-written_all k (f ∷ frames) log =
    given_to-written_all k frames (record { sink = k; frame = f; written = true } ∷ log)
    ∙ rw (eq_refl k) (append_cons (given_to k log) frames f)

pub get_elem?-spawn :
    (xs : List Thread) (th : Thread) → get_elem? (xs ++ th ∷ []) (length xs) ≡ some th
get_elem?-spawn [] th = refl
get_elem?-spawn (x ∷ xs) th = get_elem?-spawn xs th

module _ ⦃json : Json⦄ (c : Config) (i : ℕ) (ids : ℕ → Bytes) where
  -- Steps of the i-th goroutine only, with no write that fails, and heartbeats of its actor.
  pub data Alone (y : System) : System → Type 0 where
    stays : Alone y y
    goes_on : (m z : System) → Alone y m → step c (moves i (goes ids)) m ≡ some z → Alone y z
    beats_on : (m z : System) → Alone y m → step c (moves i beats) m ≡ some z → Alone y z

  -- Such steps lead to the shared state, with the handler at the place.
  pub record Ends (k : ℕ) (y : System) (sh : Shared) (p : Place) : Type 0 where
    pub last : System
    pub alone : Alone y last
    pub at : get_elem? last.threads i ≡ some (record { role = serves k; place = p })
    pub shared : last.shared ≡ sh

  pub moves_on :
      (k : ℕ) (y : System) (sh sh' : Shared) (p p' : Place)
      → Ends k y sh p
      → move c (serves k) (goes ids) p sh ≡ some (sh', p')
      → Ends k y sh' p'
  moves_on k y sh sh' p p' e moved =
      let th : Thread = record { role = serves k; place = p } in
      record {
        last = placed i e.last th sh' p';
        alone =
            goes_on e.last (placed i e.last th sh' p') e.alone
              (step_moves c i (goes ids) e.last th sh' p' e.at (rw e.shared moved));
        at = get_elem?-set_self e.last.threads i th (record { role = serves k; place = p' }) e.at;
        shared = refl;
      }

  pub beats_once :
      (k : ℕ) (y : System) (sh : Shared) → Ends k y sh (runs done) → Ends k y sh (runs (deliver k))
  unfolding move wait
  beats_once k y sh e =
      let th : Thread = record { role = serves k; place = runs done } in
      record {
        last = placed i e.last th sh (runs (deliver k));
        alone =
            beats_on e.last (placed i e.last th sh (runs (deliver k))) e.alone
              (step_moves c i beats e.last th sh (runs (deliver k)) e.at (rw e.shared refl));
        at =
            get_elem?-set_self e.last.threads i th
              (record { role = serves k; place = runs (deliver k) }) e.at;
        shared = refl;
      }

  writes :
      (k : ℕ) (frames : List Bytes) (t : Task) (y : System) (sh : Shared)
      → sh.session.sink ≡ some k
      → Ends k y sh (writing k frames t)
      → Ends k y (record sh { locked = false; log = written_all k frames sh.log }) (runs t)
  unfolding move
  writes k [] t y sh here e =
      moves_on k y sh (record sh { locked = false }) (writing k [] t) (runs t) e refl
  writes k (f ∷ frames) t y sh here e =
      let sends = sending k f frames t in
      let next = writing k frames t in
      writes k frames t y (logged k f true sh) here (
        moves_on k y sh (logged k f true sh) sends next
          (moves_on k y sh sh (writing k (f ∷ frames) t) sends e (rw here (rw (eq_refl k) refl)))
          refl)

  -- `writeToSink` with the mutex free.
  pub takes :
      (k : ℕ) (frames : List Bytes) (t : Task) (y : System) (sh : Shared)
      → sh.session.sink ≡ some k
      → sh.locked ≡ false
      → Ends k y sh (runs (write k frames t))
      → Ends k y (record sh { locked = false; log = written_all k frames sh.log }) (runs t)
  unfolding move
  takes k frames t y sh here free e =
      writes k frames t y (record sh { locked = true }) here
        (moves_on k y sh (record sh { locked = true }) (runs (write k frames t))
          (writing k frames t) e (rw free refl))

  abbrev pub after_delivery : ℕ → List Bytes → Shared → Shared
  after_delivery k frames sh = record sh {
    session = note_activity c (delivered_all ids sh.session);
    locked = false;
    log = written_all k frames sh.log;
  }

  pub delivers_all :
      (k : ℕ) (frames : List Bytes) (y : System) (sh : Shared)
      → sh.session.sink ≡ some k
      → sh.session.settled ≡ false
      → sh.locked ≡ false
      → rewritten_frames ids 0 sh.session.buffer ≡ some frames
      → Ends k y sh (runs (deliver k))
      → Ends k y (after_delivery k frames sh) (runs done)
  unfolding move region exec
  delivers_all k frames y sh here unsettled free built e =
      let sh1 = with_session sh (delivered_all ids sh.session) in
      let sh2 = record sh1 { locked = false; log = written_all k frames sh.log } in
      moves_on k y sh2 (after_delivery k frames sh) (runs note) (runs done)
        (takes k frames note y sh1 here free (
          moves_on k y sh sh1 (runs (deliver k)) (runs (write k frames note)) e
            (deliver_region c sh k ids frames here unsettled built)))
        refl
