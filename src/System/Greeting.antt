-- ===== src/System/Greeting.antt =====
-- What it takes for the hello frame of `Attach` in cmd/egress-broker/registry.go to come before the
-- other frames of a connection.
use substrate_ws_poc.Prelude.{
  ℕ, Bool, true, false, not, ◌&&◌, ◌||◌, List, [], ◌∷◌, ◌++◌, ◌≡◌, ◌≢◌, ◌⊎◌, inl, inr, refl, arith,
  nat_eq, ◌==◌, if◌then◌else◌, eq_iff, Bool-cases,
}
use substrate_ws_poc.Prelude.Bytes.{Bytes, bytes_eq}
use substrate_ws_poc.Session.State.{Session, Task, done, write, deliver, note, arm}
use substrate_ws_poc.Session.Ops.{is_current}
use substrate_ws_poc.Session.Outbox.{elem}
use substrate_ws_poc.System.State.{
  Write, Shared, Place, runs, writing, sending, gone, Role, serves, listens, ends,
}
use substrate_ws_poc.System.Steps.{with_session, logged}
use substrate_ws_poc.System.Cases.{KeepsSink}

-- The frames given to a connection, oldest first.
unfoldable pub given_to : ℕ → List Write → List Bytes
given_to k [] = []
given_to k (w ∷ log) =
    let before = given_to k log in if w.sink == k then before ++ w.frame ∷ [] else before

unfoldable pub is_greeted : ℕ → List Write → Bool
is_greeted k [] = false
is_greeted k (w ∷ log) = w.sink == k || is_greeted k log

-- Of the frames given to a connection, the first is the hello.
unfoldable pub begins : Bytes → ℕ → List Write → Bool
begins hello k [] = true
begins hello k (w ∷ log) =
    let before = begins hello k log in
    if w.sink == k && not (is_greeted k log) then w.frame == hello else before

ungreeted-given_to : (k : ℕ) (log : List Write) → is_greeted k log ≡ false → given_to k log ≡ []
unfolding is_greeted given_to
ungreeted-given_to k [] h = refl
ungreeted-given_to k (w ∷ log) h = ground (arith, ungreeted-given_to k log)

concat-ne-nil : (fs : List Bytes) (f : Bytes) → fs ++ f ∷ [] ≢ []
concat-ne-nil [] f e = cc
concat-ne-nil (g ∷ fs) f e = cc

greeted-given_to : (k : ℕ) (log : List Write) → is_greeted k log ≡ true → given_to k log ≢ []
unfolding is_greeted given_to
greeted-given_to k [] h e = cc
greeted-given_to k (w ∷ log) h e = elim (Bool-cases (w.sink == k)) [
  | inl same ↦ concat-ne-nil (given_to k log) w.frame (rw same at e)
  | inr other ↦ greeted-given_to k log (ground arith) (rw other at e)
]

pub begins-given_to :
    (hello : Bytes) (k : ℕ) (log : List Write)
    → begins hello k log ≡ true
    → (given_to k log ≡ []) ⊎ ((rest : List Bytes) × (given_to k log ≡ hello ∷ rest))
unfolding begins given_to
begins-given_to hello k [] h = inl refl
begins-given_to hello k (w ∷ log) h = elim (Bool-cases (w.sink == k)) [
  | inr other ↦ rw other (begins-given_to hello k log (ground arith))
  | inl same ↦ elim (Bool-cases (is_greeted k log)) [
    | inr first ↦ inr ([], ground (arith, ungreeted-given_to k log, eq_iff w.frame hello))
    | inl later ↦ elim (begins-given_to hello k log (ground arith)) [
      | inl none_given ↦ absurd (greeted-given_to k log later none_given)
      | inr (rest, given) ↦ inr (rest ++ w.frame ∷ [], rw (same, given))
    ]
  ]
]

-- The connection has its hello, or it has been replaced and is never current again.
abbrev pub is_past : ℕ → Shared → Bool
is_past k sh = is_greeted k sh.log || (elem k sh.attached && not (is_current k sh.session.sink))

abbrev pub is_hello : Bytes → List Bytes → Bool
is_hello hello (f ∷ []) = f == hello
is_hello hello _ = false

-- What may follow a write to a sink.
abbrev pub follows : ℕ → Task → Bool
follows k done = true
follows k note = true
follows k (deliver j) = j == k
follows k (arm j) = j == k
follows k _ = false

abbrev pub is_ready : Bytes → Shared → Place → Bool
is_ready hello sh (runs (write k frames t)) =
    elem k sh.attached && (is_past k sh || is_hello hello frames) && follows k t
is_ready hello sh (runs (deliver k)) = is_past k sh
is_ready hello sh (runs (arm k)) = is_past k sh
is_ready hello sh (runs _) = true
is_ready hello sh (writing k frames t) =
    elem k sh.attached && (is_past k sh || is_hello hello frames) && follows k t
is_ready hello sh (sending k f frames t) =
    elem k sh.attached && (is_greeted k sh.log || f == hello) && follows k t
is_ready hello sh gone = true

-- The hello of the connection is still to come.
abbrev pub is_greeting : Bytes → ℕ → Place → Bool
is_greeting hello k (runs (write j frames t)) = j == k && is_hello hello frames
is_greeting hello k (writing j frames t) = j == k && is_hello hello frames
is_greeting hello k (sending j f frames t) = j == k
is_greeting hello k _ = false

abbrev pub is_polite : Bytes → Shared → Role → Place → Bool
is_polite hello sh (serves k) p = elem k sh.attached && (is_past k sh || is_greeting hello k p)
is_polite hello sh _ p = true

pub record Greets (hello : Bytes) (sh : Shared) : Type 0 where
  pub opening : (k : ℕ) → begins hello k sh.log ≡ true
  pub settled :
      (k : ℕ)
      → is_current k sh.session.sink ≡ true
      → sh.session.settled ≡ true
      → is_greeted k sh.log ≡ true
  pub current : (k : ℕ) → is_current k sh.session.sink ≡ true → elem k sh.attached ≡ true
  pub armed : (k : ℕ) → elem k sh.armed ≡ true → is_past k sh ≡ true

-- What a step leaves true of the connections.
pub record Later (sh sh' : Shared) : Type 0 where
  pub greeted : (k : ℕ) → is_greeted k sh.log ≡ true → is_greeted k sh'.log ≡ true
  pub past : (k : ℕ) → is_past k sh ≡ true → is_past k sh' ≡ true
  pub attached : (k : ℕ) → elem k sh.attached ≡ true → elem k sh'.attached ≡ true

module _ (hello : Bytes) where
  pub Later-is_ready :
      (sh sh' : Shared) (p : Place)
      → Later sh sh'
      → is_ready hello sh p ≡ true
      → is_ready hello sh' p ≡ true
  Later-is_ready sh sh' (runs (write k frames t)) l h = ground (arith, l.past k, l.attached k)
  Later-is_ready sh sh' (runs (deliver k)) l h = l.past k h
  Later-is_ready sh sh' (runs (arm k)) l h = l.past k h
  Later-is_ready sh sh' (runs _) l h = refl
  Later-is_ready sh sh' (writing k frames t) l h = ground (arith, l.past k, l.attached k)
  Later-is_ready sh sh' (sending k f frames t) l h = ground (arith, l.greeted k, l.attached k)
  Later-is_ready sh sh' gone l h = refl

  pub Later-is_polite :
      (sh sh' : Shared) (r : Role) (p : Place)
      → Later sh sh'
      → is_polite hello sh r p ≡ true
      → is_polite hello sh' r p ≡ true
  Later-is_polite sh sh' (serves k) p l h = ground (arith, l.past k, l.attached k)
  Later-is_polite sh sh' listens p l h = refl
  Later-is_polite sh sh' ends p l h = refl

  -- A region that keeps the sink or drops it.
  pub KeepsSink-Later :
      (sh : Shared) (t : Session) → KeepsSink sh.session t → Later sh (with_session sh t)
  KeepsSink-Later sh t v = record {
    greeted = λ k h. h;
    past = λ k h. ground (arith, v.sink);
    attached = λ k h. h;
  }

  pub KeepsSink-Greets :
      (sh : Shared) (t : Session)
      → KeepsSink sh.session t
      → Greets hello sh
      → Greets hello (with_session sh t)
  KeepsSink-Greets sh t v g = record {
    opening = g.opening;
    settled = λ k cur set. ground (arith, g.settled k, v.settled set, v.same set);
    current = λ k cur. ground (arith, g.current k, v.sink);
    armed = λ k h. (KeepsSink-Later sh t v).past k (g.armed k h);
  }

  -- A call of `WriteFrame`.
  pub logged-Later : (k : ℕ) (f : Bytes) (ok : Bool) (sh : Shared) → Later sh (logged k f ok sh)
  unfolding is_greeted
  logged-Later k f ok sh = record {
    greeted = λ j h. ground arith;
    past = λ j h. ground arith;
    attached = λ j h. h;
  }

  pub logged-Greets :
      (k : ℕ) (f : Bytes) (ok : Bool) (sh : Shared)
      → (is_greeted k sh.log || f == hello) ≡ true
      → Greets hello sh
      → Greets hello (logged k f ok sh)
  unfolding begins
  logged-Greets k f ok sh h g = record {
    opening = λ j. ground (arith, g.opening j, eq_iff k j);
    settled = λ j cur set. (logged-Later k f ok sh).greeted j (g.settled j cur set);
    current = g.current;
    armed = λ j a. (logged-Later k f ok sh).past j (g.armed j a);
  }

-- A step of a goroutine keeps all of this.
pub record Moved (hello : Bytes) (sh : Shared) (r : Role) (sh' : Shared) (p' : Place) : Type 0 where
  pub greets : Greets hello sh'
  pub later : Later sh sh'
  pub ready : is_ready hello sh' p' ≡ true
  pub polite : is_polite hello sh' r p' ≡ true
