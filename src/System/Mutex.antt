-- ===== src/System/Mutex.antt =====
-- The mutex `sinkWrite` of cmd/egress-broker/registry.go and the goroutines that hold it.
use substrate_ws_poc.Prelude.{
  ℕ, zero, suc, ◌+◌, ◌≤◌, Bool, true, false, List, [], ◌∷◌, ◌++◌, some, ◌≡◌, inl, inr, refl, arith,
  nat_eq, if◌then◌else◌, Bool-cases, >>=-eq-some, get_elem?, set,
}
use substrate_ws_poc.Prelude.Bytes.{bytes_eq}
use substrate_ws_poc.Actor.{ActorRef}
use substrate_ws_poc.SocketMode.{Json}
use substrate_ws_poc.Session.State.{Config, Task, done, write, deliver, note, arm}
use substrate_ws_poc.Session.Ops.{attach}
use substrate_ws_poc.Session.Sections.{Section, detaches, arms_fallback, delivers, receives, exec}
use substrate_ws_poc.Session.Outbox.{elem}
use substrate_ws_poc.System.State.{
  Shared, Place, runs, writing, sending, Role, serves, listens, ends, Thread, System, new_system,
}
use substrate_ws_poc.System.Steps.{
  Choice, goes, fails, beats, confirms, leaves, hears, region, wait, move, Event, moves, connects,
  fires, runs_region, is_other, spawn, step, run,
}

-- Between `sinkWrite.Lock` and `sinkWrite.Unlock`.
abbrev pub is_writing : Place → Bool
is_writing (writing k frames t) = true
is_writing (sending k f frames t) = true
is_writing _ = false

abbrev weight : Bool → ℕ
weight b = if b then 1 else 0

unfoldable pub writers : List Thread → ℕ
writers [] = 0
writers (th ∷ threads) = weight (is_writing th.place) + writers threads

writers-append : (xs ys : List Thread) → writers (xs ++ ys) ≡ writers xs + writers ys
unfolding writers
writers-append [] ys = omega arith
writers-append (x ∷ xs) ys = omega (arith, writers-append xs ys)

writers-spawn :
    (r : Role) (t : Task) (xs : List Thread) → writers (spawn r (runs t) xs) ≡ writers xs
unfolding writers
writers-spawn r t xs = omega (arith, writers-append xs (record { role = r; place = runs t } ∷ []))

writers-set :
    (xs : List Thread) (i : ℕ) (th th' : Thread)
    → get_elem? xs i ≡ some th
    → writers (set xs i th') + weight (is_writing th.place)
      ≡ writers xs + weight (is_writing th'.place)
unfolding writers
writers-set [] i th th' e = cc
writers-set (x ∷ xs) zero th th' e = ground arith
writers-set (x ∷ xs) (suc i) th th' e = omega (arith, writers-set xs i th th' e)

writers-get_elem? :
    (xs : List Thread) (i : ℕ) (th : Thread)
    → get_elem? xs i ≡ some th
    → weight (is_writing th.place) ≤ writers xs
unfolding writers
writers-get_elem? [] i th e = cc
writers-get_elem? (x ∷ xs) zero th e = ground arith
writers-get_elem? (x ∷ xs) (suc i) th e = omega (arith, writers-get_elem? xs i th e)

-- Two places in the list with a writer are one, if there is at most one writer.
only_writer :
    (xs : List Thread) (i j : ℕ) (a b : Thread)
    → writers xs ≤ 1
    → get_elem? xs i ≡ some a
    → get_elem? xs j ≡ some b
    → is_writing a.place ≡ true
    → is_writing b.place ≡ true
    → i ≡ j
unfolding writers
only_writer [] i j a b h at_i at_j wa wb = cc
only_writer (x ∷ xs) zero zero a b h at_i at_j wa wb = refl
only_writer (x ∷ xs) zero (suc j) a b h at_i at_j wa wb =
    ground (arith, writers-get_elem? xs j b at_j)
only_writer (x ∷ xs) (suc i) zero a b h at_i at_j wa wb =
    ground (arith, writers-get_elem? xs i a at_i)
only_writer (x ∷ xs) (suc i) (suc j) a b h at_i at_j wa wb = ground (arith, only_writer xs i j a b)

-- Where there is a writer, it stands somewhere.
pub some_writer :
    (xs : List Thread)
    → writers xs ≡ 1
    → (i : ℕ) × (th : Thread) × (get_elem? xs i ≡ some th) × (is_writing th.place ≡ true)
unfolding writers
some_writer [] h = absurd (omega arith)
some_writer (x ∷ xs) h = elim (Bool-cases (is_writing x.place)) [
  | inl here ↦ (0, x, refl, here)
  | inr not_here ↦ let (i, th, at, w) = some_writer xs (ground arith) in (suc i, th, at, w)
]

module _ ⦃json : Json⦄ (c : Config) where
  region-locked :
      (sh sh' : Shared) (sec : Section) (p' : Place)
      → region c sh sec ≡ some (sh', p')
      → (sh'.locked ≡ sh.locked) × (is_writing p' ≡ false)
  unfolding region
  region-locked sh sh' sec p' e =
      let ((t, task), here, out) = >>=-eq-some (exec c sec sh.session) _ e in
      (ground arith, ground arith)

  wait-locked :
      (r : Role) (ch : Choice) (sh sh' : Shared) (p' : Place)
      → wait c r ch sh ≡ some (sh', p')
      → (sh'.locked ≡ sh.locked) × (is_writing p' ≡ false)
  unfolding wait
  wait-locked (serves k) beats sh sh' p' e = ground arith
  wait-locked (serves k) (confirms id) sh sh' p' e = region-locked sh sh' (Section.acks id) p' e
  wait-locked (serves k) leaves sh sh' p' e =
      let ((s, p), here, out) = >>=-eq-some (region c sh (detaches k)) _ e in
      let (same, idle) = region-locked sh s (detaches k) p here in ground arith
  wait-locked listens (hears raw fresh) sh sh' p' e = region-locked sh sh' (receives raw fresh) p' e
  wait-locked _ _ sh sh' p' e = cc

  move-locked :
      (r : Role) (ch : Choice) (p : Place) (sh sh' : Shared) (p' : Place)
      → move c r ch p sh ≡ some (sh', p')
      → weight (is_writing p) ≤ weight sh.locked
      → weight sh'.locked + weight (is_writing p) ≡ weight sh.locked + weight (is_writing p')
  unfolding move
  move-locked r ch (runs done) sh sh' p' e h = ground (arith, wait-locked r ch sh sh' p' e)
  move-locked r (goes ids) (runs (write k frames t)) sh sh' p' e h = ground arith
  move-locked r (goes ids) (runs (deliver k)) sh sh' p' e h =
      ground (arith, region-locked sh sh' (delivers ids k) p' e)
  move-locked r (goes ids) (runs note) sh sh' p' e h =
      ground (arith, region-locked sh sh' Section.notes_activity p' e)
  move-locked r (goes ids) (runs (arm k)) sh sh' p' e h =
      ground (arith, region-locked (record sh { armed = k ∷ sh.armed }) sh' (arms_fallback k) p' e)
  move-locked r (goes ids) (writing k [] t) sh sh' p' e h = ground arith
  move-locked r (goes ids) (writing k (f ∷ frames) t) sh sh' p' e h = ground arith
  move-locked r (goes ids) (sending k f frames t) sh sh' p' e h = ground arith
  move-locked r fails (sending k f frames t) sh sh' p' e h = ground arith
  move-locked _ _ _ sh sh' p' e h = cc

  -- The mutex is held exactly while a goroutine is in the loop.
  abbrev pub IsHeld : System → Type 0
  IsHeld y = writers y.threads ≡ weight y.shared.locked

  step-IsHeld : (e : Event) (y z : System) → step c e y ≡ some z → IsHeld y → IsHeld z
  unfolding step
  step-IsHeld (moves i ch) y z e h =
      let (th, at, next) = >>=-eq-some (get_elem? y.threads i) _ e in
      let ((sh, p), moved, out) = >>=-eq-some (move c th.role ch th.place y.shared) _ next in
      let low = writers-get_elem? y.threads i th at in
      let lock = move-locked th.role ch th.place y.shared sh p moved (omega (arith, low, h)) in
      let sum = writers-set y.threads i th (record th { place = p }) at in
      let threads : z.threads ≡ set y.threads i (record th { place = p }) = ground arith in
      let locked : z.shared.locked ≡ sh.locked = ground arith in
      rw (threads, locked) (omega (arith, lock, sum, h))
  step-IsHeld (connects k) y z e h = elim (Bool-cases (elem k y.shared.attached)) [
    | inl old ↦ absurd (ground arith)
    | inr new ↦ ground (arith, writers-spawn (serves k) (attach c k y.shared.session).1 y.threads)
  ]
  step-IsHeld (fires k) y z e h = ground (arith, writers-spawn ends (deliver k) y.threads)
  step-IsHeld (runs_region sec) y z e h = elim (Bool-cases (is_other sec)) [
    | inr no_other ↦ absurd (ground arith)
    | inl other ↦
        let ((t, task), here, out) = >>=-eq-some (exec c sec y.shared.session) _ (rw other at e) in
        ground arith
  ]

  pub run-IsHeld : (es : List Event) (y z : System) → run c es y ≡ some z → IsHeld y → IsHeld z
  unfolding run
  run-IsHeld [] y z e h = ground arith
  run-IsHeld (x ∷ es) y z e h =
      let (m, here, later) = >>=-eq-some (step c x y) _ e in
      run-IsHeld es m z later (step-IsHeld x y m here h)

  pub new_system-IsHeld : (ref : ActorRef) → IsHeld (new_system ref)
  unfolding new_system writers
  new_system-IsHeld ref = refl

  -- In every run of the goroutines from a new session, at most one of them is between taking and
  -- freeing the mutex of writers, so that two never write to a connection at once.
  pub run-exclusive :
      (ref : ActorRef) (es : List Event) (z : System) (i j : ℕ) (a b : Thread)
      → run c es (new_system ref) ≡ some z
      → get_elem? z.threads i ≡ some a
      → get_elem? z.threads j ≡ some b
      → is_writing a.place ≡ true
      → is_writing b.place ≡ true
      → i ≡ j
  run-exclusive ref es z i j a b e =
      let held = run-IsHeld es (new_system ref) z e (new_system-IsHeld ref) in
      only_writer z.threads i j a b (ground (arith, held))
