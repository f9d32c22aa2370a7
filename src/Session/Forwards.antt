-- ===== src/Session/Forwards.antt =====
-- The count of forwards in flight in cmd/egress-broker/registry.go against the forwards that are.
use substrate_ws_poc.Prelude.{
  ℕ, zero, suc, ◌+◌, ◌^◌, ◌≤◌, ◌<◌, true, List, [], ◌∷◌, Option, none, some, ◌>>=◌, ◌≡◌, false,
  arith, nat_eq, All, >>=-eq-some, length,
}
use substrate_ws_poc.SocketMode.{Json}
use substrate_ws_poc.Session.State.{Config, Session, Task, done, suspend}
use substrate_ws_poc.Session.Ops.{
  note_activity, on_idle, suspend_failed, begin_forward, end_forward, ensure_started, resume_failed,
  close, detach, ack, attach, arm_fallback,
}
use substrate_ws_poc.Session.Sections.{
  Section, begins_forward, ends_forward, detaches, delivers, receives, exec,
}
use substrate_ws_poc.Session.Cases.{
  skipped, stamped, deliver_buffered-Delivery, delivered, held, left, on_event-Arrival,
}
use substrate_ws_poc.Session.Runs.{run_sections}
use substrate_ws_poc.Session.Latch.{is_suspend, suspends, suspends_nil, suspends_cons}

-- The forwards that have begun and not ended, after one more region; `handlePassthrough` ends each
-- forward that it has begun, so an end without a begin is no run.
abbrev pub balance : Section → ℕ → Option ℕ
balance begins_forward n = some (suc n)
balance ends_forward zero = none
balance ends_forward (suc n) = some n
balance _ n = some n

unfoldable pub balance_all : List Section → ℕ → Option ℕ
balance_all [] n = some n
balance_all (sec ∷ rest) n = balance sec n >>= λ m. balance_all rest m

abbrev pub IsDetach : Section → Type 0
IsDetach (detaches k) = Unit
IsDetach _ = ⊥

module _ ⦃json : Json⦄ (c : Config) where
  step-le :
      (sec : Section) (s t : Session) (task : Task) (n m : ℕ)
      → exec c sec s ≡ some (t, task)
      → balance sec n ≡ some m
      → n + 1 < 2 ^ 63
      → s.in_flight ≤ n
      → (t.in_flight ≤ m) × (m ≤ n + 1) × ((¬ IsDetach sec) → s.in_flight ≡ n → t.in_flight ≡ m)
  unfolding exec note_activity on_idle suspend_failed begin_forward end_forward ensure_started
      resume_failed close detach ack attach arm_fallback
  step-le (delivers ids k) s t task n m e b small v =
      elim (deliver_buffered-Delivery ids k s t task e) [
        | skipped why now next ↦ ground arith
        | stamped _ cur uns here now next ↦ ground arith
      ]
  step-le (receives raw fresh) s t task n m e b small v =
      elim (on_event-Arrival raw fresh s t task e) [
        | delivered _ _ here settled out now next ↦ ground arith
        | held _ here settled now next ↦ ground arith
        | left away now next ↦ ground arith
      ]
  step-le (detaches k) s t task n m e b small v = (ground arith, ground arith, λ d. absurd (d tt))
  step-le ends_forward s t task zero m e b small v = cc
  step-le _ s t task n m e b small v = ground arith

  count_run :
      (secs : List Section) (s t : Session) (n m : ℕ)
      → run_sections c secs s ≡ some t
      → balance_all secs n ≡ some m
      → n + length secs < 2 ^ 63
      → s.in_flight ≤ n
      → (t.in_flight ≤ m)
        × (m ≤ n + length secs)
        × (All (λ sec. ¬ IsDetach sec) secs → s.in_flight ≡ n → t.in_flight ≡ m)
  unfolding run_sections balance_all
  count_run [] s t n m e b small v = (ground arith, ground arith, λ d same. ground arith)
  count_run (sec ∷ rest) s t n m e b small v =
      let ((u, task), here, later) = >>=-eq-some (exec c sec s) _ e in
      let (k, step, bs) = >>=-eq-some (balance sec n) _ b in
      let (low, near, exact) = step-le sec s u task n k here step (omega arith) v in
      let (end, far, end_exact) = count_run rest u t k m later bs (omega arith) low in
      (end, omega arith, λ d same. end_exact d.1 (exact d.0 same))

  -- Over any run of locked regions in which each end of a forward has its begin, from a session
  -- that counts no more forwards than the n in flight, the count never exceeds the forwards in
  -- flight, which are at most n and the number of regions; the sum must be below 2^63.
  pub in_flight-le :
      (secs : List Section) (s t : Session) (n m : ℕ)
      → run_sections c secs s ≡ some t
      → balance_all secs n ≡ some m
      → n + length secs < 2 ^ 63
      → s.in_flight ≤ n
      → (t.in_flight ≤ m) × (m ≤ n + length secs)
  in_flight-le secs s t n m e b small v =
      let (low, far, exact) = count_run secs s t n m e b small v in (low, far)

  balance-suc :
      (sec : Section) (n m : ℕ) → balance sec n ≡ some m → balance sec (suc n) ≡ some (suc m)
  balance-suc ends_forward zero m b = cc
  balance-suc ends_forward (suc n) m b = ground arith
  balance-suc _ n m b = ground arith

  -- A region that runs while a forward is counted.
  forward_step :
      (sec : Section) (s t : Session) (task : Task)
      → exec c sec s ≡ some (t, task)
      → 0 < s.in_flight
      → s.in_flight < 2 ^ 63
      → (¬ IsDetach sec)
      → s.suspending ≡ false
      → (is_suspend task ≡ 0) × (t.suspending ≡ false)
  unfolding exec note_activity on_idle suspend_failed begin_forward end_forward ensure_started
      resume_failed close detach ack attach arm_fallback
  forward_step (delivers ids k) s t task e some_in small d quiet =
      elim (deliver_buffered-Delivery ids k s t task e) [
        | skipped why now next ↦ ground arith
        | stamped _ cur uns here now next ↦ ground arith
      ]
  forward_step (receives raw fresh) s t task e some_in small d quiet =
      elim (on_event-Arrival raw fresh s t task e) [
        | delivered _ _ here settled out now next ↦ ground arith
        | held _ here settled now next ↦ ground arith
        | left away now next ↦ ground arith
      ]
  forward_step (detaches k) s t task e some_in small d quiet = absurd (d tt)
  forward_step _ s t task e some_in small d quiet = ground arith

  -- From a session that counts some forwards and is not marked as being suspended: over regions
  -- without a detach in which one of these forwards does not end, and each other end of a forward has
  -- its begin, no suspend is asked for, and after them the callback of the idle timer does nothing;
  -- the forwards and the regions must be fewer than 2^63 together.
  pub forward-not_suspended :
      (secs : List Section) (s t : Session) (n m : ℕ)
      → run_sections c secs s ≡ some t
      → s.in_flight ≡ suc n
      → balance_all secs n ≡ some m
      → suc n + length secs < 2 ^ 63
      → s.suspending ≡ false
      → All (λ sec. ¬ IsDetach sec) secs
      → (suspends c secs s ≡ 0) × (t.suspending ≡ false) × (on_idle t ≡ (t, done))
  unfolding on_idle run_sections balance_all
  forward-not_suspended [] s t n m e some_in b small quiet d =
      (suspends_nil c s, ground arith, ground arith)
  forward-not_suspended (sec ∷ rest) s t n m e some_in b small quiet d =
      let ((u, task), here, later) = >>=-eq-some (exec c sec s) _ e in
      let (k, step, bs) = >>=-eq-some (balance sec n) _ b in
      let (low, near, exact) =
        step-le sec s u task (suc n) (suc k) here (balance-suc sec n k step) (omega arith)
          (omega arith) in
      let now : u.in_flight ≡ suc k = exact d.0 some_in in
      let (none_here, still) =
        forward_step sec s u task here (omega arith) (omega arith) d.0 quiet in
      let (none_later, end, idle) =
        forward-not_suspended rest u t k m later now bs (omega arith) still d.1 in
      (omega (arith, suspends_cons c sec rest s u task here, none_here, none_later), end, idle)

  -- A forward that begins on the current connection and spans its detach is forgotten: when a
  -- forward then begins on the next connection and the old one ends, the count is 0 and the idle
  -- callback suspends the actor, with the second forward still in flight.
  pub detach-forgets_forward :
      (s : Session) (k j : ℕ)
      → s.sink ≡ some k
      → let t = (attach c j (detach k (begin_forward s))).0 in
        let u = end_forward c (begin_forward t) in
        (u.in_flight ≡ 0) × (on_idle u ≡ (record u { suspending = true }, suspend))
  unfolding on_idle begin_forward end_forward detach attach
  detach-forgets_forward s k j here = ground arith
