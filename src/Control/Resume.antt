-- ===== src/Control/Resume.antt =====
-- `Resume` and `Suspend` of cmd/egress-broker/ateapi.go, and what `resumeActor` and `onIdle` of
-- registry.go do with their answers. The service, `singleflight` and `wait` are parameters. An error
-- is `none` if it is nil, and else its text.
use substrate_ws_poc.Prelude.{ℕ, ◌<◌, Bool, Option, none, some, ◌≡◌}
use substrate_ws_poc.Prelude.Bytes.{Bytes}
use substrate_ws_poc.Actor.{ActorRef, to_string}
use substrate_ws_poc.Session.State.{Config, Session}
use substrate_ws_poc.Session.Ops.{resume_failed, suspend_failed}

-- What the code tells apart of the service's answer: nil, a status `Aborted`, and another error.
pub data Answer : Type 0 where
  accepted : Answer
  aborted : Answer
  refused : Bytes → Answer

pub record ResumeActorRequest : Type 0 where
  pub actor_ref : ActorRef
  pub boot : Bool

-- The service's answer to the i-th call of a resume, and to a suspend.
pub record Service : Type 0 where
  pub resume_actor : ℕ → ResumeActorRequest → Answer
  pub suspend_actor : ActorRef → Option Bytes

-- `wait.Backoff`: the duration in nanoseconds, the factor and the jitter in tenths.
pub record Backoff : Type 0 where
  pub steps : ℕ
  pub duration : ℕ
  pub factor : ℕ
  pub jitter : ℕ

abbrev pub backoff : Backoff
backoff = record { steps = 7; duration = 200000000; factor = 15; jitter = 2 }

-- A condition's results `(true, nil)`, `(false, nil)` and `(false, err)`.
pub data Condition : Type 0 where
  is_met : Condition
  is_not_met : Condition
  fails : Bytes → Condition

-- `ExponentialBackoffWithContext` with the seconds of its context and the i-th result of the
-- condition; `DoChan` with a key and the error that the function returns if it is run.
pub record Library : Type 0 where
  pub exponential_backoff : ℕ → Backoff → (ℕ → Condition) → Option Bytes
  pub do_chan : Bytes → Option Bytes → Option Bytes

-- What `ExponentialBackoffWithContext` documents: the condition is tried until it is met or fails, at
-- most `steps` times, and only while the context lasts.
pub data Polled (steps : ℕ) (condition : ℕ → Condition) : Option Bytes → Type 0 where
  met :
      (n : ℕ)
      → n < steps
      → ((i : ℕ) → i < n → condition i ≡ is_not_met)
      → condition n ≡ is_met
      → Polled steps condition none
  failed :
      (n : ℕ) (e : Bytes)
      → n < steps
      → ((i : ℕ) → i < n → condition i ≡ is_not_met)
      → condition n ≡ fails e
      → Polled steps condition (some e)
  gave_up : (e : Bytes) → Polled steps condition (some e)

pub record LibraryLaws (l : Library) : Type 0 where
  pub polls :
      (seconds : ℕ) (b : Backoff) (condition : ℕ → Condition)
      → Polled b.steps condition (l.exponential_backoff seconds b condition)

-- No other call for the key is in flight, so that the function is run.
abbrev pub IsAlone : Library → Bytes → Type 0
IsAlone l key = (err : Option Bytes) → l.do_chan key err ≡ err

-- The function that is polled.
unfoldable pub tried : Answer → Condition
tried accepted = is_met
tried aborted = is_not_met
tried (refused e) = fails e

module _ (l : Library) (api : Service) where
  -- `ended` is `ctx.Err()` if the caller's context is done before the flight.
  unfoldable pub resume : Bool → Option Bytes → ActorRef → Option Bytes
  resume boot_on_resume (some e) ref = some e
  resume boot_on_resume none ref =
      let request : ResumeActorRequest = record { actor_ref = ref; boot = boot_on_resume } in
      l.do_chan (to_string ref)
        (l.exponential_backoff 30 backoff (λ i. tried (api.resume_actor i request)))

unfoldable pub suspend : Service → ActorRef → Option Bytes
suspend api ref = api.suspend_actor ref

-- `resumeActor` from the return of `Resume`, with the session at that time.
unfoldable pub after_resume : Option Bytes → Session → Session
after_resume none s = s
after_resume (some e) s = resume_failed s

-- `onIdle` from the return of `Suspend`.
unfoldable pub after_suspend : Config → Option Bytes → Session → Session
after_suspend c none s = s
after_suspend c (some e) s = suspend_failed c s
