-- ===== src/Tests/Controls.antt =====
-- The answers of the Control service to a resume and a suspend.
use native.Mathlib.Decide.{dec_lt}
use substrate_ws_poc.Prelude.{
  ◌+◌, inl, inr, ap, ◌∙◌, ℕ, zero, suc, [], ◌∷◌, ◌<◌, Option, none, some, ◌≡◌, ◌⊎◌, refl, true,
  false, not, List, arith, nat_eq, ◌==◌,
}
use substrate_ws_poc.Prelude.Bytes.{Bytes, codes}
use substrate_ws_poc.Actor.{ActorRef}
use substrate_ws_poc.Session.State.{
  is_positive, Config, Session, done, resume, suspend, new_session,
}
use substrate_ws_poc.Session.Ops.{
  on_event, on_idle, note_activity, arm_idle, begin_forward, end_forward,
}
use substrate_ws_poc.Control.Resume as Control
use substrate_ws_poc.Session.Sections.{Section, notes_activity, begins_forward, exec}
use substrate_ws_poc.Session.Runs.{run_sections}
use substrate_ws_poc.Control.Retry.{IsAccepted, resume-retries, on_idle-retries}
use substrate_ws_poc.Tests.Codec.{toy}
use substrate_ws_poc.Tests.Frames.{first_event}

abbrev actor : ActorRef
actor = record { atespace = codes "demo"; name = codes "echo-1" }

-- The first call is aborted and the second accepted; no suspend is.
abbrev busy : Control.Service
busy = record {
  resume_actor = λ i request. elim i [ zero ↦ Control.aborted | suc j ↦ Control.accepted ];
  suspend_actor = λ ref. some (codes "unavailable");
}

-- The polls that the broker asks for: up to `n` more, from the i-th on.
poll_from : (ℕ → Control.Condition) → ℕ → ℕ → Option Bytes
poll_from condition zero i = some (codes "timed out")
poll_from condition (suc n) i = elim (condition i) [
  | Control.is_met ↦ none
  | Control.is_not_met ↦ poll_from condition n (suc i)
  | Control.fails e ↦ some e
]

Condition-cases :
    (a : Control.Condition)
    → (a ≡ Control.is_met) ⊎ (a ≡ Control.is_not_met) ⊎ ((e : Bytes) × (a ≡ Control.fails e))
Condition-cases Control.is_met = inl refl
Condition-cases Control.is_not_met = inr (inl refl)
Condition-cases (Control.fails e) = inr (inr (e, refl))

extended :
    (condition : ℕ → Control.Condition) (i : ℕ)
    → ((j : ℕ) → j < i → condition j ≡ Control.is_not_met)
    → condition i ≡ Control.is_not_met
    → (j : ℕ) → j < suc i
    → condition j ≡ Control.is_not_met
extended condition i before here j h = elim (dec_lt j i) [
  | yes lt ↦ before j lt
  | no ge ↦ let same : j ≡ i = omega arith in ap condition same ∙ here
]

poll_from-Polled :
    (steps : ℕ) (condition : ℕ → Control.Condition) (n i : ℕ)
    → i + n ≡ steps
    → ((j : ℕ) → j < i → condition j ≡ Control.is_not_met)
    → Control.Polled steps condition (poll_from condition n i)
unfolding poll_from
poll_from-Polled steps condition zero i sum before = Control.gave_up (codes "timed out")
poll_from-Polled steps condition (suc n) i sum before = elim (Condition-cases (condition i)) [
  | inl met ↦ rw (poll_from, met) (Control.met i (omega arith) before met)
  | inr (inl not_met) ↦
      rw (poll_from, not_met)
        (poll_from-Polled steps condition n (suc i) (omega arith)
          (extended condition i before not_met))
  | inr (inr (e, fails)) ↦ rw (poll_from, fails) (Control.failed i e (omega arith) before fails)
]

abbrev library : Control.Library
library = record {
  exponential_backoff = λ seconds b condition. poll_from condition b.steps 0;
  do_chan = λ key err. err;
}

library_laws : Control.LibraryLaws library
library_laws = record {
  polls = λ seconds b condition.
      poll_from-Polled b.steps condition b.steps 0 (omega arith) (λ j h. absurd (omega arith));
}

abbrev fresh_session : Session
fresh_session = new_session actor

resume-retries_example :
    let t = Control.after_resume (Control.resume library busy false none actor) fresh_session in
    (IsAccepted (λ i. busy.resume_actor i (record { actor_ref = actor; boot = false }))
      × (t ≡ fresh_session))
    ⊎ ((u : Session) × (on_event first_event [] t ≡ some (u, resume))
        × (u.buffer ≡ record { key = 0; raw = first_event } ∷ []))
unfolding new_session
resume-retries_example =
    resume-retries library busy false none actor fresh_session first_event [] library_laws
      (λ err. refl) refl

abbrev config : Config
config = record { deliver_delay = 0; idle_grace = 5; hello_frame = 0 ∷ [] }

abbrev attached : Session
attached = record fresh_session { sink = some 0 }

asks_to_suspend : on_idle attached ≡ (record attached { suspending = true }, suspend)
unfolding on_idle new_session
asks_to_suspend = refl

-- A heartbeat is noted, and a forward begins, before the service answers.
abbrev meanwhile : List Section
meanwhile = notes_activity ∷ begins_forward ∷ []

abbrev forwarding : Session
forwarding = record attached { suspending = true; in_flight = 1 }

meanwhile_runs :
    run_sections config meanwhile (record attached { suspending = true }) ≡ some forwarding
unfolding run_sections exec note_activity arm_idle begin_forward new_session
meanwhile_runs = refl

on_idle-retries_example :
    let u = Control.after_suspend config (Control.suspend busy actor) forwarding in
    let z = end_forward config u in
    ((busy.suspend_actor actor ≡ none) × (on_idle u ≡ (u, done)) × (u.suspending ≡ true))
    ⊎ ((e : Bytes) × (busy.suspend_actor actor ≡ some e)
        × (is_positive forwarding.in_flight ≡ false
            → (on_idle u ≡ (record u { suspending = true }, suspend))
              × (u.idle_tmr ≡ not (config.idle_grace == 0)))
        × (forwarding.in_flight ≡ 1
            → (on_idle z ≡ (record z { suspending = true }, suspend))
              × (z.idle_tmr ≡ not (config.idle_grace == 0))))
on_idle-retries_example =
    on_idle-retries config busy actor attached (record attached { suspending = true }) forwarding
      meanwhile asks_to_suspend meanwhile_runs (tt, (tt, tt))
