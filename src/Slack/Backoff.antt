-- ===== src/Slack/Backoff.antt =====
-- The waits between dials in `runSlack` of cmd/egress-broker/registry.go.
use substrate_ws_poc.Prelude.{
  ℕ, zero, suc, ◌*◌, ◌+◌, ◌^◌, false, List, [], ◌∷◌, length, ◌++◌, ◌≡◌, refl, arith, ltb,
  if◌then◌else◌, ap,
}
use substrate_ws_poc.Prelude.Bytes.{Bytes}
use substrate_ws_poc.SocketMode.{Json}
use substrate_ws_poc.Slack.Loop.{
  second, next_backoff, Action, dials, sleeps, closes, Iteration, Round, refused, elapses,
  connected, read_until_close, run_slack,
}

pub iterate : ℕ → ℕ → ℕ
iterate zero d = d
iterate (suc n) d = next_backoff (iterate n d)

iterate_capped : (n : ℕ) → iterate (suc (suc (suc (suc (suc n))))) second ≡ 30 * second
unfolding iterate next_backoff
iterate_capped zero = refl
iterate_capped (suc n) = ap next_backoff (iterate_capped n)

-- The n-th wait, counted from 0: it doubles from one second up to half a minute.
abbrev pub wait : ℕ → ℕ
wait n = if ltb n 5 then 2 ^ n * second else 30 * second

pub iterate-wait : (n : ℕ) → iterate n second ≡ wait n
unfolding iterate next_backoff
iterate-wait zero = refl
iterate-wait (suc zero) = refl
iterate-wait (suc (suc zero)) = refl
iterate-wait (suc (suc (suc zero))) = refl
iterate-wait (suc (suc (suc (suc zero)))) = refl
iterate-wait (suc (suc (suc (suc (suc n))))) =
    let late : ltb (suc (suc (suc (suc (suc n))))) 5 ≡ false = ground arith in
    rw late (iterate_capped n)

-- A refusal of each token.
abbrev pub refusals : List Bytes → List Round → List Round
refusals [] rest = rest
refusals (t ∷ ts) rest = refused t false elapses ∷ refusals ts rest

-- A dial and a wait for each refusal, from the i-th on.
unfoldable pub waits : ℕ → List Bytes → List Action → List Action
waits i [] later = later
waits i (t ∷ ts) later = dials t ∷ sleeps (wait i) ∷ waits (suc i) ts later

module _ ⦃json : Json⦄ where
  refusals_from :
      (i : ℕ) (ts : List Bytes) (rest : List Round)
      → run_slack (iterate i second) (refusals ts rest)
        ≡ waits i ts (run_slack (iterate (length ts + i) second) rest)
  unfolding run_slack waits iterate
  refusals_from i [] rest = ap (λ k. run_slack (iterate k second) rest) (omega arith)
  refusals_from i (t ∷ ts) rest =
      let next : length ts + suc i ≡ suc (length ts) + i = omega arith in
      rw (← next) (
        rw (← iterate-wait i)
          (ap (λ r. dials t ∷ sleeps (iterate i second) ∷ r) (refusals_from (suc i) ts rest)))

  -- If dials with any tokens fail and then one succeeds, with `stop` open, the loop sleeps 1, 2, 4, 8,
  -- 16 and then 30 seconds after the failures, serves the connection, closes it, and starts the count
  -- afresh after it.
  pub run_slack-waits :
      (ts : List Bytes) (t : Bytes) (arriving : List Iteration) (rest : List Round)
      → run_slack second (refusals ts (connected t false false arriving ∷ rest))
        ≡ waits 0 ts (dials t ∷ (read_until_close arriving ++ closes ∷ run_slack second rest))
  unfolding run_slack iterate
  run_slack-waits ts t arriving rest = refusals_from 0 ts (connected t false false arriving ∷ rest)
