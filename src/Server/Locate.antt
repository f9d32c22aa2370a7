-- ===== src/Server/Locate.antt =====
-- `locateWithRetry` of cmd/egress-broker/server.go. The i-th call of the locator and whether the
-- request's context is done while waiting after it are arguments.
use substrate_ws_poc.Prelude.{
  ℕ, zero, suc, ◌+◌, ◌<◌, ◌≤◌, ◌⊎◌, ap, subst, Bool, false, [], ◌≡◌, refl, ◌↔◌, arith,
  if◌then◌else◌, Bool-cases, inl, inr,
}
use substrate_ws_poc.Prelude.Bytes.{Bytes, codes}
use native.Mathlib.Decide.{dec_lt}
use substrate_ws_poc.Actor.{ActorRef}

-- A reference or the text of an error.
pub data Outcome : Type 0 where
  located : ActorRef → Outcome
  failed : Bytes → Outcome

pub Outcome-cases :
    (o : Outcome) → ((ref : ActorRef) × (o ≡ located ref)) ⊎ ((e : Bytes) × (o ≡ failed e))
Outcome-cases (located ref) = inl (ref, refl)
Outcome-cases (failed e) = inr (e, refl)

abbrev pub attempts : ℕ
attempts = 20

-- `ctx.Err()`.
abbrev pub canceled : Bytes
canceled = codes "context canceled"

module _ (attempt : ℕ → Outcome) (is_done : ℕ → Bool) where
  locate_from : ℕ → ℕ → Bytes → Outcome
  locate_from zero i last = failed last
  locate_from (suc n) i last = elim (attempt i) [
    | located ref ↦ located ref
    | failed e ↦ if is_done i then failed canceled else locate_from n (i + 1) e
  ]

  unfoldable pub locate_with_retry : Outcome
  unfolding locate_from
  locate_with_retry = locate_from attempts 0 []

  -- The i-th attempt is the first to succeed, and the context was not done before it.
  pub record FoundAt (start bound : ℕ) (ref : ActorRef) : Type 0 where
    pub at : ℕ
    pub from : start ≤ at
    pub below : at < bound
    pub found : attempt at ≡ located ref
    pub before :
        (j : ℕ) → start ≤ j → j < at → (e : Bytes) × (attempt j ≡ failed e) × (is_done j ≡ false)

  locate_from-FoundAt :
      (n i : ℕ) (last : Bytes) (ref : ActorRef)
      → locate_from n i last ≡ located ref
      → FoundAt i (i + n) ref
  unfolding locate_from
  locate_from-FoundAt zero i last ref h = cc
  locate_from-FoundAt (suc n) i last ref h = elim (Outcome-cases (attempt i)) [
    | inl (r, here) ↦ record {
      at = i;
      from = omega arith;
      below = omega arith;
      found = ground arith;
      before = λ j a b. absurd (omega arith);
    }
    | inr (e, here) ↦ elim (Bool-cases (is_done i)) [
      | inl stop ↦ absurd (ground arith)
      | inr more ↦
          let v = locate_from-FoundAt n (i + 1) e ref (ground arith) in
          record {
            at = v.at;
            from = omega (arith, v.from);
            below = omega (arith, v.below);
            found = v.found;
            before = λ j a b. elim (dec_lt i j) [
              | yes later ↦ v.before j (omega arith) b
              | no now ↦
                  let same : i ≡ j = omega arith in
                  subst (λ j. (e : Bytes) × (attempt j ≡ failed e) × (is_done j ≡ false)) same
                    (e, here, more)
            ];
          }
    ]
  ]

  FoundAt-locate_from :
      (n i : ℕ) (last : Bytes) (ref : ActorRef)
      → FoundAt i (i + n) ref
      → locate_from n i last ≡ located ref
  unfolding locate_from
  FoundAt-locate_from zero i last ref v = absurd (omega (arith, v.from, v.below))
  FoundAt-locate_from (suc n) i last ref v = elim (dec_lt i v.at) [
    | yes later ↦
        let (e, here, more) = v.before i (omega arith) later in
        rw (here, locate_from)
          (rw more (
            FoundAt-locate_from n (i + 1) e ref (record {
              at = v.at;
              from = omega arith;
              below = omega (arith, v.below);
              found = v.found;
              before = λ j a b. v.before j (omega arith) b;
            })))
    | no now ↦
        let same : v.at ≡ i = omega (arith, v.from) in ground (arith, v.found, ap attempt same)
  ]

  -- The loop locates an actor exactly when one of its twenty attempts answers with that actor, and
  -- before it every attempt fails with the context not done.
  locate_with_retry_iff :
      (ref : ActorRef) → (locate_with_retry ≡ located ref) ↔ FoundAt 0 attempts ref
  unfolding locate_with_retry
  locate_with_retry_iff ref =
      (locate_from-FoundAt attempts 0 [] ref, FoundAt-locate_from attempts 0 [] ref)
