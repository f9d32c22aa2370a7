-- ===== src/Session/Writer.antt =====
-- `writeToSink` of cmd/egress-broker/registry.go. Other goroutines run between the frames, so what
-- the loop sees before each of them is an argument.
use substrate_ws_poc.Prelude.{
  ℕ, suc, ◌+◌, ◌<◌, ◌≤◌, Bool, true, false, not, List, [], ◌∷◌, ◌++◌, Option, ◌≡◌, ◌⊎◌, refl, inl,
  inr, arith, ap, length, if◌then◌else◌, Bool-cases,
}
use native.Mathlib.Decide.{dec_lt}
use substrate_ws_poc.Prelude.Bytes.{Bytes}
use substrate_ws_poc.Session.Ops.{is_current}

-- The session's sink when a frame is due, and whether writing it fails.
pub record Look : Type 0 where
  pub sink : Option ℕ
  pub fails : Bool

module _ (k : ℕ) (looks : ℕ → Look) where
  -- The frames that are written, from the i-th on.
  unfoldable pub write_to_sink : ℕ → List Bytes → List Bytes
  write_to_sink i [] = []
  write_to_sink i (f ∷ frames) =
      let rest = write_to_sink (i + 1) frames in
      if not (is_current k (looks i).sink) then [] else if (looks i).fails then [] else f ∷ rest

  abbrev pub is_open : ℕ → Bool
  is_open i = is_current k (looks i).sink

  -- The frames `out` are written and `left` are not: a frame is left only after a look that finds
  -- another sink, or a write that fails.
  pub record IsWritten (i : ℕ) (frames out : List Bytes) : Type 0 where
    pub left : List Bytes
    pub all : frames ≡ out ++ left
    pub before :
        (j : ℕ) → i ≤ j → j < i + length out → (is_open j ≡ true) × ((looks j).fails ≡ false)
    pub stop :
        (left ≡ []) ⊎ (is_open (i + length out) ≡ false) ⊎ ((looks (i + length out)).fails ≡ true)

  stopped :
      (i : ℕ) (frames : List Bytes)
      → (is_open i ≡ false) ⊎ ((looks i).fails ≡ true)
      → IsWritten i frames []
  stopped i frames why = record {
    left = frames;
    all = refl;
    before = λ j from below. absurd (omega arith);
    stop = let none_more : i + 0 ≡ i = omega arith in inr (rw none_more why);
  }

  continued :
      (i : ℕ) (f : Bytes) (frames out : List Bytes)
      → is_open i ≡ true
      → (looks i).fails ≡ false
      → IsWritten (i + 1) frames out
      → IsWritten i (f ∷ frames) (f ∷ out)
  continued i f frames out here fine w = record {
    left = w.left;
    all = ap (◌∷◌ f) w.all;
    before = λ j from below. elim (dec_lt i j) [
      | yes after ↦ w.before j (omega arith) (omega arith)
      | no first ↦ let at : i ≡ j = omega arith in rw (← at) (here, fine)
    ];
    stop = let shift : i + suc (length out) ≡ i + 1 + length out = omega arith in rw shift w.stop;
  }

  -- The frames written are the first ones, in order, each to a sink that was current when it was
  -- due; and all are, unless the sink changes or a write fails.
  pub write_to_sink-IsWritten :
      (i : ℕ) (frames : List Bytes) → IsWritten i frames (write_to_sink i frames)
  unfolding write_to_sink
  write_to_sink-IsWritten i [] = record {
    left = [];
    all = refl;
    before = λ j from below. absurd (omega arith);
    stop = inl refl;
  }
  write_to_sink-IsWritten i (f ∷ frames) = elim (Bool-cases (is_open i)) [
    | inr gone ↦ rw gone (stopped i (f ∷ frames) (inl gone))
    | inl here ↦ elim (Bool-cases (looks i).fails) [
      | inl fails ↦ rw (here, fails) (stopped i (f ∷ frames) (inr fails))
      | inr fine ↦
          rw (here, fine)
            (continued i f frames (write_to_sink (i + 1) frames) here fine
              (write_to_sink-IsWritten (i + 1) frames))
    ]
  ]
