-- ===== src/System/Progress.antt =====
-- How the holder of the mutex `sinkWrite` of cmd/egress-broker/registry.go goes on to free it.
use substrate_ws_poc.Prelude.{
  ℕ, suc, ◌+◌, ◌≤◌, ◌*◌, true, false, List, [], ◌∷◌, some, ◌≡◌, refl, ◌∙◌, arith, inl, inr,
  Bool-cases, get_elem?, get_elem?-set_self, length, replicate,
}
use substrate_ws_poc.Prelude.Bytes.{Bytes}
use substrate_ws_poc.Actor.{ActorRef}
use substrate_ws_poc.SocketMode.{Json}
use substrate_ws_poc.Session.State.{Config, Task}
use substrate_ws_poc.Session.Ops.{is_current}
use substrate_ws_poc.System.State.{
  Shared, Place, runs, writing, sending, Thread, System, new_system,
}
use substrate_ws_poc.System.Steps.{goes, logged, move, Event, moves, placed, run, step_moves}
use substrate_ws_poc.System.Mutex.{is_writing, run-IsHeld, new_system-IsHeld, some_writer}

module _ ⦃json : Json⦄ (c : Config) (i : ℕ) (ids : ℕ → Bytes) where
  -- The goroutine frees the mutex within n steps of its own, which leave the session as it is.
  pub record Frees (bound : ℕ) (y : System) : Type 0 where
    pub steps : ℕ
    pub last : System
    pub few : steps ≤ bound
    pub runs : run c (replicate steps (moves i (goes ids))) y ≡ some last
    pub freed : last.shared.locked ≡ false
    pub kept : last.shared.session ≡ y.shared.session

  now_free :
      (y : System) (th : Thread) (sh : Shared) (p : Place)
      → get_elem? y.threads i ≡ some th
      → move c th.role (goes ids) th.place y.shared ≡ some (sh, p)
      → sh.locked ≡ false
      → sh.session ≡ y.shared.session
      → Frees 1 y
  unfolding run
  now_free y th sh p at moved free same = record {
    steps = 1;
    last = placed i y th sh p;
    few = omega arith;
    runs = rw (step_moves c i (goes ids) y th sh p at moved) refl;
    freed = free;
    kept = same;
  }

  then-Frees :
      (n : ℕ) (y : System) (th : Thread) (sh : Shared) (p : Place)
      → get_elem? y.threads i ≡ some th
      → move c th.role (goes ids) th.place y.shared ≡ some (sh, p)
      → sh.session ≡ y.shared.session
      → Frees n (placed i y th sh p)
      → Frees (suc n) y
  unfolding run
  then-Frees n y th sh p at moved same f = record {
    steps = suc f.steps;
    last = f.last;
    few = omega (arith, f.few);
    runs = rw (step_moves c i (goes ids) y th sh p at moved) f.runs;
    freed = f.freed;
    kept = f.kept ∙ same;
  }

  weaker : (n m : ℕ) (y : System) → n ≤ m → Frees n y → Frees m y
  weaker n m y h f = record {
    steps = f.steps;
    last = f.last;
    few = omega (arith, f.few);
    runs = f.runs;
    freed = f.freed;
    kept = f.kept;
  }

  sending-Frees :
      (f : Bytes) (frames : List Bytes) (k : ℕ) (t : Task) (y : System) (th : Thread)
      → get_elem? y.threads i ≡ some th
      → th.place ≡ sending k f frames t
      → ((z : System) (rest : Thread)
          → get_elem? z.threads i ≡ some rest
          → rest.place ≡ writing k frames t
          → Frees (2 * length frames + 1) z)
      → Frees (suc (2 * length frames + 1)) y
  unfolding move
  sending-Frees f frames k t y th at here rest =
      let sh = logged k f true y.shared in
      let writes = record th { place = writing k frames t } in
      then-Frees (2 * length frames + 1) y th sh (writing k frames t) at (rw (here, move) refl) refl
        (rest (placed i y th sh (writing k frames t)) writes
          (get_elem?-set_self y.threads i th writes at) refl)

  writing-Frees :
      (frames : List Bytes) (k : ℕ) (t : Task) (y : System) (th : Thread)
      → get_elem? y.threads i ≡ some th
      → th.place ≡ writing k frames t
      → Frees (2 * length frames + 1) y
  unfolding move
  writing-Frees [] k t y th at here =
      now_free y th (record y.shared { locked = false }) (runs t) at (rw (here, move) refl) refl
        refl
  writing-Frees (f ∷ frames) k t y th at here =
      elim (Bool-cases (is_current k y.shared.session.sink)) [
        | inr other ↦ weaker 1 (2 * length (f ∷ frames) + 1) y (omega arith) (
            now_free y th (record y.shared { locked = false }) (runs t) at
              (rw (here, move) (rw other refl)) refl refl)
        | inl cur ↦
            let sends = record th { place = sending k f frames t } in
            let first = placed i y th y.shared (sending k f frames t) in
            let at_first = get_elem?-set_self y.threads i th sends at in
            weaker (suc (suc (2 * length frames + 1))) (2 * length (f ∷ frames) + 1) y (omega arith)
              (then-Frees (suc (2 * length frames + 1)) y th y.shared (sending k f frames t) at
                (rw (here, move) (rw cur refl)) refl
                (sending-Frees f frames k t first sends at_first refl
                  (λ z rest at_rest there. writing-Frees frames k t z rest at_rest there)))
      ]

  holder-Frees :
      (y : System) (th : Thread) (p : Place)
      → get_elem? y.threads i ≡ some th
      → th.place ≡ p
      → is_writing p ≡ true
      → (bound : ℕ) × Frees bound y
  holder-Frees y th (writing k frames t) at here w = (_, writing-Frees frames k t y th at here)
  holder-Frees y th (sending k f frames t) at here w =
      (_, sending-Frees f frames k t y th at here (writing-Frees frames k t))
  holder-Frees y th _ at here w = cc

module _ ⦃json : Json⦄ (c : Config) where
  -- In every run of the goroutines from a new session in which the mutex of writers is held, some
  -- goroutine frees it by finitely many steps of its own, if they are taken and no write fails,
  -- whatever the others wait for, and they leave the session as it is.
  pub run-Frees :
      (ref : ActorRef) (es : List Event) (z : System) (ids : ℕ → Bytes)
      → run c es (new_system ref) ≡ some z
      → z.shared.locked ≡ true
      → (i : ℕ) × (bound : ℕ) × Frees c i ids bound z
  run-Frees ref es z ids e lock =
      let held = run-IsHeld c es (new_system ref) z e (new_system-IsHeld c ref) in
      let (i, th, at, w) = some_writer z.threads (ground (arith, held)) in
      let (bound, frees) = holder-Frees c i ids z th th.place at refl w in (i, bound, frees)
