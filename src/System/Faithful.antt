-- ===== src/System/Faithful.antt =====
-- The runs of the goroutines of cmd/egress-broker/registry.go, and the frames that they write.
use substrate_ws_poc.Prelude.{
  List, [], ◌∷◌, ◌++◌, some, ◌≡◌, arith, nat_eq, subst, >>=-eq-some, All, All-append, true,
  get_elem?, set, get_elem?-All, set-All, Bool-cases, inl, inr,
}
use substrate_ws_poc.Prelude.Bytes.{Bytes, bytes_eq}
use substrate_ws_poc.Actor.{ActorRef}
use substrate_ws_poc.SocketMode.{Json}
use substrate_ws_poc.Session.State.{Config, deliver, new_session}
use substrate_ws_poc.Session.Ops.{attach}
use substrate_ws_poc.Session.Sections.{Section, receives, exec}
use substrate_ws_poc.Session.Outbox.{elem}
use substrate_ws_poc.Session.Texts.{ComesWith, attach-Keeps, exec-Keeps}
use substrate_ws_poc.System.State.{Place, runs, Role, serves, ends, Thread, System, new_system}
use substrate_ws_poc.System.Steps.{
  with_session, move, Event, moves, connects, fires, runs_region, is_other, spawn, step, run,
}
use substrate_ws_poc.System.Refines.{heard_at, heard_by, events_of, Input, event, confirmation}
use substrate_ws_poc.System.Texts.{StandsWith, Shares, move-Stepped}

-- The session holds texts with the property only, and all that its goroutines have written or still
-- write is the hello or such a text under a new id.
pub record IsFaithful ⦃json : Json⦄ (hello : Bytes) (P : Bytes → Type 0) (y : System) : Type 0 where
  pub shares : Shares hello P y.shared
  pub threads : All (λ th. StandsWith hello P th.place) y.threads

spawn-All :
    (Q : Thread → Type 0) (r : Role) (p : Place) (threads : List Thread)
    → All Q threads
    → Q (record { role = r; place = p })
    → All Q (spawn r p threads)
spawn-All Q r p threads h q = All-append Q threads (record { role = r; place = p } ∷ []) h (q, tt)

pub events_of-All :
    (P : Bytes → Type 0) (xs ys : List Input)
    → All P (events_of (xs ++ ys))
    → All P (events_of xs) × All P (events_of ys)
unfolding events_of
events_of-All P [] ys h = (tt, h)
events_of-All P (event raw ∷ xs) ys h =
    let (first, rest) = events_of-All P xs ys h.1 in ((h.0, first), rest)
events_of-All P (confirmation id ∷ xs) ys h = events_of-All P xs ys h

other-ComesWith : (P : Bytes → Type 0) (sec : Section) → is_other sec ≡ true → ComesWith P sec
other-ComesWith P (receives raw fresh) h = cc
other-ComesWith P _ h = tt

module _ ⦃json : Json⦄ (c : Config) (P : Bytes → Type 0) where
  step-IsFaithful :
      (e : Event) (y z : System)
      → step c e y ≡ some z
      → All P (events_of (heard_at e))
      → IsFaithful c.hello_frame P y
      → IsFaithful c.hello_frame P z
  unfolding step
  step-IsFaithful (moves i ch) y z e came v =
      let (th, at, next) = >>=-eq-some (get_elem? y.threads i) _ e in
      let ((sh, p), moved, out) = >>=-eq-some (move c th.role ch th.place y.shared) _ next in
      let here = get_elem?-All _ y.threads i th v.threads at in
      let s = move-Stepped c P th.role ch th.place y.shared sh p moved came v.shares here in
      let now : record { shared = sh; threads = set y.threads i (record th { place = p }) } ≡ z =
        ground arith in
      subst (IsFaithful c.hello_frame P) now
        (record { shares = s.shares; threads = set-All _ y.threads i _ s.place v.threads })
  step-IsFaithful (connects k) y z e came v = elim (Bool-cases (elem k y.shared.attached)) [
    | inl again ↦ absurd (ground arith)
    | inr first ↦
        let s = attach-Keeps c P k y.shared.session v.shares.buffer in
        let now : record {
          shared = record (with_session y.shared (attach c k y.shared.session).0) {
            attached = k ∷ y.shared.attached;
          };
          threads = spawn (serves k) (runs (attach c k y.shared.session).1) y.threads;
        }
            ≡ z =
          ground arith in
        subst (IsFaithful c.hello_frame P) now (record {
          shares = record { buffer = s.texts; log = v.shares.log };
          threads = spawn-All _ (serves k) _ y.threads v.threads s.frames;
        })
  ]
  step-IsFaithful (fires k) y z e came v =
      let now : record y { threads = spawn ends (runs (deliver k)) y.threads } ≡ z = ground arith in
      subst (IsFaithful c.hello_frame P) now
        (record { shares = v.shares; threads = spawn-All _ ends _ y.threads v.threads tt })
  step-IsFaithful (runs_region sec) y z e came v = elim (Bool-cases (is_other sec)) [
    | inr no_other ↦ absurd (ground arith)
    | inl other ↦
        let ((t, task), here, out) = >>=-eq-some (exec c sec y.shared.session) _ (rw other at e) in
        let k =
          exec-Keeps c P sec y.shared.session t task here (other-ComesWith P sec other)
            v.shares.buffer in
        let now : record y { shared = with_session y.shared t } ≡ z = ground arith in
        subst (IsFaithful c.hello_frame P) now
          (record { shares = record { buffer = k.texts; log = v.shares.log }; threads = v.threads })
  ]

  -- In every run of the goroutines, if the texts that come for the session have the property.
  run-IsFaithful :
      (es : List Event) (y z : System)
      → run c es y ≡ some z
      → All P (events_of (heard_by es))
      → IsFaithful c.hello_frame P y
      → IsFaithful c.hello_frame P z
  unfolding run heard_by
  run-IsFaithful [] y z h came v =
      let same : y ≡ z = ground arith in subst (IsFaithful c.hello_frame P) same v
  run-IsFaithful (e ∷ es) y z h came v =
      let (m, here, later) = >>=-eq-some (step c e y) _ h in
      let (first, rest) = events_of-All P (heard_at e) (heard_by es) came in
      run-IsFaithful es m z later rest (step-IsFaithful e y m here first v)

  pub run_new-IsFaithful :
      (ref : ActorRef) (es : List Event) (z : System)
      → run c es (new_system ref) ≡ some z
      → All P (events_of (heard_by es))
      → IsFaithful c.hello_frame P z
  unfolding new_system new_session
  run_new-IsFaithful ref es z h came =
      run-IsFaithful es (new_system ref) z h came
        (record { shares = record { buffer = tt; log = tt }; threads = (tt, tt) })
