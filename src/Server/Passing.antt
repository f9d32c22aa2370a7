-- ===== src/Server/Passing.antt =====
-- What `handlePassthrough` of cmd/egress-broker/server.go promises.
use substrate_ws_poc.Prelude.{
  ℕ, ◌+◌, ◌<◌, ◌^◌, true, List, [], ◌∷◌, some, ◌≡◌, arith, if◌then◌else◌, ◌==◌, eq_iff, length,
}
use substrate_ws_poc.Prelude.Bytes.{Bytes, bytes_eq}
use substrate_ws_poc.Prelude.Dict.{IsMap}
use substrate_ws_poc.Actor.{ActorRef, actor_eq}
use substrate_ws_poc.SocketMode.{Json}
use substrate_ws_poc.Session.State.{Config, Session, done}
use substrate_ws_poc.Session.Ops.{on_idle, begin_forward}
use substrate_ws_poc.Session.Sections.{Section, exec}
use substrate_ws_poc.Session.Runs.{run_sections}
use substrate_ws_poc.Session.Forwards.{balance_all}
use substrate_ws_poc.Registry.{Sessions}
use substrate_ws_poc.Server.Headers.{
  values, copy_header, AreCanonical, values-copy_header_new, values-delete,
}
use substrate_ws_poc.Server.Forward.{
  Call, OutCall, Reply, Gateway, Action, runs, sends, replies, accept_encoding, out_call, caller,
  handle_passthrough,
}

-- The regions that a handler runs on one session.
unfoldable pub regions : ActorRef → List Action → List Section
regions ref [] = []
regions ref (runs other sec ∷ rest) =
    let later = regions ref rest in if other == ref then sec ∷ later else later
regions ref (sends out ∷ rest) = regions ref rest
regions ref (replies p ∷ rest) = regions ref rest

-- Those before the request to Slack.
before_send : ActorRef → List Action → List Section
before_send ref [] = []
before_send ref (runs other sec ∷ rest) =
    let later = before_send ref rest in if other == ref then sec ∷ later else later
before_send ref (sends out ∷ rest) = []
before_send ref (replies p ∷ rest) = before_send ref rest

unfoldable pub replied : List Action → List Reply
replied [] = []
replied (replies p ∷ rest) = p ∷ replied rest
replied (_ ∷ rest) = replied rest

unfoldable pub sent : List Action → List OutCall
sent [] = []
sent (sends out ∷ rest) = out ∷ sent rest
sent (_ ∷ rest) = sent rest

-- On every path and for every actor, the handler ends each forward that it begins.
pub balance_all-handle_passthrough :
    (g : Gateway) (r : Call) (m : Sessions) (ref : ActorRef) (n : ℕ)
    → balance_all (regions ref (handle_passthrough g r m)) n ≡ some n
unfolding handle_passthrough regions balance_all
balance_all-handle_passthrough g r m ref n = ground arith

-- On every path the handler replies once and calls Slack at most once, with the request's copy.
replied-handle_passthrough :
    (g : Gateway) (r : Call) (m : Sessions)
    → (length (replied (handle_passthrough g r m)) ≡ 1)
      × (sent (handle_passthrough g r m)
          ≡ (if g.takes r.method (out_call g r).target then out_call g r ∷ [] else []))
unfolding handle_passthrough replied sent out_call
replied-handle_passthrough g r m = ground arith

-- If the caller has a session and the request to Slack can be made, then when it is sent, and until
-- other regions run, the idle callback does nothing; the session counts fewer than 2^63 - 1
-- forwards before.
on_idle-handle_passthrough :
    ⦃json : Json⦄ (c : Config) (g : Gateway) (r : Call) (m : Sessions) (ref : ActorRef)
    (s t : Session)
    → caller r m ≡ some ref
    → g.takes r.method (out_call g r).target ≡ true
    → s.in_flight + 1 < 2 ^ 63
    → run_sections c (before_send ref (handle_passthrough g r m)) s ≡ some t
    → on_idle t ≡ (t, done)
unfolding handle_passthrough before_send run_sections out_call exec begin_forward on_idle
on_idle-handle_passthrough c g r m ref s t known takes small e = ground (arith, eq_iff ref ref)

-- If the request's headers are a map with canonical names, the request to Slack has the values of
-- each of its headers in their order, and none for Accept-Encoding.
values-out_call :
    (g : Gateway) (r : Call) (k : Bytes)
    → IsMap r.headers
    → AreCanonical g.canonical r.headers
    → values k (out_call g r).headers ≡ (if accept_encoding == k then [] else values k r.headers)
unfolding out_call
values-out_call g r k map canon = ground (
  arith,
  values-delete accept_encoding k (copy_header g.canonical r.headers []),
  values-copy_header_new g.canonical k r.headers map canon,
)
