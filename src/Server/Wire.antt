-- ===== src/Server/Wire.antt =====
-- apps.connections.open on the wire: `writeJSON` and the answer of cmd/egress-broker/server.go, and the
-- broker in the place of Slack for a client like that of cmd/egress-broker/realslack.go.
-- encoding/json and net/url are parameters.
use substrate_ws_poc.Prelude.{ℕ, ◌<◌, not, [], ◌∷◌, ◌++◌, Option, none, some, ◌≡◌, is_none, All}
use substrate_ws_poc.Prelude.Bytes.{Bytes, codes, bytes_eq}
use substrate_ws_poc.Prelude.Dict.{lookup}
use substrate_ws_poc.Session.RandIds.{IsHex}
use substrate_ws_poc.Slack.Dial.{OpenCall, OpenAnswer, Dialer}
use substrate_ws_poc.Server.Open.{
  Url, World, OpenRequest, Server, ConnectionsOpenResponse, handle_connections_open,
}
use substrate_ws_poc.Server.Forward.{Reply, actor_key}
use substrate_ws_poc.Server.Socket.{Route, to_open, serve_http}

-- `json.Encoder` and `json.Decoder` on the answer, `URL.String`, `url.Parse`, and `Query().Get`.
pub record Wire : Type 0 where
  pub encode : OpenAnswer → Bytes
  pub decode : Bytes → Option OpenAnswer
  pub url_text : Url → Bytes
  pub parse_url : Bytes → Option Url
  pub query_get : Bytes → Bytes → Bytes

abbrev pub IsAscii : Bytes → Type 0
IsAscii s = All (λ a. a < 128) s

-- What the two ends rely on.
pub record WireLaws (v : Wire) : Type 0 where
  -- An answer in ASCII is read as it was written; in other texts bytes that are not UTF-8 are replaced.
  pub decode-encode :
      (a : OpenAnswer) → IsAscii a.url → IsAscii a.error → v.decode (v.encode a) ≡ some a
  -- Such digits stand for themselves in a query.
  pub query_get-hex :
      (t : Bytes) → All IsHex t → v.query_get (codes "ticket") (codes "ticket=" ++ t) ≡ t

or_nil : Option Bytes → Bytes
or_nil none = []
or_nil (some s) = s

-- What the handler reads of a client's request from an address.
unfoldable pub request_of : Bytes → OpenCall → OpenRequest
unfolding or_nil
request_of addr out = record {
  authorization = or_nil (lookup (codes "Authorization") out.headers);
  actor_header = or_nil (lookup actor_key out.headers);
  remote_addr = addr;
}

url_or_nil : Wire → Option Url → Bytes
url_or_nil v none = []
url_or_nil v (some u) = v.url_text u

-- `slackapi.ConnectionsOpenResponse` with its URL as a text.
unfoldable pub answer_of : Wire → ConnectionsOpenResponse → OpenAnswer
unfolding url_or_nil
answer_of v a = record { ok = a.ok; url = url_or_nil v a.url; error = a.error }

-- `writeJSON`, of a text that is encoded.
unfoldable pub write_json : ℕ → Bytes → Reply
write_json status body = record {
  status = status;
  headers = (codes "Content-Type", codes "application/json" ∷ []) ∷ [];
  body = body;
}

unfoldable pub open_reply : Wire → World → OpenRequest → Server → Reply
unfolding write_json
open_reply v w r s = write_json 200 (v.encode (answer_of v (handle_connections_open w r s).1))

reply_on : Wire → World → OpenRequest → Server → Route → Option Bytes
reply_on v w r s to_open = some (open_reply v w r s).body
reply_on v w r s _ = none

routed : Wire → World → Bytes → Server → OpenCall → Option Url → Option Bytes
routed v w addr s out none = none
routed v w addr s out (some u) =
    reply_on v w (request_of addr out) s (serve_http s.settings out.method u.path)

-- A client whose requests come to the broker from this address; requests for other paths are not
-- followed.
unfoldable pub stand_in : Wire → World → Bytes → Server → Dialer → Dialer
unfolding routed reply_on
stand_in v w addr s d = record d {
  call = λ out. routed v w addr s out (v.parse_url out.target);
  decode = v.decode;
  is_url = λ t. not (is_none (v.parse_url t));
}
