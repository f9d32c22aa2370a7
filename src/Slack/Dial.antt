-- ===== src/Slack/Dial.antt =====
-- `realSlackDialer` of cmd/egress-broker/realslack.go. The HTTP client, the decoding of its answer and
-- the WebSocket dialer are parameters; a connection is a number.
use substrate_ws_poc.Prelude.{
  ℕ, Bool, true, not, List, [], ◌∷◌, ◌++◌, Option, none, some, ◌≡◌, refl, ◌↔◌, inl, inr, arith,
  if◌then◌else◌, Option-cases,
}
use substrate_ws_poc.Prelude.Bytes.{Bytes, codes}

pub record OpenCall : Type 0 where
  pub method : Bytes
  pub target : Bytes
  pub headers : List (Bytes × Bytes)

-- The decoded answer.
pub record OpenAnswer : Type 0 where
  pub ok : Bool
  pub url : Bytes
  pub error : Bytes

pub record Dialer : Type 0 where
  pub api_base_url : Bytes
  pub takes : Bytes → Bool  -- whether `NewRequestWithContext` takes the URL
  pub call : OpenCall → Option Bytes  -- the answer's body
  pub decode : Bytes → Option OpenAnswer
  pub is_url : Bytes → Bool
  pub dial_ws : Bytes → Option ℕ

pub data DialError : Type 0 where
  bad_request not_called bad_answer not_dialed : DialError
  open_failed : Bytes → DialError
  bad_url : Bytes → DialError

pub data Dialed {ℓ} (A : Type ℓ) : Type ℓ where
  done : A → Dialed A
  error : DialError → Dialed A

unfoldable pub open_call : Dialer → Bytes → OpenCall
open_call d token = record {
  method = codes "POST";
  target = d.api_base_url ++ codes "/api/apps.connections.open";
  headers =
      (codes "Authorization", codes "Bearer " ++ token)
      ∷ (codes "Content-Type", codes "application/x-www-form-urlencoded")
      ∷ [];
}

url_of : Dialer → Option OpenAnswer → Dialed Bytes
url_of d none = error bad_answer
url_of d (some a) =
    if not a.ok
    then error (open_failed a.error)
    else if not (d.is_url a.url)
    then error (bad_url a.url)
    else done a.url

unfoldable pub open_connection : Dialer → Bytes → Dialed Bytes
unfolding url_of open_call
open_connection d token =
    let out = open_call d token in
    if not (d.takes out.target)
    then error bad_request
    else elim (d.call out) [ none ↦ error not_called | some body ↦ url_of d (d.decode body) ]

connect : Dialer → Dialed Bytes → Dialed ℕ
connect d (error e) = error e
connect d (done url) = elim (d.dial_ws url) [ none ↦ error not_dialed | some conn ↦ done conn ]

-- `Dial`.
unfoldable pub dial : Dialer → Bytes → Dialed ℕ
unfolding connect
dial d token = connect d (open_connection d token)

pub opens :
    (d : Dialer) (token body : Bytes) (a : OpenAnswer)
    → d.takes (open_call d token).target ≡ true
    → d.call (open_call d token) ≡ some body
    → d.decode body ≡ some a
    → a.ok ≡ true
    → d.is_url a.url ≡ true
    → open_connection d token ≡ done a.url
unfolding open_connection
opens d token body a taken called decoded good is_url =
    rw (taken, called, decoded, good, is_url, open_connection) refl

-- Every step towards the connection succeeds.
record IsDialed (d : Dialer) (token : Bytes) (conn : ℕ) : Type 0 where
  pub body : Bytes
  pub answer : OpenAnswer
  pub taken : d.takes (open_call d token).target ≡ true
  pub called : d.call (open_call d token) ≡ some body
  pub decoded : d.decode body ≡ some answer
  pub accepted : answer.ok ≡ true
  pub located : d.is_url answer.url ≡ true
  pub connected : d.dial_ws answer.url ≡ some conn

dial-IsDialed :
    (d : Dialer) (token : Bytes) (conn : ℕ) → dial d token ≡ done conn → IsDialed d token conn
unfolding dial open_connection
dial-IsDialed d token conn e = elim (Option-cases (d.call (open_call d token))) [
  | inl failed ↦ absurd (ground arith)
  | inr (body, called) ↦ elim (Option-cases (d.decode body)) [
    | inl bad ↦ absurd (ground arith)
    | inr (a, decoded) ↦ record {
      body = body;
      answer = a;
      taken = ground arith;
      called = called;
      decoded = decoded;
      accepted = ground arith;
      located = ground arith;
      connected = ground arith;
    }
  ]
]

-- The dialer makes a connection exactly when Slack answers the bootstrap with that token, accepts it
-- and gives a URL that parses, and the connection is the one to that URL.
dial_iff :
    (d : Dialer) (token : Bytes) (conn : ℕ) → (dial d token ≡ done conn) ↔ IsDialed d token conn
unfolding dial open_connection
dial_iff d token conn = (dial-IsDialed d token conn, λ v. ground arith)
