-- ===== src/Process/Broker/Ends.antt =====
-- How the process of cmd/egress-broker/main.go ends: `main` with the call of `ListenAndServeTLS`, which
-- is a parameter.
use substrate_ws_poc.Prelude.{
  ℕ, Bool, true, Option, none, some, ◌≡◌, ◌↔◌, ◌⊎◌, inl, inr, refl, arith,
}
use substrate_ws_poc.Prelude.Bytes.{Bytes}
use substrate_ws_poc.SocketMode.{Json}
use substrate_ws_poc.Process.Broker.{Flags, Host, Broker, Start, panics, exits, serves, start}
use substrate_ws_poc.Process.Broker.Started.{IsStarted, start_iff}

-- An error of `ListenAndServeTLS`, as `errors.Is` tells them apart.
pub data ListenError : Type 0 where
  server_closed : ListenError
  other : Bytes → ListenError

-- What `ListenAndServeTLS` returns for the server, and whether a signal has had it closed; `none` is
-- nil.
abbrev pub Listen : Type 0
Listen = Broker → Bool → Option ListenError

pub data End : Type 0 where
  panicked : End
  exited : ℕ → End

status : Option ListenError → ℕ
status none = 0
status (some server_closed) = 0
status (some (other e)) = 1

ended : Listen → Bool → Start → End
unfolding status
ended listen signalled panics = panicked
ended listen signalled exits = exited 1
ended listen signalled (serves b) = exited (status (listen b signalled))

unfoldable pub main : ⦃json : Json⦄ → Host → Flags → Listen → Bool → End
unfolding ended
main ⦃json⦄ w f listen signalled = ended listen signalled (start w f)

-- `Close` is documented to make the call return `ErrServerClosed`.
abbrev pub ClosesOnSignal : Listen → Type 0
ClosesOnSignal listen = (b : Broker) → listen b true ≡ some server_closed

-- The broker was started, and its server ended without an error or because it was closed.
pub record EndsWell ⦃json : Json⦄ (w : Host) (f : Flags) (listen : Listen) (signalled : Bool)
    : Type 0 where
  pub broker : Broker
  pub started : IsStarted w f broker
  pub closed : (listen broker signalled ≡ none) ⊎ (listen broker signalled ≡ some server_closed)

Start-cases : (s : Start) → (s ≡ panics) ⊎ ((s ≡ exits) ⊎ ((b : Broker) × (s ≡ serves b)))
Start-cases panics = inl refl
Start-cases exits = inr (inl refl)
Start-cases (serves b) = inr (inr (b, refl))

status-zero : (e : Option ListenError) → status e ≡ 0 → (e ≡ none) ⊎ (e ≡ some server_closed)
unfolding status
status-zero none h = inl refl
status-zero (some server_closed) h = inr refl
status-zero (some (other e)) h = absurd (omega arith)

exited_inj : (m n : ℕ) → exited m ≡ exited n → m ≡ n
exited_inj m n h = cc

module _ ⦃json : Json⦄ (w : Host) (f : Flags) (listen : Listen) (signalled : Bool) where
  main-EndsWell : main w f listen signalled ≡ exited 0 → EndsWell w f listen signalled
  unfolding main
  main-EndsWell h = elim (Start-cases (start w f)) [
    | inl bad ↦ absurd (ground arith)
    | inr (inl bad) ↦ absurd (ground arith)
    | inr (inr (b, served)) ↦ record {
      broker = b;
      started = (start_iff w f b).0 served;
      closed = status-zero (listen b signalled) (exited_inj _ 0 (rw served at h));
    }
  ]

  EndsWell-main : EndsWell w f listen signalled → main w f listen signalled ≡ exited 0
  unfolding main
  EndsWell-main v =
      let served = (start_iff w f v.broker).1 v.started in
      elim v.closed [ inl done ↦ rw (served, done) refl | inr closed ↦ rw (served, closed) refl ]

  -- The broker ends with status 0 exactly if its hello is written, both files of the CA are read and
  -- load a minter, the client of the Control service is made, and its server then ends without an
  -- error or as closed.
  pub main_ends_iff : (main w f listen signalled ≡ exited 0) ↔ EndsWell w f listen signalled
  main_ends_iff = (main-EndsWell, EndsWell-main)

-- A broker that serves ends with status 0 when a signal comes.
main_signalled :
    ⦃json : Json⦄ (w : Host) (f : Flags) (listen : Listen) (b : Broker)
    → ClosesOnSignal listen
    → start w f ≡ serves b
    → main w f listen true ≡ exited 0
main_signalled w f listen b closes served =
    (main_ends_iff w f listen true).1
      (record { broker = b; started = (start_iff w f b).0 served; closed = inr (closes b) })
