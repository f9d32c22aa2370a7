-- ===== src/Process/Broker/Started.antt =====
-- When the broker of cmd/egress-broker/main.go serves, and with what.
use substrate_ws_poc.Prelude.{
  none, some, ◌≡◌, ◌↔◌, ◌⊎◌, refl, arith, nat_eq, Option-cases, inl, inr,
}
use substrate_ws_poc.Prelude.Bytes.{Bytes, bytes_eq}
use substrate_ws_poc.SocketMode.{Json}
use substrate_ws_poc.Tls.Minter.{Minter, Error, Result, ok, err, new_cert_minter}
use substrate_ws_poc.Tls.Loading.{IsLoaded, new_cert_minter_iff}
use substrate_ws_poc.Process.Helper.{contents, File-cases}
use substrate_ws_poc.Process.Parts.{skips_verify, client}
use substrate_ws_poc.Process.Broker.{
  Flags, Host, Broker, serves, Loaded, LoadError, minter, not_loaded, new_cert_minter_from_files,
  minter_of, with_key_file, with_cert_file, with_control, with_minter, started, start, hello_frame,
  assembled, dial_control,
}

-- Both files of the CA are read and load a minter.
pub record IsRead (w : Host) (f : Flags) (m : Minter) : Type 0 where
  pub cert_pem : Bytes
  pub key_pem : Bytes
  pub cert_read : w.read_file f.ca_cert ≡ contents cert_pem
  pub key_read : w.read_file f.ca_key ≡ contents key_pem
  pub loaded : IsLoaded w.crypto cert_pem key_pem m

-- And the client of the Control service is made.
pub record IsStarted ⦃json : Json⦄ (w : Host) (f : Flags) (b : Broker) : Type 0 where
  pub hello : Bytes
  pub minter : Minter
  pub written : hello_frame ≡ some hello
  pub read : IsRead w f minter
  pub dialed : w.new_client skips_verify f.ateapi_address ≡ none
  pub built : b ≡ assembled f hello minter f.ateapi_address

Result-cases : (r : Result Minter) → ((m : Minter) × (r ≡ ok m)) ⊎ ((e : Error) × (r ≡ err e))
Result-cases (ok m) = inl (m, refl)
Result-cases (err e) = inr (e, refl)

from_files-IsRead :
    (w : Host) (f : Flags) (m : Minter)
    → new_cert_minter_from_files w f.ca_cert f.ca_key ≡ minter m
    → IsRead w f m
unfolding new_cert_minter_from_files with_cert_file with_key_file minter_of
from_files-IsRead w f m h = elim (File-cases (w.read_file f.ca_cert)) [
  | inl (e, no_cert) ↦ absurd (ground arith)
  | inr (cert_pem, cert_read) ↦ elim (File-cases (w.read_file f.ca_key)) [
    | inl (e, no_key) ↦ absurd (ground arith)
    | inr (key_pem, key_read) ↦ elim (Result-cases (new_cert_minter w.crypto cert_pem key_pem)) [
      | inr (e, bad) ↦ absurd (ground arith)
      | inl (m', made) ↦ record {
        cert_pem = cert_pem;
        key_pem = key_pem;
        cert_read = cert_read;
        key_read = key_read;
        loaded = (new_cert_minter_iff w.crypto cert_pem key_pem m).0 (ground arith);
      }
    ]
  ]
]

IsRead-from_files :
    (w : Host) (f : Flags) (m : Minter)
    → IsRead w f m
    → new_cert_minter_from_files w f.ca_cert f.ca_key ≡ minter m
unfolding new_cert_minter_from_files with_cert_file with_key_file minter_of
IsRead-from_files w f m r =
    let made = (new_cert_minter_iff w.crypto r.cert_pem r.key_pem m).1 r.loaded in
    rw (r.cert_read, r.key_read, made) refl

Loaded-cases :
    (l : Loaded) → ((m : Minter) × (l ≡ minter m)) ⊎ ((e : LoadError) × (l ≡ not_loaded e))
Loaded-cases (minter m) = inl (m, refl)
Loaded-cases (not_loaded e) = inr (e, refl)

dials :
    (w : Host) (addr : Bytes)
    → w.new_client skips_verify addr ≡ none
    → dial_control w addr ≡ client addr
unfolding dial_control
dials w addr h = rw (h, dial_control) refl

module _ ⦃json : Json⦄ (w : Host) (f : Flags) where
  start-IsStarted : (b : Broker) → start w f ≡ serves b → IsStarted w f b
  unfolding start started with_minter with_control dial_control
  start-IsStarted b h = elim (Option-cases hello_frame) [
    | inl panics ↦ absurd (ground arith)
    | inr (hello, written) ↦ elim (Loaded-cases (new_cert_minter_from_files w f.ca_cert f.ca_key)) [
      | inr (e, bad) ↦ absurd (ground arith)
      | inl (m, made) ↦ elim (Option-cases (w.new_client skips_verify f.ateapi_address)) [
        | inr (e, no_client) ↦ absurd (ground arith)
        | inl dialed ↦ record {
          hello = hello;
          minter = m;
          written = written;
          read = from_files-IsRead w f m made;
          dialed = dialed;
          built = ground arith;
        }
      ]
    ]
  ]

  IsStarted-start : (b : Broker) → IsStarted w f b → start w f ≡ serves b
  unfolding start started with_minter with_control
  IsStarted-start b v =
      rw
        (
          v.written,
          IsRead-from_files w f v.minter v.read,
          dials w f.ateapi_address v.dialed,
          v.built,
        )
        refl

  -- The broker serves exactly if its hello is written, both files of the CA are read and load a
  -- minter, and the client of the Control service is made; it then serves with that minter, with the
  -- flags' settings, and with no session and no ticket.
  pub start_iff : (b : Broker) → (start w f ≡ serves b) ↔ IsStarted w f b
  start_iff b = (start-IsStarted b, IsStarted-start b)
