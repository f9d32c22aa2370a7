-- ===== src/Control/Pages.antt =====
-- `LocateByPodIP` of cmd/egress-broker/ateapi.go. The service is a parameter: its answer to the i-th
-- call with a page token.
use substrate_ws_poc.Prelude.{
  ℕ, zero, suc, ◌+◌, Bool, ◌&&◌, List, [], ◌∷◌, ◌++◌, Option, none, some, if◌then◌else◌, ◌==◌,
}
use substrate_ws_poc.Prelude.Bytes.{Bytes, codes, bytes_eq}
use substrate_ws_poc.Actor.{ActorRef}
use substrate_ws_poc.Server.Locate.{Outcome, located, failed}

-- What the code reads of an actor; `running` is whether its status is STATUS_RUNNING.
pub record Actor : Type 0 where
  pub ateom_pod_ip : Bytes
  pub running : Bool
  pub atespace : Bytes
  pub actor_id : Bytes

pub data Listing : Type 0 where
  unavailable : Bytes → Listing
  page : List Actor → Bytes → Listing

unfoldable pub ref_of : Actor → ActorRef
ref_of a = record { atespace = a.atespace; name = a.actor_id }

abbrev pub is_at : Bytes → Actor → Bool
is_at ip a = a.ateom_pod_ip == ip && a.running

-- The loop over the actors of a page.
unfoldable pub find_actor : Bytes → List Actor → Option ActorRef
unfolding ref_of
find_actor ip [] = none
find_actor ip (a ∷ rest) = if is_at ip a then some (ref_of a) else find_actor ip rest

-- The service, and `%q`.
pub record Control : Type 0 where
  pub list_actors : ℕ → Bytes → Listing
  pub quote : Bytes → Bytes

unfoldable pub not_found : Control → Bytes → Outcome
not_found c ip = failed (codes "no running actor found at pod IP " ++ c.quote ip)

-- What the loop does once no actor of a page matches is `rest`.
after_page : Option ActorRef → Option Outcome → Option Outcome
after_page (some ref) rest = some (located ref)
after_page none rest = rest

-- On fuel, as the service decides how many pages there are; `none` is out of fuel.
unfoldable pub locate_pages : Control → Bytes → ℕ → ℕ → Bytes → Option Outcome
unfolding after_page
locate_pages c ip zero i token = none
locate_pages c ip (suc n) i token = elim (c.list_actors i token) [
  | unavailable e ↦ some (failed (codes "listing actors: " ++ e))
  | page actors next ↦
      let rest = locate_pages c ip n (i + 1) next in
      after_page (find_actor ip actors) (if next == [] then some (not_found c ip) else rest)
]

-- `LocateByPodIP` starts with an empty token.
unfoldable pub locate_by_pod_ip : Control → Bytes → ℕ → Option Outcome
locate_by_pod_ip c ip fuel = locate_pages c ip fuel 0 []
