-- ===== src/Control/Chain.antt =====
-- What `LocateByPodIP` of cmd/egress-broker/ateapi.go finds in the pages of the service.
use substrate_ws_poc.Prelude.{
  ℕ, suc, ◌+◌, true, false, List, [], ◌∷◌, ◌++◌, Option, none, some, ◌≡◌, ◌≢◌, ◌≤◌, zero, refl,
  subst, arith, ◌⊎◌, eq_iff, eq_refl, Bool-cases, inl, inr,
}
use substrate_ws_poc.Prelude.Bytes.{Bytes, codes, bytes_eq}
use substrate_ws_poc.Actor.{ActorRef}
use substrate_ws_poc.Server.Locate.{Outcome, located, failed}
use substrate_ws_poc.Control.Pages.{
  Actor, page, ref_of, is_at, find_actor, Control, not_found, locate_pages, locate_by_pod_ip,
}

-- `n` pages from the i-th call on, the last with an empty token, and all their actors.
pub data Chain (c : Control) : ℕ → ℕ → Bytes → List Actor → Type 0 where
  last :
      (i : ℕ) (token : Bytes) (actors : List Actor)
      → c.list_actors i token ≡ page actors []
      → Chain c 1 i token actors
  more :
      (n i : ℕ) (token next : Bytes) (actors rest : List Actor)
      → c.list_actors i token ≡ page actors next
      → next ≢ []
      → Chain c n (i + 1) next rest
      → Chain c (suc n) i token (actors ++ rest)

-- The answer for all the actors in order: the first that is running at the address, or that there is
-- none.
pub data Answers (c : Control) (ip : Bytes) : List Actor → Outcome → Type 0 where
  nowhere : Answers c ip [] (failed (codes "no running actor found at pod IP " ++ c.quote ip))
  found :
      (a : Actor) (rest : List Actor)
      → a.ateom_pod_ip ≡ ip
      → a.running ≡ true
      → Answers c ip (a ∷ rest) (located (record { atespace = a.atespace; name = a.actor_id }))
  passed :
      (a : Actor) (rest : List Actor) (o : Outcome)
      → (a.ateom_pod_ip ≢ ip) ⊎ (a.running ≡ false)
      → Answers c ip rest o
      → Answers c ip (a ∷ rest) o

-- The outcome of the loop once the actors are searched.
abbrev verdict : Control → Bytes → Option ActorRef → Outcome
verdict c ip none = not_found c ip
verdict c ip (some ref) = located ref

verdict-Answers :
    (c : Control) (ip : Bytes) (all : List Actor)
    → Answers c ip all (verdict c ip (find_actor ip all))
unfolding find_actor not_found ref_of
verdict-Answers c ip [] = nowhere
verdict-Answers c ip (a ∷ rest) = elim (Bool-cases (is_at ip a)) [
  | inl at ↦
      let hit : some (ref_of a) ≡ find_actor ip (a ∷ rest) = ground arith in
      subst (λ f. Answers c ip (a ∷ rest) (verdict c ip f)) hit
        (found a rest (ground (arith, eq_iff a.ateom_pod_ip ip)) (ground arith))
  | inr away ↦
      let miss : find_actor ip rest ≡ find_actor ip (a ∷ rest) = ground arith in
      let why : (a.ateom_pod_ip ≢ ip) ⊎ (a.running ≡ false) =
        ground (arith, eq_iff a.ateom_pod_ip ip) in
      subst (λ f. Answers c ip (a ∷ rest) (verdict c ip f)) miss
        (passed a rest _ why (verdict-Answers c ip rest))
]

find_actor-append :
    (ip : Bytes) (xs ys : List Actor)
    → find_actor ip (xs ++ ys)
      ≡ elim (find_actor ip xs) [ none ↦ find_actor ip ys | some ref ↦ some ref ]
unfolding find_actor
find_actor-append ip [] ys = refl
find_actor-append ip (a ∷ xs) ys = ground (arith, find_actor-append ip xs ys)

locate_pages-Chain :
    (c : Control) (ip : Bytes) (n fuel i : ℕ) (token : Bytes) (all : List Actor)
    → Chain c n i token all
    → n ≤ fuel
    → locate_pages c ip fuel i token ≡ some (verdict c ip (find_actor ip all))
unfolding locate_pages
locate_pages-Chain c ip _ zero _ _ _ (last i token actors here) enough = absurd (omega arith)
locate_pages-Chain c ip _ zero _ _ _ (more n i token next actors rest here full tail) enough =
    absurd (omega arith)
locate_pages-Chain c ip _ (suc fuel) _ _ _ (last i token actors here) enough =
    ground (arith, eq_refl {K = Bytes} [])
locate_pages-Chain c ip _ (suc fuel) _ _ _ (more n i token next actors rest here full tail) enough =
    ground (
      arith,
      locate_pages-Chain c ip n fuel (i + 1) next rest tail (omega arith),
      find_actor-append ip actors rest,
      eq_iff next [],
    )

-- If the service's pages end after n calls, then with that fuel or more the loop ends, and it locates
-- the first of all their actors whose address is this one and whose status is running, or fails as not
-- found if there is none.
pub locate_by_pod_ip-Answers :
    (c : Control) (ip : Bytes) (n fuel : ℕ) (all : List Actor)
    → Chain c n 0 [] all
    → n ≤ fuel
    → (o : Outcome) × (locate_by_pod_ip c ip fuel ≡ some o) × Answers c ip all o
unfolding locate_by_pod_ip
locate_by_pod_ip-Answers c ip n fuel all chain enough = (
  verdict c ip (find_actor ip all),
  locate_pages-Chain c ip n fuel 0 [] all chain enough,
  verdict-Answers c ip all,
)
