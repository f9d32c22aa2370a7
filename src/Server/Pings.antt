-- ===== src/Server/Pings.antt =====
-- The keepalive goroutine of `handleActorSocket` in cmd/egress-broker/server.go.
use substrate_ws_poc.Prelude.{Bool, true, false, List, [], ◌∷◌, ◌++◌, ◌≡◌, refl, ap}

-- What the `select` takes: `stopPing`, which the handler closes when it returns, or a tick, with
-- whether the ping is then written.
pub data Tick : Type 0 where
  stops : Tick
  ticks : Bool → Tick

-- The pings, by whether they are written.
unfoldable pub keep_alive : List Tick → List Bool
keep_alive [] = []
keep_alive (stops ∷ rest) = []
keep_alive (ticks false ∷ rest) = false ∷ []
keep_alive (ticks true ∷ rest) = true ∷ keep_alive rest

-- What comes after the handler has returned makes no difference.
keep_alive-append :
    (before after : List Tick) → keep_alive (before ++ stops ∷ after) ≡ keep_alive before
unfolding keep_alive
keep_alive-append [] after = refl
keep_alive-append (stops ∷ before) after = refl
keep_alive-append (ticks false ∷ before) after = refl
keep_alive-append (ticks true ∷ before) after = ap (◌∷◌ true) (keep_alive-append before after)

-- After a ping that fails there is no other.
keep_alive_failed :
    (before after : List Tick)
    → keep_alive (before ++ ticks false ∷ after) ≡ keep_alive (before ++ ticks false ∷ [])
unfolding keep_alive
keep_alive_failed [] after = refl
keep_alive_failed (stops ∷ before) after = refl
keep_alive_failed (ticks false ∷ before) after = refl
keep_alive_failed (ticks true ∷ before) after = ap (◌∷◌ true) (keep_alive_failed before after)
