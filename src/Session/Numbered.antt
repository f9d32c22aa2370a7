-- ===== src/Session/Numbered.antt =====
-- The events of cmd/egress-broker/registry.go and the order in which they came: the n-th that came is
-- buffered and sent under the key n.
use substrate_ws_poc.Prelude.{
  ℕ, zero, suc, ◌+◌, ◌<◌, List, [], ◌∷◌, ◌++◌, some, ◌≡◌, refl, ap, ◌∙◌, ◌==◌, arith, nat_eq, subst,
  inl, inr, length, All, All-append, get_elem?, Bool-cases, not, ◌||◌, is_none,
}
use substrate_ws_poc.Prelude.Bytes.{Bytes, bytes_eq}
use substrate_ws_poc.SocketMode.{Json}
use substrate_ws_poc.Session.State.{Config, Session, PendingEvent, Task, word, increment}
use substrate_ws_poc.Session.Ops.{remove_key, ack, is_current}
use substrate_ws_poc.Session.Sections.{Section, delivers, receives, acks, exec}
use substrate_ws_poc.Session.Cases.{
  quiet-SameEvents, skipped, stamped, deliver_buffered-Delivery, delivered, held, left,
  on_event-Arrival, ack_buffer,
}
use substrate_ws_poc.Session.Kept.{IsReceived}
use substrate_ws_poc.Session.Ascends.{sent}
use substrate_ws_poc.Session.Sends.{taken, increment_small}
use substrate_ws_poc.Session.Runs.{received_by}

pub get_elem?-append_left :
    (xs ys : List Bytes) (j : ℕ) (r : Bytes)
    → get_elem? xs j ≡ some r
    → get_elem? (xs ++ ys) j ≡ some r
get_elem?-append_left [] ys j r h = cc
get_elem?-append_left (x ∷ xs) ys zero r h = h
get_elem?-append_left (x ∷ xs) ys (suc j) r h = get_elem?-append_left xs ys j r h

pub get_elem?-append_right :
    (xs ys : List Bytes) (j : ℕ) → get_elem? (xs ++ ys) (length xs + j) ≡ get_elem? ys j
get_elem?-append_right [] ys j = ap (get_elem? ys) (omega arith)
get_elem?-append_right (x ∷ xs) ys j =
    let n : length (x ∷ xs) + j ≡ suc (length xs + j) = omega arith in
    ap (get_elem? ((x ∷ xs) ++ ys)) n ∙ get_elem?-append_right xs ys j

-- The texts that these regions receive are those of the list from the n-th on.
unfoldable pub Continues : List Bytes → ℕ → List Section → Type 0
Continues all n secs =
    (j : ℕ) (raw : Bytes)
    → get_elem? (received_by secs) j ≡ some raw
    → get_elem? all (n + j) ≡ some raw

abbrev pub AreReceived : List Bytes → List PendingEvent → Type 0
AreReceived all es = All (IsReceived all) es

remove_key-AreReceived :
    (all : List Bytes) (k : ℕ) (es : List PendingEvent)
    → AreReceived all es
    → AreReceived all (remove_key k es)
unfolding remove_key
remove_key-AreReceived all k [] h = tt
remove_key-AreReceived all k (e ∷ es) h = elim (Bool-cases (e.key == k)) [
  | inl same ↦ rw same h.1
  | inr other ↦ rw other (h.0, remove_key-AreReceived all k es h.1)
]

-- What a region leaves and sends.
pub record InStep (all : List Bytes) (t : Session) (rest : List Section) (es : List PendingEvent)
    : Type 0 where
  pub buffer : AreReceived all t.buffer
  pub later : Continues all t.next_key rest
  pub out : AreReceived all es

module _ ⦃json : Json⦄ (c : Config) (all : List Bytes) where
  receives-InStep :
      (raw fresh : Bytes) (rest : List Section) (s t : Session) (task : Task)
      → exec c (receives raw fresh) s ≡ some (t, task)
      → s.next_key + 1 < word
      → AreReceived all s.buffer
      → Continues all s.next_key (receives raw fresh ∷ rest)
      → InStep all t rest (sent (receives raw fresh) s)
  unfolding exec Continues received_by sent
  receives-InStep raw fresh rest s t task e small h more =
      let e0 : PendingEvent = record { key = s.next_key; raw = raw } in
      let here : IsReceived all e0 =
        subst (λ n. get_elem? all n ≡ some raw) (omega arith) (more 0 raw refl) in
      let both = All-append (IsReceived all) s.buffer (e0 ∷ []) h (here, tt) in
      let next : increment s.next_key ≡ s.next_key + 1 = increment_small s.next_key small in
      let later : Continues all (s.next_key + 1) rest =
        λ j r at. subst (λ n. get_elem? all n ≡ some r) (omega arith) (more (suc j) r at) in
      let now : (t.buffer ≡ s.buffer ++ e0 ∷ []) × (t.next_key ≡ increment s.next_key) =
        elim (on_event-Arrival raw fresh s t task e) [
          | delivered _ _ _ _ _ same _ ↦ rw same (refl, refl)
          | held _ _ _ same _ ↦ rw same (refl, refl)
          | left _ same _ ↦ rw same (refl, refl)
        ] in
      record {
        buffer = rw now.0 both;
        later = rw (now.1, next) later;
        out = elim (Bool-cases (is_none s.sink || not s.settled)) [
          | inl silent ↦ rw silent tt
          | inr sends ↦ rw sends (here, tt)
        ];
      }

  same-InStep :
      (rest : List Section) (s t : Session) (out : List PendingEvent)
      → t.buffer ≡ s.buffer
      → t.next_key ≡ s.next_key
      → AreReceived all s.buffer
      → Continues all s.next_key rest
      → AreReceived all out
      → InStep all t rest out
  same-InStep rest s t out b n h more o = record { buffer = rw b h; later = rw n more; out = o }

  delivers-InStep :
      (ids : ℕ → Bytes) (k : ℕ) (rest : List Section) (s t : Session) (task : Task)
      → exec c (delivers ids k) s ≡ some (t, task)
      → AreReceived all s.buffer
      → Continues all s.next_key rest
      → InStep all t rest (sent (delivers ids k) s)
  unfolding exec sent
  delivers-InStep ids k rest s t task e h more =
      let now : (t.buffer ≡ s.buffer) × (t.next_key ≡ s.next_key) =
        elim (deliver_buffered-Delivery ids k s t task e) [
          | skipped _ same _ ↦ rw same (refl, refl)
          | stamped _ _ _ _ same _ ↦ rw same (refl, refl)
        ] in
      same-InStep rest s t _ now.0 now.1 h more
        (elim (Bool-cases (not (is_current k s.sink) || s.settled)) [
          | inl silent ↦ rw silent tt
          | inr sends ↦ rw sends h
        ])

  acks-InStep :
      (id : Bytes) (rest : List Section) (s t : Session) (task : Task)
      → exec c (acks id) s ≡ some (t, task)
      → AreReceived all s.buffer
      → Continues all s.next_key rest
      → InStep all t rest []
  unfolding exec ack
  acks-InStep id rest s t task e h more = record {
    buffer = elim (ack_buffer c id s) [
      | inl same ↦ subst (AreReceived all) (ground arith) h
      | inr (k, gone) ↦
          subst (AreReceived all) (ground arith) (remove_key-AreReceived all k s.buffer h)
    ];
    later = subst (λ n. Continues all n rest) (ground arith) more;
    out = tt;
  }

  pub exec-InStep :
      (sec : Section) (rest : List Section) (s t : Session) (task : Task)
      → exec c sec s ≡ some (t, task)
      → s.next_key + taken sec < word
      → AreReceived all s.buffer
      → Continues all s.next_key (sec ∷ rest)
      → InStep all t rest (sent sec s)
  unfolding Continues received_by sent
  exec-InStep (receives raw fresh) rest s t task e small h more =
      receives-InStep raw fresh rest s t task e small h more
  exec-InStep (delivers ids k) rest s t task e small h more =
      delivers-InStep ids k rest s t task e h more
  exec-InStep (acks id) rest s t task e small h more = acks-InStep id rest s t task e h more
  exec-InStep sec rest s t task e small h more =
      let same = quiet-SameEvents c sec s t task refl e in
      same-InStep rest s t [] same.buffer same.next_key h more tt
