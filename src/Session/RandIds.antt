-- ===== src/Session/RandIds.antt =====
-- `randID` of cmd/egress-broker/registry.go: the hexadecimal digits of 12 random bytes, which are an
-- argument.
use substrate_ws_poc.Prelude.{
  ℕ, ◌+◌, ◌*◌, ◌<◌, ◌/◌, ◌%◌, [], ◌∷◌, All, ◌≡◌, ◌↔◌, ◌≢◌, refl, arith, ltb, if◌then◌else◌, length,
  ◌≤◌, ◌⊎◌, inl, inr, Bool-cases, ap,
}
use substrate_ws_poc.Prelude.Bytes.{Bytes}

hex_digit : ℕ → ℕ
hex_digit n = if ltb n 10 then n + b'0' else n + 87

-- `hex.EncodeToString`.
unfoldable pub encode_to_string : Bytes → Bytes
unfolding hex_digit
encode_to_string [] = []
encode_to_string (a ∷ s) = hex_digit (a / 16) ∷ hex_digit (a % 16) ∷ encode_to_string s

rand_id : Bytes → Bytes
rand_id b = encode_to_string b

abbrev pub AreOctets : Bytes → Type 0
AreOctets b = All (λ a. a < 256) b

hex_digit-injective : (m n : ℕ) → m < 16 → n < 16 → hex_digit m ≡ hex_digit n → m ≡ n
unfolding hex_digit
hex_digit-injective m n lm ln e = ground arith

octet_digits : (a b : ℕ) → a < 256 → b < 256 → a / 16 ≡ b / 16 → a % 16 ≡ b % 16 → a ≡ b
octet_digits a b la lb q r = omega arith

octet_quotient : (a : ℕ) → a < 256 → a / 16 < 16
octet_quotient a la = omega arith

octet_rest : (a : ℕ) → a % 16 < 16
octet_rest a = omega arith

-- A lower-case hexadecimal digit.
abbrev pub IsHex : ℕ → Type 0
IsHex a = ((b'0' ≤ a) × (a ≤ b'9')) ⊎ ((b'a' ≤ a) × (a ≤ b'f'))

hex_digit-IsHex : (n : ℕ) → n < 16 → IsHex (hex_digit n)
unfolding hex_digit
hex_digit-IsHex n h = elim (Bool-cases (ltb n 10)) [
  | inl low ↦ rw low (inl (ground arith))
  | inr high ↦ rw high (inr (ground arith))
]

pub encode_to_string-IsHex : (b : Bytes) → AreOctets b → All IsHex (encode_to_string b)
unfolding encode_to_string
encode_to_string-IsHex [] octets = tt
encode_to_string-IsHex (a ∷ b) (octet, rest) =
    let low = hex_digit-IsHex (a % 16) (octet_rest a) in
    (hex_digit-IsHex (a / 16) (octet_quotient a octet), (low, encode_to_string-IsHex b rest))

octet-injective :
    (a b : ℕ)
    → a < 256
    → b < 256
    → hex_digit (a / 16) ≡ hex_digit (b / 16)
    → hex_digit (a % 16) ≡ hex_digit (b % 16)
    → a ≡ b
octet-injective a b la lb q r =
    octet_digits a b la lb
      (hex_digit-injective (a / 16) (b / 16) (octet_quotient a la) (octet_quotient b lb) q)
      (hex_digit-injective (a % 16) (b % 16) (octet_rest a) (octet_rest b) r)

encode_to_string-injective :
    (s t : Bytes) → AreOctets s → AreOctets t → encode_to_string s ≡ encode_to_string t → s ≡ t
unfolding encode_to_string
encode_to_string-injective [] [] hs ht e = refl
encode_to_string-injective [] (b ∷ t) hs ht e = cc
encode_to_string-injective (a ∷ s) [] hs ht e = cc
encode_to_string-injective (a ∷ s) (b ∷ t) hs ht e =
    let high : hex_digit (a / 16) ≡ hex_digit (b / 16) = cc in
    let low : hex_digit (a % 16) ≡ hex_digit (b % 16) = cc in
    let rest : encode_to_string s ≡ encode_to_string t = cc in
    let first = octet-injective a b hs.0 ht.0 high low in
    let others = encode_to_string-injective s t hs.1 ht.1 rest in cc

length-encode_to_string : (s : Bytes) → length (encode_to_string s) ≡ 2 * length s
unfolding encode_to_string
length-encode_to_string [] = refl
length-encode_to_string (a ∷ s) = omega (arith, length-encode_to_string s)

nil-length : (s : Bytes) → s ≡ [] → length s ≡ 0
nil-length s e = ap length e

-- Two ids are equal exactly if the random bytes are that they are made of, and an id has two
-- characters for each byte, so that it is not empty.
rand_id_iff :
    (s t : Bytes)
    → AreOctets s
    → AreOctets t
    → length s ≡ 12
    → ((rand_id s ≡ rand_id t) ↔ (s ≡ t)) × (length (rand_id s) ≡ 24) × (rand_id s ≢ [])
unfolding rand_id
rand_id_iff s t hs ht twelve =
    let long : length (encode_to_string s) ≡ 24 =
      omega (arith, length-encode_to_string s, twelve) in
    (
      (encode_to_string-injective s t hs ht, ap encode_to_string),
      long,
      λ e. omega (arith, long, nil-length (encode_to_string s) e),
    )
