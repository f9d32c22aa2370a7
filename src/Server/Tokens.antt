-- ===== src/Server/Tokens.antt =====
-- `bearerToken` of cmd/egress-broker/server.go with the functions of `strings` that it calls, and
-- the header that cmd/egress-broker/realslack.go sends.
use mathlib.Core.List.{reverse, reverse-reverse}
use substrate_ws_poc.Prelude.{
  ℕ, zero, suc, ◌+◌, ◌<◌, Bool, true, false, ◌&&◌, ◌||◌, [], ◌∷◌, ◌++◌, Option, none, some, ◌≡◌,
  refl, ◌≢◌, arith, ltb, leb, length, length-append, take, drop, if◌then◌else◌, nat_eq, ◌==◌,
  take-length-append, drop-length-append, ◌∙◌, ap, sym,
}
use substrate_ws_poc.Prelude.Bytes.{Bytes, codes}

is_space : ℕ → Bool
is_space a = (leb 9 a && leb a 13) || a == 32

-- U+0085 and U+00A0.
is_space_of_two : ℕ → ℕ → Bool
is_space_of_two a b = a == 0xc2 && (b == 0x85 || b == 0xa0)

-- U+1680, U+2000 to U+200A, U+2028, U+2029, U+202F, U+205F and U+3000.
is_space_of_three : ℕ → ℕ → ℕ → Bool
is_space_of_three a b c =
    (a == 0xe1 && b == 0x9a && c == 0x80)
    || (a == 0xe2
        && b == 0x80
        && (leb 0x80 c && leb c 0x8a || leb 0xa8 c && leb c 0xa9 || c == 0xaf))
    || (a == 0xe2 && b == 0x81 && c == 0x9f)
    || (a == 0xe3 && b == 0x80 && c == 0x80)

-- What follows a white-space character at the start of a text.
unfoldable pub drop_first : Bytes → Option Bytes
unfolding is_space is_space_of_two is_space_of_three
drop_first [] = none
drop_first (a ∷ []) = if is_space a then some [] else none
drop_first (a ∷ b ∷ []) =
    if is_space a then some (b ∷ []) else if is_space_of_two a b then some [] else none
drop_first (a ∷ b ∷ c ∷ s) =
    if is_space a
    then some (b ∷ c ∷ s)
    else (if is_space_of_two a b
        then some (c ∷ s)
        else if is_space_of_three a b c
        then some s
        else none)

-- The same at the end of a text, which is given in reverse.
unfoldable pub drop_last : Bytes → Option Bytes
unfolding is_space is_space_of_two is_space_of_three
drop_last [] = none
drop_last (a ∷ []) = if is_space a then some [] else none
drop_last (b ∷ a ∷ []) =
    if is_space b then some (a ∷ []) else if is_space_of_two a b then some [] else none
drop_last (c ∷ b ∷ a ∷ s) =
    if is_space c
    then some (b ∷ a ∷ s)
    else (if is_space_of_two b c
        then some (a ∷ s)
        else if is_space_of_three a b c
        then some s
        else none)

-- Each round removes a byte at least, so the length is fuel enough.
trim_by : (Bytes → Option Bytes) → ℕ → Bytes → Bytes
trim_by drop_one zero s = s
trim_by drop_one (suc n) s = elim (drop_one s) [ none ↦ s | some t ↦ trim_by drop_one n t ]

-- `strings.TrimSpace`.
unfoldable pub trim_space : Bytes → Bytes
unfolding trim_by
trim_space s =
    let t = trim_by drop_first (length s) s in reverse (trim_by drop_last (length t) (reverse t))

lower : ℕ → ℕ
lower a = if leb b'A' a && leb a b'Z' then a + 32 else a

-- `strings.EqualFold` against an ASCII text with neither `k` nor `s`.
unfoldable pub equal_fold : Bytes → Bytes → Bool
unfolding lower
equal_fold [] [] = true
equal_fold (a ∷ s) (b ∷ t) = lower a == lower b && equal_fold s t
equal_fold _ _ = false

abbrev pub bearer_prefix : Bytes
bearer_prefix = codes "Bearer "

unfoldable pub bearer_token : Bytes → Bytes
unfolding trim_space equal_fold lower
bearer_token header =
    let n = length bearer_prefix in
    if ltb n (length header) && equal_fold (take n header) bearer_prefix
    then trim_space (drop n header)
    else []

-- The header that `openConnection` sends.
unfoldable pub authorization : Bytes → Bytes
authorization app_token = bearer_prefix ++ app_token

-- A token that neither begins nor ends with white space.
pub record IsBare (token : Bytes) : Type 0 where
  pub given : token ≢ []
  pub starts : drop_first token ≡ none
  pub ends : drop_last (reverse token) ≡ none

trim_by-none :
    (drop_one : Bytes → Option Bytes) (n : ℕ) (s : Bytes)
    → drop_one s ≡ none
    → trim_by drop_one n s ≡ s
unfolding trim_by
trim_by-none drop_one zero s h = refl
trim_by-none drop_one (suc n) s h = ground arith

trim_space-IsBare : (token : Bytes) → IsBare token → trim_space token ≡ token
unfolding trim_space
trim_space-IsBare token v =
    rw (trim_by-none drop_first (length token) token v.starts)
      (rw (trim_by-none drop_last (length token) (reverse token) v.ends) (reverse-reverse token))

equal_fold_prefix : equal_fold bearer_prefix bearer_prefix ≡ true
unfolding equal_fold lower
equal_fold_prefix = refl

equal_fold-length : (s t : Bytes) → equal_fold s t ≡ true → length s ≡ length t
unfolding equal_fold
equal_fold-length [] [] h = refl
equal_fold-length (a ∷ s) (b ∷ t) h = ground (arith, equal_fold-length s t)
equal_fold-length [] (b ∷ t) h = cc
equal_fold-length (a ∷ s) [] h = cc

length-pos : (xs : Bytes) → xs ≢ [] → 0 < length xs
length-pos [] n = absurd (n refl)
length-pos (x ∷ xs) n = omega arith

-- If the scheme is `Bearer ` in any case and the token is not empty and bare of white space at its
-- ends, the token is read from the header.
bearer_token-append :
    (scheme token : Bytes)
    → equal_fold scheme bearer_prefix ≡ true
    → IsBare token
    → bearer_token (scheme ++ token) ≡ token
unfolding bearer_token
bearer_token-append scheme token fold v =
    let n = equal_fold-length scheme bearer_prefix fold in
    let front : take 7 (scheme ++ token) ≡ scheme =
      ap (λ m. take m (scheme ++ token)) (sym n) ∙ take-length-append scheme token in
    let back : drop 7 (scheme ++ token) ≡ token =
      ap (λ m. drop m (scheme ++ token)) (sym n) ∙ drop-length-append scheme token in
    let long : ltb 7 (length (scheme ++ token)) ≡ true =
      ground (arith, length-append scheme token, n, length-pos token v.given) in
    rw (long, front, fold, back) (trim_space-IsBare token v)

-- The broker reads from a header the token that it sends to Slack in the same form.
pub bearer_token-authorization :
    (token : Bytes) → IsBare token → bearer_token (authorization token) ≡ token
unfolding authorization
bearer_token-authorization token v = bearer_token-append bearer_prefix token equal_fold_prefix v
