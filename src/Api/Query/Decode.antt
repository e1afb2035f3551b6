-- ===== src/Api/Query/Decode.antt =====
-- `percent_decode` and `decode_pairs`. `lossy` is `String::from_utf8_lossy`.
use Prim.Native.Nat.{◌/◌, ◌%◌}
use ferris_cms.Prelude.{
  ℕ, ◌+◌, ◌-◌, ◌*◌, ◌<◌, ◌≡◌, refl, ap, ◌∙◌, Bool, false, ◌&&◌, ◌||◌, Option, none, some, List, [],
  ◌∷◌, is_empty, Text, ◌==◌, leb, All, arith, Bool-cases, inl, inr, if◌then◌else◌,
}

-- the value of a hexadecimal digit
unfoldable pub hex : ℕ → Option ℕ
hex b =
    if leb b'0' b && leb b b'9'
    then some (b - b'0')
    else if leb b'a' b && leb b b'f'
    then some (b - b'a' + 10)
    else if leb b'A' b && leb b b'F'
    then some (b - b'A' + 10)
    else none

abbrev hex_pair : Option ℕ → Option ℕ → Option ℕ
hex_pair (some h) (some l) = some (h * 16 + l)
hex_pair (some h) none = none
hex_pair none l = none

-- the bytes that `percent_decode` collects
unfoldable pub decode_bytes : Text → Text
unfolding hex
decode_bytes [] = []
decode_bytes (a ∷ []) = (if a == b'+' then b' ' else a) ∷ []
decode_bytes (a ∷ (b ∷ [])) =
    let rest = decode_bytes (b ∷ []) in (if a == b'+' then b' ' else a) ∷ rest
decode_bytes (a ∷ (b ∷ (c ∷ s))) =
    let kept = decode_bytes (b ∷ (c ∷ s)) in
    let escaped = decode_bytes s in
    if a == b'+'
    then b' ' ∷ kept
    else if a == b'%'
    then elim (hex_pair (hex b) (hex c)) [ some x ↦ x ∷ escaped | none ↦ a ∷ kept ]
    else a ∷ kept

-- `split_once('=')`, with the whole text and nothing where there is no such byte
unfoldable pub split_pair : Text → Text × Text
split_pair [] = ([], [])
split_pair (c ∷ s) = let (k, v) = split_pair s in if c == b'=' then ([], s) else (c ∷ k, v)

-- `split(sep)`: one piece more than there are separators
unfoldable pub split_on : ℕ → Text → List Text
split_on sep [] = [] ∷ []
split_on sep (c ∷ s) =
    let rest = split_on sep s in
    if c == sep then [] ∷ rest else elim rest [ p ∷ ps ↦ (c ∷ p) ∷ ps | [] ↦ (c ∷ []) ∷ [] ]

-- `trim_start_matches('?')`
unfoldable pub trim_marks : Text → Text
trim_marks [] = []
trim_marks (c ∷ s) = let rest = trim_marks s in if c == b'?' then rest else c ∷ s

module _ (lossy : Text → Text) where
  unfoldable pub percent_decode : Text → Text
  unfolding decode_bytes
  percent_decode s = lossy (decode_bytes s)

  abbrev pub decode_pair : Text → Text × Text
  decode_pair pair = let (k, v) = split_pair pair in (percent_decode k, percent_decode v)

  unfoldable pub decode_all : List Text → List (Text × Text)
  decode_all [] = []
  decode_all (p ∷ ps) =
      let rest = decode_all ps in if is_empty p then rest else decode_pair p ∷ rest

  unfoldable pub decode_pairs : Text → List (Text × Text)
  unfolding decode_all split_pair split_on trim_marks percent_decode
  decode_pairs query = decode_all (split_on b'&' (trim_marks query))

-- A client's encoder: letters, digits and `-_.~` stand for themselves, and each other byte is
-- written in hexadecimal.
abbrev pub hex_digit : ℕ → ℕ
hex_digit n = if leb 10 n then n - 10 + b'A' else n + b'0'

abbrev pub is_unreserved : ℕ → Bool
is_unreserved c =
    (leb b'0' c && leb c b'9')
    || (leb b'A' c && leb c b'Z')
    || (leb b'a' c && leb c b'z')
    || c == b'-'
    || c == b'_'
    || c == b'.'
    || c == b'~'

unfoldable pub encode : Text → Text
encode [] = []
encode (c ∷ s) =
    let rest = encode s in
    if is_unreserved c then c ∷ rest else b'%' ∷ (hex_digit (c / 16) ∷ (hex_digit (c % 16) ∷ rest))

hex-hex_digit : (n : ℕ) → n < 16 → hex (hex_digit n) ≡ some n
unfolding hex
hex-hex_digit n h = ground arith

decode_bytes-plain :
    (c : ℕ) (s : Text)
    → (c == b'+') ≡ false
    → (c == b'%') ≡ false
    → decode_bytes (c ∷ s) ≡ c ∷ decode_bytes s
unfolding decode_bytes
decode_bytes-plain c [] p q = rw p refl
decode_bytes-plain c (a ∷ []) p q = rw p refl
decode_bytes-plain c (a ∷ (b ∷ s)) p q = rw (p, q) refl

decode_bytes-escape :
    (n m : ℕ) (s : Text)
    → n < 16
    → m < 16
    → decode_bytes (b'%' ∷ (hex_digit n ∷ (hex_digit m ∷ s))) ≡ (n * 16 + m) ∷ decode_bytes s
unfolding decode_bytes
decode_bytes-escape n m s h k = rw (hex-hex_digit n h, hex-hex_digit m k) refl

-- Text that is percent-encoded byte by byte is decoded to the bytes that were encoded.
pub decode_bytes-encode : (s : Text) → All (λ c. c < 256) s → decode_bytes (encode s) ≡ s
unfolding encode decode_bytes
decode_bytes-encode [] h = refl
decode_bytes-encode (c ∷ s) (b, h) = elim (Bool-cases (is_unreserved c)) [
  | inl e ↦ rw e (
      decode_bytes-plain c (encode s) (ground arith) (ground arith)
      ∙ ap (λ r. c ∷ r) (decode_bytes-encode s h))
  | inr e ↦ rw e (
      decode_bytes-escape (c / 16) (c % 16) (encode s) (omega arith) (omega arith)
      ∙ ap (λ r. (c / 16 * 16 + c % 16) ∷ r) (decode_bytes-encode s h)
      ∙ ap (λ r. r ∷ s) (omega arith))
]
