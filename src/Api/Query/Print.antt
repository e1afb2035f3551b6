-- ===== src/Api/Query/Print.antt =====
-- What `decode_pairs` reads of a query string that a client has written.
use Prim.Native.Nat.{◌/◌, ◌%◌}
use ferris_cms.Prelude.{
  ℕ, ◌<◌, ◌≡◌, refl, ap, ◌∙◌, true, false, List, [], ◌∷◌, ◌++◌, is_empty, map, Text, ◌==◌, All,
  arith, Bool-cases, inl, inr, if◌then◌else◌,
}
use ferris_cms.Api.Query.Decode.{
  split_pair, split_on, trim_marks, percent_decode, decode_pair, decode_all, decode_pairs,
  hex_digit, is_unreserved, encode, decode_bytes-encode,
}

-- `name=value`, encoded, and the pairs joined by `&`
abbrev pub print_pair : Text × Text → Text
print_pair (k, v) = encode k ++ b'=' ∷ encode v

pub print_query : List (Text × Text) → Text
print_query [] = []
print_query (kv ∷ []) = print_pair kv
print_query (kv ∷ (kv' ∷ kvs)) = print_pair kv ++ b'&' ∷ print_query (kv' ∷ kvs)

abbrev pub IsBytes : Text → Type 0
IsBytes s = All (λ c. c < 256) s

abbrev Lacks : ℕ → Text → Type 0
Lacks sep [] = Unit
Lacks sep (c ∷ s) = ((c == sep) ≡ false) × Lacks sep s

-- a byte that `encode` never writes
abbrev IsSeparator : ℕ → Type 0
IsSeparator sep = (is_unreserved sep ≡ false) × ((b'%' == sep) ≡ false)

==_refl : (a : ℕ) → (a == a) ≡ true
==_refl a = ground arith

hex_digit-ne : (n sep : ℕ) → n < 16 → is_unreserved sep ≡ false → (hex_digit n == sep) ≡ false
hex_digit-ne n sep h u = ground arith

-- the bytes that stand for `c`
encode_byte-Lacks :
    (sep c : ℕ) (rest : Text)
    → IsSeparator sep
    → c < 256
    → Lacks sep rest
    → Lacks sep (
        if is_unreserved c
        then c ∷ rest
        else b'%' ∷ (hex_digit (c / 16) ∷ (hex_digit (c % 16) ∷ rest)))
encode_byte-Lacks sep c rest u b h = elim (Bool-cases (is_unreserved c)) [
  | inl e ↦ rw e (ground arith, h)
  | inr e ↦ rw e (
    u.1,
    (hex_digit-ne (c / 16) sep (omega arith) u.0, (hex_digit-ne (c % 16) sep (omega arith) u.0, h)),
  )
]

encode-Lacks : (sep : ℕ) (s : Text) → IsSeparator sep → IsBytes s → Lacks sep (encode s)
unfolding encode
encode-Lacks sep [] u b = tt
encode-Lacks sep (c ∷ s) u (b, bs) =
    encode_byte-Lacks sep c (encode s) u b (encode-Lacks sep s u bs)

split_on_of_Lacks : (sep : ℕ) (s : Text) → Lacks sep s → split_on sep s ≡ s ∷ []
unfolding split_on
split_on_of_Lacks sep [] h = refl
split_on_of_Lacks sep (c ∷ s) (e, h) = rw (e, split_on_of_Lacks sep s h) refl

split_on-append :
    (sep : ℕ) (s t : Text) → Lacks sep s → split_on sep (s ++ sep ∷ t) ≡ s ∷ split_on sep t
unfolding split_on
split_on-append sep [] t h = rw (==_refl sep) refl
split_on-append sep (c ∷ s) t (e, h) = rw (e, split_on-append sep s t h) refl

split_pair-append : (k v : Text) → Lacks b'=' k → split_pair (k ++ b'=' ∷ v) ≡ (k, v)
unfolding split_pair
split_pair-append [] v h = refl
split_pair-append (c ∷ k) v (e, h) = rw (e, split_pair-append k v h) refl

is_empty-print_pair : (kv : Text × Text) → is_empty (print_pair kv) ≡ false
is_empty-print_pair (k, v) = is_empty-append (encode k) (encode v)
  where
    is_empty-append : (s t : Text) → is_empty (s ++ b'=' ∷ t) ≡ false
    is_empty-append [] t = refl
    is_empty-append (c ∷ s) t = refl

Lacks-append : (sep : ℕ) (s t : Text) → Lacks sep s → Lacks sep t → Lacks sep (s ++ t)
Lacks-append sep [] t h k = k
Lacks-append sep (c ∷ s) t (e, h) k = (e, Lacks-append sep s t h k)

abbrev pub ArePairs : List (Text × Text) → Type 0
ArePairs kvs = All (λ (k, v). IsBytes k × IsBytes v) kvs

print_pair-Lacks :
    (sep : ℕ) (k v : Text)
    → IsSeparator sep
    → (b'=' == sep) ≡ false
    → IsBytes k
    → IsBytes v
    → Lacks sep (print_pair (k, v))
print_pair-Lacks sep k v u e bk bv =
    Lacks-append sep (encode k) (b'=' ∷ encode v) (encode-Lacks sep k u bk)
      (e, encode-Lacks sep v u bv)

print_query-Lacks_mark : (kvs : List (Text × Text)) → ArePairs kvs → Lacks b'?' (print_query kvs)
unfolding print_query
print_query-Lacks_mark [] h = tt
print_query-Lacks_mark ((k, v) ∷ []) ((bk, bv), _) =
    print_pair-Lacks b'?' k v (refl, refl) refl bk bv
print_query-Lacks_mark ((k, v) ∷ (kv ∷ kvs)) ((bk, bv), h) =
    Lacks-append b'?' (print_pair (k, v)) (b'&' ∷ print_query (kv ∷ kvs))
      (print_pair-Lacks b'?' k v (refl, refl) refl bk bv)
      (refl, print_query-Lacks_mark (kv ∷ kvs) h)

trim_marks_of_Lacks : (s : Text) → Lacks b'?' s → trim_marks s ≡ s
unfolding trim_marks
trim_marks_of_Lacks [] h = refl
trim_marks_of_Lacks (c ∷ s) (e, h) = rw e refl

module _ (lossy : Text → Text) where
  pub read_pair : Text × Text → Text × Text
  read_pair (k, v) = (lossy k, lossy v)

  decode_pair-print_pair :
      (k v : Text)
      → IsBytes k
      → IsBytes v
      → decode_pair lossy (print_pair (k, v)) ≡ (lossy k, lossy v)
  unfolding percent_decode
  decode_pair-print_pair k v bk bv =
      ap (λ r. (percent_decode lossy r.0, percent_decode lossy r.1))
        (split_pair-append (encode k) (encode v) (encode-Lacks b'=' k (refl, refl) bk))
      ∙ cc (decode_bytes-encode k bk, decode_bytes-encode v bv)

  decode_all-cons :
      (k v : Text) (ps : List Text)
      → IsBytes k
      → IsBytes v
      → decode_all lossy (print_pair (k, v) ∷ ps) ≡ read_pair (k, v) ∷ decode_all lossy ps
  unfolding decode_all read_pair
  decode_all-cons k v ps bk bv =
      rw (is_empty-print_pair (k, v))
        (ap (λ r. r ∷ decode_all lossy ps) (decode_pair-print_pair k v bk bv))

  decode_all-print_query :
      (kvs : List (Text × Text))
      → ArePairs kvs
      → decode_all lossy (split_on b'&' (print_query kvs)) ≡ map read_pair kvs
  unfolding print_query decode_all split_on
  decode_all-print_query [] h = refl
  decode_all-print_query ((k, v) ∷ []) ((bk, bv), _) =
      ap (decode_all lossy) (
        split_on_of_Lacks b'&' (print_pair (k, v))
          (print_pair-Lacks b'&' k v (refl, refl) refl bk bv))
      ∙ decode_all-cons k v [] bk bv
  decode_all-print_query ((k, v) ∷ (kv ∷ kvs)) ((bk, bv), h) =
      ap (decode_all lossy) (
        split_on-append b'&' (print_pair (k, v)) (print_query (kv ∷ kvs))
          (print_pair-Lacks b'&' k v (refl, refl) refl bk bv))
      ∙ decode_all-cons k v (split_on b'&' (print_query (kv ∷ kvs))) bk bv
      ∙ ap (λ r. read_pair (k, v) ∷ r) (decode_all-print_query (kv ∷ kvs) h)

  -- A query string of pairs that a client has percent-encoded is decoded to these pairs, in their
  -- order; each name and value is read as UTF-8 by `lossy`.
  pub decode_pairs-print_query :
      (kvs : List (Text × Text))
      → ArePairs kvs
      → decode_pairs lossy (print_query kvs) ≡ map read_pair kvs
  unfolding decode_pairs
  decode_pairs-print_query kvs h =
      ap (λ s. decode_all lossy (split_on b'&' s))
        (trim_marks_of_Lacks (print_query kvs) (print_query-Lacks_mark kvs h))
      ∙ decode_all-print_query kvs h
