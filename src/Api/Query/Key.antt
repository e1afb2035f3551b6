-- ===== src/Api/Query/Key.antt =====
-- `split_key`: a key in brackets, as the path of its names.
use mathlib.Core.List.{append-nil, append_assoc}
use ferris_cms.Prelude.{
  ℕ, ◌≡◌, ◌≢◌, refl, ap, ◌∙◌, Bool, true, false, not, ◌&&◌, List, [], ◌∷◌, ◌++◌, is_empty, Text,
  ◌==◌, All, if◌then◌else◌,
}

abbrev pub opens : ℕ
opens = b'['

abbrev pub closes : ℕ
closes = b']'

-- `rest[..bracket]` and `&rest[bracket..]` for the first opening bracket
unfoldable pub split_bracket : Text → Text × Text
split_bracket [] = ([], [])
split_bracket (c ∷ s) =
    let (before, after) = split_bracket s in if c == opens then ([], c ∷ s) else (c ∷ before, after)

-- the variables of the loop over the characters
pub record KeyState : Type 0 where
  pub parts : List Text
  pub cur : Text
  pub in_bracket : Bool

unfoldable pub key_step : KeyState → ℕ → KeyState
key_step s ch =
    if ch == opens
    then record s {
      parts = if s.in_bracket && not (is_empty s.cur) then s.parts ++ s.cur ∷ [] else s.parts;
      cur = if s.in_bracket && not (is_empty s.cur) then [] else s.cur;
      in_bracket = true;
    }
    else if ch == closes
    then record { parts = s.parts ++ s.cur ∷ []; cur = []; in_bracket = false }
    else if s.in_bracket
    then record s { cur = s.cur ++ ch ∷ [] }
    else s

unfoldable pub key_loop : KeyState → Text → KeyState
key_loop s [] = s
key_loop s (ch ∷ rest) = key_loop (key_step s ch) rest

-- `filter(|p| !p.is_empty())`
unfoldable pub nonempty : List Text → List Text
nonempty [] = []
nonempty (p ∷ ps) = let rest = nonempty ps in if is_empty p then rest else p ∷ rest

abbrev flush : KeyState → List Text
flush s = if is_empty s.cur then s.parts else s.parts ++ s.cur ∷ []

abbrev split_rest : Text → Text → List Text
split_rest head [] = head ∷ []
split_rest head (c ∷ rest) =
    nonempty
      (flush (key_loop (record { parts = head ∷ []; cur = []; in_bracket = false }) (c ∷ rest)))

unfoldable pub split_key : Text → List Text
unfolding split_bracket key_step key_loop nonempty
split_key key = let (head, rest) = split_bracket key in split_rest head rest

-- The key of a path, as clients write it: `filters[author][name]`.
abbrev pub bracketed : List Text → Text
bracketed [] = []
bracketed (p ∷ ps) = opens ∷ (p ++ closes ∷ bracketed ps)

abbrev pub print_key : Text → List Text → Text
print_key head path = head ++ bracketed path

-- A name that can stand in a key: not empty, and without brackets.
abbrev pub IsPlain : Text → Type 0
IsPlain [] = Unit
IsPlain (c ∷ s) = ((c == opens) ≡ false) × ((c == closes) ≡ false) × IsPlain s

abbrev pub IsName : Text → Type 0
IsName s = (s ≢ []) × IsPlain s

split_bracket-append :
    (head : Text) (path : List Text)
    → IsPlain head
    → split_bracket (head ++ bracketed path) ≡ (head, bracketed path)
unfolding split_bracket
split_bracket-append [] [] h = refl
split_bracket-append [] (p ∷ path) h = refl
split_bracket-append (c ∷ head) path (o, k, h) = rw (split_bracket-append head path h, o) refl

key_step-plain :
    (parts : List Text) (cur : Text) (c : ℕ)
    → (c == opens) ≡ false
    → (c == closes) ≡ false
    → key_step (record { parts = parts; cur = cur; in_bracket = true }) c
      ≡ record { parts = parts; cur = cur ++ c ∷ []; in_bracket = true }
unfolding key_step
key_step-plain parts cur c o k = rw (o, k) refl

key_loop-plain :
    (parts : List Text) (cur name rest : Text)
    → IsPlain name
    → key_loop (record { parts = parts; cur = cur; in_bracket = true }) (name ++ rest)
      ≡ key_loop (record { parts = parts; cur = cur ++ name; in_bracket = true }) rest
unfolding key_loop
key_loop-plain parts cur [] rest h = rw (append-nil cur) refl
key_loop-plain parts cur (c ∷ name) rest (o, k, h) =
    ap (λ s. key_loop s (name ++ rest)) (key_step-plain parts cur c o k)
    ∙ key_loop-plain parts (cur ++ c ∷ []) name rest h
    ∙ ap (λ t. key_loop (record { parts = parts; cur = t; in_bracket = true }) rest)
        (append_assoc cur (c ∷ []) name)

key_loop-bracketed :
    (parts path : List Text)
    → All IsName path
    → key_loop (record { parts = parts; cur = []; in_bracket = false }) (bracketed path)
      ≡ record { parts = parts ++ path; cur = []; in_bracket = false }
unfolding key_loop key_step
key_loop-bracketed parts [] h = simp (append-nil)
key_loop-bracketed parts (p ∷ path) (h, hs) =
    key_loop-plain parts [] p (closes ∷ bracketed path) h.1
    ∙ key_loop-bracketed (parts ++ p ∷ []) path hs
    ∙ ap (λ t. record { parts = t; cur = []; in_bracket = false })
        (append_assoc parts (p ∷ []) path)

nonempty_of_IsName : (path : List Text) → All IsName path → nonempty path ≡ path
unfolding nonempty
nonempty_of_IsName [] h = refl
nonempty_of_IsName ([] ∷ path) ((n, _), h) = absurd (n refl)
nonempty_of_IsName ((c ∷ p) ∷ path) (n, h) = ap (λ r. (c ∷ p) ∷ r) (nonempty_of_IsName path h)

split_rest-bracketed :
    (head : Text) (path : List Text)
    → All IsName (head ∷ path)
    → split_rest head (bracketed path) ≡ head ∷ path
split_rest-bracketed head [] h = refl
split_rest-bracketed head (p ∷ path) h =
    ap (λ s. nonempty (flush s)) (key_loop-bracketed (head ∷ []) (p ∷ path) h.1)
    ∙ nonempty_of_IsName (head ∷ p ∷ path) h

-- A key written with a head and names in brackets, none of them empty or with a bracket inside, is
-- split into just these.
pub split_key-print_key :
    (head : Text) (path : List Text)
    → All IsName (head ∷ path)
    → split_key (print_key head path) ≡ head ∷ path
unfolding split_key
split_key-print_key head path h =
    ap (λ r. split_rest r.0 r.1) (split_bracket-append head path h.0.1)
    ∙ split_rest-bracketed head path h
