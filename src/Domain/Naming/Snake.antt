-- ===== src/Domain/Naming/Snake.antt =====
-- What `snake_case` returns.
use ferris_cms.Prelude.{
  ℕ, ◌+◌, ◌≡◌, refl, sym, ap, ◌∙◌, ◌⊎◌, inl, inr, Bool, true, false, not, ◌||◌, [], ◌∷◌, ◌++◌,
  is_empty, Text, arith,
}
use mathlib.Core.List.{append_assoc, append-nil}
use ferris_cms.Domain.Naming.{
  underscore, is_ascii_lowercase, is_ascii_digit, is_ascii_uppercase, SnakeState, snake_step,
  snake_loop, trim_end, snake_start, snake_case,
}

-- the bytes of a word
abbrev pub is_word : ℕ → Bool
is_word c = is_ascii_lowercase c || is_ascii_digit c

-- Words joined by single underscores: `a` says whether a word byte stands before the text, and `b`
-- whether one stands at its end.
abbrev pub Joined : Bool → Bool → Text → Type 0
Joined a b [] = a ≡ b
Joined a b (c ∷ s) =
    ((is_word c ≡ true) × Joined true b s) ⊎ ((c ≡ underscore) × (a ≡ true) × Joined false b s)

-- A text of words of lowercase letters and digits, joined by single underscores; or no text.
abbrev pub IsSnake : Text → Type 0
IsSnake s = (s ≡ []) ⊎ Joined false true s

Joined-word :
    (a b : Bool) (s : Text) (c : ℕ) → Joined a b s → is_word c ≡ true → Joined a true (s ++ c ∷ [])
Joined-word a b [] c h w = inl (w, refl)
Joined-word a b (d ∷ s) c (inl (k, h)) w = inl (k, Joined-word true b s c h w)
Joined-word a b (d ∷ s) c (inr (k, e, h)) w = inr (k, e, Joined-word false b s c h w)

Joined-underscore : (a : Bool) (s : Text) → Joined a true s → Joined a false (s ++ underscore ∷ [])
Joined-underscore a [] h = inr (refl, h, refl)
Joined-underscore a (d ∷ s) (inl (k, h)) = inl (k, Joined-underscore true s h)
Joined-underscore a (d ∷ s) (inr (k, e, h)) = inr (k, e, Joined-underscore false s h)

Joined-nonempty : (s : Text) → Joined false true s → is_empty s ≡ false
Joined-nonempty [] h = cc
Joined-nonempty (c ∷ s) h = refl

-- The state of the loop: the output ends in a word byte exactly if `prev_underscore` is not set.
record IsRunning (s : SnakeState) : Type 0 where
  joined : Joined false (not s.prev_underscore) s.out
  letter : s.prev_lower_or_digit ≡ true → s.prev_underscore ≡ false

is_word-to_lower : (ch : ℕ) → is_ascii_uppercase ch ≡ true → is_word (ch + 32) ≡ true
is_word-to_lower ch h = ground arith

snake_step-IsRunning : (s : SnakeState) (ch : ℕ) → IsRunning s → IsRunning (snake_step s ch)
unfolding snake_step
snake_step-IsRunning s ch h = ground (
  arith,
  is_word-to_lower ch,
  h.joined,
  h.letter,
  Joined-word false (not s.prev_underscore) s.out (ch + 32) h.joined,
  Joined-word false (not s.prev_underscore) s.out ch h.joined,
  Joined-word false false (s.out ++ underscore ∷ []) (ch + 32),
  Joined-underscore false s.out,
  Joined-nonempty s.out,
)

snake_loop-IsRunning : (s : SnakeState) (t : Text) → IsRunning s → IsRunning (snake_loop s t)
unfolding snake_loop
snake_loop-IsRunning s [] h = h
snake_loop-IsRunning s (ch ∷ t) h =
    snake_loop-IsRunning (snake_step s ch) t (snake_step-IsRunning s ch h)

-- After a word byte at most the last byte is an underscore, and it is taken off.
Joined-trim_end : (b : Bool) (s : Text) → Joined true b s → Joined true true (trim_end s)
unfolding trim_end
Joined-trim_end b [] h = refl
Joined-trim_end b (c ∷ s) (inl (w, h)) = ground (arith, Joined-trim_end b s h)
Joined-trim_end b (c ∷ []) (inr (e, _, h)) = rw e refl
Joined-trim_end b (c ∷ (d ∷ s)) (inr (e, _, inl (w, h))) = ground (arith, Joined-trim_end b s h)
Joined-trim_end b (c ∷ (d ∷ s)) (inr (e, _, inr (_, k, h))) = cc

trim_end-IsSnake : (b : Bool) (s : Text) → Joined false b s → IsSnake (trim_end s)
unfolding trim_end
trim_end-IsSnake b [] h = inl refl
trim_end-IsSnake b (c ∷ s) (inl (w, h)) = ground (arith, Joined-trim_end b s h)
trim_end-IsSnake b (c ∷ s) (inr (_, k, h)) = cc

-- `snake_case` returns words of lowercase letters and digits joined by single underscores, with no
-- underscore at either end, whatever the text.
pub snake_case-IsSnake : (s : Text) → IsSnake (snake_case s)
unfolding snake_case
snake_case-IsSnake s =
    trim_end-IsSnake _ _
      (snake_loop-IsRunning snake_start s (record { joined = refl; letter = λ e. cc })).joined

trim_end_of_Joined : (a : Bool) (s : Text) → Joined a true s → trim_end s ≡ s
unfolding trim_end
trim_end_of_Joined a [] h = refl
trim_end_of_Joined a (c ∷ s) (inl (w, h)) = ground (arith, trim_end_of_Joined true s h)
trim_end_of_Joined a (c ∷ []) (inr (e, _, h)) = cc
trim_end_of_Joined a (c ∷ (d ∷ s)) (inr (e, _, h)) =
    ground (arith, trim_end_of_Joined false (d ∷ s) h)

abbrev state : Text → Bool → Bool → SnakeState
state out pl a = record { out = out; prev_lower_or_digit = pl; prev_underscore = not a }

snake_step_word :
    (out : Text) (pl a : Bool) (c : ℕ)
    → is_word c ≡ true
    → snake_step (state out pl a) c ≡ state (out ++ c ∷ []) true true
unfolding snake_step
snake_step_word out pl a c w = ground arith

snake_step-underscore :
    (out : Text) (pl a : Bool) (c : ℕ)
    → c ≡ underscore
    → a ≡ true
    → is_empty out ≡ false
    → snake_step (state out pl a) c ≡ state (out ++ c ∷ []) false false
unfolding snake_step
snake_step-underscore out pl a c e q k = ground arith

is_empty-snoc : (out : Text) (c : ℕ) → is_empty (out ++ c ∷ []) ≡ false
is_empty-snoc [] c = refl
is_empty-snoc (d ∷ out) c = refl

-- On such a text the loop copies each byte.
snake_loop_of_Joined :
    (a pl : Bool) (out s : Text)
    → Joined a true s
    → (a ≡ true → is_empty out ≡ false)
    → (snake_loop (state out pl a) s).out ≡ out ++ s
unfolding snake_loop
snake_loop_of_Joined a pl out [] h k = sym (append-nil out)
snake_loop_of_Joined a pl out (c ∷ s) (inl (w, h)) k =
    ap (λ (t : SnakeState). (snake_loop t s).out) (snake_step_word out pl a c w)
    ∙ snake_loop_of_Joined true true (out ++ c ∷ []) s h (λ _. is_empty-snoc out c)
    ∙ append_assoc out (c ∷ []) s
snake_loop_of_Joined a pl out (c ∷ s) (inr (e, q, h)) k =
    ap (λ (t : SnakeState). (snake_loop t s).out) (snake_step-underscore out pl a c e q (k q))
    ∙ snake_loop_of_Joined false false (out ++ c ∷ []) s h (λ r. cc)
    ∙ append_assoc out (c ∷ []) s

-- A text that has the form is left as it is.
pub snake_case_of_IsSnake : (s : Text) → IsSnake s → snake_case s ≡ s
unfolding snake_case
snake_case_of_IsSnake s (inl e) = rw e refl
snake_case_of_IsSnake s (inr h) =
    ap trim_end (snake_loop_of_Joined false false [] s h (λ e. cc)) ∙ trim_end_of_Joined false s h

-- Naming a name again changes nothing.
pub snake_case_idem : (s : Text) → snake_case (snake_case s) ≡ snake_case s
snake_case_idem s = snake_case_of_IsSnake (snake_case s) (snake_case-IsSnake s)
