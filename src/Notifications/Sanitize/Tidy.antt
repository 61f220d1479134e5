-- ===== src/Notifications/Sanitize/Tidy.antt =====
-- A sanitised text is tidy and short.
use catnap.Common.{
  none-ne-some, ℕ, ◌+◌, ◌≤◌, Bool, true, false, not, ◌&&◌, ◌||◌, ◌≡◌, refl, ◌∙◌, ap, List, [], ◌∷◌,
  ◌++◌, Option, none, some, arith, leb, ◌==◌, eq_nat, if◌then◌else◌, is_whitespace, and_then,
  length, length-append, Bool-cases, inl, inr,
}
use catnap.Notifications.Sanitize.{
  telegram_error_text_max_chars, is_control, space, replaced, push_chars, is_nil, pop_spaces, dots,
  sanitize_error_text,
}

-- A character may follow: it is no control character, and white space is a space that no space
-- precedes.
abbrev pub fits : ℕ → Bool → Bool
fits c prev_space = not (is_control c) && (not (is_whitespace c) || (c == space && not prev_space))

-- Whether a text ends in a space or is empty, if all its characters fit: `true` before it.
unfoldable pub spacing : Bool → List ℕ → Option Bool
spacing prev_space [] = some prev_space
spacing prev_space (c ∷ cs) =
    let rest = spacing (is_whitespace c) cs in if fits c prev_space then rest else none

spacing-append :
    (b : Bool) (xs ys : List ℕ) → spacing b (xs ++ ys) ≡ and_then (spacing b xs) (λ e. spacing e ys)
unfolding spacing
spacing-append b [] ys = refl
spacing-append b (x ∷ xs) ys = ground (arith, spacing-append (is_whitespace x) xs ys)

is_control-space : is_control 32 ≡ false
unfolding is_control
is_control-space = refl

pub is_whitespace-space : is_whitespace 32 ≡ true
unfolding is_whitespace
is_whitespace-space = refl

-- What the loop pushes fits, and is white space exactly where what it read is.
pushed_char-fits :
    (ch : ℕ) (prev_space : Bool)
    → (is_whitespace (replaced ch) && prev_space) ≡ false
    → fits (if is_whitespace (replaced ch) then space else replaced ch) prev_space ≡ true
pushed_char-fits ch true h = ground (arith, is_control-space, is_whitespace-space)
pushed_char-fits ch false h = ground (arith, is_control-space, is_whitespace-space)

pushed_char-is_whitespace :
    (c : ℕ) → is_whitespace (if is_whitespace c then space else c) ≡ is_whitespace c
pushed_char-is_whitespace c = ground (arith, is_whitespace-space)

spacing-one : (c : ℕ) (b : Bool) → fits c b ≡ true → spacing b (c ∷ []) ≡ some (is_whitespace c)
unfolding spacing
spacing-one c b h = rw h refl

spacing-push :
    (out : List ℕ) (ch : ℕ) (b : Bool)
    → spacing true out ≡ some b
    → (is_whitespace (replaced ch) && b) ≡ false
    → spacing true (out ++ (if is_whitespace (replaced ch) then space else replaced ch) ∷ [])
      ≡ some (is_whitespace (replaced ch))
spacing-push out ch b s h =
    spacing-append true out ((if is_whitespace (replaced ch) then space else replaced ch) ∷ [])
    ∙ ap
        (λ r.
          and_then r
            (λ e. spacing e ((if is_whitespace (replaced ch) then space else replaced ch) ∷ [])))
        s
    ∙ spacing-one (if is_whitespace (replaced ch) then space else replaced ch) b
        (pushed_char-fits ch b h)
    ∙ ap some (pushed_char-is_whitespace (replaced ch))

both_same : (a b : Bool) → (a && b) ≡ true → b ≡ a
both_same a b h = ground arith

push_chars-spacing :
    (chars out : List ℕ) (count : ℕ) (prev_space : Bool)
    → spacing true out ≡ some prev_space
    → length out ≡ count
    → count ≤ telegram_error_text_max_chars
    → let pushed = push_chars chars out count prev_space in
      ((e : Bool) × (spacing true pushed.out ≡ some e))
      × (length pushed.out ≤ telegram_error_text_max_chars)
unfolding push_chars
push_chars-spacing [] out count b s l m = ((b, s), omega (arith, l))
push_chars-spacing (ch ∷ chars) out count b s l m =
    elim (Bool-cases (is_whitespace (replaced ch) && b)) [
      | inl skips ↦ rw skips (
          push_chars-spacing chars out count (is_whitespace (replaced ch))
            (s ∙ ap some (both_same (is_whitespace (replaced ch)) b skips)) l m)
      | inr pushes ↦ rw pushes (elim (Bool-cases (leb telegram_error_text_max_chars count)) [
        | inl full ↦ rw full ((b, s), omega (arith, l))
        | inr room ↦ rw room (
            push_chars-spacing chars
              (out ++ (if is_whitespace (replaced ch) then space else replaced ch) ∷ []) (count + 1)
              (is_whitespace (replaced ch)) (spacing-push out ch b s pushes)
              (rw (length-append, l) refl) (ground (arith, room, m)))
      ])
    ]

popped-length : (xs : List ℕ) → length (pop_spaces xs) ≤ length xs
unfolding pop_spaces
popped-length [] = omega arith
popped-length (c ∷ cs) = ground (arith, popped-length cs)

pub fits-head : (c : ℕ) (cs : List ℕ) (b e : Bool) → spacing b (c ∷ cs) ≡ some e → fits c b ≡ true
unfolding spacing
fits-head c cs b e h = elim (Bool-cases (fits c b)) [
  | inl fitting ↦ fitting
  | inr bad ↦ absurd (none-ne-some (rw bad at h))
]

pub spacing-tail :
    (c : ℕ) (cs : List ℕ) (b e : Bool)
    → spacing b (c ∷ cs) ≡ some e
    → spacing (is_whitespace c) cs ≡ some e
unfolding spacing
spacing-tail c cs b e h = rw (fits-head c cs b e h) at h

black : (c : ℕ) (b : Bool) → (c == space) ≡ false → fits c b ≡ true → is_whitespace c ≡ false
black c b h f = ground arith

-- A character that fits and is no space is no white space.
popped-step :
    (c : ℕ) (b : Bool) (rest : List ℕ)
    → fits c b ≡ true
    → spacing (is_whitespace c) rest ≡ some (if is_nil rest then is_whitespace c else false)
    → spacing b (if c == space && is_nil rest then [] else c ∷ rest)
      ≡ some (if is_nil (if c == space && is_nil rest then [] else c ∷ rest) then b else false)
unfolding spacing
popped-step c b [] f h = elim (Bool-cases (c == space)) [
  | inl same ↦ rw same refl
  | inr other ↦ rw (other, f) (ap some (black c b other f))
]
popped-step c b (d ∷ rest) f h = elim (Bool-cases (c == space)) [
  | inl same ↦ rw (same, f) h
  | inr other ↦ rw (other, f) h
]

popped-spacing :
    (xs : List ℕ) (b e : Bool)
    → spacing b xs ≡ some e
    → spacing b (pop_spaces xs) ≡ some (if is_nil (pop_spaces xs) then b else false)
unfolding pop_spaces spacing
popped-spacing [] b e h = refl
popped-spacing (c ∷ cs) b e h =
    popped-step c b (pop_spaces cs) (fits-head c cs b e h)
      (popped-spacing cs (is_whitespace c) e (spacing-tail c cs b e h))

dots-spacing : (b : Bool) → spacing b dots ≡ some false
unfolding spacing is_control is_whitespace
dots-spacing b = refl

is_nil-dots : (xs : List ℕ) → is_nil (xs ++ dots) ≡ false
is_nil-dots [] = refl
is_nil-dots (x ∷ xs) = refl

if_same : (b : Bool) → (if b then true else false) ≡ b
if_same true = refl
if_same false = refl

closed_tidy :
    (out : List ℕ) (truncated e : Bool)
    → spacing true out ≡ some e
    → length out ≤ telegram_error_text_max_chars
    → let closed = if truncated then pop_spaces out ++ dots else pop_spaces out in
      (length closed ≤ telegram_error_text_max_chars + 3)
      × (spacing true closed ≡ some (is_nil closed))
closed_tidy out true e s l = (
  omega (arith, length-append (pop_spaces out) dots, popped-length out, l),
  spacing-append true (pop_spaces out) dots
      ∙ rw (popped-spacing out true e s, is_nil-dots)
          (dots-spacing (if is_nil (pop_spaces out) then true else false)),
)
closed_tidy out false e s l = (
  omega (arith, popped-length out, l),
  popped-spacing out true e s ∙ ap some (if_same (is_nil (pop_spaces out))),
)

-- The text that is shown is at most 283 characters long, with no control character, its white space
-- single spaces with none at either end.
pub sanitized_tidy :
    (raw : List ℕ)
    → (length (sanitize_error_text raw) ≤ telegram_error_text_max_chars + 3)
      × (spacing true (sanitize_error_text raw) ≡ some (is_nil (sanitize_error_text raw)))
unfolding sanitize_error_text spacing
sanitized_tidy raw =
    let pushed = push_chars raw [] 0 true in
    let p = push_chars-spacing raw [] 0 true refl refl (omega arith) in
    closed_tidy pushed.out pushed.truncated p.0.0 p.0.1 p.1
