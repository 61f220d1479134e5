-- ===== src/Notifications/Sanitize/Unchanged.antt =====
-- A tidy text is shown as it is.
use catnap.Common.{
  ℕ, ◌+◌, ◌≤◌, Bool, true, false, ◌&&◌, ◌≡◌, refl, List, [], ◌∷◌, ◌++◌, append-nil, append_assoc,
  some, arith, leb, ◌==◌, eq_nat, if◌then◌else◌, is_whitespace, length, some_inj, Bool-cases, inl,
  inr,
}
use catnap.Notifications.Sanitize.{
  telegram_error_text_max_chars, space, replaced, push_chars, is_nil, pop_spaces,
  sanitize_error_text,
}
use catnap.Notifications.Sanitize.Tidy.{fits, spacing, fits-head, spacing-tail, is_whitespace-space}

fits-replaced : (c : ℕ) (b : Bool) → fits c b ≡ true → replaced c ≡ c
fits-replaced c b h = ground arith

fits-pushes : (c : ℕ) (b : Bool) → fits c b ≡ true → (is_whitespace c && b) ≡ false
fits-pushes c b h = ground arith

fits-pushed : (c : ℕ) (b : Bool) → fits c b ≡ true → (if is_whitespace c then space else c) ≡ c
fits-pushed c b h = ground arith

room :
    (count n : ℕ)
    → count + n + 1 ≤ telegram_error_text_max_chars
    → leb telegram_error_text_max_chars count ≡ false
room count n h = ground arith

push_chars-tidy :
    (chars out : List ℕ) (count : ℕ) (b e : Bool)
    → spacing b chars ≡ some e
    → count + length chars ≤ telegram_error_text_max_chars
    → push_chars chars out count b ≡ (record { out = out ++ chars; truncated = false })
unfolding push_chars
push_chars-tidy [] out count b e h l = rw append-nil refl
push_chars-tidy (c ∷ cs) out count b e h l =
    let f = fits-head c cs b e h in
    rw
      (
        fits-replaced c b f,
        fits-pushes c b f,
        fits-pushed c b f,
        room count (length cs) (omega (arith, l)),
        push_chars-tidy cs (out ++ c ∷ []) (count + 1) (is_whitespace c) e (spacing-tail c cs b e h)
            (omega (arith, l)),
        append_assoc,
      )
      refl

no_space : (c : ℕ) → is_whitespace c ≡ false → (c == space) ≡ false
no_space c h = ground (arith, is_whitespace-space)

pop_spaces-tidy :
    (chars : List ℕ) (b : Bool) → spacing b chars ≡ some false → pop_spaces chars ≡ chars
unfolding pop_spaces spacing
pop_spaces-tidy [] b h = refl
pop_spaces-tidy (c ∷ []) b h = rw (no_space c (some_inj (spacing-tail c [] b false h))) refl
pop_spaces-tidy (c ∷ d ∷ cs) b h =
    rw (pop_spaces-tidy (d ∷ cs) (is_whitespace c) (spacing-tail c (d ∷ cs) b false h))
      (elim (Bool-cases (c == space)) [ inl same ↦ rw same refl | inr other ↦ rw other refl ])

-- A text of at most 280 characters, with no control character, whose white space is single spaces
-- with none at either end, is shown unchanged.
tidy_unchanged :
    (raw : List ℕ)
    → length raw ≤ telegram_error_text_max_chars
    → spacing true raw ≡ some (is_nil raw)
    → sanitize_error_text raw ≡ raw
unfolding sanitize_error_text push_chars pop_spaces
tidy_unchanged [] l h = refl
tidy_unchanged (c ∷ cs) l h =
    rw (push_chars-tidy (c ∷ cs) [] 0 true false h (omega (arith, l)))
      (pop_spaces-tidy (c ∷ cs) true h)
