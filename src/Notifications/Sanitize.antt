-- ===== src/Notifications/Sanitize.antt =====
-- src/notifications.rs, `sanitize_error_text`: the error texts that are shown. A text is the list of
-- its code points.
pub mod Tidy
pub mod Unchanged
pub mod Examples
use catnap.Common.{
  ℕ, ◌+◌, Bool, true, false, not, ◌&&◌, ◌||◌, List, [], ◌∷◌, ◌++◌, ltb, leb, ◌==◌, eq_nat,
  if◌then◌else◌, is_whitespace,
}

abbrev pub telegram_error_text_max_chars : ℕ
telegram_error_text_max_chars = 280

-- `char::is_control`: the category Cc of Unicode.
unfoldable pub is_control : ℕ → Bool
is_control c = ltb c 32 || (leb 127 c && leb c 159)

pub record Sanitized : Type 0 where
  pub out : List ℕ
  pub truncated : Bool

abbrev pub space : ℕ
space = 32

-- A control character counts as a space.
abbrev pub replaced : ℕ → ℕ
replaced c = if is_control c then space else c

-- The loop, from what is pushed so far, its length, and whether it ends in a space or is empty.
unfoldable pub push_chars : List ℕ → List ℕ → ℕ → Bool → Sanitized
unfolding is_control is_whitespace
push_chars [] out count prev_space = record { out = out; truncated = false }
push_chars (ch ∷ chars) out count prev_space =
    let c = replaced ch in
    let skips = is_whitespace c && prev_space in
    let rest =
      push_chars chars (if skips then out else out ++ (if is_whitespace c then space else c) ∷ [])
        (if skips then count else count + 1) (is_whitespace c) in
    if not skips && leb telegram_error_text_max_chars count
    then record { out = out; truncated = true }
    else rest

abbrev pub is_nil : List ℕ → Bool
is_nil [] = true
is_nil (c ∷ cs) = false

-- `while out.ends_with(' ') { out.pop(); }`
unfoldable pub pop_spaces : List ℕ → List ℕ
pop_spaces [] = []
pop_spaces (c ∷ cs) = let rest = pop_spaces cs in if c == space && is_nil rest then [] else c ∷ rest

abbrev pub dots : List ℕ
dots = 46 ∷ 46 ∷ 46 ∷ []

unfoldable pub sanitize_error_text : List ℕ → List ℕ
unfolding push_chars pop_spaces
sanitize_error_text raw =
    let pushed = push_chars raw [] 0 true in
    let out = pop_spaces pushed.out in if pushed.truncated then out ++ dots else out
