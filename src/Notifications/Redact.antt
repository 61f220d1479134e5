-- ===== src/Notifications/Redact.antt =====
-- src/notifications.rs, `redact_with_optional_whitespace`: a token is taken out of an error text, also
-- where white space has been put into it. A text is the list of its code points.
pub mod Returns
pub mod Examples
use catnap.Common.{
  ℕ, zero, suc, ◌+◌, Bool, true, false, not, ◌&&◌, ◌||◌, List, [], ◌∷◌, ◌++◌, Option, none, some,
  leb, ◌==◌, eq_nat, if◌then◌else◌, is_whitespace, ascii_lowercase, codes, map_some, length,
}

-- The inner loop, from whether a character of the token was read: how many characters of the text it
-- reads, if it reaches the end of the token.
unfoldable pub token_length : Bool → List ℕ → List ℕ → Option ℕ
token_length consumed [] [] = some 0
token_length consumed (c ∷ cs) [] = some 0
token_length consumed [] (t ∷ ts) = none
token_length consumed (c ∷ cs) (t ∷ ts) =
    let skipped = map_some suc (token_length consumed cs (t ∷ ts)) in
    let read = map_some suc (token_length true cs ts) in
    if is_whitespace c
    then (if consumed then skipped else none)
    else (if c == t then read else none)

abbrev is_redaction_boundary : ℕ → Bool
is_redaction_boundary c =
    not ((leb 48 c && leb c 57) || (leb 65 c && leb c 90) || (leb 97 c && leb c 122))
    && not (c == 95)
    && not (c == 45)

abbrev boundary_or_end : List ℕ → Bool
boundary_or_end [] = true
boundary_or_end (c ∷ cs) = is_redaction_boundary c

abbrev ends_bot : List ℕ → Bool
ends_bot [] = false
ends_bot (t ∷ []) = false
ends_bot (t ∷ o ∷ []) = false
ends_bot (t ∷ o ∷ b ∷ before) =
    ascii_lowercase b == 98 && ascii_lowercase o == 111 && ascii_lowercase t == 116

-- What stands before a place is in reverse.
unfoldable pub has_bot_prefix : List ℕ → Bool
has_bot_prefix [] = false
has_bot_prefix (c ∷ before) =
    let rest = has_bot_prefix before in if is_whitespace c then rest else ends_bot (c ∷ before)

unfoldable pub match_token_boundaries : List ℕ → List ℕ → Bool
unfolding has_bot_prefix
match_token_boundaries before after =
    (boundary_or_end before && boundary_or_end after) || has_bot_prefix before

-- So many characters of the text are passed.
abbrev pub pass : ℕ → List ℕ → List ℕ → List ℕ × List ℕ
pass zero before chars = (before, chars)
pass (suc n) before [] = (before, [])
pass (suc n) before (c ∷ cs) = pass n (c ∷ before) cs

-- The length of the token where it stands next and is redacted.
abbrev bounded : List ℕ → List ℕ → Option ℕ → Option ℕ
bounded before chars none = none
bounded before chars (some n) =
    if match_token_boundaries before (pass n before chars).1 then some n else none

unfoldable pub redacted_here : List ℕ → List ℕ → List ℕ → Option ℕ
unfolding token_length match_token_boundaries
redacted_here token before chars = bounded before chars (token_length false chars token)

abbrev pub redacted_text : List ℕ
redacted_text = codes "[REDACTED]"

-- The outer loop, `none` where the fuel is out.
unfoldable pub redact_from : ℕ → List ℕ → List ℕ → List ℕ → Option (List ℕ)
redact_from fuel token before [] = some []
redact_from zero token before (c ∷ cs) = none
redact_from (suc fuel) token before (c ∷ cs) = elim (redacted_here token before (c ∷ cs)) [
  | none ↦ map_some (λ out. c ∷ out) (redact_from fuel token (c ∷ before) cs)
  | some n ↦
      let rest = pass n before (c ∷ cs) in
      map_some (λ out. redacted_text ++ out) (redact_from fuel token rest.0 rest.1)
]

-- Each turn of the loop passes a character, so the length of the text is fuel enough.
unfoldable pub redact_with_optional_whitespace : List ℕ → List ℕ → Option (List ℕ)
unfolding redact_from
redact_with_optional_whitespace text [] = some text
redact_with_optional_whitespace text (t ∷ token) = redact_from (length text) (t ∷ token) [] text
