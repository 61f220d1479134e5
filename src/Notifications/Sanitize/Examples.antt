-- ===== src/Notifications/Sanitize/Examples.antt =====
-- An error text whose white space is not tidy, and a tidy one.
use catnap.Common.{ℕ, ◌≤◌, ◌≡◌, refl, List, [], ◌∷◌, ◌+◌, some, true, length}
use catnap.Notifications.Sanitize.{telegram_error_text_max_chars, is_nil, sanitize_error_text}
use catnap.Notifications.Sanitize.Tidy.{spacing, sanitized_tidy}

abbrev untidy_text : List ℕ
untidy_text = 10 ∷ 98 ∷ 32 ∷ 9 ∷ 100 ∷ 0 ∷ []

tidied : sanitize_error_text untidy_text ≡ 98 ∷ 32 ∷ 100 ∷ []
unfolding sanitize_error_text
tidied = refl

sanitized_tidy_example :
    (length (sanitize_error_text untidy_text) ≤ telegram_error_text_max_chars + 3)
    × (spacing true (sanitize_error_text untidy_text)
        ≡ some (is_nil (sanitize_error_text untidy_text)))
sanitized_tidy_example = sanitized_tidy untidy_text
