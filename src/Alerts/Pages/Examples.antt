-- ===== src/Alerts/Pages/Examples.antt =====
-- Two users' records, of which one is read in two pages.
use catnap.Common.{
  ℕ, String, true, ◌≡◌, ◌==◌, eq_string, refl, List, [], ◌∷◌, none, some, if◌then◌else◌, arith, pos,
  is_whitespace, is_sorted, sort_by, insert_sorted,
}
use catnap.Alerts.Pages.{NotificationRecord, Canonical, newer_first}
use catnap.Alerts.Pages.Read.{read_pages, pages_exact}

abbrev canonical : Canonical
canonical ts =
    if ts == "2026-01-02T00:00:00.000000000Z"
    then some ts
    else if ts == "2026-01-01T00:00:00.000000000Z"
    then some ts
    else none

abbrev note : String → String → String → NotificationRecord ℕ
note id user_id created_at = record {
  id = id;
  user_id = user_id;
  created_at = created_at;
  shown = 0;
}

abbrev older : NotificationRecord ℕ
older = note "b" "ada" "2026-01-01T00:00:00.000000000Z"

abbrev newer : NotificationRecord ℕ
newer = note "a" "ada" "2026-01-02T00:00:00.000000000Z"

abbrev rows : List (NotificationRecord ℕ)
rows = older ∷ note "c" "bob" "2026-01-02T00:00:00.000000000Z" ∷ newer ∷ []

pages_exact_example :
    (read_pages canonical rows "ada" (some (pos 1)) 3 none ≡ some (newer ∷ older ∷ []))
    × (is_sorted newer_first (newer ∷ older ∷ []) ≡ true)
unfolding is_whitespace sort_by insert_sorted
pages_exact_example =
    pages_exact canonical rows "ada" (some (pos 1)) 3 (refl, (refl, (refl, tt))) refl (omega arith)
