-- ===== src/Alerts/Pages/Cursors.antt =====
-- The cursor of a record reads back as its key.
use Prim.Native.Char.{code}
use Prim.Native.String.append
use text.Mathlib.TextLemmas.{append-nil as String-append-nil}
use catnap.Common.{
  ℕ, String, Bool, true, false, not, ◌&&◌, ◌≡◌, refl, ap, ◌∙◌, none, some, ◌==◌, eq_string, eq_nat,
  eq_option, ==_iff, trim, trim_start, trim_end, cons_trimmed, is_whitespace, is_empty, codes, all,
  and_then, pair_ltb, unwrap_or, String-append, arith,
}
use catnap.Alerts.Pages.{
  NotificationRecord, Canonical, part_found, rsplit_once, first_cursor, parsed_cursor, cursor_of,
  cursor_text, row_key, validate_notification_records_cursor,
}

-- Without white space, and without a colon.
abbrev pub is_plain : String → Bool
is_plain s = all (λ c. not (is_whitespace c)) (codes s)

abbrev pub no_colon : String → Bool
no_colon s = all (λ c. not (c == 58)) (codes s)

-- What the ids and times that the program writes are like: a UUID, and a canonical time
-- with a year of four digits.
abbrev pub is_regular : {V : Type 0} → Canonical → NotificationRecord V → Bool
is_regular canonical r =
    is_plain r.created_at
    && is_plain r.id
    && no_colon r.id
    && not (is_empty r.created_at)
    && not (is_empty r.id)
    && canonical r.created_at == some r.created_at
    && pair_ltb (row_key r) first_cursor

trim_start_plain : (s : String) → is_plain s ≡ true → trim_start s ≡ s
unfolding trim_start
trim_start_plain String.[] h = refl
trim_start_plain (String.◌∷◌ c s) h = ground (arith, h)

trim_end_plain : (s : String) → is_plain s ≡ true → trim_end s ≡ s
unfolding trim_end
trim_end_plain String.[] h = refl
trim_end_plain (String.◌∷◌ c String.[]) h = ground (arith, h)
trim_end_plain (String.◌∷◌ c (String.◌∷◌ d s)) h =
    ap (cons_trimmed c) (trim_end_plain (String.◌∷◌ d s) (ground (arith, h)))

trim_plain : (s : String) → is_plain s ≡ true → trim s ≡ s
unfolding trim
trim_plain s h = ap trim_end (trim_start_plain s h) ∙ trim_end_plain s h

all-codes :
    (p : ℕ → Bool) (s t : String)
    → all p (codes (String-append s t)) ≡ (all p (codes s) && all p (codes t))
all-codes p String.[] t = ap (λ u. all p (codes u)) (append.nil t)
all-codes p (String.◌∷◌ c s) t =
    ap (λ u. all p (codes u)) (append.cons c s t) ∙ ground (arith, all-codes p s t)

rsplit_once_missing : (t : String) → no_colon t ≡ true → rsplit_once t ≡ none
unfolding rsplit_once
rsplit_once_missing String.[] h = refl
rsplit_once_missing (String.◌∷◌ c t) h =
    let other : (code c == 58) ≡ false = ground (arith, h) in
    ap (part_found c t) (rsplit_once_missing t (ground (arith, h))) ∙ rw other refl

rsplit_once_plain :
    (s t : String)
    → no_colon t ≡ true
    → rsplit_once (String-append s (String-append ":" t)) ≡ some (s, t)
unfolding rsplit_once
rsplit_once_plain String.[] t h =
    ap rsplit_once (append.nil (String-append ":" t))
    ∙ ap rsplit_once (append.cons ":" "" t)
    ∙ ap (λ u. rsplit_once (String.◌∷◌ ":" u)) (append.nil t)
    ∙ ap (part_found ":" t) (rsplit_once_missing t h)
rsplit_once_plain (String.◌∷◌ c s) t h =
    ap rsplit_once (append.cons c s (String-append ":" t))
    ∙ ap (part_found c (String-append s (String-append ":" t))) (rsplit_once_plain s t h)

is_empty-append : (s t : String) → is_empty s ≡ false → is_empty (String-append s t) ≡ false
is_empty-append String.[] t h = ground (arith, h)
is_empty-append (String.◌∷◌ c s) t h = ap is_empty (append.cons c s t)

module _ {V : Type 0} (canonical : Canonical) (r : NotificationRecord V) where
  rsplit_once-cursor_text :
      is_regular canonical r ≡ true → rsplit_once (cursor_text r) ≡ some (r.created_at, r.id)
  rsplit_once-cursor_text h =
      ap (λ u. rsplit_once (String-append r.created_at (String-append ":" u)))
        (String-append-nil r.id)
      ∙ rsplit_once_plain r.created_at r.id (ground (arith, h))

  trim-cursor_text : is_regular canonical r ≡ true → trim (cursor_text r) ≡ cursor_text r
  unfolding is_whitespace
  trim-cursor_text h = trim_plain (cursor_text r) (
      ground (
        arith,
        h,
        all-codes (λ c. not (is_whitespace c)) r.created_at
            (String-append ":" (String-append r.id "")),
        all-codes (λ c. not (is_whitespace c)) ":" (String-append r.id ""),
        all-codes (λ c. not (is_whitespace c)) r.id "",
      ))

  canonical-time : is_regular canonical r ≡ true → canonical r.created_at ≡ some r.created_at
  canonical-time h = (==_iff (canonical r.created_at) (some r.created_at)).0 (ground (arith, h))

  pub cursor_of-cursor_text :
      is_regular canonical r ≡ true → cursor_of canonical (some (cursor_text r)) ≡ row_key r
  cursor_of-cursor_text h =
      ap (λ o. unwrap_or (and_then o (parsed_cursor canonical)) first_cursor)
        (rsplit_once-cursor_text h)
      ∙ rw
          (
            trim_plain r.created_at (ground (arith, h)),
            trim_plain r.id (ground (arith, h)),
            canonical-time h,
          )
          refl

  pub valid-cursor_text :
      is_regular canonical r ≡ true
      → validate_notification_records_cursor canonical (some (cursor_text r)) ≡ true
  unfolding validate_notification_records_cursor
  valid-cursor_text h =
      rw
        (
          trim-cursor_text h,
          rsplit_once-cursor_text h,
          is_empty-append r.created_at (String-append ":" (String-append r.id ""))
              (ground (arith, h)),
          trim_plain r.created_at (ground (arith, h)),
          trim_plain r.id (ground (arith, h)),
          canonical-time h,
        )
        (ground (arith, h))
