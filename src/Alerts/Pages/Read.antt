-- ===== src/Alerts/Pages/Read.antt =====
-- A client that follows the cursors reads every record of the user.
use catnap.Common.{
  ℕ, zero, suc, ◌<◌, ◌-◌, max, min, String, Bool, true, false, ◌||◌, ltb, ◌≡◌, refl, sym, ap, ◌∙◌,
  List, [], ◌∷◌, ◌++◌, append_assoc, Option, none, some, ◌==◌, ==_iff, eq_string, if◌then◌else◌,
  map_some, keep, all, take, length, length-append, has_key, Unique, pair_ltb, pair_ltb-StrictOrder,
  pair_ltb_total, StrictOrder, is_sorted, are_apart, is_sorted-sort_by, all-sort_by, keep-all,
  all_middle, keep_behind, ℤ, pos, negsuc, arith, Bool-cases, inl, inr,
}
use catnap.Alerts.Pages.{
  NotificationRecord, Canonical, cursor_of, first_cursor, row_key, newer_first, user_records,
  cursor_text, last_cursor, list_notification_records, validate_notification_records_cursor,
  clamped_limit, get_notification_records,
}
use catnap.Alerts.Pages.Cursors.{is_regular, cursor_of-cursor_text, valid-cursor_text}

-- The next page after one that was read, put behind it.
abbrev pub followed :
    {A : Type 0}
    → (Option String → Option (List A))
    → Option (List A × Option String)
    → Option (List A)
followed next none = none
followed next (some (items, none)) = some items
followed next (some (items, some cursor)) = map_some (λ more. items ++ more) (next (some cursor))

-- What a client reads that asks for the next page while there is one, or none where it has no turn
-- left or a cursor is refused.
unfoldable pub read_pages :
    {V : Type 0}
    → Canonical
    → List (NotificationRecord V)
    → String
    → Option ℤ
    → ℕ
    → Option String
    → Option (List (NotificationRecord V))
read_pages canonical rows user limit zero cursor = none
read_pages canonical rows user limit (suc turns) cursor =
    followed (read_pages canonical rows user limit turns)
      (get_notification_records canonical rows user cursor limit)

newer_first-StrictOrder : {V : Type 0} → StrictOrder (newer_first {V = V})
newer_first-StrictOrder = record {
  irrefl = λ a. pair_ltb-StrictOrder.irrefl (row_key a);
  trans = λ a b c h k. pair_ltb-StrictOrder.trans (row_key c) (row_key b) (row_key a) k h;
}

apart :
    {V : Type 0} (x y : NotificationRecord V)
    → (y.id == x.id) ≡ false
    → (newer_first x y || newer_first y x) ≡ true
apart x y h = elim (Bool-cases (newer_first x y || newer_first y x)) [
  | inl e ↦ e
  | inr e ↦
      let same : row_key y ≡ row_key x =
        pair_ltb_total (row_key y) (row_key x) (ground (arith, e)) (ground (arith, e)) in
      absurd (ground (arith, h, (==_iff y.id x.id).1 (ap (λ (k : String × String). k.1) same)))
]

all-apart :
    {V : Type 0} (p : NotificationRecord V → Bool) (x : NotificationRecord V)
    (xs : List (NotificationRecord V))
    → has_key (λ r. r.id) x.id xs ≡ false
    → all (λ y. newer_first x y || newer_first y x) (keep p xs) ≡ true
all-apart p x [] h = refl
all-apart p x (y ∷ ys) h = ground (arith, h, apart x y, all-apart p x ys)

Unique-apart :
    {V : Type 0} (p : NotificationRecord V → Bool) (xs : List (NotificationRecord V))
    → Unique (λ r. r.id) xs
    → are_apart newer_first (keep p xs) ≡ true
Unique-apart p [] u = refl
Unique-apart p (x ∷ xs) (new, u) = elim (Bool-cases (p x)) [
  | inl e ↦ rw (e, all-apart p x xs new) (Unique-apart p xs u)
  | inr e ↦ rw e (Unique-apart p xs u)
]

-- A list that is longer than a page: the last record of the page, and what is before and behind it.
abbrev Cut : {V : Type 0} → ℕ → List (NotificationRecord V) → Type 0
Cut {V = V} n bs =
    (vs : List (NotificationRecord V)) × (v : NotificationRecord V) × (rest : List
      (NotificationRecord V))
    × (bs ≡ vs ++ (v ∷ rest))
    × (take (suc n) bs ≡ vs ++ (v ∷ []))
    × (last_cursor (take (suc n) bs) ≡ some (cursor_text v))

cut :
    {V : Type 0} (n : ℕ) (bs : List (NotificationRecord V))
    → ltb (suc n) (length bs) ≡ true
    → Cut n bs
cut n [] h = ground (arith, h)
cut zero (b ∷ bs) h = ([], b, bs, refl, refl, refl)
cut (suc n) (b ∷ []) h = ground (arith, h)
cut (suc n) (b ∷ c ∷ bs) h =
    let (vs, v, rest, all, page, last) = cut n (c ∷ bs) (ground (arith, h)) in
    (b ∷ vs, v, rest, ap (λ xs. b ∷ xs) all, ap (λ xs. b ∷ xs) page, last)

take-take : {A : Type 0} (n : ℕ) (xs : List A) → take n (take (suc n) xs) ≡ take n xs
take-take zero xs = refl
take-take (suc n) [] = refl
take-take (suc n) (x ∷ xs) = ap (λ ys. x ∷ ys) (take-take n xs)

ltb-length-take :
    {A : Type 0} (n : ℕ) (xs : List A) → ltb n (length (take (suc n) xs)) ≡ ltb n (length xs)
ltb-length-take zero [] = refl
ltb-length-take zero (x ∷ xs) = ground arith
ltb-length-take (suc n) [] = refl
ltb-length-take (suc n) (x ∷ xs) = ground (arith, ltb-length-take n xs)

take_short : {A : Type 0} (n : ℕ) (xs : List A) → ltb n (length xs) ≡ false → take n xs ≡ xs
take_short zero [] h = refl
take_short (suc n) [] h = refl
take_short zero (x ∷ xs) h = ground (arith, h)
take_short (suc n) (x ∷ xs) h = ap (λ ys. x ∷ ys) (take_short n xs (ground (arith, h)))

clamped_limit_pos : (limit : Option ℤ) → (n : ℕ) × (clamped_limit limit ≡ suc n)
clamped_limit_pos none = (19, refl)
clamped_limit_pos (some (negsuc n)) = (0, refl)
clamped_limit_pos (some (pos n)) = (max 1 (min n 50) - 1, omega arith)

module _ {V : Type 0} (canonical : Canonical) (rows : List (NotificationRecord V)) (user : String)
    (limit : Option ℤ) (n : ℕ) (positive : clamped_limit limit ≡ suc n) where
  -- Where a cursor has the records `bs` behind it.
  abbrev Behind : Option String → List (NotificationRecord V) → Type 0
  Behind cursor bs =
      (validate_notification_records_cursor canonical cursor ≡ true)
      × (keep (λ r. pair_ltb (row_key r) (cursor_of canonical cursor)) (user_records user rows)
          ≡ bs)

  page-Behind :
      (cursor : Option String) (bs : List (NotificationRecord V))
      → Behind cursor bs
      → get_notification_records canonical rows user cursor limit
        ≡ some (
          take (suc n) bs,
          if ltb (suc n) (length bs) then last_cursor (take (suc n) bs) else none,
        )
  unfolding get_notification_records list_notification_records
  page-Behind cursor bs (valid, behind) =
      rw (valid, positive, behind, take-take (suc n) bs, ltb-length-take (suc n) bs) refl

  cursor-Behind :
      (before : List (NotificationRecord V)) (v : NotificationRecord V)
      (rest : List (NotificationRecord V))
      → is_sorted newer_first (user_records user rows) ≡ true
      → all (is_regular canonical) (user_records user rows) ≡ true
      → user_records user rows ≡ before ++ (v ∷ rest)
      → Behind (some (cursor_text v)) rest
  cursor-Behind before v rest sorted regular at_v =
      let fine : is_regular canonical v ≡ true =
        all_middle (is_regular canonical) before v rest (rw at_v at regular) in
      (
        valid-cursor_text canonical v fine,
        ap (λ k. keep (λ r. pair_ltb (row_key r) k) (user_records user rows))
              (cursor_of-cursor_text canonical v fine)
            ∙ ap (keep (newer_first v)) at_v
            ∙ keep_behind newer_first newer_first-StrictOrder before v rest (rw at_v at sorted),
      )

  read-Behind :
      (turns : ℕ) (before bs : List (NotificationRecord V)) (cursor : Option String)
      → is_sorted newer_first (user_records user rows) ≡ true
      → all (is_regular canonical) (user_records user rows) ≡ true
      → user_records user rows ≡ before ++ bs
      → Behind cursor bs
      → length bs < turns
      → read_pages canonical rows user limit turns cursor ≡ some bs
  unfolding read_pages
  read-Behind zero before bs cursor sorted regular split behind enough = ground (arith, enough)
  read-Behind (suc turns) before bs cursor sorted regular split behind enough =
      ap (followed (read_pages canonical rows user limit turns)) (page-Behind cursor bs behind)
      ∙ elim (Bool-cases (ltb (suc n) (length bs))) [
        | inl long ↦
            let (vs, v, rest, whole, page, last) = cut n bs long in
            let at_v : user_records user rows ≡ (before ++ vs) ++ (v ∷ rest) =
              split ∙ ap (λ xs. before ++ xs) whole ∙ sym (append_assoc before vs (v ∷ rest)) in
            let more : read_pages canonical rows user limit turns (some (cursor_text v))
                ≡ some rest =
              read-Behind turns ((before ++ vs) ++ (v ∷ [])) rest (some (cursor_text v)) sorted
                regular (at_v ∙ sym (append_assoc (before ++ vs) (v ∷ []) rest))
                (cursor-Behind (before ++ vs) v rest sorted regular at_v)
                (omega (arith, enough, ap length whole, length-append vs (v ∷ rest))) in
            rw (long, last, more)
              (ap some (ap (λ xs. xs ++ rest) page ∙ append_assoc vs (v ∷ []) rest ∙ sym whole))
        | inr short ↦ rw (short, take_short (suc n) bs short) refl
      ]

before_first :
    {V : Type 0} (canonical : Canonical) (xs : List (NotificationRecord V))
    → all (is_regular canonical) xs ≡ true
    → all (λ r. pair_ltb (row_key r) first_cursor) xs ≡ true
before_first canonical [] h = refl
before_first canonical (x ∷ xs) h = ground (arith, h, before_first canonical xs)

-- Where ids are distinct and the user's ids and times are as the program writes them, a client that
-- follows the cursors from the first page on, whatever limit it asks for, reads all the user's
-- records, each once and newest first, and no cursor is refused.
pub pages_exact :
    {V : Type 0} (canonical : Canonical) (rows : List (NotificationRecord V)) (user : String)
    (limit : Option ℤ) (turns : ℕ)
    → Unique (λ r. r.id) rows
    → all (is_regular canonical) (keep (λ r. r.user_id == user) rows) ≡ true
    → length (user_records user rows) < turns
    → (read_pages canonical rows user limit turns none ≡ some (user_records user rows))
      × (is_sorted newer_first (user_records user rows) ≡ true)
unfolding validate_notification_records_cursor
pages_exact {V = V} canonical rows user limit turns distinct regular enough =
    let (n, positive) = clamped_limit_pos limit in
    let mine : NotificationRecord V → Bool = λ r. r.user_id == user in
    let sorted : is_sorted newer_first (user_records user rows) ≡ true =
      is_sorted-sort_by newer_first newer_first-StrictOrder (keep mine rows)
        (Unique-apart mine rows distinct) in
    let fine : all (is_regular canonical) (user_records user rows) ≡ true =
      all-sort_by newer_first (is_regular canonical) (keep mine rows) ∙ regular in
    (
      read-Behind canonical rows user limit n positive turns [] (user_records user rows) none sorted
          fine refl
          (
            refl,
            keep-all (λ r. pair_ltb (row_key r) first_cursor) (user_records user rows)
                (before_first canonical (user_records user rows) fine),
          )
          enough,
      sorted,
    )
