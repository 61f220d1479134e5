-- ===== src/Listing/Announced/Once.antt =====
-- A package is announced once while its page has it.
use catnap.Common.{
  ◌+◌, String, Bool, true, false, not, ◌&&◌, ◌||◌, ◌≡◌, refl, ◌∙◌, sym, ap, subst, List, [], ◌∷◌,
  Option, none, some, arith, ◌==◌, ==_iff, eq_string, if◌then◌else◌, get, contains, find, All, any,
  Bool-cases, inl, inr, some_inj,
}
use catnap.Listing.Store.{ConfigBase, ConfigRow, Store, is_positive}
use catnap.Listing.Apply.{Fetched, upserted_row, previous_ids, announces, is_unannounced, written}
use catnap.Listing.Rows.{id_of}
use catnap.Listing.Exact.{is_listed}
use catnap.Listing.Announced.{
  announcements, in_stock, Shows, find-of_has_key, picked, announcements-step, Known,
  previous-of_Known, written-Known, written-row, is_told, is_silent, is_told-upserted, first-told,
  still-silent,
}

id-of_find :
    {X : Type 0} (id : String) (cs : List (ConfigBase X)) (c : ConfigBase X)
    → find id_of id cs ≡ some c
    → c.id ≡ id
id-of_find id [] c h = cc
id-of_find id (d ∷ cs) c h = elim (Bool-cases (d.id == id)) [
  | inl same ↦ ap id_of (sym (some_inj (rw same at h))) ∙ (==_iff d.id id).0 same
  | inr other ↦ id-of_find id cs c (rw other at h)
]

-- The announcements of a page that has a package are a test of it.
first-step :
    {X : Type 0} (url_key id : String) (s : Store X) (f : Fetched X) (fs : List (Fetched X))
    (c : ConfigBase X)
    → Shows url_key id f
    → find id_of id f.configs ≡ some c
    → announcements id s (f ∷ fs)
      ≡ (if is_positive c.quantity
            && (not (contains id (previous_ids s f)) || is_unannounced (get id s.configs))
          then 1
          else 0)
        + announcements id (written (previous_ids s f) s f) fs
first-step url_key id s f fs c (key, u, has, clock) h =
    announcements-step id s f fs has
    ∙ ap (λ n. n + announcements id (written (previous_ids s f) s f) fs)
        ((picked (announces (previous_ids s f) s.configs) id f.configs c u h).0
          ∙ ap
              (λ k.
                if is_positive c.quantity
                  && (not (contains k (previous_ids s f)) || is_unannounced (get k s.configs))
                then 1
                else 0)
              (id-of_find id f.configs c h))

told-announced :
    {X : Type 0} (row : Option (ConfigRow X)) → is_told row ≡ true → is_unannounced row ≡ false
told-announced none h = refl
told-announced (some row) h = ground arith

quiet-run :
    {X : Type 0} (url_key id : String) (s : Store X) (fs : List (Fetched X))
    → All (Shows url_key id) fs
    → Known url_key id s
    → is_told (get id s.configs) ≡ true
    → announcements id s fs ≡ 0
unfolding announcements
quiet-run url_key id s [] shows known told = refl
quiet-run url_key id s (f ∷ fs) shows known told =
    let (c, h) = find-of_has_key id f.configs shows.0.2 in
    let previous = previous-of_Known id s f (subst (λ k. Known k id s) (sym shows.0.0) known) in
    let row = written-row s f c id shows.0.1 h in
    first-step url_key id s f fs c shows.0 h
    ∙ ground (
      arith,
      previous,
      told-announced (get id s.configs) told,
      quiet-run url_key id (written (previous_ids s f) s f) fs shows.1
          (written-Known url_key id s f shows.0)
          (ap is_told row ∙ is_told-upserted f.fetched_at c (get id s.configs) told),
    )

silent-unannounced :
    {X : Type 0} (row : Option (ConfigRow X))
    → is_silent row ≡ true
    → is_listed row ≡ true
    → is_unannounced row ≡ true
silent-unannounced none h l = cc
silent-unannounced (some row) h l = ground arith

is_listed-upserted :
    {X : Type 0} (at : String) (c : ConfigBase X) (old : Option (ConfigRow X))
    → is_listed (some (upserted_row at c old)) ≡ true
is_listed-upserted at c none = refl
is_listed-upserted at c (some old) = refl

ready-unannounced :
    {X : Type 0} (known : Bool) (row : Option (ConfigRow X))
    → is_silent row ≡ true
    → (not known || is_listed row) ≡ true
    → (not known || is_unannounced row) ≡ true
ready-unannounced true row h l = silent-unannounced row h l
ready-unannounced false row h l = refl

-- The first fetch, by what becomes of the later ones where it announces nothing.
one-fetch :
    {X : Type 0} (url_key id : String) (s : Store X) (f : Fetched X) (fs : List (Fetched X))
    → Shows url_key id f
    → All (Shows url_key id) fs
    → is_silent (get id s.configs) ≡ true
    → (not (contains id (previous_ids s f)) || is_listed (get id s.configs)) ≡ true
    → (let after = written (previous_ids s f) s f in
        Known url_key id after
        → is_silent (get id after.configs) ≡ true
        → is_listed (get id after.configs) ≡ true
        → announcements id after fs ≡ (if any (in_stock id) fs then 1 else 0))
    → announcements id s (f ∷ fs) ≡ (if any (in_stock id) (f ∷ fs) then 1 else 0)
one-fetch url_key id s f fs shows all silent ready later =
    let (c, h) = find-of_has_key id f.configs shows.2 in
    let row = written-row s f c id shows.1 h in
    let known = written-Known url_key id s f shows in
    let stock = (picked (λ d. is_positive d.quantity) id f.configs c shows.1 h).1 in
    let new = ready-unannounced (contains id (previous_ids s f)) (get id s.configs) silent ready in
    first-step url_key id s f fs c shows h ∙ elim (Bool-cases (is_positive c.quantity)) [
      | inl some_left ↦ ground (
        arith,
        some_left,
        new,
        stock,
        quiet-run url_key id (written (previous_ids s f) s f) fs all known (
            ap is_told row ∙ first-told f.fetched_at c (get id s.configs) shows.3 silent some_left),
      )
      | inr none_left ↦ ground (
        arith,
        none_left,
        stock,
        later known
            (ap is_silent row ∙ still-silent f.fetched_at c (get id s.configs) silent none_left)
            (ap is_listed row ∙ is_listed-upserted f.fetched_at c (get id s.configs)),
      )
    ]

waiting-run :
    {X : Type 0} (url_key id : String) (s : Store X) (fs : List (Fetched X))
    → All (Shows url_key id) fs
    → Known url_key id s
    → is_silent (get id s.configs) ≡ true
    → is_listed (get id s.configs) ≡ true
    → announcements id s fs ≡ (if any (in_stock id) fs then 1 else 0)
unfolding announcements
waiting-run url_key id s [] shows known silent listed = refl
waiting-run url_key id s (f ∷ fs) shows known silent listed =
    one-fetch url_key id s f fs shows.0 shows.1 silent (ground (arith, listed))
      (waiting-run url_key id (written (previous_ids s f) s f) fs shows.1)

-- A package that a page did not have, and of which no announcement stands, is announced once over
-- any fetches of the page that have it, if one of them has it in stock, and else not at all.
pub announced_once :
    {X : Type 0} (url_key id : String) (s : Store X) (f : Fetched X) (fs : List (Fetched X))
    → Shows url_key id f
    → All (Shows url_key id) fs
    → contains id (previous_ids s f) ≡ false
    → is_silent (get id s.configs) ≡ true
    → announcements id s (f ∷ fs) ≡ (if any (in_stock id) (f ∷ fs) then 1 else 0)
announced_once url_key id s f fs shows all new silent =
    one-fetch url_key id s f fs shows all silent (ground (arith, new))
      (waiting-run url_key id (written (previous_ids s f) s f) fs all)
