-- ===== src/Alerts/Poll/Exactly.antt =====
-- How often a poll tells its user of a package.
use catnap.Common.{
  ℕ, ◌+◌, String, Bool, true, false, not, ◌&&◌, ◌||◌, ◌≡◌, refl, ap, ◌∙◌, List, [], ◌∷◌, ◌++◌,
  Option, none, some, ◌==◌, ==_iff, eq_string, eq_option, eq_pair, count, get, insert, unwrap_or,
  arith,
}
use catnap.Listing.Store.{is_positive, is_zero}
use catnap.Alerts.Texts.{Formats}
use catnap.Alerts.Content.{
  MonitoringSnapshot, MonitoringChangeNotification, events_of, changes_of, change_notification,
  when_some, build_monitoring_change_notification,
}
use catnap.Alerts.Records.{NotificationRecordItemView}
use catnap.Alerts.Poll.{
  RegionKey, PollReadings, PollNotice, PollNotices, then_polled, by_region, item_polled,
  change_polled, notification_of, poll_packages, poll_region, poll_regions, poll_once,
}
use catnap.Alerts.Told.{as_number, when}

-- Stock where there was none, another price or another configuration, of a package that was known
-- before and is after.
abbrev pub is_changed :
    {F : Type 0}
    → Formats F
    → Option (MonitoringSnapshot F)
    → Option (String × MonitoringSnapshot F)
    → Bool
is_changed f none new = false
is_changed f (some old) none = false
is_changed f (some old) (some (name, new)) =
    is_zero old.inventory_quantity && is_positive new.inventory_quantity
    || f.differ old.price.amount new.price.amount
    || not (old.digest == new.digest)

not_failed : ¬ (true ≡ false)
not_failed h = ground arith

module _ {F Z : Type 0} (id : String) where
  -- How many of the notices are about a package.
  unfoldable pub polled : List (PollNotice F Z) → ℕ
  polled [] = 0
  polled (n ∷ ns) = as_number (n.config_id == id) + polled ns

  polled-append : (xs ys : List (PollNotice F Z)) → polled (xs ++ ys) ≡ polled xs + polled ys
  unfolding polled
  polled-append [] ys = omega arith
  polled-append (x ∷ xs) ys = omega (arith, polled-append xs ys)

  polled-then :
      (a b : PollNotices F Z)
      → (then_polled a b).1 ≡ false
      → (a.1 ≡ false) × (b.1 ≡ false) × (polled (then_polled a b).0 ≡ polled a.0 + polled b.0)
  polled-then (first, true) b h = absurd (not_failed h)
  polled-then (first, false) b h = (refl, h, polled-append first b.0)

module _ {F Z : Type 0} (f : Formats F) (site_base_url : Option String) (p : PollReadings F Z)
    (id : String) where
  polled-item :
      (run_id : ℕ) (about : String) (n : MonitoringChangeNotification)
      (item : Option (NotificationRecordItemView F Z))
      → (item_polled run_id about n item).1 ≡ false
      → polled id (item_polled run_id about n item).0 ≡ as_number (about == id)
  unfolding polled
  polled-item run_id about n none h = absurd (not_failed h)
  polled-item run_id about n (some item) h = omega arith

  polled-events :
      (run_id : ℕ) (about : String) (a b c : Bool) (n : MonitoringChangeNotification)
      → let events = events_of (record { restocked = a; repriced = b; reconfigured = c }) in
        (change_polled p run_id about (when_some events n)).1 ≡ false
        → polled id (change_polled p run_id about (when_some events n)).0
          ≡ when (a || b || c) (as_number (about == id))
  unfolding polled
  polled-events run_id about true b c n h = polled-item run_id about n (get about p.items) h
  polled-events run_id about false true c n h = polled-item run_id about n (get about p.items) h
  polled-events run_id about false false true n h = polled-item run_id about n (get about p.items) h
  polled-events run_id about false false false n h = refl

  polled-change :
      (run_id : ℕ) (about : String) (old : Option (MonitoringSnapshot F))
      (new : Option (String × MonitoringSnapshot F))
      → (change_polled p run_id about (notification_of f site_base_url old new)).1 ≡ false
      → polled id (change_polled p run_id about (notification_of f site_base_url old new)).0
        ≡ when (is_changed f old new) (as_number (about == id))
  unfolding polled build_monitoring_change_notification
  polled-change run_id about none none h = refl
  polled-change run_id about none (some new) h = refl
  polled-change run_id about (some old) none h = refl
  polled-change run_id about (some old) (some (name, new)) h =
      let c = changes_of f old new in
      polled-events run_id about c.restocked c.repriced c.reconfigured
        (change_notification f c name old new site_base_url) h

  -- Whether a package changed in a region.
  abbrev pub changed_in : RegionKey → Bool
  changed_in key = is_changed f (get id (p.before key)) (get id (p.after key))

  polled-packages :
      (key : RegionKey) (run_id : ℕ) (ids : List String)
      → (poll_packages f site_base_url p key run_id ids).1 ≡ false
      → polled id (poll_packages f site_base_url p key run_id ids).0
        ≡ when (changed_in key) (count id ids)
  unfolding poll_packages polled
  polled-packages key run_id [] h = ground arith
  polled-packages key run_id (x ∷ ids) h =
      let both =
        polled-then id
          (change_polled p run_id x
            (notification_of f site_base_url (get x (p.before key)) (get x (p.after key))))
          (poll_packages f site_base_url p key run_id ids) h in
      let first = polled-change run_id x (get x (p.before key)) (get x (p.after key)) both.0 in
      let same = λ (e : (x == id) ≡ true).
        ap (λ a. is_changed f (get a (p.before key)) (get a (p.after key))) ((==_iff x id).0 e) in
      ground (arith, both.2, first, same, polled-packages key run_id ids both.1)

  abbrev tally : List (RegionKey × List String) → ℕ
  tally [] = 0
  tally ((key, ids) ∷ regions) = when (changed_in key) (count id ids) + tally regions

  polled-region :
      (key : RegionKey) (run : Option ℕ) (ids : List String)
      → (poll_region f site_base_url p key run ids).1 ≡ false
      → polled id (poll_region f site_base_url p key run ids).0
        ≡ when (changed_in key) (count id ids)
  polled-region key none ids h = absurd (not_failed h)
  polled-region key (some run_id) ids h = polled-packages key run_id ids h

  polled-regions :
      (regions : List (RegionKey × List String))
      → (poll_regions f site_base_url p regions).1 ≡ false
      → polled id (poll_regions f site_base_url p regions).0 ≡ tally regions
  unfolding polled
  polled-regions [] h = refl
  polled-regions ((key, ids) ∷ regions) h =
      let both =
        polled-then id (poll_region f site_base_url p key (p.run key) ids)
          (poll_regions f site_base_url p regions) h in
      omega (arith, both.2, polled-region key (p.run key) ids both.0, polled-regions regions both.1)

  tally-insert :
      (key : RegionKey) (x : String) (m : List (RegionKey × List String))
      → tally (insert key (x ∷ unwrap_or (get key m) []) m)
        ≡ when (changed_in key) (as_number (x == id)) + tally m
  unfolding insert get
  tally-insert key x [] = ground arith
  tally-insert key x ((k, ids) ∷ m) =
      ground
        (arith, tally-insert key x m, λ (e : (k == key) ≡ true). ap changed_in ((==_iff k key).0 e))

  -- How many rows of the user's packages are of the package in a region where it changed.
  abbrev pub changes : List (String × RegionKey) → ℕ
  changes [] = 0
  changes ((x, key) ∷ rows) = when (changed_in key) (as_number (x == id)) + changes rows

  tally-by_region : (rows : List (String × RegionKey)) → tally (by_region rows) ≡ changes rows
  unfolding by_region
  tally-by_region [] = refl
  tally-by_region ((x, key) ∷ rows) =
      omega (arith, tally-insert key x (by_region rows), tally-by_region rows)

  -- A poll that ends without an error tells its user of a package once for each of its rows whose
  -- region it changed in, and of no other.
  pub poll_exactly :
      (poll_once f site_base_url p).1 ≡ false
      → polled id (poll_once f site_base_url p).0 ≡ changes p.regions
  unfolding poll_once
  poll_exactly h = polled-regions (by_region p.regions) h ∙ tally-by_region p.regions
