-- ===== src/Topology/Preserve/Regions.antt =====
-- Which regions a topology has once those of its ambiguous countries are preserved.
use catnap.Common.{
  String, Bool, true, false, ◌&&◌, ◌||◌, ◌≡◌, refl, List, [], ◌∷◌, ◌++◌, arith, ◌==◌, ==_iff,
  eq_string, contains, map, any, if◌then◌else◌, any-append, Bool-cases, inl, inr,
}
use catnap.Catalog.{Region, CatalogSnapshot, CatalogTopologySnapshot}
use catnap.Topology.Preserve.{
  regions_of, push_missing_regions, preserve_country, no_regions, preserve_from,
  preserve_ambiguous_country_regions,
}

-- Whether a region stands in a list.
abbrev pub has_region : String → String → List Region → Bool
has_region country id = any (λ r. r.country_id == country && r.id == id)

contains-ids :
    (c i : String) (regions : List Region)
    → contains i (map (λ r. r.id) (regions_of c regions)) ≡ has_region c i regions
contains-ids c i [] = refl
contains-ids c i (r ∷ rs) = ground (arith, contains-ids c i rs)

has_region-regions_of :
    (c country id : String) (regions : List Region)
    → has_region country id (regions_of c regions) ≡ (c == country && has_region country id regions)
has_region-regions_of c country id [] = ground arith
has_region-regions_of c country id (r ∷ rs) = ground (
  arith,
  has_region-regions_of c country id rs,
  ==_iff r.country_id c,
  ==_iff r.country_id country,
  ==_iff c country,
)

abbrev AllOf : String → List Region → Type 0
AllOf c [] = Unit {0}
AllOf c (r ∷ rs) = (r.country_id ≡ c) × AllOf c rs

regions_of-AllOf : (c : String) (regions : List Region) → AllOf c (regions_of c regions)
regions_of-AllOf c [] = tt
regions_of-AllOf c (r ∷ rs) = elim (Bool-cases (r.country_id == c)) [
  | inl same ↦ rw same ((==_iff r.country_id c).0 same, regions_of-AllOf c rs)
  | inr other ↦ rw other (regions_of-AllOf c rs)
]

-- The ids that the loop takes for pushed are those of regions that are there.
abbrev Seen : String → List String → List Region → Type 0
Seen c ids regions = (i : String) → contains i ids ≡ true → has_region c i regions ≡ true

Seen-push :
    (c : String) (ids : List String) (regions : List Region) (r : Region)
    → r.country_id ≡ c
    → Seen c ids regions
    → Seen c
        (if contains r.id ids then ids else r.id ∷ ids)
        (if contains r.id ids then regions else regions ++ r ∷ [])
Seen-push c ids regions r of_c h i e = ground (
  arith,
  h i,
  any-append (λ r. r.country_id == c && r.id == i) regions (r ∷ []),
  ==_iff r.country_id c,
)

has_region-push_missing :
    (c country id : String) (ids : List String) (regions previous : List Region)
    → AllOf c previous
    → Seen c ids regions
    → has_region country id (push_missing_regions ids regions previous)
      ≡ (has_region country id regions || has_region country id previous)
unfolding push_missing_regions
has_region-push_missing c country id ids regions [] all seen = ground arith
has_region-push_missing c country id ids regions (r ∷ rs) all seen = ground (
  arith,
  has_region-push_missing c country id (if contains r.id ids then ids else r.id ∷ ids)
      (if contains r.id ids then regions else regions ++ r ∷ []) rs all.1
      (Seen-push c ids regions r all.0 seen),
  any-append (λ r. r.country_id == country && r.id == id) regions (r ∷ []),
  seen r.id,
  ==_iff r.country_id country,
  ==_iff r.id id,
)

has_region-preserve_country :
    (previous : CatalogSnapshot) (c : String) (topology : CatalogTopologySnapshot)
    (country id : String)
    → has_region country id (preserve_country previous c topology).regions ≡ (
        has_region country id topology.regions
        || (c == country && has_region country id previous.regions))
unfolding preserve_country
has_region-preserve_country previous c topology country id = ground (
  arith,
  has_region-push_missing c country id (map (λ r. r.id) (regions_of c topology.regions))
      topology.regions (regions_of c previous.regions) (regions_of-AllOf c previous.regions)
      (λ i e. rw (contains-ids c i topology.regions) at e),
  has_region-regions_of c country id previous.regions,
)

no_regions-has :
    (country id : String) (regions : List Region)
    → no_regions regions ≡ true
    → has_region country id regions ≡ false
no_regions-has country id [] h = refl
no_regions-has country id (r ∷ rs) h = cc

preserve_from-has :
    (previous : CatalogSnapshot) (preserved : List String) (topology : CatalogTopologySnapshot)
    (ids : List String) (country id : String)
    → has_region country id (preserve_from previous preserved topology ids).0.regions ≡ (
        has_region country id topology.regions
        || (contains country ids && has_region country id previous.regions))
unfolding preserve_from
preserve_from-has previous preserved topology [] country id = ground arith
preserve_from-has previous preserved topology (c ∷ ids) country id =
    elim (Bool-cases (no_regions (regions_of c previous.regions))) [
      | inl none_known ↦
          rw (none_known, preserve_from)
            (ground (
              arith,
              preserve_from-has previous preserved topology ids country id,
              no_regions-has country id (regions_of c previous.regions) none_known,
              has_region-regions_of c country id previous.regions,
            ))
      | inr some_known ↦
          rw (some_known, preserve_from)
            (ground (
              arith,
              preserve_from-has previous (preserved ++ c ∷ [])
                  (preserve_country previous c topology) ids country id,
              has_region-preserve_country previous c topology country id,
            ))
    ]

-- The regions after preserving are those that were fetched, and those known before of the
-- ambiguous countries: nothing fetched is dropped, and no other country keeps a region.
pub preserved_regions_exact :
    (previous : CatalogSnapshot) (topology : CatalogTopologySnapshot) (country id : String)
    → has_region country id (preserve_ambiguous_country_regions topology previous).0.regions ≡ (
        has_region country id topology.regions
        || (contains country topology.ambiguous_country_ids
            && has_region country id previous.regions))
unfolding preserve_ambiguous_country_regions
preserved_regions_exact previous topology country id =
    preserve_from-has previous [] topology topology.ambiguous_country_ids country id
