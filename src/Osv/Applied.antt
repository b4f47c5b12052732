-- ===== src/Osv/Applied.antt =====
-- What the data of OSV changes in an item, however many CVEs it has.
use sredevopsorg_sec_feed.Prelude.{
  String, ◌≡◌, refl, ◌∙◌, ◌⊎◌, inl, inr, true, false, none, some, List, [], ◌∷◌, ◌++◌, member,
  member-append, arith, ◌==◌, Option-cases,
}
use sredevopsorg_sec_feed.Prelude.Dict.{Dict, lookup}
use sredevopsorg_sec_feed.Prelude.Sets.{uniq, member-uniq, member-sort, member-add}
use sredevopsorg_sec_feed.Prelude.Texts.{text_leb, is_blank}
use sredevopsorg_sec_feed.Models.{FeedItem}
use sredevopsorg_sec_feed.Osv.{OsvData, sorted_set, rated, apply_osv, apply_all}

-- An item without the six fields that the data of OSV may change.
abbrev pub other_fields : FeedItem → FeedItem
other_fields item = record item {
  summary = "";
  severity = "";
  tags = [];
  osv_affected = [];
  osv_fixed = [];
  osv_severity = none;
}

-- From `item` to `r`: nothing is lost, a known severity and a summary are kept, an unknown severity
-- becomes one of the four, which is then the severity of OSV too, or both stay, no tag but "patch"
-- comes in, and all else is the same.
pub record IsExtended (item r : FeedItem) : Type 0 where
  pub same_fields : other_fields r ≡ other_fields item
  pub summary_kept : is_blank item.summary ≡ false → r.summary ≡ item.summary
  pub severity_kept : (item.severity == "unknown") ≡ false → r.severity ≡ item.severity
  pub severity_rated :
      ((r.severity ≡ item.severity) × (r.osv_severity ≡ item.osv_severity))
      ⊎ ((member r.severity rated ≡ true) × (r.osv_severity ≡ some r.severity))
  pub packages_kept :
      (p : String) → member p item.osv_affected ≡ true → member p r.osv_affected ≡ true
  pub versions_kept : (v : String) → member v item.osv_fixed ≡ true → member v r.osv_fixed ≡ true
  pub tags_kept : (t : String) → member t item.tags ≡ true → member t r.tags ≡ true
  pub tags_new : (t : String) → ("patch" == t) ≡ false → member t r.tags ≡ member t item.tags

member-sorted_set : (x : String) (xs : List String) → member x (sorted_set xs) ≡ member x xs
member-sorted_set x xs = member-sort text_leb x (uniq xs) ∙ member-uniq x xs

-- The severity is raised, or it is left alone with that of OSV.
rated_after :
    (facts : OsvData) (item : FeedItem)
    → let r = apply_osv facts item in
      ((r.severity ≡ item.severity) × (r.osv_severity ≡ item.osv_severity))
      ⊎ ((member r.severity rated ≡ true) × (r.osv_severity ≡ some r.severity))
unfolding apply_osv
rated_after facts item = elim (Option-cases facts.severity) [
  | inl e ↦ rw (e, apply_osv) (ground arith)
  | inr (s, e) ↦ rw (e, apply_osv) (ground arith)
]

apply_osv-IsExtended : (facts : OsvData) (item : FeedItem) → IsExtended item (apply_osv facts item)
unfolding apply_osv
apply_osv-IsExtended facts item = record {
  same_fields = refl;
  summary_kept = λ h. ground arith;
  severity_kept = λ h. ground arith;
  severity_rated = rated_after facts item;
  packages_kept = λ p h. ground (
    arith,
    member-sorted_set p (item.osv_affected ++ facts.affected_packages),
    member-append p item.osv_affected facts.affected_packages,
  );
  versions_kept = λ v h. ground (
    arith,
    member-sorted_set v (item.osv_fixed ++ facts.fixed_versions),
    member-append v item.osv_fixed facts.fixed_versions,
  );
  tags_kept = λ t h. ground (arith, member-add t "patch" item.tags);
  tags_new = λ t h. ground (arith, member-add t "patch" item.tags);
}

IsExtended-refl : (item : FeedItem) → IsExtended item item
IsExtended-refl item = record {
  same_fields = refl;
  summary_kept = λ h. refl;
  severity_kept = λ h. refl;
  severity_rated = inl (refl, refl);
  packages_kept = λ p h. h;
  versions_kept = λ v h. h;
  tags_kept = λ t h. h;
  tags_new = λ t h. refl;
}

IsExtended-trans : (a b c : FeedItem) → IsExtended a b → IsExtended b c → IsExtended a c
IsExtended-trans a b c h k = record {
  same_fields = k.same_fields ∙ h.same_fields;
  summary_kept =
      λ filled. k.summary_kept (rw (h.summary_kept filled) filled) ∙ h.summary_kept filled;
  severity_kept =
      λ known. k.severity_kept (rw (h.severity_kept known) known) ∙ h.severity_kept known;
  severity_rated = elim k.severity_rated [
    | inl same ↦ elim h.severity_rated [
      | inl before ↦ inl (same.0 ∙ before.0, same.1 ∙ before.1)
      | inr four ↦ inr (rw same.0 four.0, rw (same.0, same.1) four.1)
    ]
    | inr four ↦ inr four
  ];
  packages_kept = λ p m. k.packages_kept p (h.packages_kept p m);
  versions_kept = λ v m. k.versions_kept v (h.versions_kept v m);
  tags_kept = λ t m. k.tags_kept t (h.tags_kept t m);
  tags_new = λ t other. k.tags_new t other ∙ h.tags_new t other;
}

-- Whatever OSV knows of the CVEs of an item, the item is only extended: it keeps a summary that it
-- has, a severity that is known, its packages, versions and tags; an unknown severity becomes one
-- of the four, which is then recorded as the severity of OSV too, or both stay; the only new tag is
-- "patch"; and every other field is the same.
pub apply_all-IsExtended :
    (osv : Dict OsvData) (cves : List String) (item : FeedItem)
    → IsExtended item (apply_all osv cves item)
unfolding apply_all
apply_all-IsExtended osv [] item = IsExtended-refl item
apply_all-IsExtended osv (cve ∷ cves) item = elim (Option-cases (lookup cve osv)) [
  | inl e ↦ rw (e, apply_all) (apply_all-IsExtended osv cves item)
  | inr (facts, e) ↦
      rw (e, apply_all)
        (IsExtended-trans item (apply_osv facts item) (apply_all osv cves (apply_osv facts item))
          (apply_osv-IsExtended facts item) (apply_all-IsExtended osv cves (apply_osv facts item)))
]
