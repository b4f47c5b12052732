-- ===== src/Fetcher/Patch/Tests.antt =====
-- The patch status of two rows that differ in the order of their packages.
use sredevopsorg_sec_feed.Prelude.{◌≡◌, refl, false, some, [], ◌∷◌, map, arith}
use sredevopsorg_sec_feed.Fetcher.Inputs.{plain_ops}
use sredevopsorg_sec_feed.Fetcher.Patch.{
  a_package, not_a_dict, RedhatRow, normalize_patch_status, fix_states, redhat_patch_status,
}
use sredevopsorg_sec_feed.Fetcher.Patch.Redhat.{SameTexts}

abbrev one_way : RedhatRow
one_way = record {
  affected_release = false;
  package_state = a_package (some "affected") ∷ a_package (some "deferred") ∷ [];
}

abbrev other_way : RedhatRow
other_way = record {
  affected_release = false;
  package_state = a_package (some "deferred") ∷ not_a_dict ∷ a_package (some "affected") ∷ [];
}

both : redhat_patch_status plain_ops one_way ≡ "affected"
unfolding redhat_patch_status
both = refl

same_states :
    SameTexts
      (map (normalize_patch_status plain_ops) (fix_states one_way.package_state))
      (map (normalize_patch_status plain_ops) (fix_states other_way.package_state))
unfolding normalize_patch_status fix_states
same_states s = ground arith
