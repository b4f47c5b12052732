-- ===== src/Fetcher/Infer/Tags.antt =====
-- Which tags an item gets.
use sredevopsorg_sec_feed.Prelude.{
  String, ◌≡◌, Bool, true, false, ◌&&◌, ◌||◌, List, member, arith, ◌==◌,
}
use sredevopsorg_sec_feed.Prelude.Sets.{Uniq, member-add, Uniq-add}
use sredevopsorg_sec_feed.Runtime.{TextOps}
use sredevopsorg_sec_feed.Fetcher.Infer.{
  contains_any, add_if, not_empty, linux_words, cloud_words, kubernetes_words, exploit_words,
  patch_words, threat_words, infer_tags,
}

member-add_if :
    (t tag : String) (test : Bool) (tags : List String)
    → member t (add_if test tag tags) ≡ (member t tags || test && tag == t)
member-add_if t tag test tags = ground (arith, member-add t tag tags)

Uniq-add_if :
    (tag : String) (test : Bool) (tags : List String) → Uniq tags → Uniq (add_if test tag tags)
Uniq-add_if tag true tags u = Uniq-add tag tags u
Uniq-add_if tag false tags u = u

-- If the tags of the source are distinct, the tags of an item are those of its source and, for each
-- of the seven topics, its tag exactly when the lowered text mentions one of its words ("cve": when
-- there is a CVE identifier), with no tag twice.
pub infer_tags-member :
    (ops : TextOps) (text : String) (source_tags cves : List String) (tag : String)
    → Uniq source_tags
    → (member tag (infer_tags ops text source_tags cves) ≡ (
        member tag source_tags
        || contains_any (ops.lower text) linux_words && "linux" == tag
        || contains_any (ops.lower text) cloud_words && "cloud" == tag
        || contains_any (ops.lower text) kubernetes_words && "kubernetes" == tag
        || not_empty cves && "cve" == tag
        || contains_any (ops.lower text) exploit_words && "exploit" == tag
        || contains_any (ops.lower text) patch_words && "patch" == tag
        || contains_any (ops.lower text) threat_words && "threat" == tag))
      × Uniq (infer_tags ops text source_tags cves)
unfolding infer_tags
infer_tags-member ops text source_tags cves tag u =
    let t = ops.lower text in
    let tags1 = add_if (contains_any t linux_words) "linux" source_tags in
    let tags2 = add_if (contains_any t cloud_words) "cloud" tags1 in
    let tags3 = add_if (contains_any t kubernetes_words) "kubernetes" tags2 in
    let tags4 = add_if (not_empty cves) "cve" tags3 in
    let tags5 = add_if (contains_any t exploit_words) "exploit" tags4 in
    let tags6 = add_if (contains_any t patch_words) "patch" tags5 in
    (
      rw
          (
            infer_tags, member-add_if, member-add_if, member-add_if, member-add_if, member-add_if,
            member-add_if, member-add_if,
          )
          (ground arith),
      Uniq-add_if "threat" (contains_any t threat_words) tags6 (
          Uniq-add_if "patch" (contains_any t patch_words) tags5 (
            Uniq-add_if "exploit" (contains_any t exploit_words) tags4 (
              Uniq-add_if "cve" (not_empty cves) tags3 (
                Uniq-add_if "kubernetes" (contains_any t kubernetes_words) tags2 (
                  Uniq-add_if "cloud" (contains_any t cloud_words) tags1
                    (Uniq-add_if "linux" (contains_any t linux_words) source_tags u)))))),
    )
