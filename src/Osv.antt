-- ===== src/Osv.antt =====
-- The OSV enrichment (app/osv.py): `parse_osv`, `_fetch_one`, `fetch_osv` and `enrich_with_osv`.
-- The requests run one after another here; each writes its own CVE's cache entry alone.
pub mod Applied
mod Tests
use sredevopsorg_sec_feed.Prelude.{
  ℕ, ◌+◌, ◌*◌, String, ◌<>◌, Bool, true, false, ◌&&◌, ◌||◌, not, Option, none, some, List, [], ◌∷◌,
  ◌++◌, map, take, select, member, ltb, if◌then◌else◌, ◌==◌,
}
use sredevopsorg_sec_feed.Prelude.Int.{ℤ, pos, pos_part, ltb_ℤ}
use sredevopsorg_sec_feed.Prelude.Dict.{Dict, lookup, insert}
use sredevopsorg_sec_feed.Prelude.Sets.{uniq, add}
use sredevopsorg_sec_feed.Prelude.Sort.{sort}
use sredevopsorg_sec_feed.Prelude.Texts.{text_leb, text_or, is_blank}
use sredevopsorg_sec_feed.Runtime.{TextOps}
use sredevopsorg_sec_feed.Models.{DateTime, FeedItem, map_option}
use sredevopsorg_sec_feed.Fetcher.Dedupe.{severity_rank, sort_time, bit}

abbrev pub cache_ttl : ℕ
cache_ttl = 24 * 60 * 60

-- An element of `affected`: its package, and the values of `fixed` in its events.
pub record Affected : Type 0 where
  pub name : Option String
  pub ecosystem : Option String
  pub fixed : List String

pub record OsvResponse : Type 0 where
  pub summary : Option String
  pub affected : List Affected
  pub severity : Option String

-- What is kept of a response; the details and the aliases are not used.
pub record OsvData : Type 0 where
  pub summary : Option String
  pub affected_packages : List String
  pub fixed_versions : List String
  pub severity : Option String
  pub patch_available : Bool

abbrev pub text_of : Option String → String
text_of none = ""
text_of (some s) = s

-- `sorted(set(values))`
abbrev pub sorted_set : List String → List String
sorted_set values = sort text_leb (uniq values)

unfoldable pub package_names : List Affected → List String
package_names [] = []
package_names (a ∷ rest) =
    let others = package_names rest in
    if is_blank (text_of a.name)
    then others
    else (text_or (text_of a.ecosystem) "unknown" <> ":" <> text_of a.name) ∷ others

unfoldable pub fixed_values : List Affected → List String
fixed_values [] = []
fixed_values (a ∷ rest) = select (λ v. not (is_blank v)) a.fixed ++ fixed_values rest

abbrev pub is_nil : List String → Bool
is_nil [] = true
is_nil (k ∷ ks) = false

-- `is_version` is the match of `^v?\d+(\.\d+)+`.
unfoldable pub parse_osv : TextOps → (String → Bool) → OsvResponse → OsvData
unfolding package_names fixed_values
parse_osv ops is_version facts =
    let fixed = select is_version (fixed_values facts.affected) in
    record {
      summary = facts.summary;
      affected_packages = take 5 (sorted_set (package_names facts.affected));
      fixed_versions = take 5 (sorted_set fixed);
      severity = map_option ops.lower facts.severity;
      patch_available = not (is_nil fixed);
    }

-- What the server answers: nothing known (404), an exception, or a response.
pub data OsvAnswer : Type 0 where
  not_found : OsvAnswer
  broken : OsvAnswer
  found : OsvResponse → OsvAnswer

-- `_osv_cache` and `_osv_cache_time`; `none` is the empty dictionary.
abbrev pub OsvCache : Type 0
OsvCache = Dict (Option OsvData × ℕ)

abbrev pub fresh_entry : OsvCache → String → ℕ → Option (Option OsvData)
fresh_entry cache cve now = elim (lookup cve cache) [
  | none ↦ none
  | some entry ↦ if ltb now (entry.1 + cache_ttl) then some entry.0 else none
]

module _ {N : Type 0} (ops : TextOps) (is_version : String → Bool)
    (request : String → N → N × OsvAnswer) (time : N → ℕ) where
  -- `_fetch_one`, with its exceptions caught as `guarded` does: then there is no data.
  unfoldable pub fetch_one : String → OsvCache → N → (OsvCache × N) × Option OsvData
  unfolding parse_osv
  fetch_one cve cache n =
      let now = time n in
      elim (fresh_entry cache cve now) [
        | some facts ↦ ((cache, n), facts)
        | none ↦
            (let (n', answer) = request cve n in
              elim answer [
                | broken ↦ ((cache, n'), none)
                | not_found ↦ ((insert cve (none, now) cache, n'), none)
                | found response ↦
                    (let facts = some (parse_osv ops is_version response) in
                      ((insert cve (facts, now) cache, n'), facts))
              ])
      ]

  unfoldable pub fetch_each : List String → OsvCache → N → (OsvCache × N) × Dict OsvData
  fetch_each [] cache n = ((cache, n), [])
  fetch_each (cve ∷ cves) cache n =
      let ((cache', n'), facts) = fetch_one cve cache n in
      let (w, rest) = fetch_each cves cache' n' in
      (w, elim facts [ none ↦ rest | some d ↦ insert cve d rest ])

  -- `limit` is `settings.osv_max_cves_per_run`.
  unfoldable pub fetch_osv : ℤ → List String → OsvCache → N → (OsvCache × N) × Dict OsvData
  fetch_osv limit cves cache n =
      let unique = uniq cves in
      fetch_each (if ltb_ℤ (pos 0) limit then take (pos_part limit) unique else unique) cache n

-- The key of the order in which the CVEs are asked for, largest first.
unfoldable pub matters_more : FeedItem → FeedItem → Bool
matters_more a b =
    if ltb (bit b.urgent) (bit a.urgent)
    then true
    else if ltb (bit a.urgent) (bit b.urgent)
    then false
    else if ltb (severity_rank b.severity) (severity_rank a.severity)
    then true
    else if ltb (severity_rank a.severity) (severity_rank b.severity)
    then false
    else not (ltb (sort_time a) (sort_time b))

abbrev pub cves_of : List FeedItem → List String
cves_of [] = []
cves_of (item ∷ items) = item.cves ++ cves_of items

abbrev pub rated : List String
rated = "critical" ∷ "high" ∷ "medium" ∷ "low" ∷ []

-- The body of the inner loop, for a CVE with data.
unfoldable pub apply_osv : OsvData → FeedItem → FeedItem
apply_osv facts item =
    let raises = item.severity == "unknown" && member (text_of facts.severity) rated in
    record item {
      summary =
          if is_blank item.summary && not (is_blank (text_of facts.summary))
          then text_of facts.summary
          else item.summary;
      osv_affected = sorted_set (item.osv_affected ++ facts.affected_packages);
      osv_fixed = sorted_set (item.osv_fixed ++ facts.fixed_versions);
      osv_severity = if raises then facts.severity else item.osv_severity;
      severity = if raises then text_of facts.severity else item.severity;
      tags = if facts.patch_available then add "patch" item.tags else item.tags;
    }

unfoldable pub apply_all : Dict OsvData → List String → FeedItem → FeedItem
apply_all osv [] item = item
apply_all osv (cve ∷ cves) item =
    apply_all osv cves (elim (lookup cve osv) [ none ↦ item | some facts ↦ apply_osv facts item ])

module _ {N : Type 0} (ops : TextOps) (is_version : String → Bool)
    (request : String → N → N × OsvAnswer) (time : N → ℕ) where
  unfoldable pub enrich_with_osv : ℤ → List FeedItem → OsvCache → N → (OsvCache × N) × List FeedItem
  enrich_with_osv limit items cache n =
      let cves = uniq (cves_of (sort matters_more items)) in
      if is_nil cves
      then ((cache, n), items)
      else (let (w, osv) = fetch_osv ops is_version request time limit cves cache n in
          (w, map (λ item. apply_all osv item.cves item) items))
