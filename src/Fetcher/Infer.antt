-- ===== src/Fetcher/Infer.antt =====
-- What the fetchers infer from the text of an item (app/fetcher.py): relevance, severity, tags and
-- CVE identifiers. Scores are in millionths.
pub mod Words
pub mod Severity
pub mod Tags
mod Tests
use Prim.Native.Char.{Char, code}
use sredevopsorg_sec_feed.Prelude.{
  ℕ, zero, suc, ◌-◌, String, ◌<>◌, Bool, true, false, ◌&&◌, ◌||◌, not, Option, none, some, List, [],
  ◌∷◌, map, any, member, ltb, leb, nat_eq, if◌then◌else◌, ◌==◌,
}
use sredevopsorg_sec_feed.Prelude.Sets.{uniq, add}
use sredevopsorg_sec_feed.Prelude.Texts.{text_length, text_take, has_prefix, occurs_in, is_blank}
use sredevopsorg_sec_feed.Runtime.{TextOps}

-- `s.replace(old, new)`; `skip` characters of a match are still to pass.
replace_from : ℕ → String → String → String → String
replace_from skip old new String.[] = ""
replace_from (suc skip) old new (String.◌∷◌ c s) = replace_from skip old new s
replace_from zero old new (String.◌∷◌ c s) =
    let passed = replace_from (text_length old - 1) old new s in
    let kept = replace_from zero old new s in
    if has_prefix old (String.◌∷◌ c s) then new <> passed else String.◌∷◌ c kept

abbrev entities : List (String × String)
entities =
    ("&lt;", "<")
    ∷ ("&gt;", ">")
    ∷ ("&amp;", "&")
    ∷ ("&quot;", "\"")
    ∷ ("&#39;", "'")
    ∷ ("&nbsp;", " ")
    ∷ []

replace_all : List (String × String) → String → String
unfolding replace_from
replace_all [] value = value
replace_all ((entity, replacement) ∷ rest) value =
    replace_all rest (replace_from zero entity replacement value)

unfoldable pub strip_html : TextOps → String → String
unfolding replace_all
strip_html ops value = ops.strip (ops.sub_spaces (replace_all entities (ops.sub_tags value)))

unfoldable pub truncate : TextOps → String → ℕ → String
truncate ops value limit =
    if leb (text_length value) limit then value else ops.rstrip (text_take (limit - 1) value) <> "…"

unfoldable pub maximum : List ℕ → Option ℕ
maximum [] = none
maximum (x ∷ xs) = elim (maximum xs) [ none ↦ some x | some y ↦ if ltb x y then some y else some x ]

unfoldable pub extract_cvss_score : TextOps → String → Option ℕ
unfolding maximum
extract_cvss_score ops text = maximum (ops.find_scores text)

abbrev pub ambiguous_tokens : List String
ambiguous_tokens = "rce" ∷ "poc" ∷ "apt" ∷ "kev" ∷ "aws" ∷ "runc" ∷ "suse" ∷ "gke" ∷ []

-- `[a-z0-9]`
abbrev pub is_word_char : Char → Bool
is_word_char c = leb b'a' (code c) && leb (code c) b'z' || leb b'0' (code c) && leb (code c) b'9'

-- `(?![a-z0-9])`
abbrev pub ends_word : String → Bool
ends_word String.[] = true
ends_word (String.◌∷◌ c s) = not (is_word_char c)

-- `token(?![a-z0-9])` at the start of a text.
abbrev pub word_here : String → String → Bool
word_here String.[] text = ends_word text
word_here (String.◌∷◌ c token) String.[] = false
word_here (String.◌∷◌ c token) (String.◌∷◌ d text) =
    nat_eq (code c) (code d) && word_here token text

-- `free` says that the character before the text is none of `[a-z0-9]`.
abbrev pub mentions_from : Bool → String → String → Bool
mentions_from free String.[] token = free && word_here token String.[]
mentions_from free (String.◌∷◌ c text) token =
    free && word_here token (String.◌∷◌ c text) || mentions_from (not (is_word_char c)) text token

unfoldable pub mentions : String → String → Bool
mentions text token = mentions_from true text token

unfoldable pub contains_any : String → List String → Bool
unfolding mentions
contains_any text tokens =
    any
      (λ token. if member token ambiguous_tokens then mentions text token else occurs_in token text)
      tokens

abbrev target_keywords : List String
target_keywords =
    "linux" ∷ "ubuntu" ∷ "debian" ∷ "red hat" ∷ "fedora" ∷ "suse" ∷ "arch linux" ∷ "kernel"
    ∷ "glibc" ∷ "systemd" ∷ "openssl" ∷ "openssh" ∷ "runc" ∷ "containerd" ∷ "kubernetes" ∷ "k8s"
    ∷ "kube" ∷ "helm" ∷ "istio" ∷ "envoy" ∷ "cri-o" ∷ "cloud" ∷ "aws" ∷ "amazon" ∷ "azure" ∷ "gcp"
    ∷ "google cloud" ∷ "gke" ∷ "docker" ∷ "container" ∷ "virtual machine" ∷ "server" ∷ []

-- `source_id` is `source.id`.
unfoldable pub is_relevant : TextOps → String → String → Bool
is_relevant ops source_id text =
    if source_id == "cisa" then any (λ w. occurs_in w (ops.lower text)) target_keywords else true

unfoldable pub extract_cves : TextOps → String → List String
unfolding uniq
extract_cves ops text = uniq (map ops.upper (ops.find_cves text))

abbrev pub critical_words : List String
critical_words =
    "critical severity" ∷ "critical vulnerability" ∷ "critical security" ∷ "critical flaw"
    ∷ "critical remote" ∷ "rated critical" ∷ "(critical)" ∷ "cvss 9." ∷ "cvss:4.0/av:n/ac:l" ∷ []

abbrev pub high_words : List String
high_words =
    "high severity" ∷ "high-severity" ∷ "important severity" ∷ "(important)"
    ∷ "privilege escalation" ∷ "remote code execution" ∷ "rce" ∷ []

abbrev pub medium_words : List String
medium_words = "medium severity" ∷ "medium-severity" ∷ "(moderate)" ∷ []

abbrev pub low_words : List String
low_words = "low severity" ∷ "low-severity" ∷ "(low)" ∷ []

unfoldable pub infer_severity : TextOps → String → Option ℕ → String
infer_severity ops text (some score) =
    if leb 9_000_000 score
    then "critical"
    else if leb 7_000_000 score
    then "high"
    else if leb 4_000_000 score
    then "medium"
    else if ltb 0 score
    then "low"
    else "unknown"
infer_severity ops text none =
    let t = ops.lower text in
    if contains_any t critical_words
    then "critical"
    else if contains_any t high_words
    then "high"
    else if contains_any t medium_words
    then "medium"
    else if contains_any t low_words
    then "low"
    else "unknown"

-- `if test: tags.add(tag)`
abbrev pub add_if : Bool → String → List String → List String
add_if test tag tags = if test then add tag tags else tags

abbrev pub linux_words : List String
linux_words =
    "linux" ∷ "ubuntu" ∷ "debian" ∷ "red hat" ∷ "fedora" ∷ "suse" ∷ "kernel" ∷ "glibc" ∷ "systemd"
    ∷ "openssl" ∷ []

abbrev pub cloud_words : List String
cloud_words = "aws" ∷ "amazon" ∷ "azure" ∷ "gcp" ∷ "google cloud" ∷ "cloud" ∷ "mwaa" ∷ "gke" ∷ []

abbrev pub kubernetes_words : List String
kubernetes_words =
    "kubernetes" ∷ "k8s" ∷ "kube" ∷ "containerd" ∷ "cri-o" ∷ "helm" ∷ "istio" ∷ "envoy" ∷ "runc"
    ∷ "ingress" ∷ []

abbrev pub exploit_words : List String
exploit_words =
    "exploit" ∷ "exploited" ∷ "kev" ∷ "in the wild" ∷ "weaponized" ∷ "poc" ∷ "ransomware" ∷ []

abbrev pub patch_words : List String
patch_words = "patch" ∷ "update" ∷ "fixed" ∷ "security update" ∷ "advisory" ∷ "bulletin" ∷ []

abbrev pub threat_words : List String
threat_words = "cisa" ∷ "alert" ∷ "threat" ∷ "apt" ∷ "nation-state" ∷ []

abbrev not_empty : List String → Bool
not_empty [] = false
not_empty (x ∷ xs) = true

unfoldable pub infer_tags : TextOps → String → List String → List String → List String
infer_tags ops text source_tags cves =
    let t = ops.lower text in
    let tags1 = add_if (contains_any t linux_words) "linux" source_tags in
    let tags2 = add_if (contains_any t cloud_words) "cloud" tags1 in
    let tags3 = add_if (contains_any t kubernetes_words) "kubernetes" tags2 in
    let tags4 = add_if (not_empty cves) "cve" tags3 in
    let tags5 = add_if (contains_any t exploit_words) "exploit" tags4 in
    let tags6 = add_if (contains_any t patch_words) "patch" tags5 in
    add_if (contains_any t threat_words) "threat" tags6
