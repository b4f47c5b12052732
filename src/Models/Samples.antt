-- ===== src/Models/Samples.antt =====
-- The fallback items of `_sample_items` (app/models.py).
use sredevopsorg_sec_feed.Prelude.{
  ℕ, ◌+◌, ◌-◌, ◌*◌, ◌≤◌, String, Bool, true, false, none, some, List, [], ◌∷◌, All, ◌≡◌, refl,
  arith, length,
}
use sredevopsorg_sec_feed.Prelude.Int.{pos}
use sredevopsorg_sec_feed.Models.{DateTime, aware, FeedItem, hash_item}

-- The literal of one item, without its id and its time.
pub record Raw : Type 0 where
  pub title : String
  pub summary : String
  pub url : String
  pub source : String
  pub source_url : String
  pub tags : List String
  pub cves : List String
  pub severity : String
  pub urgent : Bool
  pub patch_status : String

abbrev minutes : ℕ → ℕ
minutes n = n * 60_000_000

abbrev hours : ℕ → ℕ
hours n = n * 3_600_000_000

abbrev days : ℕ → ℕ
days n = n * 86_400_000_000

-- `now - timedelta(...)`
abbrev ago : ℕ → ℕ → DateTime
ago now delta = aware (now - delta) (pos 0)

abbrev sample : (String → String) → DateTime → Raw → FeedItem
sample hash published raw = record {
  id = hash_item hash raw.url raw.title;
  title = raw.title;
  summary = raw.summary;
  url = raw.url;
  source = raw.source;
  source_url = raw.source_url;
  published = some published;
  tags = raw.tags;
  cves = raw.cves;
  severity = raw.severity;
  urgent = raw.urgent;
  kev = false;
  epss_score = none;
  is_sample = true;
  osv_affected = [];
  osv_fixed = [];
  osv_severity = none;
  patch_status = raw.patch_status;
}

-- `now` is the current time, in microseconds since `datetime.min`.
unfoldable pub sample_items : (String → String) → ℕ → List FeedItem
sample_items hash now =
    sample hash (ago now (minutes 17)) (record {
      title = "CVE-2024-21626: runc container escape via process.cwd and leaked fds";
      summary =
          "runc before 1.1.12 contains a container escape that is exploitable from inside a container. Patch available in runc 1.1.12.";
      url = "https://github.com/opencontainers/runc/security/advisories/GHSA-xr7r-f8xq-vfvv";
      source = "GitHub Security Advisory";
      source_url = "https://github.com/opencontainers/runc/security/advisories";
      tags = "linux" ∷ "kubernetes" ∷ "cve" ∷ "exploit" ∷ "patch" ∷ [];
      cves = "CVE-2024-21626" ∷ [];
      severity = "critical";
      urgent = true;
      patch_status = "unknown";
    })
    ∷ sample hash (ago now (minutes 42)) (record {
      title = "CISA KEV adds CVE-2025-1974: ingress-nginx RCE via admission controller";
      summary =
          "Kubernetes ingress-nginx unauthenticated remote code execution; added to CISA Known Exploited Vulnerabilities. Patch to v1.11.6 / v1.12.2.";
      url = "https://www.cisa.gov/known-exploited-vulnerabilities-catalog";
      source = "CISA KEV";
      source_url = "https://www.cisa.gov/known-exploited-vulnerabilities-catalog";
      tags = "kubernetes" ∷ "cloud" ∷ "cve" ∷ "exploit" ∷ "patch" ∷ [];
      cves = "CVE-2025-1974" ∷ [];
      severity = "critical";
      urgent = true;
      patch_status = "unknown";
    })
    ∷ sample hash (ago now (hours 6)) (record {
      title = "Ubuntu Security Notice 7234-1: Linux kernel vulnerabilities";
      summary =
          "Several security issues were fixed in the Linux kernel: use-after-free in netfilter, KVM out-of-bounds access and an io_uring double-free.";
      url = "https://ubuntu.com/security/notices/USN-7234-1";
      source = "Ubuntu Security Notices";
      source_url = "https://ubuntu.com/security/notices/rss.xml";
      tags = "linux" ∷ "cve" ∷ "patch" ∷ [];
      cves = "CVE-2024-50241" ∷ "CVE-2024-50251" ∷ "CVE-2024-50262" ∷ [];
      severity = "high";
      urgent = false;
      patch_status = "fixed";
    })
    ∷ sample hash (ago now (hours 11)) (record {
      title = "Kubernetes security advisory: multiple CVEs in kubelet including CVE-2025-25587";
      summary =
          "Upstream Kubernetes discloses a kubelet symlink handling issue rated high and a medium-severity CPU denial of service. Fixed in 1.31.5, 1.30.9, 1.29.13.";
      url = "https://kubernetes.io/blog/security/";
      source = "Kubernetes Security Announcements";
      source_url = "https://kubernetes.io/feed.xml";
      tags = "kubernetes" ∷ "cloud" ∷ "cve" ∷ "patch" ∷ [];
      cves = "CVE-2025-25587" ∷ "CVE-2025-25588" ∷ [];
      severity = "high";
      urgent = false;
      patch_status = "unknown";
    })
    ∷ sample hash (ago now (hours 12)) (record {
      title = "AWS security bulletin: Apache Airflow on MWAA updated for CVE-2025-39001";
      summary =
          "AWS updated managed Apache Airflow environments to address an information disclosure vulnerability rated medium.";
      url = "https://aws.amazon.com/security/security-bulletins/";
      source = "AWS Security Bulletins";
      source_url = "https://aws.amazon.com/security/security-bulletins/rss/feed/";
      tags = "cloud" ∷ "cve" ∷ "patch" ∷ [];
      cves = "CVE-2025-39001" ∷ [];
      severity = "medium";
      urgent = false;
      patch_status = "unknown";
    })
    ∷ sample hash (ago now (hours 23)) (record {
      title = "Red Hat Product Security: glibc vulnerabilities fixed in RHEL 9 and 10";
      summary =
          "Updated glibc packages address two out-of-bounds reads and an integer overflow affecting setuid binaries.";
      url = "https://access.redhat.com/security/security-updates/";
      source = "Red Hat Product Security";
      source_url = "https://access.redhat.com/blogs/product-security/feed";
      tags = "linux" ∷ "cloud" ∷ "cve" ∷ "patch" ∷ [];
      cves = "CVE-2025-0395" ∷ "CVE-2025-17428" ∷ [];
      severity = "high";
      urgent = false;
      patch_status = "fixed";
    })
    ∷ sample hash (ago now (days 1 + hours 2)) (record {
      title = "CISA alert: nation-state actors exploiting public-facing Kubernetes clusters";
      summary =
          "Joint advisory details TTPs used against misconfigured Kubernetes dashboards and exposed etcd endpoints. Mitigations include RBAC review and network policy.";
      url = "https://www.cisa.gov/cybersecurity-advisories";
      source = "CISA Cybersecurity Advisories";
      source_url = "https://www.cisa.gov/cybersecurity-advisories/all.xml";
      tags = "kubernetes" ∷ "cloud" ∷ "threat" ∷ "exploit" ∷ [];
      cves = [];
      severity = "high";
      urgent = true;
      patch_status = "unknown";
    })
    ∷ sample hash (ago now (days 1 + hours 7)) (record {
      title = "Google Cloud security bulletin: GKE node image updated for containerd CVE-2025-0817";
      summary =
          "New GKE node images include containerd 1.7.27 to fix a high-severity privilege escalation in the CRI plugin.";
      url = "https://cloud.google.com/security/bulletins";
      source = "Google Cloud Security Bulletins";
      source_url = "https://cloud.google.com/feeds/security-bulletins.xml";
      tags = "cloud" ∷ "kubernetes" ∷ "cve" ∷ "patch" ∷ [];
      cves = "CVE-2025-0817" ∷ [];
      severity = "high";
      urgent = false;
      patch_status = "unknown";
    })
    ∷ []

-- What every fallback item is: marked as a sample, and published in the past.
pub record IsSampleItem (now : ℕ) (item : FeedItem) : Type 0 where
  pub marked : item.is_sample ≡ true
  pub past : (t : ℕ) × (item.published ≡ some (aware t (pos 0))) × (t ≤ now)

pub sample_items-IsSampleItem :
    (hash : String → String) (now : ℕ) → All (IsSampleItem now) (sample_items hash now)
unfolding sample_items
sample_items-IsSampleItem hash now =
    (old _, (old _, (old _, (old _, (old _, (old _, (old _, (old _, tt))))))))
  where
    old : {raw : Raw} (delta : ℕ) → IsSampleItem now (sample hash (ago now delta) raw)
    old delta = record { marked = refl; past = (now - delta, refl, omega arith) }

pub length-sample_items : (hash : String → String) (now : ℕ) → length (sample_items hash now) ≡ 8
unfolding sample_items
length-sample_items hash now = refl
