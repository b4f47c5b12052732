-- ===== src/Sources.antt =====
-- The roster of upstream sources (app/sources.py).
use sredevopsorg_sec_feed.Prelude.{ℕ, String, List, [], ◌∷◌, map}
use sredevopsorg_sec_feed.Prelude.Dict.{Dict, lookup}
use sredevopsorg_sec_feed.Models.{get_or}

pub record Source : Type 0 where
  pub id : String
  pub name : String
  pub kind : String
  pub url : String
  pub tags : List String
  pub max_items : ℕ
  pub min_interval_seconds : ℕ

unfoldable pub base_sources : List Source
base_sources =
    record {
      id = "ubuntu";
      name = "Ubuntu Security Notices";
      kind = "rss";
      url = "https://ubuntu.com/security/notices/rss.xml";
      tags = "linux" ∷ "patch" ∷ [];
      max_items = 12;
      min_interval_seconds = 0;
    }
    ∷ record {
      id = "debian";
      name = "Debian Security Advisories";
      kind = "rss";
      url = "https://www.debian.org/security/dsa";
      tags = "linux" ∷ "patch" ∷ [];
      max_items = 12;
      min_interval_seconds = 0;
    }
    ∷ record {
      id = "redhat";
      name = "Red Hat CVE Database";
      kind = "redhat-api";
      url = "https://access.redhat.com/hydra/rest/securitydata/cve.json?per_page=20";
      tags = "linux" ∷ "cloud" ∷ [];
      max_items = 20;
      min_interval_seconds = 0;
    }
    ∷ record {
      id = "k8s-cve";
      name = "Kubernetes Official CVE Feed";
      kind = "rss";
      url = "https://kubernetes.io/docs/reference/issues-security/official-cve-feed/feed.xml";
      tags = "kubernetes" ∷ "cve" ∷ [];
      max_items = 12;
      min_interval_seconds = 0;
    }
    ∷ record {
      id = "gcp";
      name = "Google Cloud Security Bulletins";
      kind = "rss";
      url = "https://cloud.google.com/feeds/google-cloud-security-bulletins.xml";
      tags = "cloud" ∷ [];
      max_items = 12;
      min_interval_seconds = 0;
    }
    ∷ record {
      id = "alas";
      name = "Amazon Linux 2023 Advisories";
      kind = "rss";
      url = "https://alas.aws.amazon.com/AL2023/alas.rss";
      tags = "linux" ∷ "cloud" ∷ "patch" ∷ [];
      max_items = 12;
      min_interval_seconds = 0;
    }
    ∷ record {
      id = "aws";
      name = "AWS Security Bulletins";
      kind = "rss";
      url = "https://aws.amazon.com/security/security-bulletins/rss/feed/";
      tags = "cloud" ∷ [];
      max_items = 12;
      min_interval_seconds = 0;
    }
    ∷ record {
      id = "cisa";
      name = "CISA Cybersecurity Advisories";
      kind = "rss";
      url = "https://www.cisa.gov/cybersecurity-advisories/all.xml";
      tags = "threat" ∷ "exploit" ∷ [];
      max_items = 15;
      min_interval_seconds = 0;
    }
    ∷ record {
      id = "nvd-linux";
      name = "NVD CVE — Linux";
      kind = "nvd";
      url =
          "https://services.nvd.nist.gov/rest/json/cves/2.0?keywordSearch=linux%20kernel&resultsPerPage=10";
      tags = "linux" ∷ "cve" ∷ [];
      max_items = 10;
      min_interval_seconds = 0;
    }
    ∷ record {
      id = "nvd-kubernetes";
      name = "NVD CVE — Kubernetes";
      kind = "nvd";
      url =
          "https://services.nvd.nist.gov/rest/json/cves/2.0?keywordSearch=kubernetes&resultsPerPage=10";
      tags = "kubernetes" ∷ "cve" ∷ [];
      max_items = 10;
      min_interval_seconds = 0;
    }
    ∷ record {
      id = "nvd-cloud";
      name = "NVD CVE — Cloud";
      kind = "nvd";
      url =
          "https://services.nvd.nist.gov/rest/json/cves/2.0?keywordSearch=cloud&resultsPerPage=10";
      tags = "cloud" ∷ "cve" ∷ [];
      max_items = 10;
      min_interval_seconds = 0;
    }
    ∷ record {
      id = "kev";
      name = "CISA KEV — Newly Exploited";
      kind = "kev";
      url = "https://www.cisa.gov/sites/default/files/feeds/known_exploited_vulnerabilities.json";
      tags = "exploit" ∷ "kev" ∷ [];
      max_items = 10;
      min_interval_seconds = 0;
    }
    ∷ record {
      id = "ghsa-containerd";
      name = "GHSA — containerd";
      kind = "ghsa";
      url = "https://api.github.com/advisories?affects=github.com/containerd/containerd";
      tags = "kubernetes" ∷ "cve" ∷ [];
      max_items = 5;
      min_interval_seconds = 0;
    }
    ∷ record {
      id = "ghsa-runc";
      name = "GHSA — runc";
      kind = "ghsa";
      url = "https://api.github.com/advisories?affects=github.com/opencontainers/runc";
      tags = "kubernetes" ∷ "cve" ∷ [];
      max_items = 5;
      min_interval_seconds = 0;
    }
    ∷ record {
      id = "ghsa-argo-cd";
      name = "GHSA — Argo CD";
      kind = "ghsa";
      url = "https://api.github.com/advisories?affects=github.com/argoproj/argo-cd";
      tags = "kubernetes" ∷ "cve" ∷ [];
      max_items = 5;
      min_interval_seconds = 0;
    }
    ∷ record {
      id = "ghsa-istio";
      name = "GHSA — Istio";
      kind = "ghsa";
      url = "https://api.github.com/advisories?affects=istio.io/istio";
      tags = "kubernetes" ∷ "cve" ∷ [];
      max_items = 5;
      min_interval_seconds = 0;
    }
    ∷ record {
      id = "ghsa-envoy";
      name = "GHSA — Envoy";
      kind = "ghsa";
      url = "https://api.github.com/advisories?affects=github.com/envoyproxy/envoy";
      tags = "kubernetes" ∷ "cve" ∷ [];
      max_items = 5;
      min_interval_seconds = 0;
    }
    ∷ record {
      id = "ghsa-moby";
      name = "GHSA — Moby (Docker Engine)";
      kind = "ghsa";
      url = "https://api.github.com/advisories?affects=github.com/moby/moby";
      tags = "kubernetes" ∷ "cve" ∷ [];
      max_items = 5;
      min_interval_seconds = 0;
    }
    ∷ record {
      id = "ghsa-crio";
      name = "GHSA — CRI-O";
      kind = "ghsa";
      url = "https://api.github.com/advisories?affects=github.com/cri-o/cri-o";
      tags = "kubernetes" ∷ "cve" ∷ [];
      max_items = 5;
      min_interval_seconds = 0;
    }
    ∷ []

abbrev pub min_intervals : Dict ℕ
min_intervals =
    ("ubuntu", 1800)
    ∷ ("debian", 1800)
    ∷ ("redhat", 3600)
    ∷ ("k8s-cve", 1800)
    ∷ ("gcp", 1800)
    ∷ ("alas", 3600)
    ∷ ("aws", 1800)
    ∷ ("cisa", 3600)
    ∷ ("nvd-linux", 3600)
    ∷ ("nvd-kubernetes", 3600)
    ∷ ("nvd-cloud", 3600)
    ∷ ("kev", 3600)
    ∷ ("ghsa-containerd", 3600)
    ∷ ("ghsa-runc", 3600)
    ∷ ("ghsa-argo-cd", 3600)
    ∷ ("ghsa-istio", 3600)
    ∷ ("ghsa-envoy", 3600)
    ∷ ("ghsa-moby", 3600)
    ∷ ("ghsa-crio", 3600)
    ∷ []

unfoldable pub with_interval : Source → Source
unfolding lookup
with_interval source = record source {
  min_interval_seconds = get_or (lookup source.id min_intervals) 0;
}

unfoldable pub sources : List Source
unfolding base_sources with_interval
sources = map with_interval base_sources
