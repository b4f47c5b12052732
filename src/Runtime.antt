-- ===== src/Runtime.antt =====
-- The operations of Python's `str` and `re` that the code calls and that depend on the Unicode
-- tables or on the regular-expression engine. They are parameters of the model: the definitions
-- that use them take a `TextOps`, and no theorem assumes more of them than it says.
use sredevopsorg_sec_feed.Prelude.{ℕ, String, List}

pub record TextOps : Type 0 where
  -- `s.lower()`, `s.upper()`, `s.strip()`, `s.split()`
  pub lower : String → String
  pub upper : String → String
  pub strip : String → String
  pub split : String → List String
  -- `s.rstrip()`
  pub rstrip : String → String
  -- `re.sub(r"<[^>]+>", " ", s)` and `re.sub(r"\s+", " ", s)`
  pub sub_tags : String → String
  pub sub_spaces : String → String
  -- `CVE_RE.findall(s)`: the CVE identifiers of a text, from left to right.
  pub find_cves : String → List String
  -- The scores that `CVSS_TEXT_RE` finds and `float` parses, in millionths.
  pub find_scores : String → List ℕ
