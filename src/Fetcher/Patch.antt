-- ===== src/Fetcher/Patch.antt =====
-- Distro patch-status normalization (app/fetcher.py).
pub mod Redhat
mod Tests
use sredevopsorg_sec_feed.Prelude.{
  String, Bool, true, false, ◌&&◌, ◌||◌, Option, none, some, List, [], ◌∷◌, map, any, all, member,
  if◌then◌else◌, ◌==◌,
}
use sredevopsorg_sec_feed.Prelude.Texts.{is_blank, occurs_in, join}
use sredevopsorg_sec_feed.Runtime.{TextOps}

abbrev pub status_fixed : String
status_fixed = "fixed"

abbrev pub status_affected : String
status_affected = "affected"

abbrev pub status_not_affected : String
status_not_affected = "not-affected"

abbrev pub status_deferred : String
status_deferred = "deferred"

abbrev pub status_unknown : String
status_unknown = "unknown"

-- `any(w in text for w in words)`
abbrev pub some_occurs : List String → String → Bool
some_occurs words text = any (λ w. occurs_in w text) words

abbrev pub unaffected_keys : List String
unaffected_keys = "not affected" ∷ "not vulnerable" ∷ "unaffected" ∷ []

abbrev pub deferred_words : List String
deferred_words =
    "will not fix" ∷ "won't fix" ∷ "no fix" ∷ "fix deferred" ∷ "deferred" ∷ "out of support"
    ∷ "end of life" ∷ []

abbrev pub fixed_words : List String
fixed_words =
    "fixed" ∷ "released" ∷ "resolved" ∷ "patch" ∷ "patched" ∷ "available" ∷ "backport" ∷ []

abbrev pub affected_words : List String
affected_words = "affected" ∷ "vulnerable" ∷ "under investigation" ∷ []

-- The chain of tests on the cleaned key.
abbrev pub status_of_key : String → String
status_of_key key =
    if member key unaffected_keys
    then status_not_affected
    else if some_occurs deferred_words key
    then status_deferred
    else if some_occurs fixed_words key
    then status_fixed
    else if some_occurs affected_words key
    then status_affected
    else status_unknown

-- The callers pass a text; `None` would give the same as the empty one.
unfoldable pub normalize_patch_status : TextOps → String → String
normalize_patch_status ops raw =
    if is_blank raw
    then status_unknown
    else status_of_key (join " " (ops.split (ops.lower (ops.strip raw))))

abbrev released_fix_sources : List String
released_fix_sources = "ubuntu" ∷ "debian" ∷ "alas" ∷ []

unfoldable pub patch_status_from_text : TextOps → String → String → String
patch_status_from_text ops source_id text =
    let t = ops.lower text in
    let status = if member source_id released_fix_sources then status_fixed else status_unknown in
    if some_occurs ("not affected" ∷ "not vulnerable" ∷ "unaffected" ∷ "not-affected" ∷ []) t
    then status_not_affected
    else if some_occurs ("will not fix" ∷ "won't fix" ∷ "no fix" ∷ "fix deferred" ∷ "deferred" ∷ [])
        t
    then status_deferred
    else status

-- An element of `package_state`: a dictionary with its `fix_state`, or something else.
pub data PackageState : Type 0 where
  a_package : Option String → PackageState
  not_a_dict : PackageState

-- The fields of a Red Hat row that the status depends on; `affected_release` is its truth value,
-- and a missing `package_state` is an empty list.
pub record RedhatRow : Type 0 where
  pub affected_release : Bool
  pub package_state : List PackageState

abbrev pub text_or_empty : Option String → String
text_or_empty none = ""
text_or_empty (some s) = s

unfoldable pub fix_states : List PackageState → List String
fix_states [] = []
fix_states (a_package state ∷ rest) = text_or_empty state ∷ fix_states rest
fix_states (not_a_dict ∷ rest) = fix_states rest

-- What the normalized states say together.
unfoldable pub status_of_states : List String → String
status_of_states [] = status_unknown
status_of_states (s ∷ rest) =
    if member status_affected (s ∷ rest)
    then status_affected
    else if member status_deferred (s ∷ rest)
    then status_deferred
    else if all (λ x. x == status_not_affected) (s ∷ rest)
    then status_not_affected
    else status_unknown

unfoldable pub redhat_patch_status : TextOps → RedhatRow → String
unfolding normalize_patch_status fix_states status_of_states
redhat_patch_status ops row =
    if row.affected_release
    then status_fixed
    else status_of_states (map (normalize_patch_status ops) (fix_states row.package_state))
