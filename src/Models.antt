-- ===== src/Models.antt =====
-- The domain model of a feed item and its serialization (app/models.py).
-- A moment is a number of microseconds since `datetime.min`. A naive `datetime` is its wall clock;
-- an aware one is the moment in UTC that it denotes, with its offset, which must be a moment of
-- the years 1 to 9999.
pub mod Age
pub mod RoundTrip
pub mod Samples
pub mod Tally
mod Tests
use sredevopsorg_sec_feed.Prelude.{
  ℕ, ◌+◌, ◌-◌, ◌*◌, ◌/◌, String, ◌<>◌, ◌≡◌, Bool, true, false, ◌&&◌, ◌||◌, not, Option, none, some,
  List, [], ◌∷◌, ◌++◌, map, length, member, ltb, nat_eq, if◌then◌else◌, ◌==◌,
}
use sredevopsorg_sec_feed.Prelude.Int.{ℤ, pos}
use sredevopsorg_sec_feed.Prelude.Dict.{Dict, lookup}
use sredevopsorg_sec_feed.Prelude.Sets.{uniq}
use sredevopsorg_sec_feed.Prelude.Sort.{sort, sort_insert}
use sredevopsorg_sec_feed.Prelude.Texts.{text_or, text_leb, is_blank, replace_char, decimal}

pub data DateTime : Type 0 where
  naive : ℕ → DateTime
  aware : ℕ → ℤ → DateTime

abbrev pub utc : DateTime → ℕ
utc (naive wall) = wall
utc (aware moment offset) = moment

-- `_ensure_aware`
unfoldable pub ensure_aware : DateTime → DateTime
ensure_aware (naive wall) = aware wall (pos 0)
ensure_aware (aware moment offset) = aware moment (pos 0)

abbrev pub datetime_min : DateTime
datetime_min = aware 0 (pos 0)

-- A set of texts is a list with no text twice; `epss_score` is in millionths.
pub record FeedItem : Type 0 where
  pub id : String
  pub title : String
  pub summary : String
  pub url : String
  pub source : String
  pub source_url : String
  pub published : Option DateTime
  pub tags : List String
  pub cves : List String
  pub severity : String
  pub urgent : Bool
  pub kev : Bool
  pub epss_score : Option ℕ
  pub is_sample : Bool
  pub osv_affected : List String
  pub osv_fixed : List String
  pub osv_severity : Option String
  pub patch_status : String

-- `hashlib.sha1(...).hexdigest()[:16]` is the parameter `hash`.
unfoldable pub hash_item : (String → String) → String → String → String
hash_item hash unique fallback = hash (text_or unique fallback)

abbrev pub tag_order : Dict ℕ
tag_order =
    ("exploit", 0)
    ∷ ("kubernetes", 1)
    ∷ ("cloud", 2)
    ∷ ("linux", 3)
    ∷ ("cve", 4)
    ∷ ("patch", 5)
    ∷ ("threat", 6)
    ∷ []

abbrev pub get_or : Option ℕ → ℕ → ℕ
get_or none d = d
get_or (some n) d = n

unfoldable pub tag_priority : String → ℕ
unfolding lookup
tag_priority tag = get_or (lookup tag tag_order) 99

pub plural : ℕ → String → String
unfolding decimal
plural n unit = decimal n <> " " <> unit <> (if nat_eq n 1 then "" else "s")

unfoldable pub time_ago : ℕ → String
unfolding plural
time_ago seconds =
    let minutes = seconds / 60 in
    let hours = minutes / 60 in
    let days = hours / 24 in
    let weeks = days / 7 in
    if ltb seconds 60
    then "just now"
    else if ltb minutes 60
    then plural minutes "minute"
    else if ltb hours 24
    then plural hours "hour"
    else if ltb days 7
    then plural days "day"
    else plural weeks "week"

-- `(_tag_priority(t), t)`, in the order of tuples.
unfoldable pub tag_before : String → String → Bool
unfolding tag_priority
tag_before s t =
    if ltb (tag_priority s) (tag_priority t)
    then true
    else if ltb (tag_priority t) (tag_priority s)
    then false
    else text_leb s t

unfoldable pub sort_tags : List String → List String
unfolding tag_before sort sort_insert
sort_tags = sort tag_before

-- The dictionary of an item, as `item_to_dict` builds it and as a stored payload gives it back: a
-- key that is missing or null is `none`.
pub record ItemDict : Type 0 where
  pub id : Option String
  pub title : Option String
  pub summary : Option String
  pub url : Option String
  pub source : Option String
  pub source_url : Option String
  pub published : Option String
  pub time_ago : Option String
  pub tags : Option (List String)
  pub cves : Option (List String)
  pub severity : Option String
  pub urgent : Option Bool
  pub kev : Option Bool
  pub epss_score : Option ℕ
  pub osv_affected : Option (List String)
  pub osv_fixed : Option (List String)
  pub osv_severity : Option String
  pub patch_status : Option String
  pub is_sample : Option Bool

-- `datetime.isoformat` and `datetime.fromisoformat`; `none` is a `ValueError`.
pub record Iso : Type 0 where
  pub isoformat : DateTime → String
  pub fromisoformat : String → Option DateTime

abbrev pub map_option {ℓ κ} : {A : Type ℓ} {B : Type κ} → (A → B) → Option A → Option B
map_option f none = none
map_option f (some a) = some (f a)

abbrev pub or_false : Option Bool → Bool
or_false none = false
or_false (some b) = b

abbrev pub text_or_none : Option String → String → String
text_or_none none d = d
text_or_none (some s) d = text_or s d

abbrev pub list_or_nil : Option (List String) → List String
list_or_nil none = []
list_or_nil (some l) = l

module _ (iso : Iso) where
  -- `now` is aware. `-` on numbers stops at zero, as the `max(0, ...)` of the source does.
  unfoldable pub item_to_dict : FeedItem → DateTime → ItemDict
  unfolding ensure_aware time_ago sort_tags
  item_to_dict item now =
      let published = map_option ensure_aware item.published in
      let seconds = map_option (λ (p : DateTime). (utc now - utc p) / 1_000_000) published in
      record {
        id = some item.id;
        title = some item.title;
        summary = some item.summary;
        url = some item.url;
        source = some item.source;
        source_url = some item.source_url;
        published = map_option iso.isoformat published;
        time_ago = map_option time_ago seconds;
        tags = some (sort_tags item.tags);
        cves = some item.cves;
        severity = some item.severity;
        urgent = some item.urgent;
        kev = some item.kev;
        epss_score = item.epss_score;
        osv_affected = some item.osv_affected;
        osv_fixed = some item.osv_fixed;
        osv_severity = item.osv_severity;
        patch_status = some item.patch_status;
        is_sample = some item.is_sample;
      }

  -- `if published: try ... except ValueError`
  unfoldable pub parse_published : Option String → Option DateTime
  unfolding ensure_aware
  parse_published none = none
  parse_published (some text) =
      if is_blank text
      then none
      else map_option ensure_aware (iso.fromisoformat (replace_char "Z" "+00:00" text))

  -- `none` is the `KeyError` of a payload with no id.
  unfoldable pub item_from_dict : ItemDict → Option FeedItem
  unfolding parse_published
  item_from_dict dict =
      map_option
        (λ (id : String). record {
          id = id;
          title = text_or_none dict.title "";
          summary = text_or_none dict.summary "";
          url = text_or_none dict.url "";
          source = text_or_none dict.source "";
          source_url = text_or_none dict.source_url "";
          published = parse_published dict.published;
          tags = uniq (list_or_nil dict.tags);
          cves = list_or_nil dict.cves;
          severity = text_or_none dict.severity "unknown";
          urgent = or_false dict.urgent;
          kev = or_false dict.kev;
          epss_score = dict.epss_score;
          is_sample = or_false dict.is_sample;
          osv_affected = list_or_nil dict.osv_affected;
          osv_fixed = list_or_nil dict.osv_fixed;
          osv_severity = dict.osv_severity;
          patch_status = text_or_none dict.patch_status "unknown";
        })
        dict.id
