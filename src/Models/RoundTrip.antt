-- ===== src/Models/RoundTrip.antt =====
-- A stored payload gives the item back.
use sredevopsorg_sec_feed.Prelude.{ℕ, String, ◌≡◌, refl, false, Option, none, some, List}
use sredevopsorg_sec_feed.Prelude.Int.{pos}
use sredevopsorg_sec_feed.Prelude.Sets.{Uniq, uniq, uniq_of_Uniq, Uniq-sort}
use sredevopsorg_sec_feed.Prelude.Texts.{text_or, is_blank, has_char, replace_char_absent}
use sredevopsorg_sec_feed.Models.{
  DateTime, naive, aware, ensure_aware, FeedItem, tag_before, sort_tags, Iso, map_option,
  item_to_dict, parse_published, item_from_dict,
}

-- What the code relies on in the ISO format of a UTC time: it is not empty, is written with an
-- offset and no `Z`, and reads back.
pub record IsLawful (iso : Iso) : Type 0 where
  pub filled : (t : ℕ) → is_blank (iso.isoformat (aware t (pos 0))) ≡ false
  pub no_z : (t : ℕ) → has_char "Z" (iso.isoformat (aware t (pos 0))) ≡ false
  pub reads_back :
      (t : ℕ) → iso.fromisoformat (iso.isoformat (aware t (pos 0))) ≡ some (aware t (pos 0))

-- The item with its publication time in UTC, its tags in display order, and no empty rating.
abbrev pub normal : FeedItem → FeedItem
normal item = record item {
  published = map_option ensure_aware item.published;
  tags = sort_tags item.tags;
  severity = text_or item.severity "unknown";
  patch_status = text_or item.patch_status "unknown";
}

text_or_blank : (s : String) → text_or s "" ≡ s
text_or_blank String.[] = refl
text_or_blank (String.◌∷◌ c s) = refl

uniq-sort_tags : (tags : List String) → Uniq tags → uniq (sort_tags tags) ≡ sort_tags tags
unfolding sort_tags
uniq-sort_tags tags u = uniq_of_Uniq (sort_tags tags) (Uniq-sort tag_before tags u)

module _ (iso : Iso) (law : IsLawful iso) where
  parse_published-isoformat :
      (p : Option DateTime)
      → parse_published iso (map_option iso.isoformat (map_option ensure_aware p))
        ≡ map_option ensure_aware p
  unfolding parse_published ensure_aware
  parse_published-isoformat none = refl
  parse_published-isoformat (some (naive t)) =
      rw (law.filled t, replace_char_absent "Z" "+00:00" _ (law.no_z t), law.reads_back t)
  parse_published-isoformat (some (aware t o)) =
      rw (law.filled t, replace_char_absent "Z" "+00:00" _ (law.no_z t), law.reads_back t)

  -- For a lawful ISO format, an item with no tag twice, written to a dictionary at any time and
  -- read again, is the same item with its time in UTC, its tags sorted, and an empty severity or
  -- patch status replaced by "unknown".
  pub item_from_dict-to_dict :
      (item : FeedItem) (now : DateTime)
      → Uniq item.tags
      → item_from_dict iso (item_to_dict iso item now) ≡ some (normal item)
  unfolding item_from_dict item_to_dict
  item_from_dict-to_dict item now u = cc (
    parse_published-isoformat item.published,
    uniq-sort_tags item.tags u,
    text_or_blank item.title,
    text_or_blank item.summary,
    text_or_blank item.url,
    text_or_blank item.source,
    text_or_blank item.source_url,
  )
