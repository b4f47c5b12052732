-- ===== src/Enrich/Kev/Recent.antt =====
-- What the KEV source publishes of a catalog.
use mathlib.Core.List.{Perm}
use mathlib.Core.List.Perm
use sredevopsorg_sec_feed.Prelude.Cut.{Among, after_first, take-after_first, none_after}
use sredevopsorg_sec_feed.Prelude.{
  String, some, false, select, if◌then◌else◌, ◌⊎◌, ◌<◌, ℕ, ◌≡◌, refl, inl, inr, List, [], ◌∷◌, ◌++◌,
  take, All, All-take, arith, length, length-take-le, ◌≤◌, Bool-cases,
}
use sredevopsorg_sec_feed.Prelude.Dict.{Dict}
use sredevopsorg_sec_feed.Prelude.Sort.{
  IsSorted, IsSorted-take, sort, sort_insert, length-sort, All-sort, sort-IsSorted,
}
use sredevopsorg_sec_feed.Prelude.Sets.{Uniq}
use sredevopsorg_sec_feed.Prelude.Texts.{is_blank}
use sredevopsorg_sec_feed.Models.{FeedItem}
use sredevopsorg_sec_feed.Sources.{Source}
use sredevopsorg_sec_feed.Fetcher.Patch.{text_or_empty}
use sredevopsorg_sec_feed.Fetcher.Newest.{newer_first}
use sredevopsorg_sec_feed.Enrich.Kev.{
  KevEntry, KevOps, added_later, kev_added_at, kev_since, kev_item, kev_items, recent_kev,
}
use sredevopsorg_sec_feed.Enrich.Kev.Items.{
  IsKevItem, Since, kev_since-Since, kev_items-IsKevItem, kev_items-IsSorted, length-kev_items,
  is_recent, length-kev_since, kev_items-since-Among,
}

module _ (k : KevOps) where
  -- Making the items of a list, entry by entry.
  abbrev front : Source → ℕ × KevEntry → List FeedItem → List FeedItem
  front source p items =
      if is_blank (k.ops.upper (text_or_empty p.1.cve_id))
      then items
      else kev_item k source p.0 p.1 ∷ items

  module _ (source : Source) where
    front-perm :
        (p : ℕ × KevEntry) (items others : List FeedItem)
        → Perm items others
        → Perm (front source p items) (front source p others)
    front-perm p items others h =
        elim (Bool-cases (is_blank (k.ops.upper (text_or_empty p.1.cve_id)))) [
          | inl e ↦ rw e h
          | inr e ↦ rw e (Perm.cons (kev_item k source p.0 p.1) h)
        ]

    front-swap :
        (p q : ℕ × KevEntry) (items : List FeedItem)
        → Perm (front source q (front source p items)) (front source p (front source q items))
    front-swap p q items = elim (Bool-cases (is_blank (k.ops.upper (text_or_empty p.1.cve_id)))) [
      | inl e ↦ rw e (Perm.refl _)
      | inr e ↦ elim (Bool-cases (is_blank (k.ops.upper (text_or_empty q.1.cve_id)))) [
        | inl f ↦ rw (e, f) (Perm.refl _)
        | inr f ↦ rw (e, f) (Perm.swap _ _ items)
      ]
    ]

    kev_items-sort_insert :
        (p : ℕ × KevEntry) (entries : List (ℕ × KevEntry))
        → Perm
            (kev_items k source (sort_insert added_later p entries))
            (front source p (kev_items k source entries))
    unfolding kev_items sort_insert
    kev_items-sort_insert p [] = Perm.refl _
    kev_items-sort_insert p (q ∷ entries) = elim (Bool-cases (added_later p q)) [
      | inl e ↦ rw e (Perm.refl _)
      | inr e ↦ rw e (
          Perm.trans (front-perm q _ _ (kev_items-sort_insert p entries))
            (front-swap p q (kev_items k source entries)))
    ]

    kev_items-sort :
        (entries : List (ℕ × KevEntry))
        → Perm (kev_items k source (sort added_later entries)) (kev_items k source entries)
    unfolding kev_items sort
    kev_items-sort [] = Perm.refl _
    kev_items-sort (p ∷ entries) =
        Perm.trans (kev_items-sort_insert p (sort added_later entries))
          (front-perm p _ _ (kev_items-sort entries))

    kev_items-append :
        (entries others : List (ℕ × KevEntry))
        → kev_items k source (entries ++ others)
          ≡ kev_items k source entries ++ kev_items k source others
    unfolding kev_items
    kev_items-append [] others = refl
    kev_items-append (p ∷ entries) others = ground (arith, kev_items-append entries others)

    -- What the source publishes of a catalog: at most `max_items` items, newest first, each as
    -- `IsKevItem` says. With `left_out` they are a list that has the item of each entry with an
    -- identifier and a date since the cutoff, and none is left out unless there are more entries
    -- with such a date than `max_items`.
    pub record IsRecent (cutoff : ℕ) (catalog : Dict KevEntry) (items : List FeedItem)
        : Type 0 where
      pub short : length items ≤ source.max_items
      pub sorted : IsSorted newer_first items
      pub confirmed : All (IsKevItem source cutoff) items
      pub left_out : List FeedItem
      pub every : List FeedItem
      pub split : Perm (items ++ left_out) every
      pub has_each :
          (cve : String) (entry : KevEntry) (added : ℕ)
          → Among (cve, entry) catalog
          → is_blank (k.ops.upper (text_or_empty entry.cve_id)) ≡ false
          → kev_added_at k entry ≡ some added
          → cutoff ≤ added
          → Among (kev_item k source added entry) every
      pub complete :
          (left_out ≡ [])
          ⊎ (source.max_items
              < length (select (λ (e : String × KevEntry). is_recent k cutoff e.1) catalog))

    -- If the source's tags are distinct, the KEV source gives at most max_items items, newest
    -- first, each naming the source, live, with a title, a severity of the scale and distinct tags
    -- that have "kev" among them, urgent, confirmed as exploited, and dated since the cutoff; each
    -- entry of the catalog with an identifier and a date not before the cutoff has its item among
    -- these, unless more entries than max_items have such a date.
    pub recent_kev-IsRecent :
        Uniq source.tags
        → (cutoff : ℕ) (catalog : Dict KevEntry)
        → IsRecent cutoff catalog (recent_kev k source cutoff catalog)
    unfolding recent_kev
    recent_kev-IsRecent u cutoff catalog =
        let found = kev_since k cutoff catalog in
        let sorted = sort added_later found in
        let kept = take source.max_items sorted in
        let rest = after_first source.max_items sorted in
        record {
          short =
              omega
                (arith, length-kev_items k source u kept, length-take-le source.max_items sorted);
          sorted = kev_items-IsSorted k source u kept (
              IsSorted-take added_later source.max_items sorted (
                sort-IsSorted added_later (λ a b h. ground arith) (λ a b c h i. ground arith)
                  found));
          confirmed = kev_items-IsKevItem k source u cutoff kept (
              All-take (Since cutoff) source.max_items sorted
                (All-sort added_later (Since cutoff) found (kev_since-Since k cutoff catalog)));
          left_out = kev_items k source rest;
          every = kev_items k source found;
          split =
              rw (← kev_items-append kept rest, take-after_first source.max_items sorted)
                (kev_items-sort found);
          has_each = λ cve entry added h e f c.
              kev_items-since-Among k source cutoff added cve entry catalog h e f c;
          complete = elim (none_after source.max_items sorted) [
            | inl e ↦ inl (rw (e, kev_items) refl)
            | inr h ↦
                inr (rw (← length-kev_since k cutoff catalog, ← length-sort added_later found) h)
          ];
        }
