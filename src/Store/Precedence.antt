-- ===== src/Store/Precedence.antt =====
-- The order of the feed, column by column.
use sredevopsorg_sec_feed.Prelude.{
  String, ◌≡◌, refl, inl, inr, true, Option, none, some, List, [], ◌∷◌, All, All-map, Bool-cases,
  Option-cases, arith,
}
use sredevopsorg_sec_feed.Prelude.Sort.{IsSorted}
use sredevopsorg_sec_feed.Prelude.Texts.{text_leb, text_leb_total}
use sredevopsorg_sec_feed.Store.{Row}
use sredevopsorg_sec_feed.Store.Tables.{feed_order, newer}

-- `a` may stand before `b`: the later published time is first and a missing one last; of rows with
-- the same time the urgent ones are first, and of these with the same urgency the last seen.
pub record IsBefore (a b : Row) : Type 0 where
  pub missing_last : a.published ≡ none → b.published ≡ none
  pub latest_first :
      (t u : String) → a.published ≡ some t → b.published ≡ some u → text_leb u t ≡ true
  pub urgent_first : a.published ≡ b.published → b.urgent ≡ true → a.urgent ≡ true
  pub seen_first :
      a.published ≡ b.published → a.urgent ≡ b.urgent → text_leb b.last_seen a.last_seen ≡ true

text_leb_refl : (t : String) → text_leb t t ≡ true
text_leb_refl t = elim (Bool-cases (text_leb t t)) [ inl e ↦ e | inr e ↦ text_leb_total t t e ]

newer_refl : (t : Option String) → newer t t ≡ true
newer_refl none = refl
newer_refl (some t) = text_leb_refl t

feed_order-IsBefore : (a b : Row) → feed_order a b ≡ true → IsBefore a b
unfolding feed_order
feed_order-IsBefore a b h = record {
  missing_last = λ e. elim (Option-cases b.published) [
    | inl f ↦ f
    | inr (t, f) ↦ (let k = rw (e, feed_order, f) at h in ground arith)
  ];
  latest_first =
      λ t u e f. (let k = rw (e, feed_order, f) at h in ground (arith, text_leb_total t u));
  urgent_first =
      λ e u. (let k = rw (e, feed_order, newer_refl b.published, u) at h in ground arith);
  seen_first = λ e u. (let k = rw (e, feed_order, newer_refl b.published, u) at h in ground arith);
}

-- Each row may stand before all that follow it.
abbrev pub AreOrdered : List Row → Type 0
AreOrdered [] = Unit
AreOrdered (r ∷ rows) = All (IsBefore r) rows × AreOrdered rows

pub IsSorted-AreOrdered : (rows : List Row) → IsSorted feed_order rows → AreOrdered rows
IsSorted-AreOrdered [] h = tt
IsSorted-AreOrdered (r ∷ rows) h =
    (All-map _ _ (feed_order-IsBefore r) rows h.0, IsSorted-AreOrdered rows h.1)

pub later-IsBefore :
    (rows left : List Row)
    → All (λ a. All (λ b. feed_order a b ≡ true) left) rows
    → All (λ a. All (IsBefore a) left) rows
later-IsBefore rows left h = All-map _ _ (λ a k. All-map _ _ (feed_order-IsBefore a) left k) rows h
