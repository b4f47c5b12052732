-- ===== src/Fetcher/Newest.antt =====
-- What the NVD and GHSA fetchers (app/fetcher.py) share: the answer of an API in JSON, and the sort
-- by date with the cut to `max_items`.
use mathlib.Core.List.{Perm}
use sredevopsorg_sec_feed.Prelude.{
  ℕ, String, ◌≤◌, ◌≡◌, refl, ◌⊎◌, inl, inr, Bool, true, false, ◌&&◌, not, Option, none, some, List,
  [], ◌++◌, length, length-take-le, take, any, All, leb, arith, if◌then◌else◌, Bool-cases,
}
use sredevopsorg_sec_feed.Prelude.Sort.{sort, IsSorted, IsSorted-take, sort-IsSorted, sort-perm}
use sredevopsorg_sec_feed.Prelude.Cut.{
  after_first, take-after_first, take_before-after_first, after_first_or_full,
}
use sredevopsorg_sec_feed.Prelude.Results.{Result, ok, err, ◌>>=◌, Result-cases}
use sredevopsorg_sec_feed.Models.{DateTime, naive, aware, utc, datetime_min, FeedItem}
use sredevopsorg_sec_feed.Fetcher.Gather.{Error, root, FetchResult, fetched, skipped, raised}
use sredevopsorg_sec_feed.Fetcher.Rss.{Response, Answer, answered, failed, is_success}

-- `client.get`, the exception of `raise_for_status`, and `resp.json()`, with its exception.
pub record RestClient (N B J : Type 0) : Type 0 where
  pub get : String → List (String × String) → N → N × Answer B
  pub status_error : Response B → Error
  pub json : B → Option J
  pub json_error : B → Error

module _ {N B J : Type 0} (client : RestClient N B J) where
  -- `resp.raise_for_status()` and `resp.json()`.
  unfoldable pub read_json : Response B → Result Error J
  read_json resp =
      if is_success resp.status
      then elim (client.json resp.content) [
        | none ↦ err (client.json_error resp.content)
        | some j ↦ ok j
      ]
      else err (client.status_error resp)

  abbrev pub answer_json : Answer B → Result Error J
  answer_json (answered resp) = read_json resp
  answer_json (failed e) = err e

-- `item.published or datetime.min.replace(tzinfo=timezone.utc)`
abbrev pub date_key : FeedItem → DateTime
date_key item = elim item.published [ none ↦ datetime_min | some t ↦ t ]

abbrev pub is_naive : DateTime → Bool
is_naive (naive wall) = true
is_naive (aware moment offset) = false

-- Python does not compare a naive and an aware time.
unfoldable pub has_mixed_dates : List FeedItem → Bool
has_mixed_dates items =
    any (λ i. is_naive (date_key i)) items && any (λ i. not (is_naive (date_key i))) items

abbrev pub newer_first : FeedItem → FeedItem → Bool
newer_first a b = leb (utc (date_key b)) (utc (date_key a))

abbrev pub mixed_error : Error
mixed_error = root (record {
  kind = "TypeError";
  message = "can't compare offset-naive and offset-aware datetimes";
  is_timeout = false;
  is_transport = false;
})

-- `items.sort(key=..., reverse=True)` and `items[:max_items]`. A list with times of both sorts
-- has two that the sort must compare.
unfoldable pub newest : ℕ → List FeedItem → Result Error (List FeedItem)
unfolding has_mixed_dates
newest n items =
    if has_mixed_dates items then err mixed_error else ok (take n (sort newer_first items))

-- The `n` newest of `items`: the others, `dropped`, are not newer than one of them, and there are
-- others only if `n` are kept.
pub record IsNewest (n : ℕ) (items kept : List FeedItem) : Type 0 where
  pub dropped : List FeedItem
  pub all : Perm (kept ++ dropped) items
  pub sorted : IsSorted newer_first kept
  pub older : All (λ a. All (λ b. newer_first a b ≡ true) dropped) kept
  pub short : length kept ≤ n
  pub full : (dropped ≡ []) ⊎ (length kept ≡ n)

pub take-sort-IsNewest :
    (n : ℕ) (items : List FeedItem) → IsNewest n items (take n (sort newer_first items))
take-sort-IsNewest n items =
    let sorted =
      sort-IsSorted newer_first (λ a b h. ground arith) (λ a b c h k. ground arith) items in
    record {
      dropped = after_first n (sort newer_first items);
      all = rw (take-after_first n (sort newer_first items)) (sort-perm newer_first items);
      sorted = IsSorted-take newer_first n (sort newer_first items) sorted;
      older = take_before-after_first newer_first n (sort newer_first items) sorted;
      short = length-take-le n (sort newer_first items);
      full = after_first_or_full n (sort newer_first items);
    }

-- What the sort and the cut come to.
abbrev pub Sorts : ℕ → List FeedItem → Result Error (List FeedItem) → Type 0
Sorts n items (ok kept) = (has_mixed_dates items ≡ false) × IsNewest n items kept
Sorts n items (err e) = (has_mixed_dates items ≡ true) × (e ≡ mixed_error)

pub newest-Sorts : (n : ℕ) (items : List FeedItem) → Sorts n items (newest n items)
unfolding newest
newest-Sorts n items = elim (Bool-cases (has_mixed_dates items)) [
  | inl e ↦ rw e (e, refl)
  | inr e ↦ rw e (e, take-sort-IsNewest n items)
]

-- The result of a fetcher.
abbrev pub as_fetched : Result Error (List FeedItem) → FetchResult
as_fetched (ok items) = fetched items
as_fetched (err e) = raised e

-- The result for the items that were found, or for an exception before the sort.
abbrev pub Returns : ℕ → Result Error (List FeedItem) → FetchResult → Type 0
Returns n (err e) result = result ≡ raised e
Returns n (ok items) skipped = ⊥
Returns n (ok items) (fetched kept) = (has_mixed_dates items ≡ false) × IsNewest n items kept
Returns n (ok items) (raised e) = (has_mixed_dates items ≡ true) × (e ≡ mixed_error)

pub newest-Returns :
    (n : ℕ) (found : Result Error (List FeedItem))
    → Returns n found (as_fetched (found >>= newest n))
newest-Returns n (err e) = refl
newest-Returns n (ok items) =
    let sorts = newest-Sorts n items in
    elim (Result-cases (newest n items)) [
      | inl (kept, e) ↦ rw e (rw e at sorts)
      | inr (error, e) ↦ rw e (rw e at sorts)
    ]

-- A property of what was found, if there is no exception.
abbrev pub IfOk {κ} : {A : Type 0} → (A → Type κ) → Result Error A → Type κ
IfOk P (ok a) = P a
IfOk P (err e) = Unit

pub IfOk-bind {κ} :
    {A B : Type 0} (P : B → Type κ) (r : Result Error A) (f : A → Result Error B)
    → ((a : A) → IfOk P (f a))
    → IfOk P (r >>= f)
IfOk-bind P (ok a) f h = h a
IfOk-bind P (err e) f h = tt
