-- ===== src/Web/Clients.antt =====
-- The identity of a client and its rate limit: `_client_key` and `_rate_limit`.
use sredevopsorg_sec_feed.Prelude.{
  ℕ, ◌/◌, String, Bool, not, Option, none, some, List, [], ◌∷◌, map, select, if◌then◌else◌,
}
use sredevopsorg_sec_feed.Prelude.Texts.{is_blank, split_on, decimal}
use sredevopsorg_sec_feed.Runtime.{TextOps}
use sredevopsorg_sec_feed.RateLimit.{RateLimiter, check}

-- What `_client_key` reads of a request: the header `x-forwarded-for`, and the socket's peer.
pub record Request : Type 0 where
  pub forwarded_for : Option String
  pub client_host : Option String

-- An `HTTPException`.
pub record HttpError : Type 0 where
  pub status_code : ℕ
  pub detail : String
  pub retry_after : String

abbrev pub last_of : String → List String → String
last_of default [] = default
last_of default (x ∷ xs) = last_of x xs

abbrev pub host_or_unknown : Option String → String
host_or_unknown none = "unknown"
host_or_unknown (some host) = host

module _ (ops : TextOps) where
  abbrev pub is_hop : String → Bool
  is_hop hop = not (is_blank (ops.strip hop))

  abbrev pub hops : String → List String
  hops forwarded = map ops.strip (select is_hop (split_on "," forwarded))

  -- `hops[-1]` if there is one, and the peer otherwise.
  abbrev pub forwarded_key : String → Option String → String
  forwarded_key forwarded client_host = last_of (host_or_unknown client_host) (hops forwarded)

  unfoldable pub client_key : Bool → Request → String
  client_key trust_proxy request =
      if trust_proxy
      then elim request.forwarded_for [
        | none ↦ host_or_unknown request.client_host
        | some forwarded ↦
            if is_blank forwarded
            then host_or_unknown request.client_host
            else forwarded_key forwarded request.client_host
      ]
      else host_or_unknown request.client_host

  -- `ticks` is the number of clock ticks in a second.
  unfoldable pub rate_limit : ℕ → Bool → Request → ℕ → RateLimiter → RateLimiter × Option HttpError
  unfolding client_key check
  rate_limit ticks trust_proxy request timestamp limiter =
      let (limiter', granted) = check limiter (client_key trust_proxy request) timestamp in
      if granted then (limiter', none) else (
        limiter',
        some (record {
          status_code = 429;
          detail = "Too many requests";
          retry_after = decimal (limiter.window_seconds / ticks);
        }),
      )
