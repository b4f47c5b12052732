-- ===== src/Config/Tests.antt =====
-- The settings that small environments give.
use sredevopsorg_sec_feed.Prelude.{
  String, ◌≡◌, refl, true, none, some, [], ◌∷◌, if◌then◌else◌, ◌==◌,
}
use sredevopsorg_sec_feed.Prelude.Int.{ℤ, pos, negsuc, ltb_ℤ}
use sredevopsorg_sec_feed.Prelude.Dict.{Dict, lookup}
use sredevopsorg_sec_feed.Prelude.Results.{err, is_ok}
use sredevopsorg_sec_feed.Fetcher.Inputs.{plain_ops}
use sredevopsorg_sec_feed.Config.{
  Platform, bad_pool_sizes, plaintext_to, csv, int_or, float_or, opt_int, bool_or, is_local_host,
  validate_db_endpoint, settings_of, from_env,
}

program : Unit {0}
unfolding csv int_or float_or opt_int bool_or is_local_host validate_db_endpoint settings_of
    from_env lookup
program = tt

-- A platform on which the floats are whole seconds, two numbers can be read, and each URL of the
-- tests has the host that it shows.
abbrev platform : Platform ℤ
platform = record {
  ops = plain_ops;
  parse_int = λ s. if s == "7" then some (pos 7) else if s == "-1" then some (negsuc 0) else none;
  parse_float = λ s. none;
  of_seconds = λ n. n;
  exceeds = λ a b. ltb_ℤ b a;
  hostname =
      λ url. some (some (if url == "postgresql://feed@db/feed" then "db" else "db.example.org"));
  is_file = λ path. path == "/etc/ca.pem";
  default_db = "data/feed.db";
}

abbrev local_env : Dict String
local_env = ("DATABASE_URL", "postgresql://feed@db/feed") ∷ ("DB_POOL_MAX_SIZE", "7") ∷ []

abbrev remote_env : Dict String
remote_env = ("DATABASE_URL", "postgresql://feed@db.example.org/feed") ∷ []

remote_is_rejected : from_env platform remote_env ≡ err (plaintext_to (some "db.example.org"))
unfolding program
remote_is_rejected = refl

remote_with_tls : is_ok (from_env platform (("DB_SSLMODE", "require") ∷ remote_env)) ≡ true
unfolding program
remote_with_tls = refl

-- A mode below `require` that is not the default is not rejected.
remote_without_tls : is_ok (from_env platform (("DB_SSLMODE", "disable") ∷ remote_env)) ≡ true
unfolding program
remote_without_tls = refl

negative_pool : from_env platform (("DB_POOL_MIN_SIZE", "-1") ∷ []) ≡ err bad_pool_sizes
unfolding program
negative_pool = refl

bad_number_is_default : int_or platform (some "many") (pos 120) ≡ pos 120
unfolding program
bad_number_is_default = refl

origins :
    csv platform (some "https://a.org,,https://b.org") ≡ "https://a.org" ∷ "https://b.org" ∷ []
unfolding program
origins = refl
