-- ===== src/Web/Forged.antt =====
-- A client behind the proxy cannot choose its identity: whatever it sends as X-Forwarded-For, the
-- proxy appends the peer's address, and that is the key.
use sredevopsorg_sec_feed.Prelude.{
  Bool-cases, inl, inr, String, ◌<>◌, ◌≡◌, refl, ap, ◌∙◌, true, false, Option, none, some, List, [],
  ◌∷◌, ◌++◌, map, select, nat_eq, arith, select-append,
}
use Prim.Native.Char.{Char, code}
use mathlib.Core.List.{map-append}
use text.Mathlib.TextLemmas.{nil-append, cons-append}
use sredevopsorg_sec_feed.Prelude.Texts.{is_blank, split_on, has_char}
use sredevopsorg_sec_feed.Runtime.{TextOps}
use sredevopsorg_sec_feed.Web.Clients.{last_of, host_or_unknown, is_hop, client_key}

split_on_cons :
    (t : String) → (first : String) × (rest : List String) × (split_on "," t ≡ first ∷ rest)
split_on_cons String.[] = ("", [], refl)
split_on_cons (String.◌∷◌ c t) =
    let (first, rest, e) = split_on_cons t in
    elim (Bool-cases (nat_eq (code ",") (code c))) [
      | inl sep ↦ rw sep ("", split_on "," t, refl)
      | inr other ↦ rw (other, e) (String.◌∷◌ c first, rest, refl)
    ]

split_on_absent : (t : String) → has_char "," t ≡ false → split_on "," t ≡ t ∷ []
split_on_absent String.[] h = refl
split_on_absent (String.◌∷◌ c t) h = ground (arith, split_on_absent t)

one_char : (c : Char) (t : String) → String.◌∷◌ c "" <> t ≡ String.◌∷◌ c t
one_char c t = cons-append c "" t ∙ ap (String.◌∷◌ c) (nil-append t)

split_step :
    (c : Char) (s t first : String) (rest : List String)
    → split_on "," s ≡ first ∷ rest
    → split_on "," (s <> String.◌∷◌ "," t) ≡ split_on "," s ++ split_on "," t
    → split_on "," (String.◌∷◌ c (s <> String.◌∷◌ "," t))
      ≡ split_on "," (String.◌∷◌ c s) ++ split_on "," t
split_step c s t first rest e ih = elim (Bool-cases (nat_eq (code ",") (code c))) [
  | inl sep ↦ rw (sep, ih) refl
  | inr other ↦ rw (other, ih, e) refl
]

-- A separator in the middle: the parts of what is before it, and those of what is behind.
split_on-append :
    (s t : String) → split_on "," (s <> String.◌∷◌ "," t) ≡ split_on "," s ++ split_on "," t
split_on-append String.[] t = rw nil-append refl
split_on-append (String.◌∷◌ c s) t =
    let (first, rest, e) = split_on_cons s in
    rw (cons-append c s (String.◌∷◌ "," t)) (split_step c s t first rest e (split_on-append s t))

not_blank : (c : Char) (s t : String) → is_blank (s <> String.◌∷◌ c t) ≡ false
not_blank c String.[] t = rw nil-append refl
not_blank c (String.◌∷◌ d s) t = rw (cons-append d s (String.◌∷◌ c t)) refl

last_of-append : (d x : String) (xs : List String) → last_of d (xs ++ x ∷ []) ≡ x
last_of-append d x [] = refl
last_of-append d x (y ∷ xs) = last_of-append y x xs

-- `$proxy_add_x_forwarded_for`: the address behind what the client sent, if it sent something.
abbrev pub proxied : Option String → String → String
proxied none addr = addr
proxied (some sent) addr = sent <> "," <> " " <> addr

module _ (ops : TextOps) where
  -- An address as the proxy writes it: nothing to strip but the space in front, and no comma.
  pub record IsAddress (addr : String) : Type 0 where
    pub spaced : ops.strip (" " <> addr) ≡ addr
    pub bare : ops.strip addr ≡ addr
    pub not_blank : is_blank addr ≡ false
    pub no_comma : has_char "," addr ≡ false

  -- Behind the proxy a client cannot choose its identity: whatever it sent as X-Forwarded-For, with
  -- the address that the proxy appended the key is that address (one with nothing to strip and no
  -- comma).
  pub client_key_lem :
      (sent peer : Option String) (addr : String)
      → IsAddress addr
      → client_key ops true
          (record { forwarded_for = some (proxied sent addr); client_host = peer })
        ≡ addr
  unfolding client_key
  client_key_lem none peer addr a =
      rw (a.not_blank, split_on_absent addr a.no_comma, a.bare, a.not_blank) a.bare
  client_key_lem (some sent) peer addr a =
      let header = one_char "," (" " <> addr) in
      let spaced : has_char "," (" " <> addr) ≡ false = rw (one_char " " addr) a.no_comma in
      rw
        (
          header,
          not_blank "," sent (" " <> addr),
          split_on-append sent (" " <> addr),
          split_on_absent (" " <> addr) spaced,
          select-append (is_hop ops) (split_on "," sent) ((" " <> addr) ∷ []),
          a.spaced,
          a.not_blank,
          map-append ops.strip (select (is_hop ops) (split_on "," sent)) ((" " <> addr) ∷ []),
          a.spaced,
        )
        (last_of-append (host_or_unknown peer) addr
          (map ops.strip (select (is_hop ops) (split_on "," sent))))
