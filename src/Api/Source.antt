-- ===== src/Api/Source.antt =====
-- internal/api/router.go: the key of a submission, and what a magnet link tells.
use tor_boxarr.Api.Library.{Library, Url}
use tor_boxarr.Api.Words.{normalize_info_hash}
use tor_boxarr.Base.{
  Bool, List, Option, Str, [], drop, equal_fold, has_prefix, if◌then◌else◌, is_empty, join_by,
  length, lit, map, none, some, sort_by, str_eq, text_le, to_lower, trim_space, upper_byte, ◌++◌,
  ◌==◌, ◌∷◌,
}
use tor_boxarr.Model.{ClientKind, SourceType, qbit, sab}
use tor_boxarr.Worker.Helpers.{source_text}

-- The pairs of a query, sorted by key and then by value.
abbrev pub pairs_of : Str × List Str → List (Str × Str)
pairs_of (key, items) = map (λ item. (key, item)) (sort_by text_le items)

unfoldable pub all_pairs : List (Str × List Str) → List (Str × Str)
all_pairs [] = []
all_pairs (group ∷ groups) = pairs_of group ++ all_pairs groups

unfoldable pub sorted_pairs : List (Str × List Str) → List (Str × Str)
sorted_pairs groups = all_pairs (sort_by (λ a b. text_le a.0 b.0) groups)

abbrev pub canonical : Library → Url → Url
canonical l u = record u {
  fragment = [];
  raw_query = l.encode (sorted_pairs (l.query_of u.raw_query));
}

abbrev pub normalized_url : Library → Str → Option Url → Str
normalized_url l v none = to_lower v
normalized_url l v (some u) = to_lower (l.url_text (canonical l u))

unfoldable pub normalize_source_uri : Library → Str → Str
normalize_source_uri l v =
    if is_empty (trim_space v)
    then []
    else normalized_url l (trim_space v) (l.parse_url (trim_space v))

unfoldable pub client_kind_text : ClientKind → Str
client_kind_text qbit = lit "qbit"
client_kind_text sab = lit "sab"

unfoldable pub submission_fingerprint :
    Library → SourceType → ClientKind → Str → Str → Str → Str → Str
submission_fingerprint l source_type client_kind category source_uri info_hash payload_digest =
    l.sha1_hex (
      join_by b'|' (
        source_text source_type
        ∷ client_kind_text client_kind
        ∷ trim_space category
        ∷ normalize_source_uri l source_uri
        ∷ normalize_info_hash info_hash
        ∷ trim_space payload_digest
        ∷ []))

abbrev pub hex_or_none : Str → Option Str → Str
hex_or_none v none = []
hex_or_none v (some bytes) = v

abbrev pub encoded : Library → Option Str → Str
encoded l none = []
encoded l (some bytes) = to_lower (l.hex_encode bytes)

unfoldable pub normalize_btih : Library → Str → Str
normalize_btih l v =
    let v = trim_space v in
    if length v == 40
    then hex_or_none (to_lower v) (l.hex_decode (to_lower v))
    else if length v == 32
    then encoded l (l.base32_decode (map upper_byte v))
    else []

abbrev pub values_of : Str → List (Str × List Str) → List Str
values_of key [] = []
values_of key ((k, vs) ∷ groups) = if str_eq k key then vs else values_of key groups

unfoldable pub btih_prefix : Str
btih_prefix = lit "urn:btih:"

-- The loop over the values of `xt`: the first with the prefix.
unfoldable pub btih_of : Library → List Str → Option Str
btih_of l [] = none
btih_of l (xt ∷ xts) =
    if has_prefix (to_lower (trim_space xt)) btih_prefix
    then some (normalize_btih l (drop (length btih_prefix) xt))
    else btih_of l xts

abbrev pub is_magnet : Url → Bool
is_magnet u = equal_fold u.scheme (lit "magnet")

abbrev pub or_plain : Library → Str → Option Str → Str
or_plain l source none = normalize_btih l source
or_plain l source (some h) = h

abbrev pub magnet_hash : Library → Option Url → Option Str
magnet_hash l none = none
magnet_hash l (some u) =
    if is_magnet u then btih_of l (values_of (lit "xt") (l.query_of u.raw_query)) else none

unfoldable pub extract_info_hash : Library → Str → Str
extract_info_hash l source =
    let source = trim_space source in
    if is_empty source then [] else or_plain l source (magnet_hash l (l.parse_url source))

abbrev pub first_value : List Str → Str
first_value [] = []
first_value (v ∷ vs) = v

abbrev pub name_in : Library → Option Url → Str
name_in l none = []
name_in l (some u) =
    if is_magnet u
    then trim_space (first_value (values_of (lit "dn") (l.query_of u.raw_query)))
    else []

unfoldable pub magnet_name : Library → Str → Str
magnet_name l source = name_in l (l.parse_url (trim_space source))
