-- ===== src/Engine/Canonical.antt =====
-- engine/canonical.ts: the bytes that a signature covers. `JSON.stringify` of a string and of a number,
-- and `TextEncoder`, are those of ECMAScript and the Encoding standard.
pub mod Order
use edgeproc_browser.Base.{
  ℕ, zero, suc, ◌+◌, ◌-◌, ◌*◌, ◌/◌, ◌%◌, Bool, true, false, ◌&&◌, ◌||◌, List, [], ◌∷◌, ◌++◌, map,
  ltb, leb, ◌==◌, if◌then◌else◌, Text, Bytes, codes, text_leb, join_with,
}
use edgeproc_browser.Base.Table.{contains}
use edgeproc_browser.Engine.Json.{
  Number, whole, negative, other, Json, Items, Members, null, boolean, number, string, array,
  object, nil, cons, end, member,
}
use edgeproc_browser.Engine.Platform.{hex_digit}

decimal_from : ℕ → ℕ → Text → Text
decimal_from zero n out = out
decimal_from (suc fuel) n out =
    let digits = (b'0' + n % 10) ∷ out in
    elim (n / 10 == 0) [ true ↦ digits | false ↦ decimal_from fuel (n / 10) digits ]

-- The decimal digits of a number, which has fewer of them than it counts, or one.
unfoldable pub decimal : ℕ → Text
unfolding decimal_from
decimal n = decimal_from (suc n) n []

unfoldable pub print_number : Number → Text
print_number (whole n) = decimal n
print_number (negative n) = b'-' ∷ decimal (n + 1)
print_number (other printed) = printed

abbrev is_high : ℕ → Bool
is_high u = leb 0xd800 u && leb u 0xdbff

abbrev is_low : ℕ → Bool
is_low u = leb 0xdc00 u && leb u 0xdfff

abbrev unicode_escape : ℕ → Text
unicode_escape u =
    92
    ∷ b'u'
    ∷ hex_digit (u / 4096 % 16)
    ∷ hex_digit (u / 256 % 16)
    ∷ hex_digit (u / 16 % 16)
    ∷ hex_digit (u % 16)
    ∷ []

-- One code unit inside a string literal, surrogates aside.
abbrev escape_unit : ℕ → Text
escape_unit u =
    if u == 34
    then 92 ∷ 34 ∷ []
    else if u == 92
    then 92 ∷ 92 ∷ []
    else if u == 8
    then 92 ∷ b'b' ∷ []
    else if u == 9
    then 92 ∷ b't' ∷ []
    else if u == 10
    then 92 ∷ b'n' ∷ []
    else if u == 12
    then 92 ∷ b'f' ∷ []
    else if u == 13
    then 92 ∷ b'r' ∷ []
    else if ltb u 32
    then unicode_escape u
    else u ∷ []

-- A surrogate that is in no pair is escaped.
abbrev escape_lone : ℕ → Text
escape_lone u = if is_high u || is_low u then unicode_escape u else escape_unit u

unfoldable pub escape : Text → Text
escape [] = []
escape (u ∷ []) = escape_lone u
escape (u ∷ v ∷ s) =
    let pair = u ∷ v ∷ escape s in
    let single = escape_lone u ++ escape (v ∷ s) in if is_high u && is_low v then pair else single

-- JSON.stringify of a string
unfoldable pub quote : Text → Text
quote s = 34 ∷ escape s ++ 34 ∷ []

-- A member of an object, rendered, beside its key.
abbrev pub Rendered : Type 0
Rendered = Text × Text

unfoldable pub insert_member : Rendered → List Rendered → List Rendered
insert_member m [] = m ∷ []
insert_member m (n ∷ ns) = if text_leb m.0 n.0 then m ∷ n ∷ ns else n ∷ insert_member m ns

-- Object.keys(value).sort(), each key with its rendered member
unfoldable pub sort_members : List Rendered → List Rendered
sort_members [] = []
sort_members (m ∷ ms) = insert_member m (sort_members ms)

abbrev pub texts : List Rendered → List Text
texts ms = map (λ m. m.1) ms

-- `{${members.join(",")}}`
unfoldable pub braced : List Rendered → Text
braced ms = b'{' ∷ join_with b',' (texts (sort_members ms)) ++ b'}' ∷ []

unfoldable mutual
  pub serialize : Json → Text
  serialize null = codes "null"
  serialize (boolean true) = codes "true"
  serialize (boolean false) = codes "false"
  serialize (number n) = print_number n
  serialize (string s) = quote s
  serialize (array vs) = b'[' ∷ join_with b',' (serialize_items vs) ++ b']' ∷ []
  serialize (object ms) = braced (serialize_members ms)

  pub serialize_items : Items → List Text
  serialize_items nil = []
  serialize_items (cons v vs) = serialize v ∷ serialize_items vs

  pub serialize_members : Members → List Rendered
  serialize_members end = []
  serialize_members (member k v ms) = (k, quote k ++ b':' ∷ serialize v) ∷ serialize_members ms

-- The members of which `exclude` does not name the key.
unfoldable pub without_keys : List Text → Members → Members
without_keys exclude end = end
without_keys exclude (member k v ms) =
    let rest = without_keys exclude ms in if contains exclude k then rest else member k v rest

-- One code point, as UTF-8.
abbrev encode_point : ℕ → Bytes
encode_point c =
    if ltb c 0x80
    then c ∷ []
    else if ltb c 0x800
    then (0xc0 + c / 64) ∷ (0x80 + c % 64) ∷ []
    else if ltb c 0x1_0000
    then (0xe0 + c / 4096) ∷ (0x80 + c / 64 % 64) ∷ (0x80 + c % 64) ∷ []
    else (0xf0 + c / 262144) ∷ (0x80 + c / 4096 % 64) ∷ (0x80 + c / 64 % 64) ∷ (0x80 + c % 64) ∷ []

-- A surrogate that is in no pair is replaced.
abbrev encode_lone : ℕ → Bytes
encode_lone u = if is_high u || is_low u then encode_point 0xfffd else encode_point u

-- new TextEncoder().encode(text)
unfoldable pub encode : Text → Bytes
encode [] = []
encode (u ∷ []) = encode_lone u
encode (u ∷ v ∷ s) =
    let pair = encode_point (0x1_0000 + (u - 0xd800) * 1024 + (v - 0xdc00)) ++ encode s in
    let single = encode_lone u ++ encode (v ∷ s) in if is_high u && is_low v then pair else single

-- The key whose assignment, `filtered[key] = …`, sets the prototype and makes no own key.
abbrev pub proto_key : Text
proto_key = codes "__proto__"

-- `canonicalBytes` of an object, with `exclude`
unfoldable pub canonical_bytes : Members → List Text → Bytes
canonical_bytes ms exclude = encode (serialize (object (without_keys (proto_key ∷ exclude) ms)))
