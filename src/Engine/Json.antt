-- ===== src/Engine/Json.antt =====
-- The values of `JSON.parse`, and the tests that the engine makes of an `unknown` value.
use edgeproc_browser.Base.{ℕ, ◌-◌, ◌^◌, Bool, true, false, Option, none, some, List, [], ◌∷◌, leb}
use edgeproc_browser.Base.{if◌then◌else◌, Text, text_eq}

-- Number.MAX_SAFE_INTEGER
abbrev pub max_safe_integer : ℕ
max_safe_integer = 2 ^ 53 - 1

-- A number: a whole one in the safe range, `negative n` being -(n + 1), or any other, which its
-- printed form identifies. Minus zero is `whole 0`, which nothing here tells from it.
pub data Number : Type 0 where
  whole negative : ℕ → Number
  other : Text → Number

-- An object has each key once; the members stand in the order of `Object.keys`.
mutual
  pub data Json : Type 0 where
    null : Json
    boolean : Bool → Json
    number : Number → Json
    string : Text → Json
    array : Items → Json
    object : Members → Json

  pub data Items : Type 0 where
    nil : Items
    cons : Json → Items → Items

  pub data Members : Type 0 where
    end : Members
    member : Text → Json → Members → Members

abbrev pub items : Items → List Json
items nil = []
items (cons v vs) = v ∷ items vs

-- value[key]: `none` is undefined
unfoldable pub property : Members → Text → Option Json
property end k = none
property (member j v ms) k = if text_eq j k then some v else property ms k

-- Number.isSafeInteger(value) && value >= 0, with the number
unfoldable pub safe_natural : Option Json → Option ℕ
safe_natural (some (number (whole n))) = if leb n max_safe_integer then some n else none
safe_natural _ = none

-- typeof value === "string", with the string
unfoldable pub as_string : Option Json → Option Text
as_string (some (string s)) = some s
as_string _ = none

-- value === undefined || value === null
unfoldable pub is_absent : Option Json → Bool
is_absent none = true
is_absent (some null) = true
is_absent _ = false

-- typeof value === "object" && value !== null && !Array.isArray(value), with the members
unfoldable pub as_object : Json → Option Members
as_object (object ms) = some ms
as_object _ = none
