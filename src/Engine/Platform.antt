-- ===== src/Engine/Platform.antt =====
-- The code that the engine calls and that is not under src/: WebCrypto and @noble/ed25519, the
-- decoder of @hpcc-js/wasm-zstd, JSON.parse over TextDecoder. No law of them is assumed.
use edgeproc_browser.Base.{
  Option, Bool, none, some, ℕ, ltb, if◌then◌else◌, ◌+◌, ◌/◌, ◌%◌, [], ◌∷◌, Text, Bytes, ok, err,
}
use edgeproc_browser.Engine.Json.{Json}
use edgeproc_browser.Engine.Fault.{Result, signature}

pub record Platform : Type 0 where
  -- crypto.subtle.digest("SHA-256", bytes)
  pub digest : Bytes → Bytes
  -- the decoder on one whole input; `none` is an error that it throws
  pub decode : Bytes → Option Bytes
  -- key, message, base64 signature: atob, then WebCrypto or noble; `none` is an error
  pub ed25519 : Bytes → Bytes → Text → Option Bool
  -- JSON.parse(new TextDecoder().decode(bytes)); `none` is an error
  pub parse_json : Bytes → Option Json
  -- the same with a decoder that is fatal and keeps a byte order mark
  pub parse_json_strict : Bytes → Option Json

-- One lowercase hexadecimal digit.
abbrev pub hex_digit : ℕ → ℕ
hex_digit n = if ltb n 10 then b'0' + n else 87 + n

-- byte.toString(16).padStart(2, "0") for each byte
unfoldable pub hex : Bytes → Text
hex [] = []
hex (b ∷ bs) = hex_digit (b / 16) ∷ hex_digit (b % 16) ∷ hex bs

module _ (p : Platform) where
  unfoldable pub sha256_hex : Bytes → Text
  sha256_hex bytes = hex (p.digest bytes)

  -- Every failure is a SignatureError.
  unfoldable pub verify_ed25519 : Bytes → Bytes → Text → Result (Unit {0})
  verify_ed25519 key message sig = elim (p.ed25519 key message sig) [
    | none ↦ err signature
    | some valid ↦ if valid then ok tt else err signature
  ]
