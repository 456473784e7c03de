-- ===== src/Ids.antt =====
-- comcmd/ids.py: canonical JSON, content digests and content-addressed ids.
-- The JSON encoder, SHA-256 and the other services of the platform that the program calls are
-- the fields of a parameter.
use Prim.Native.String.{◌++◌ as concat}
use company_command.Prelude.{ℕ, zero, suc, String, Bool, Option}
use company_command.Json.{Json}
use company_command.Kernel.Records.{Event}

-- A float, as far as the program computes with it: a count of a fixed small unit above or below zero, an
-- infinity, or no number.
pub data Float : Type 0 where
  above below : ℕ → Float
  infinite minus_infinite nan : Float

pub record Platform : Type 0 where
  -- `json.dumps` with sorted keys and no spaces, and `hashlib.sha256(_.encode()).hexdigest()`.
  pub dumps : Json → String
  pub sha256_hex : String → String
  -- The canonical JSON of an event's fields, and pydantic's reading of such a text.
  pub dump_event : Event → String
  pub load_event : String → Option Event
  -- `base64.urlsafe_b64encode` without padding, and the n-th draw of `secrets.token_bytes`.
  pub b64url : String → String
  pub token_bytes : ℕ → String
  -- `str.strip`, and `float` of a text; `none` is a `ValueError`.
  pub strip : String → String
  pub to_float : String → Option Float
  -- `str` of a JSON value, `round(a / b, 3)` in thousandths, and `a > b` on two scores, where a
  -- missing score counts as minus infinity and `none` is a `TypeError`.
  pub py_str : Json → String
  pub round_ratio : ℕ → ℕ → ℕ
  pub greater : Option Json → Option Json → Option Bool

-- `s[:n]`
abbrev prefix_of : ℕ → String → String
prefix_of zero s = String.[]
prefix_of (suc n) String.[] = String.[]
prefix_of (suc n) (String.◌∷◌ c s) = String.◌∷◌ c (prefix_of n s)

module _ (p : Platform) where
  unfoldable pub canonical_json : Json → String
  canonical_json value = p.dumps value

  -- Content digest of a value, as `sha256:<hex>`.
  unfoldable pub digest : Json → String
  unfolding canonical_json
  digest value = concat "sha256:" (p.sha256_hex (canonical_json value))

  -- A short content-addressed id: the prefix and 12 hex digits.
  unfoldable pub content_id : String → Json → String
  unfolding canonical_json
  content_id prefix value =
      concat prefix (concat "_" (prefix_of 12 (p.sha256_hex (canonical_json value))))
