-- ===== src/Gateway/Intents/Pins.antt =====
-- About what the digest of an intent (comcmd/gateway/intents.py) pins.
use company_command.Prelude.{String, ◌≡◌, refl, some}
use company_command.Json.{Fields, str, obj, get}
use company_command.Ids.{Platform, digest}
use company_command.Gateway.Intents.{ActionIntent, canonical, action_digest}

-- What `json.dumps` with sorted keys and SHA-256 promise of two objects with the same digest: whatever the
-- order of their keys, each has a text under a key exactly where the other has it. No collision is met.
abbrev pub DigestPins : Platform → Type 0
DigestPins p =
    (a b : Fields)
    → digest p (obj a) ≡ digest p (obj b)
    → (k s : String) → get k a ≡ some (str s)
    → get k b ≡ some (str s)

-- Intents with the same digest are for the same action of the same company.
pub action_digest-pins :
    (p : Platform)
    → DigestPins p
    → (i j : ActionIntent) → action_digest p i ≡ action_digest p j
    → (i.action_id ≡ j.action_id) × (i.company ≡ j.company)
unfolding action_digest canonical get
action_digest-pins p pins i j e = (
  str_injective (pins _ _ e "action_id" i.action_id refl),
  str_injective (pins _ _ e "company" i.company refl),
)
  where
    str_injective : {s t : String} → some (str t) ≡ some (str s) → s ≡ t
    str_injective h = cc
