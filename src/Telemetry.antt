-- ===== src/Telemetry.antt =====
-- comcmd/telemetry.py: what is kept for introspection, and what may be exported. The OpenTelemetry library
-- and the choice of a backend from the environment are left out.
pub mod Scrub
use company_command.Prelude.{String, List, [], ◌∷◌, ◌++◌, ◌==◌, contains, keep, map, if◌then◌else◌}
use company_command.Json.{Fields, end, field}

pub record InMemoryTelemetry : Type 0 where
  pub events : List (String × Fields)
  pub spans : List String

-- `InMemoryTelemetry.event`
unfoldable pub event : String → Fields → InMemoryTelemetry → InMemoryTelemetry
event name attrs t = record t { events = t.events ++ (name, attrs) ∷ [] }

-- `InMemoryTelemetry.span`, on entry; nothing happens on exit.
unfoldable pub span : String → InMemoryTelemetry → InMemoryTelemetry
span name t = record t { spans = t.spans ++ name ∷ [] }

unfoldable pub events_named : String → InMemoryTelemetry → List Fields
events_named name t = map (λ e. e.1) (keep (λ e. e.0 == name) t.events)

abbrev pub forbidden : List String
forbidden =
    "challenge" ∷ "assertion" ∷ "signature" ∷ "private_key" ∷ "capability" ∷ "secret" ∷ "password"
    ∷ "token" ∷ "prompt" ∷ []

-- `_scrub`, with `lower` for `str.lower`.
unfoldable pub scrub : (lower : String → String) → Fields → Fields
scrub lower end = end
scrub lower (field k v attrs) =
    let rest = scrub lower attrs in if contains (lower k) forbidden then rest else field k v rest
