-- ===== src/Telemetry/Scrub.antt =====
-- About what telemetry may export.
use company_command.Prelude.{
  ◌≡◌, refl, sym, ap, ◌∙◌, String, ◌==◌, eq_iff, none, contains, Bool-cases, inl, inr,
  if◌then◌else◌,
}
use company_command.Json.{Fields, end, field, get}
use company_command.Telemetry.{forbidden, scrub}

module _ (lower : String → String) where
  -- Whatever the attributes are, a key that is forbidden in any spelling of its case reads as absent after
  -- the scrub, and every other key reads as before.
  pub get-scrub :
      (k : String) (attrs : Fields)
      → get k (scrub lower attrs) ≡ (if contains (lower k) forbidden then none else get k attrs)
  unfolding scrub get
  get-scrub k end = elim (Bool-cases (contains (lower k) forbidden)) [
    | inl hidden ↦ rw hidden refl
    | inr shown ↦ rw shown refl
  ]
  get-scrub k (field j v attrs) = elim (Bool-cases (j == k)) [
    | inl same ↦
        let alike : contains (lower j) forbidden ≡ contains (lower k) forbidden =
          ap (λ x. contains (lower x) forbidden) ((eq_iff j k).0 same) in
        elim (Bool-cases (contains (lower j) forbidden)) [
          | inl hidden ↦
              rw (hidden, sym alike ∙ hidden) (get-scrub k attrs ∙ rw (sym alike ∙ hidden) refl)
          | inr shown ↦ rw (shown, sym alike ∙ shown, get, same) refl
        ]
    | inr other ↦ elim (Bool-cases (contains (lower j) forbidden)) [
      | inl hidden ↦ rw (other, hidden) (get-scrub k attrs)
      | inr shown ↦ rw (other, shown, get, other) (get-scrub k attrs)
    ]
  ]
