-- ===== src/Server/Service/Enrollment.antt =====
-- About the challenge of an enrollment.
use company_command.Prelude.{
  ◌≡◌, refl, ap, ◌∙◌, String, ◌==◌, Option, none, some, [], ◌∷◌, Dict, lookup, Bool-cases, inl, inr,
}
use company_command.Json.{Fields}
use company_command.Ids.{Platform}
use company_command.Server.Service.{
  Ceremony, pop, require, enrollment_key, enroll_with, enroll_verify,
}
use company_command.Server.State.{Context, Service, refuse, no_enrollment}

-- A popped key is gone.
pop-twice : {A : Type 0} (k : String) (d : Dict A) → pop k (pop k d).1 ≡ (none, (pop k d).1)
unfolding pop
pop-twice k [] = refl
pop-twice k ((j, a) ∷ d) = elim (Bool-cases (j == k)) [
  | inl same ↦ rw same (pop-twice k d)
  | inr other ↦ rw (other, pop-twice k d, other) refl
]

module _ (p : Platform) (cer : Ceremony) where
  enroll_with-kept :
      (principal : String) (credential : Fields) (challenge : Option String) (s : Service)
      → ((enroll_with p cer principal credential challenge s).1.enroll_challenges
          ≡ s.enroll_challenges)
        × ((enroll_with p cer principal credential challenge s).1.contexts ≡ s.contexts)
  unfolding enroll_with
  enroll_with-kept principal credential none s = (refl, refl)
  enroll_with-kept principal credential (some challenge) s = (refl, refl)

  -- A registered company's verification, without the look-up.
  enroll_verify-known :
      (company principal : String) (credential : Fields) (s : Service) (c : Context)
      → lookup company s.contexts ≡ some c
      → enroll_verify p cer company principal credential s
        ≡ enroll_with p cer principal credential
            (pop (enrollment_key company principal) s.enroll_challenges).0
            (record s {
              enroll_challenges = (pop (enrollment_key company principal) s.enroll_challenges).1;
            })
  unfolding enroll_verify
  enroll_verify-known company principal credential s c here = rw (require, here) refl

  -- However a verification ends, its challenge is used up and the companies are as before.
  enroll_verify-popped :
      (company principal : String) (credential : Fields) (s : Service) (c : Context)
      → lookup company s.contexts ≡ some c
      → ((enroll_verify p cer company principal credential s).1.enroll_challenges
          ≡ (pop (enrollment_key company principal) s.enroll_challenges).1)
        × ((enroll_verify p cer company principal credential s).1.contexts ≡ s.contexts)
  enroll_verify-popped company principal credential s c here =
      rw (enroll_verify-known company principal credential s c here)
        (enroll_with-kept principal credential _ _)

  enroll_verify-absent :
      (company principal : String) (credential : Fields) (s : Service) (c : Context)
      → lookup company s.contexts ≡ some c
      → (pop (enrollment_key company principal) s.enroll_challenges).0 ≡ none
      → ((enroll_verify p cer company principal credential s).0 ≡ refuse no_enrollment)
        × ((enroll_verify p cer company principal credential s).1.credentials ≡ s.credentials)
  unfolding enroll_with
  enroll_verify-absent company principal credential s c here absent =
      rw (enroll_verify-known company principal credential s c here, absent) (refl, refl)

  -- A challenge serves one verification: behind it, successful or not, a second one without new options is
  -- refused, and enrolls nothing.
  pub enroll_verify-once :
      (company principal : String) (credential other : Fields) (s : Service) (c : Context)
      → lookup company s.contexts ≡ some c
      → ((enroll_verify p cer company principal other
            (enroll_verify p cer company principal credential s).1).0
          ≡ refuse no_enrollment)
        × ((enroll_verify p cer company principal other
              (enroll_verify p cer company principal credential s).1).1.credentials
            ≡ (enroll_verify p cer company principal credential s).1.credentials)
  enroll_verify-once company principal credential other s c here =
      let (popped, kept) = enroll_verify-popped company principal credential s c here in
      enroll_verify-absent company principal other _ c (ap (lookup company) kept ∙ here) (
        ap (λ d. (pop (enrollment_key company principal) d).0) popped
        ∙ ap (λ r. r.0) (pop-twice (enrollment_key company principal) s.enroll_challenges))
