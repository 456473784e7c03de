-- ===== src/Server/App/Access.antt =====
-- About who is let in: what a request without the token can do.
use company_command.Prelude.{
  ◌≡◌, ◌⊎◌, inl, inr, refl, String, Bool, true, false, ◌==◌, Option, some, Option-cases,
}
use company_command.Ids.{Platform}
use company_command.Server.State.{Service}
use company_command.Server.Service.{Ceremony}
use company_command.Server.App.{Request, Response, server_error, error, supplied_token, serve}

module _ (p : Platform) (cer : Ceremony) (lower : String → String)
    (compare_digest : String → String → Option Bool) where
  -- Turned away: the answer is an error that depends on nothing the service keeps, which is as before.
  abbrev pub IsTurnedAway : Response × Service → Service → Type 0
  IsTurnedAway x s =
      (x.1 ≡ s) × ((x.0 ≡ error 401 "authentication required") ⊎ (x.0 ≡ server_error))

  -- With a token configured, and a comparison that accepts only equal texts, a request outside /health
  -- that does not carry the token in its header is turned away, whatever its route is.
  pub serve-IsTurnedAway :
      (token : String) (r : Request) (s : Service)
      → ((a b : String) → compare_digest a b ≡ some true → a ≡ b)
      → (token == "") ≡ false
      → (r.path == "/health") ≡ false
      → (supplied_token lower r.authorization ≡ token)
        ⊎ IsTurnedAway (serve p cer lower compare_digest (some token) r s) s
  unfolding serve
  serve-IsTurnedAway token r s sound set elsewhere =
      elim (Option-cases (compare_digest (supplied_token lower r.authorization) token)) [
        | inl raised ↦ inr (rw (set, elsewhere, raised) (refl, inr refl))
        | inr (true, same) ↦ inl (sound _ _ same)
        | inr (false, other) ↦ inr (rw (set, elsewhere, other) (refl, inl refl))
      ]
