-- ===== src/Auth/Kinds.antt =====
-- A signed token is read back as what it was made for, and as nothing else.
use flipradar.Auth.Rows.{Purpose, TokenType, purpose_eq, type_eq, account}
use flipradar.Auth.Tokens.{
  create_account_token, create_token, decode_account_token, decode_token, has_purpose, has_type,
  payload_of, account_token_expires_at,
}
use flipradar.Auth.Session.{Result, ok, err, World}
use flipradar.Auth.Platform.{Platform, ReadsBack, Claims}
use flipradar.Base.{
  refl, ◌<◌, ℕ, Option, Text, ◌≡◌, ◌/◌, ◌*◌, if◌then◌else◌, some, none, ap, sym, ◌∙◌, ◌≤◌, arith,
}

abbrev result_of : {A : Type 0} → A → Result A → A
result_of d (ok a) = a
result_of d (err e) = d

module _ (p : Platform) where
  -- From its issue until a token's expiry, cut down to whole seconds, it decodes as its own type, to claims with its
  -- subject and purpose, and as no other type, if what was signed reads back.
  pub create_token-decode_token :
      (i : ℕ) (kind asked : TokenType) (expires_at : ℕ) (purpose : Option Purpose)
      (new_email : Option Text) (w : World) (token now : ℕ)
      → ReadsBack p (payload_of p i kind expires_at purpose new_email (p.draw w.draws) w.now)
      → (create_token p i kind expires_at purpose new_email w).0 ≡ ok token
      → w.now ≤ now
      → now < expires_at / 1_000_000 * 1_000_000
      → (c : Claims) × (c.subject ≡ some i)
        × (c.purpose ≡ purpose)
        × (decode_token p now token asked ≡ (if type_eq kind asked then some c else none))
  unfolding create_token decode_token payload_of
  create_token-decode_token i kind asked expires_at purpose new_email w token now l made later
        early =
      let c : Claims = payload_of p i kind expires_at purpose new_email (p.draw w.draws) w.now in
      let signed : p.encode c ≡ token = ap (result_of token) made in
      let back : p.decode now token ≡ some c =
        ap (p.decode now) (sym signed)
        ∙ l.decode-encode now (w.now / 1_000_000) (expires_at / 1_000_000) refl
            (omega (arith, later)) refl early in
      (
        c,
        refl,
        refl,
        ap
            (λ (o : Option Claims). elim o [
              | none ↦ none
              | some payload ↦ if has_type asked payload.typ then some payload else none
            ])
            back,
      )

  -- A token of an account purpose is accepted for that purpose and refused for the other purposes,
  -- from its issue until its expiry, cut down to whole seconds, if what was signed reads back.
  pub create_account_token-decode_account_token :
      (i : ℕ) (purpose asked : Purpose) (new_email : Option Text) (w : World) (token now : ℕ)
      → ReadsBack p (
          payload_of p i account
            (account_token_expires_at p purpose w.now)
            (some purpose)
            new_email
            (p.draw w.draws)
            w.now)
      → (create_account_token p i purpose new_email w).0 ≡ ok token
      → w.now ≤ now
      → now < account_token_expires_at p purpose w.now / 1_000_000 * 1_000_000
      → (c : Claims) × (c.subject ≡ some i)
        × (decode_account_token p now token asked
            ≡ (if purpose_eq purpose asked then some c else none))
  unfolding create_account_token decode_account_token
  create_account_token-decode_account_token i purpose asked new_email w token now l made later
        early =
      let (c, subject, its, back) =
        create_token-decode_token i account account (account_token_expires_at p purpose w.now)
          (some purpose) new_email w token now l made later early in
      (
        c,
        subject,
        ap
              (λ (o : Option Claims). elim o [
                | none ↦ none
                | some payload ↦ if has_purpose asked payload.purpose then some payload else none
              ])
              back
            ∙ ap (λ o. if has_purpose asked o then some c else none) its,
      )
