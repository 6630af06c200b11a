-- ===== src/Accounts/Tokens/Signed.antt =====
-- What a token that is decoded shows, and that the tokens that are issued are decoded.
use mathlib.Core.Option.{some_inj}
use sql_rpa.Base.{
  ℕ, ◌+◌, ◌≤◌, ◌≡◌, refl, Bool, true, false, Option, none, some, [], ◌∷◌, ◌++◌, ◌==◌, any, arith,
  subst, ap, ◌∙◌, Bool-cases, inl, inr, ==_iff, if◌then◌else◌,
}
use sql_rpa.Text.{Text, text_eq, text_eq_iff}
use sql_rpa.Organization.Scope.{OrganizationContext}
use sql_rpa.Accounts.{User}
use sql_rpa.Accounts.Tokens.{
  Payload, access_payload, rsplit, extend, has_claims, token_of, create_access_token,
  create_organization_context_token, context_payload, checked, decode_parts, decode_access_token,
}

abbrev pub has_dot : Text → Bool
has_dot s = any (λ c. c == b'.') s

rsplit-none : (s : Text) → has_dot s ≡ false → rsplit s ≡ none
unfolding rsplit
rsplit-none [] h = refl
rsplit-none (c ∷ s) h = ground (arith, h, rsplit-none s)

rsplit-append : (s t : Text) → has_dot t ≡ false → rsplit (s ++ b'.' ∷ t) ≡ some (s, t)
unfolding rsplit
rsplit-append [] t h = rw (rsplit-none t h) refl
rsplit-append (c ∷ s) t h = rw (rsplit-append s t h) refl

rsplit-some : (s a b : Text) → rsplit s ≡ some (a, b) → s ≡ a ++ b'.' ∷ b
unfolding rsplit
rsplit-some [] a b e = absurd (ground (arith, e))
rsplit-some (c ∷ s) a b e = go (rsplit s) (rsplit-some s) refl e
  where
    go :
        (rest : Option (Text × Text))
        → ((x y : Text) → rsplit s ≡ some (x, y) → s ≡ x ++ b'.' ∷ y)
        → rsplit s ≡ rest
        → (elim rest as (λ _. Option (Text × Text)) [
          | some p ↦ some (extend c p)
          | none ↦ if c == b'.' then some ([], s) else none
        ])
          ≡ some (a, b)
        → c ∷ s ≡ a ++ b'.' ∷ b
    go (some (x, y)) again q e =
        subst (λ p. c ∷ s ≡ p.0 ++ b'.' ∷ p.1) (some_inj.0 e) (ap (λ t. c ∷ t) (again x y q))
    go none again q e = elim (Bool-cases (c == b'.')) [
      | inl dot ↦
          subst (λ p. c ∷ s ≡ p.0 ++ b'.' ∷ p.1) (some_inj.0 (rw dot at e))
            (ap (λ d. d ∷ s) ((==_iff c b'.').0 dot))
      | inr other ↦ absurd (ground (arith, rw other at e))
    ]

module _ (sign : Text → Text) (render : Payload → Text) (parse : Text → Option Payload) where
  -- The token carries the signature of what it encodes, and its claims hold now.
  pub record IsSigned (now : ℕ) (token : Text) (p : Payload) : Type 0 where
    pub encoded : Text
    pub shape : token ≡ encoded ++ b'.' ∷ sign encoded
    pub parsed : parse encoded ≡ some p
    pub claims : has_claims now p ≡ true

  checked-some :
      (now : ℕ) (o : Option Payload) (p : Payload)
      → checked sign render parse now o ≡ some p
      → (o ≡ some p) × (has_claims now p ≡ true)
  unfolding checked
  checked-some now none p e = absurd (ground (arith, e))
  checked-some now (some q) p e = elim (Bool-cases (has_claims now q)) [
    | inl h ↦
        let same = some_inj.0 (rw h at e) in
        (ap some same, subst (λ r. has_claims now r ≡ true) same h)
    | inr h ↦ absurd (ground (arith, rw h at e))
  ]

  parts-IsSigned :
      (now : ℕ) (token : Text) (parts : Option (Text × Text)) (p : Payload)
      → rsplit token ≡ parts
      → decode_parts sign render parse now parts ≡ some p
      → IsSigned now token p
  unfolding decode_parts
  parts-IsSigned now token none p q e = absurd (ground (arith, e))
  parts-IsSigned now token (some (encoded, signature)) p q e =
      elim (Bool-cases (text_eq signature (sign encoded))) [
        | inr h ↦ absurd (ground (arith, rw h at e))
        | inl h ↦
            let (parsed, claims) = checked-some now (parse encoded) p (rw h at e) in
            record {
              encoded = encoded;
              shape =
                  rsplit-some token encoded signature q
                  ∙ ap (λ t. encoded ++ b'.' ∷ t) ((text_eq_iff signature (sign encoded)).0 h);
              parsed = parsed;
              claims = claims;
            }
      ]

  -- A token is decoded only if it ends in the signature of the part before its last dot, that part
  -- is read as the payload, and the payload has not expired and is for this program.
  pub decode-IsSigned :
      (now : ℕ) (token : Text) (p : Payload)
      → decode_access_token sign render parse now token ≡ some p
      → IsSigned now token p
  unfolding decode_access_token
  decode-IsSigned now token p e = parts-IsSigned now token (rsplit token) p refl e

  decode-token :
      (now : ℕ) (p : Payload)
      → has_dot (sign (render p)) ≡ false
      → parse (render p) ≡ some p
      → has_claims now p ≡ true
      → decode_access_token sign render parse now (token_of sign render parse p) ≡ some p
  unfolding decode_access_token decode_parts token_of checked
  decode-token now p dot read claims =
      rw (rsplit-append (render p) (sign (render p)) dot)
        (rw ((text_eq_iff (sign (render p)) (sign (render p))).1 refl) (rw read (rw claims refl)))

  -- An access token that is issued is decoded to its payload until it expires, the time of expiry
  -- included, if signatures have no dot and the payload's JSON is read back.
  pub decode-create_access_token :
      (now issued expires_in : ℕ) (user : User)
      → has_dot (sign (render (access_payload issued expires_in user))) ≡ false
      → parse (render (access_payload issued expires_in user))
        ≡ some (access_payload issued expires_in user)
      → now ≤ issued + expires_in
      → decode_access_token sign render parse now
          (create_access_token sign render parse issued expires_in user)
        ≡ some (access_payload issued expires_in user)
  unfolding create_access_token
  decode-create_access_token now issued expires_in user dot read in_time =
      decode-token now (access_payload issued expires_in user) dot read (ground (arith, in_time))

  -- So is a token of an organization, for its 900 seconds.
  pub decode-create_organization_context_token :
      (now issued : ℕ) (user : User) (context : OrganizationContext)
      → has_dot (sign (render (context_payload issued 900 user context))) ≡ false
      → parse (render (context_payload issued 900 user context))
        ≡ some (context_payload issued 900 user context)
      → now ≤ issued + 900
      → decode_access_token sign render parse now
          (create_organization_context_token sign render parse issued 900 user context)
        ≡ some (context_payload issued 900 user context)
  unfolding create_organization_context_token
  decode-create_organization_context_token now issued user context dot read in_time =
      decode-token now (context_payload issued 900 user context) dot read (ground (arith, in_time))
