-- ===== src/Accounts/Tokens.antt =====
-- The tokens of backend/auth.py: `create_access_token`, `create_organization_context_token` and
-- `decode_access_token`. The signature, the JSON with its base64 form and the clock are parameters.
pub mod Signed
use sql_rpa.Base.{
  ℕ, ◌+◌, String, Bool, true, false, ◌&&◌, ◌||◌, not, Option, none, some, List, [], ◌∷◌, ◌++◌, ◌==◌,
  ltb, min, str_eq, if◌then◌else◌,
}
use sql_rpa.Text.{Text, text_eq}
use sql_rpa.Organization.Scope.{OrganizationContext}
use sql_rpa.Accounts.{User}

pub data TokenType : Type 0 where
  access organization_context : TokenType

-- The claims; `exp` is `none` where it is no number, an absent text claim is "".
pub record Payload : Type 0 where
  pub sub : String
  pub role : String
  pub iss : String
  pub aud : String
  pub exp : Option ℕ
  pub token_type : TokenType
  pub token_version : ℕ
  pub organization_id : Text
  pub membership_id : String
  pub context_version : Option ℕ

abbrev pub token_issuer : String
token_issuer = "sql-rpa"

abbrev pub token_audience : String
token_audience = "sql-rpa-frontend"

abbrev pub access_payload : ℕ → ℕ → User → Payload
access_payload now expires_in user = record {
  sub = user.id;
  role = if user.is_platform_admin then "platform_admin" else "unassigned";
  iss = token_issuer;
  aud = token_audience;
  exp = some (now + expires_in);
  token_type = access;
  token_version = user.token_version;
  organization_id = [];
  membership_id = "";
  context_version = none;
}

abbrev pub context_payload : ℕ → ℕ → User → OrganizationContext → Payload
context_payload now expires_in user context = record {
  sub = user.id;
  role = context.role;
  iss = token_issuer;
  aud = token_audience;
  exp = some (now + min expires_in 900);
  token_type = organization_context;
  token_version = user.token_version;
  organization_id = context.organization_id;
  membership_id = context.membership_id;
  context_version = some context.context_version;
}

-- `token.rsplit(".", 1)` into two parts, or nothing if there is no dot.
abbrev extend : ℕ → Text × Text → Text × Text
extend c (before, behind) = (c ∷ before, behind)

pub rsplit : Text → Option (Text × Text)
rsplit [] = none
rsplit (c ∷ s) =
    let rest = rsplit s in
    elim rest [ some p ↦ some (extend c p) | none ↦ if c == b'.' then some ([], s) else none ]

-- The claims that a decoded token must have.
abbrev pub has_claims : ℕ → Payload → Bool
has_claims now p =
    elim p.exp [ none ↦ false | some exp ↦ not (ltb exp now) ]
    && str_eq p.iss token_issuer
    && str_eq p.aud token_audience

module _ (sign : Text → Text) (render : Payload → Text) (parse : Text → Option Payload) where
  -- `f"{encoded}.{signature}"`
  pub token_of : Payload → Text
  token_of p = render p ++ b'.' ∷ sign (render p)

  pub create_access_token : ℕ → ℕ → User → Text
  unfolding token_of
  create_access_token now expires_in user = token_of (access_payload now expires_in user)

  unfoldable pub create_organization_context_token : ℕ → ℕ → User → OrganizationContext → Text
  unfolding token_of
  create_organization_context_token now expires_in user context =
      token_of (context_payload now expires_in user context)

  checked : ℕ → Option Payload → Option Payload
  checked now none = none
  checked now (some p) = if has_claims now p then some p else none

  decode_parts : ℕ → Option (Text × Text) → Option Payload
  decode_parts now none = none
  decode_parts now (some (encoded, signature)) =
      if text_eq signature (sign encoded) then checked now (parse encoded) else none

  -- `decode_access_token`; `none` is the error 401.
  pub decode_access_token : ℕ → Text → Option Payload
  unfolding decode_parts checked
  decode_access_token now token = decode_parts now (rsplit token)
