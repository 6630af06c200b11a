-- ===== src/Agent/Context/Kept.antt =====
-- What `trim_messages` of backend/agent/context.py keeps.
use mathlib.Core.List.{reverse}
use sql_rpa.Base.{ℕ, ◌≡◌, true, false, Option, none, some, List, [], ◌∷◌, ◌++◌, ◌⊎◌, any, ◌<◌}
use sql_rpa.Text.{Text}
use sql_rpa.Agent.{ChatMessage, is_assistant, is_tool, is_user}
use sql_rpa.Agent.Context.{ContextManager, Walk, tokens, cut_anchor}

-- A message is kept as it is, or a result of a tool for the same call.
abbrev pub IsCut : ChatMessage → ChatMessage → Type 0
IsCut x m =
    (x ≡ m) ⊎ ((is_tool m ≡ true) × ((is_tool x ≡ true) × (x.tool_call_id ≡ m.tool_call_id)))

-- Messages from the newest on, with those that a walk over them has kept: it passes over messages of
-- the assistant alone, and stops somewhere.
pub data Trims : List ChatMessage → List ChatMessage → Type 0 where
  stops : {ms : List ChatMessage} → Trims [] ms
  keeps :
      {x m : ChatMessage} {xs ms : List ChatMessage}
      → IsCut x m
      → Trims xs ms
      → Trims (x ∷ xs) (m ∷ ms)
  passes :
      {m : ChatMessage} {xs ms : List ChatMessage}
      → is_assistant m ≡ true
      → Trims xs ms
      → Trims xs (m ∷ ms)

module _ (encoding : Text → Option ℕ) (c : ContextManager) where
  abbrev Shows : List ChatMessage → List ChatMessage → List ChatMessage → Type 0
  Shows kept ms ys = (xs : List ChatMessage) × (Trims xs ms × (ys ≡ reverse xs ++ kept))

  abbrev Walks : List ChatMessage → List ChatMessage → Walk → Type 0
  Walks kept ms w = Shows kept ms w.kept

-- The last message of the user among messages with the newest first, those after and those before it.
abbrev IsSplit :
    List ChatMessage
    → List ChatMessage
    → Option (List ChatMessage × (ChatMessage × List ChatMessage))
    → Type 0
IsSplit newer ms none = any is_user ms ≡ false
IsSplit newer ms (some (older, (anchor, after))) =
    ((is_user anchor ≡ true) × (any is_user after ≡ false))
    × (reverse newer ++ ms ≡ after ++ anchor ∷ older)

module _ (encoding : Text → Option ℕ) (c : ContextManager) where
  abbrev pub IsAround :
      List ChatMessage
      → List ChatMessage
      → ChatMessage
      → List ChatMessage
      → List ChatMessage
      → Type 0
  IsAround systems older anchor newer ys =
      (xs zs : List ChatMessage) × (Trims xs older
        × (Trims zs newer × (ys ≡ systems ++ (reverse xs ++ anchor ∷ reverse zs))))

  -- What is left of messages of which the newest of those that are not of the system stand first.
  abbrev pub IsLeft :
      List ChatMessage → List ChatMessage → List ChatMessage → List ChatMessage → Type 0
  IsLeft systems others newest ys =
      ((any is_user newest ≡ false) × (ys ≡ systems ++ others))
      ⊎ ((anchor : ChatMessage) × (older newer : List ChatMessage) × ((((is_user anchor ≡ true)
                × (any is_user newer ≡ false))
              × (newest ≡ newer ++ anchor ∷ older))
            × (((c.token_budget < tokens encoding anchor)
                  × (ys ≡ systems ++ cut_anchor encoding c anchor ∷ []))
                ⊎ IsAround systems older anchor newer ys)))
