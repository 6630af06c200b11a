-- ===== src/Audit/Tests.antt =====
-- A small log under a toy digest.
use Prim.Native.String.{◌++◌ as join}
use sql_rpa.Base.{
  ℕ, ◌≡◌, refl, String, none, some, List, [], ◌∷◌, true, false, or_empty, ◌==◌, if◌then◌else◌,
}
use sql_rpa.Audit.{
  Draft, Log, Canonical, canonical, append, append_all, entry, latest, insert, order, chain_errors,
  entry_errors, log_operation, log_attempts, verify_audit_chain,
}
use sql_rpa.Audit.Chain.{write, write-verifies}
use sql_rpa.Audit.Tamper.{SameContents, same_end-SameContents}

-- No real digest: the text with the hash before it.
abbrev digest : Canonical → String
digest c = join c.sql_text (or_empty c.prev_hash)

abbrev draft : String → Draft
draft sql = record {
  id = sql;
  tenant_id = "acme";
  operation_type = "UPDATE";
  sql_text = sql;
  affected_rows = 1;
  table_name = none;
  backup_id = none;
  review_id = none;
  status = "completed";
  error_message = none;
  executed_by = "bob";
  submitted_by = none;
  approved_by = none;
  reviewer_note = none;
  created_at = 7;
}

-- A rival's row makes the first attempt fail.
abbrev rivals : ℕ → List Draft
rivals left = if left == 4 then draft "r" ∷ [] else []

attempt_again : (log_operation digest rivals (draft "a") []).1 ≡ true
unfolding log_operation log_attempts append_all append entry latest canonical
attempt_again = refl

abbrev first : Log
first = record { draft = draft "a"; sequence = 1; prev_hash = none; entry_hash = "a" }

abbrev second : Log
second = record { draft = draft "b"; sequence = 2; prev_hash = some "a"; entry_hash = "ba" }

-- The same row in another tenant.
abbrev moved : Log
moved = record {
  draft = record (draft "b") { tenant_id = "other" };
  sequence = 2;
  prev_hash = some "a";
  entry_hash = "ba";
}

tenant_is_free : (verify_audit_chain digest 0 (moved ∷ first ∷ [])).valid ≡ true
unfolding verify_audit_chain order insert chain_errors entry_errors canonical
tenant_is_free = refl

gap_is_found : (verify_audit_chain digest 0 (second ∷ [])).valid ≡ false
unfolding verify_audit_chain order insert chain_errors entry_errors canonical
gap_is_found = refl

same_end-SameContents_example : SameContents digest (first ∷ second ∷ []) (first ∷ moved ∷ [])
unfolding chain_errors entry_errors canonical
same_end-SameContents_example =
    same_end-SameContents digest (first ∷ second ∷ []) (first ∷ moved ∷ []) tt
      ((λ _. refl), ((λ _. refl), tt)) refl refl refl

write-verifies_example :
    ((verify_audit_chain digest 0 (write digest ((rivals, draft "a") ∷ []) [])).errors ≡ [])
    × ((verify_audit_chain digest 0 (write digest ((rivals, draft "a") ∷ []) [])).valid ≡ true)
write-verifies_example = write-verifies digest ((rivals, draft "a") ∷ [])
