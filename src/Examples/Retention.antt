-- ===== src/Examples/Retention.antt =====
-- A document whose retention ends and that is destroyed, beside one on legal hold with the same
-- file.
use isms_portal.Base.{
  String, ◌≡◌, refl, Bool, true, false, false≢true, none, some, [], ◌∷◌, Memᴰ, arith, str_eq,
  is_some, includes,
}
use isms_portal.Approval.{ApprovalStore, approved, retention_change, require}
use isms_portal.Retention.{
  Policy, RetainedDocument, FileVersion, StoredFile, RetentionStore, RetentionBody, request,
  approve, save_retention, retention_decision, Destruction,
}
use isms_portal.Retention.Destroy.{flag_due, destroy_one, execute_destructions}
use isms_portal.Retention.Reached.{saves, decides, flags, runs, Reach, here, next, destroyed_by_two}
use isms_portal.Retention.Held.{shared_object}
use isms_portal.Retention.Extended.{extended_destroyed}
use isms_portal.Retention.Worked.{IsGone}

abbrev same_text : String → String
same_text name = name

abbrev policy_document : RetainedDocument
policy_document = record {
  id = "d";
  is_archived = false;
  deleted_at = none;
  destroyed_at = none;
  locked_by = none;
  lock_expires_at = none;
}

abbrev held_document : RetainedDocument
held_document = record policy_document { id = "e" }

abbrev scan : StoredFile
scan = record { id = "f"; object_key = "f.pdf"; purged_at = none }

abbrev letter : StoredFile
letter = record { id = "g"; object_key = "g.pdf"; purged_at = none }

abbrev version_of : String → String → FileVersion
version_of document file = record {
  id = document;
  document_id = document;
  stored_file_id = file;
  distributed_file_id = none;
}

abbrev empty_approvals : ApprovalStore
empty_approvals = record {
  approvals = [];
  accounts = [];
  active_admin_groups = 0;
  notifications = [];
  jobs = [];
  trail = [];
}

abbrev start : RetentionStore
start = record {
  policies = [];
  documents = policy_document ∷ held_document ∷ [];
  versions = version_of "d" "f" ∷ version_of "d" "g" ∷ version_of "e" "f" ∷ [];
  files = scan ∷ letter ∷ [];
  objects = "f.pdf" ∷ "g.pdf" ∷ [];
  contents = [];
  comments = [];
  subscriptions = [];
  links = [];
  approvals = empty_approvals;
  trail = [];
}

abbrev until_five : RetentionBody
until_five = record {
  document_id = "d";
  retention_until = some 5;
  legal_hold = false;
  reason = "Contract ended";
}

abbrev removes : String → Bool
removes key = true

abbrev after_save : RetentionStore
after_save = (save_retention same_text 1 "p" "a" true "ada" until_five start).0

abbrev after_flag : RetentionStore
after_flag = (flag_due 10 after_save).0

abbrev after_request : RetentionStore
after_request = (retention_decision 11 "ada" "p" request "Ended" after_flag).0

abbrev after_approval : RetentionStore
after_approval = (retention_decision 12 "bob" "p" approve "" after_request).0

abbrev finish : RetentionStore
finish = (execute_destructions removes 13 after_approval).0

abbrev destroyed_document : RetainedDocument
destroyed_document = record policy_document {
  is_archived = true;
  deleted_at = some 13;
  destroyed_at = some 13;
}

story : Reach same_text start finish
story =
    next
      (next
        (next (next (next here (saves 1 "p" "a" true "ada" until_five refl)) (flags 10))
          (decides 11 "ada" "p" request "Ended"))
        (decides 12 "bob" "p" approve ""))
      (runs removes 13)

gone : Memᴰ destroyed_document finish.documents
unfolding save_retention flag_due retention_decision execute_destructions destroy_one str_eq
gone = Memᴰ.head refl

destroyed_by_two_example :
    (is_some destroyed_document.deleted_at ≡ true)
    × ((p : Policy) × Memᴰ p finish.policies
        × (p.document_id ≡ "d")
        × ((a : String) × (b : String) × (p.requested_by ≡ some a)
            × (p.approved_by ≡ some b)
            × (str_eq a b ≡ false)))
unfolding str_eq
destroyed_by_two_example =
    destroyed_by_two same_text start finish destroyed_document refl (refl, (refl, tt))
      (refl, (refl, tt)) story gone refl

shared_object_example :
    includes (execute_destructions removes 13 after_approval).0.objects "f.pdf" ≡ true
unfolding save_retention flag_due retention_decision str_eq
shared_object_example =
    shared_object removes scan (version_of "e" "f") refl 13 after_approval
      (Memᴰ.tail (Memᴰ.tail (Memᴰ.head refl))) ((λ e. refl), ((λ e. absurd (false≢true e)), tt))
      ((λ e. absurd (false≢true e)), tt) refl

abbrev later : RetentionBody
later = record until_five { retention_until = some 900 }

-- The administrators have agreed on a longer retention.
abbrev agreed : RetentionStore
agreed = record after_approval {
  approvals = record empty_approvals {
    approvals =
        record {
          id = "a";
          operation = retention_change;
          target_type = "DOCUMENT";
          target_id = "d";
          requested_by = "ada";
          reason = "Lawsuit";
          status = approved;
          approved_by = some "bob";
          approved_at = some 13;
          created_at = 12;
        }
        ∷ [];
  };
}

abbrev signed_policy : Policy
signed_policy = record {
  id = "p";
  document_id = "d";
  retention_until = some 5;
  legal_hold = false;
  reason = "Ended";
  status = Destruction.approved;
  requested_by = some "ada";
  requested_at = some 11;
  approved_by = some "bob";
  approved_at = some 12;
  destroyed_at = none;
  updated_at = 12;
}

extended_destroyed_example :
    IsGone "p" "d"
      (some 900)
      (execute_destructions
        (λ key. true)
        20
        (save_retention same_text 14 "q" "b" true "ada" later agreed).0).0
unfolding save_retention flag_due retention_decision str_eq require
extended_destroyed_example =
    extended_destroyed same_text 14 "q" "b" true "ada" later agreed signed_policy (λ key. true) 20
      (refl, tt) (Memᴰ.head refl) refl refl refl refl (λ key. refl) (ground arith)
