-- ===== src/Examples/Approval.antt =====
-- A deletion that one administrator asks for and another one approves.
use isms_portal.Base.{String, ◌≡◌, refl, true, false, some, List, [], ◌∷◌, Memᴰ, str_eq}
use isms_portal.Access.Roles.{is_admin_identity}
use isms_portal.Approval.{
  Approval, ApprovalStore, Target, permanent_delete, is_request, require, decide, approved,
}
use isms_portal.Approval.FourEyes.{here, next, asks, decides, four_eyes}
use isms_portal.Approval.Sound.{decide_final}

abbrev same_case : String → String
same_case name = name

abbrev empty : ApprovalStore
empty = record {
  approvals = [];
  accounts = [];
  active_admin_groups = 2;
  notifications = [];
  jobs = [];
  trail = [];
}

abbrev deletion : Target
deletion = record { operation = permanent_delete; target_type = "document"; target_id = "d1" }

abbrev asked : ApprovalStore
unfolding require
asked = (require same_case 10 "r1" true "ada" deletion "obsolete" empty).0

abbrev admins : List String
admins = "ISMS-LOCAL-ADMINS" ∷ []

abbrev settled : ApprovalStore
unfolding decide require is_admin_identity
settled = (decide same_case 20 "bob" admins "r1" (some "APPROVED") asked).0

four_eyes_example :
    (a : Approval) × Memᴰ a settled.approvals
    × (a.id ≡ "r1")
    × (is_request deletion "ada" a ≡ true)
    × ((who : String) × (a.approved_by ≡ some who)
        × (str_eq (same_case "ada") (same_case who) ≡ false))
unfolding require decide is_admin_identity str_eq
four_eyes_example =
    four_eyes same_case empty settled 30 "r2" true "ada" deletion "obsolete" "r1" refl
      (next (next here (asks 10 "r1" true "ada" deletion "obsolete" refl))
        (decides 20 "bob" admins "r1" (some "APPROVED")))
      refl refl

abbrev closed : Approval
closed = record {
  id = "r0";
  operation = permanent_delete;
  target_type = "document";
  target_id = "d0";
  requested_by = "ada";
  reason = "old";
  status = approved;
  approved_by = some "bob";
  approved_at = some 5;
  created_at = 1;
}

abbrev with_closed : ApprovalStore
with_closed = record empty { approvals = closed ∷ [] }

decide_final_example :
    Memᴰ closed (decide same_case 20 "eve" admins "r0" (some "REJECTED") with_closed).0.approvals
decide_final_example =
    decide_final same_case 20 "eve" admins "r0" (some "REJECTED") with_closed closed
      (Memᴰ.head refl) refl
