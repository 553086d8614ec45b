-- ===== src/Examples/Signatures.antt =====
-- A request with two signers, of whom one has signed.
use isms_portal.Base.{String, refl, true, none, some, [], ◌∷◌, arith, All}
use isms_portal.Signatures.{
  Entry, Request, SignatureStore, SignatureBody, pending, signed, opened, decide_signature,
}
use isms_portal.Signatures.Settled.{IsSettled, decide_signature-IsSettled}

abbrev same_case : String → String
same_case name = name

abbrev by_ada : Entry
by_ada = record {
  id = "e1";
  signer = "ada";
  status = signed;
  decided_at = some 3;
  comment = none;
  evidence_hash = some "#";
}

abbrev by_bob : Entry
by_bob = record {
  id = "e2";
  signer = "bob";
  status = pending;
  decided_at = none;
  comment = none;
  evidence_hash = none;
}

abbrev request : Request
request = record {
  id = "r1";
  document_id = "d";
  requested_by = "eve";
  status = opened;
  completed_at = none;
  entries = by_ada ∷ by_bob ∷ [];
}

abbrev store : SignatureStore
store = record { requests = request ∷ []; notifications = []; trail = [] }

abbrev signature : SignatureBody
signature = record { sign = true; consent = true; comment = none }

decide_signature-IsSettled_example :
    All IsSettled (decide_signature same_case 9 "##" "bob" "d" "r1" signature store).0.requests
decide_signature-IsSettled_example =
    decide_signature-IsSettled same_case 9 "##" "bob" "d" "r1" signature store (refl, tt)
      ((omega arith, refl), tt)
