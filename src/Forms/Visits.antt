-- ===== src/Forms/Visits.antt =====
-- main.js: the fields of `collapse_multifields` are visited after their lists, and the first complaint is thrown.
use rocketmq.Shared.{◌≡◌, ◌⊎◌, true, none, some, List, Text, codes, Dict, lookup}
use rocketmq.Requests.Template.{Attempt, made, threw}
use rocketmq.Forms.Fields.{Field}
use rocketmq.Forms.Collapse.{Param, Collected, typed_fields, type_of, is_type}
use rocketmq.Forms.Order.{In}
use rocketmq.Forms.Kept.{has_list, IsPaired}
use rocketmq.Forms.Complaints.{complaint}

module _ (params : Dict Param) (form : Dict Text) where
  -- What holds before the fields that are left are visited.
  record Visited (rest : List Field) (c : Collected) : Type 0 where
    paired : (name : Text) → lookup name (params) ≡ none → IsPaired name c
    listed :
        (p : Field)
        → In p (typed_fields form)
        → is_type (codes "list") (type_of form p) ≡ true
        → In p rest ⊎ (has_list p c ≡ true)

  -- A round goes on where there is no complaint, and throws the complaint.
  abbrev Goes : Field → List Field → Attempt Collected → Type 0
  Goes f rest (made c) = (complaint form f ≡ none) × Visited rest c
  Goes f rest (threw why) = complaint form f ≡ some why
