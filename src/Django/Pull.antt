-- ===== src/Django/Pull.antt =====
-- packages/django/src/django_bapp_connectors/services/pull.py. A run is alone in writing the links:
-- the consumer's callback gets the link and works on the outside world. This file is about what a
-- decision does, and Pull/Pages about the loops.
pub mod Pages
pub mod Tests
use bapp_connectors.Base.{
  Bool, List, Option, String, [], false, if◌then◌else◌, none, not, or_else, some, text_or_empty,
  true, truthy, ℕ, ◌++◌, ◌+◌, ◌<>◌, ◌||◌, ◌∷◌, string_key,
}
use bapp_connectors.Base.Dict.{Dict, contains, get, put}
use bapp_connectors.Errors.{Exn, text_of}
use bapp_connectors.Effect.{Action, Outcome, ok, raise}
use bapp_connectors.Sync.Dto.{Extra, Product}
use bapp_connectors.Django.SyncState.{failed}
use bapp_connectors.Django.Links.{
  LinkUpdate, Links, SyncLink, get_or_create, mark_conflict, mark_error, mark_linked, new_link,
}
use bapp_connectors.Django.Desk.{Desk}

pub record PullDecision : Type 0 where
  pub local_id : String
  pub content_hash : String
  pub applied : Bool
  pub conflict : Bool
  pub skipped : Bool
  pub error : String
  pub extra : Extra

-- an entry of `errors` in a report
pub record PullError : Type 0 where
  pub remote_id : String
  pub error : String

pub record PullReport : Type 0 where
  pub created : ℕ
  pub updated : ℕ
  pub echoes : ℕ
  pub conflicts : ℕ
  pub skipped : ℕ
  pub failed : ℕ
  pub pages : ℕ
  pub errors : List PullError
  pub locked : Bool

abbrev pub new_report : PullReport
new_report = record {
  created = 0;
  updated = 0;
  echoes = 0;
  conflicts = 0;
  skipped = 0;
  failed = 0;
  pages = 0;
  errors = [];
  locked = false;
}

-- The link objects of a page, by their remote id. They live as long as the page.
abbrev pub Objects : Type 0
Objects = Dict String SyncLink

-- `_remote_modified`, by the key `REMOTE_MODIFIED_KEY`
abbrev pub remote_modified : Product → String
remote_modified product = text_or_empty (get "date_modified_gmt" product.extra)

-- `mark_error` and `mark_conflict` save these fields of an object
abbrev save_error : SyncLink → SyncLink → SyncLink
save_error object row = record row {
  status = object.status;
  last_error = object.last_error;
  extra = object.extra;
}

abbrev save_conflict : SyncLink → SyncLink → SyncLink
save_conflict object row = record row { status = object.status; last_error = object.last_error }

-- the row of an object is saved
abbrev save : (SyncLink → SyncLink → SyncLink) → SyncLink → Links → Links
save fields object links = elim (get object.local_id links) [
  | none ↦ links
  | some row ↦ put object.local_id (fields object row) links
]

abbrev no_decision : PullDecision
no_decision = record {
  local_id = "";
  content_hash = "";
  applied = true;
  conflict = false;
  skipped = false;
  error = "";
  extra = [];
}

-- what the callback raises becomes a decision
abbrev pub decided : Outcome PullDecision → PullDecision
decided (ok decision) = decision
decided (raise e) = record no_decision { error = text_of e }

-- what a page works on
abbrev pub PageDesk {ℓ} : Type ℓ → Type ℓ
PageDesk W = Objects × Desk PullReport W

abbrev count_failed : Product → String → PullReport → PullReport
count_failed product error r = record r {
  failed = r.failed + 1;
  errors = r.errors ++ record { remote_id = product.product_id; error = error } ∷ [];
}

abbrev pull_update : Product → PullDecision → LinkUpdate
pull_update product decision = record {
  remote_id = product.product_id;
  content_hash = decision.content_hash;
  remote_hash = remote_modified product;
  pushed = false;
  pulled = true;
  extra = decision.extra;
}

module _ {ℓ} {W : Type ℓ} where
  pub note_conflict : Product → Option SyncLink → PullDecision → PageDesk W → PageDesk W
  unfolding mark_conflict
  note_conflict product none decision (objects, d) =
      (objects, record d { report = record d.report { conflicts = d.report.conflicts + 1 } })
  note_conflict product (some link) decision (objects, d) =
      let object = mark_conflict (or_else decision.error "conflict") link in
      (
        put product.product_id object objects,
        record d {
          links = save save_conflict object d.links;
          report = record d.report { conflicts = d.report.conflicts + 1 };
        },
      )

  -- a product without a link gets one, unless its local id has one
  pub note_failed : Exn → Product → Option SyncLink → PullDecision → Action (PageDesk W) (Unit {0})
  unfolding mark_error
  note_failed duplicate product none decision (objects, d) =
      let counted = record d { report = count_failed product decision.error d.report } in
      let id = or_else decision.local_id ("remote:" <> product.product_id) in
      if contains id d.links then (raise duplicate, (objects, counted)) else (
        ok tt,
        (
          objects,
          record counted {
            links =
                put id (mark_error decision.error decision.extra (new_link id product.product_id))
                  d.links;
          },
        ),
      )
  note_failed duplicate product (some link) decision (objects, d) =
      let object = mark_error decision.error decision.extra link in
      (
        ok tt,
        (
          put product.product_id object objects,
          record d {
            links = save save_error object d.links;
            report = count_failed product decision.error d.report;
          },
        ),
      )

  pub note_pulled : ℕ → Product → Option SyncLink → PullDecision → PageDesk W → PageDesk W
  unfolding mark_linked
  note_pulled now product none decision (objects, d) =
      let (link, links) = get_or_create decision.local_id product.product_id d.links in
      (
        objects,
        record d {
          links = put decision.local_id (mark_linked now (pull_update product decision) link) links;
          report = record d.report { created = d.report.created + 1 };
        },
      )
  note_pulled now product (some link) decision (objects, d) =
      let object = mark_linked now (pull_update product decision) link in
      (
        put product.product_id object objects,
        record d {
          links = save (λ o row. o) object d.links;
          report = record d.report { updated = d.report.updated + 1 };
        },
      )

  -- `_apply_decision`
  pub apply_decision :
      Exn → ℕ → Product → Option SyncLink → PullDecision → Action (PageDesk W) (Unit {0})
  unfolding note_conflict note_failed note_pulled
  apply_decision duplicate now product link decision s =
      if decision.conflict
      then (ok tt, note_conflict product link decision s)
      else if truthy decision.error
      then note_failed duplicate product link decision s
      else if decision.skipped || not decision.applied
      then (
        ok tt,
        (s.0, record s.1 { report = record s.1.report { skipped = s.1.report.skipped + 1 } }),
      )
      else (ok tt, note_pulled now product link decision s)
