-- ===== src/Audit.antt =====
-- apps/api/src/modules/audit: the listing of the audit trail.
use smart_table.Prelude.{
  ℕ, suc, ◌≡◌, refl, Bool, true, false, ◌&&◌, String, str_eq, Option, none, some, List, map, ltb,
  leb, ◌==◌, if◌then◌else◌, first, length,
}
use smart_table.Domain.{validation_failed, Result, err}
use smart_table.Database.{EmployeeRow}
use smart_table.Effects.{AuditEntry}
use smart_table.Paging.{CursorPosition, Codec, Page, list_page, map_result}
use smart_table.Paging.Order.{AreApart}
use smart_table.Paging.Walk.{walk, listing, walk-listing}
use smart_table.Paging.Views.{walk-views_all}

-- A stored entry.
pub record AuditLogRow : Type 0 where
  pub id : ℕ
  pub created_at : ℕ
  pub entry : AuditEntry

pub record AuditLogEntryDto : Type 0 where
  pub row : AuditLogRow
  pub actor_name : Option String

pub record ListAuditLogQuery : Type 0 where
  pub entity_type : Option String
  pub entity_id : Option ℕ
  pub actor_employee_id : Option ℕ
  pub from_ms : Option ℕ
  pub to_ms : Option ℕ
  pub limit : Option ℕ

abbrev pub entry_position : AuditLogRow → CursorPosition
entry_position row = record { created_at = row.created_at; id = row.id }

abbrev pub has_entity_type : Option String → AuditLogRow → Bool
has_entity_type none row = true
has_entity_type (some t) row = str_eq row.entry.entity_type t

abbrev pub has_entity_id : Option ℕ → AuditLogRow → Bool
has_entity_id none row = true
has_entity_id (some id) row = row.entry.entity_id == id

abbrev same_actor : Option ℕ → ℕ → Bool
same_actor none actor = false
same_actor (some a) actor = a == actor

abbrev pub has_actor : Option ℕ → AuditLogRow → Bool
has_actor none row = true
has_actor (some actor) row = same_actor row.entry.actor_employee_id actor

abbrev pub is_since : Option ℕ → AuditLogRow → Bool
is_since none row = true
is_since (some from_ms) row = leb from_ms row.created_at

abbrev pub is_until : Option ℕ → AuditLogRow → Bool
is_until none row = true
is_until (some to_ms) row = leb row.created_at to_ms

abbrev pub is_listed_entry : ListAuditLogQuery → AuditLogRow → Bool
is_listed_entry q row =
    has_entity_type q.entity_type row
    && (has_entity_id q.entity_id row
        && (has_actor q.actor_employee_id row && (is_since q.from_ms row && is_until q.to_ms row)))

-- The left join with the employees.
abbrev pub name_of : Option EmployeeRow → Option String
name_of none = none
name_of (some e) = some e.name

abbrev pub actor_name_of : List EmployeeRow → Option ℕ → Option String
actor_name_of employees none = none
actor_name_of employees (some actor) =
    name_of (first (λ (e : EmployeeRow). e.id == actor) employees)

abbrev pub entry_dto : List EmployeeRow → AuditLogRow → AuditLogEntryDto
entry_dto employees row = record {
  row = row;
  actor_name = actor_name_of employees row.entry.actor_employee_id;
}

-- `from` and `to` are both given, and `from` is after `to`
abbrev pub is_reversed : Option ℕ → Option ℕ → Bool
is_reversed (some from_ms) (some to_ms) = ltb to_ms from_ms
is_reversed _ _ = false

module _ {Text : Type 0} (codec : Codec Text) (employees : List EmployeeRow) where
  unfoldable pub list_audit_log :
      ListAuditLogQuery → Option Text → List AuditLogRow → Result (Page AuditLogEntryDto Text)
  list_audit_log q cursor rows =
      if is_reversed q.from_ms q.to_ms
      then err (validation_failed "`from` must not be after `to`.")
      else map_result (entry_dto employees)
          (list_page entry_position codec (is_listed_entry q) q.limit cursor rows)

  -- Where the bounds of the query are in order, a client that follows the cursors of the audit list
  -- from page to page comes to the end: it sees the entries that pass the four filters, newest first
  -- and each once, with the name of the actor. This holds where the cursors can be read again and
  -- the entries have different ids.
  pub list_audit_log-walk :
      (q : ListAuditLogQuery) (rows : List AuditLogRow)
      → ((p : CursorPosition) → codec.decode (codec.encode p) ≡ some p)
      → AreApart entry_position rows
      → is_reversed q.from_ms q.to_ms ≡ false
      → walk
          (λ (cursor : Option Text). list_audit_log q cursor rows)
          (suc (length (listing entry_position (is_listed_entry q) rows)))
          none
        ≡ some (map (entry_dto employees) (listing entry_position (is_listed_entry q) rows))
  unfolding list_audit_log
  list_audit_log-walk q rows roundtrip apart ordered =
      walk-views_all (entry_dto employees) _ _ _ _ (λ text. rw ordered refl)
        (walk-listing entry_position codec (is_listed_entry q) q.limit rows roundtrip apart)
