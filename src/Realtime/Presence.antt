-- ===== src/Realtime/Presence.antt =====
-- presence-registry.ts. The ids of employees and sockets are numbers; a set is a list without
-- repetitions.
pub mod Agreement
use smart_table.Prelude.{
  ℕ, Bool, true, false, not, Option, none, some, List, [], ◌∷◌, ◌==◌, if◌then◌else◌, or_else,
  is_empty, is_some, select,
}
use smart_table.Domain.{includes}

pub record PresenceRegistry : Type 0 where
  pub socket_ids_by_employee : ℕ → Option (List ℕ)
  pub employee_id_by_socket : ℕ → Option ℕ

abbrev pub set_at {ℓ} : {A : Type ℓ} → ℕ → Option A → (ℕ → Option A) → ℕ → Option A
set_at key value m k = if k == key then value else m k

abbrev pub add_socket : ℕ → List ℕ → List ℕ
add_socket s sockets = if includes ◌==◌ sockets s then sockets else s ∷ sockets

abbrev pub remove_socket : ℕ → List ℕ → List ℕ
remove_socket s = select (λ t. not (t == s))

-- Whether the socket brought the employee online, and the registry with it.
unfoldable pub register : ℕ → ℕ → PresenceRegistry → Bool × PresenceRegistry
register employee_id socket_id r =
    let sockets = or_else (r.socket_ids_by_employee employee_id) [] in
    (
      is_empty sockets,
      record {
        socket_ids_by_employee =
            set_at employee_id (some (add_socket socket_id sockets)) r.socket_ids_by_employee;
        employee_id_by_socket = set_at socket_id (some employee_id) r.employee_id_by_socket;
      },
    )

-- The employee, and whether the socket took them offline.
unfoldable pub unregister : ℕ → PresenceRegistry → Option (ℕ × Bool) × PresenceRegistry
unregister socket_id r = elim (r.employee_id_by_socket socket_id) [
  | none ↦ (none, r)
  | some employee_id ↦
      let owners = set_at socket_id none r.employee_id_by_socket in
      elim (r.socket_ids_by_employee employee_id) [
        | none ↦ (some (employee_id, true), record r { employee_id_by_socket = owners })
        | some sockets ↦
            let left = remove_socket socket_id sockets in
            if is_empty left
            then (
              some (employee_id, true),
              record {
                socket_ids_by_employee = set_at employee_id none r.socket_ids_by_employee;
                employee_id_by_socket = owners;
              },
            )
            else (
              some (employee_id, false),
              record {
                socket_ids_by_employee = set_at employee_id (some left) r.socket_ids_by_employee;
                employee_id_by_socket = owners;
              },
            )
      ]
]

unfoldable pub is_online : ℕ → PresenceRegistry → Bool
is_online employee_id r = is_some (r.socket_ids_by_employee employee_id)
