-- ===== src/Realtime/Presence/Agreement.antt =====
-- That the two maps of the registry agree, and that it announces each change and no other.
use smart_table.Prelude.{
  ℕ, ◌≡◌, ◌≢◌, refl, Bool, false, not, ◌&&◌, ◌||◌, Option, none, some, List, [], ◌∷◌, ◌==◌,
  if◌then◌else◌, or_else, select, arith, Option-cases, inl, inr, ◌⊎◌,
}
use smart_table.Domain.{includes}
use smart_table.Realtime.Presence.{PresenceRegistry, remove_socket, register, unregister, is_online}

abbrev pub is_owner : ℕ → Option ℕ → Bool
is_owner e none = false
is_owner e (some x) = x == e

-- The sockets listed for an employee are those that the employee owns, and an employee in the map
-- has one.
pub record IsAgreeing (r : PresenceRegistry) : Type 0 where
  pub owned :
      (e s : ℕ)
      → includes ◌==◌ (or_else (r.socket_ids_by_employee e) []) s
        ≡ is_owner e (r.employee_id_by_socket s)
  pub inhabited : (e : ℕ) → r.socket_ids_by_employee e ≢ some []

includes-remove_socket :
    (s t : ℕ) (sockets : List ℕ)
    → includes ◌==◌ (remove_socket s sockets) t ≡ (includes ◌==◌ sockets t && not (t == s))
unfolding select
includes-remove_socket s t [] = refl
includes-remove_socket s t (x ∷ xs) = ground (arith, includes-remove_socket s t xs)

-- Registering a socket that is new, as Socket.IO gives them out, keeps the maps in agreement, puts
-- the employee online and leaves everyone else; it reports a change if and only if the employee
-- was offline.
pub register-IsAgreeing :
    (e s : ℕ) (r : PresenceRegistry)
    → IsAgreeing r
    → r.employee_id_by_socket s ≡ none
    → IsAgreeing (register e s r).1
      × ((register e s r).0 ≡ not (is_online e r))
      × ((x : ℕ) → is_online x (register e s r).1 ≡ (x == e || is_online x r))
unfolding register is_online
register-IsAgreeing e s r a new = (
  record {
    owned = λ x t. ground (arith, a.owned x t, a.owned e t, a.owned e s);
    inhabited = λ x. ground (arith, a.inhabited x);
  },
  ground (arith, a.inhabited e),
  λ x. ground arith,
)

-- Unregistering a socket keeps the maps in agreement. It reports nothing if and only if nobody
-- owned the socket; otherwise it reports the owner, and that the owner went offline if and only if
-- the owner is offline after it. Everyone else is left as they were.
pub unregister-IsAgreeing :
    (s : ℕ) (r : PresenceRegistry)
    → IsAgreeing r
    → let (report, r') = unregister s r in
      IsAgreeing r'
      × (((r.employee_id_by_socket s ≡ none) × (report ≡ none) × (r' ≡ r))
          ⊎ ((e : ℕ) × (r.employee_id_by_socket s ≡ some e)
              × (report ≡ some (e, not (is_online e r')))
              × ((x : ℕ) → is_online x r' ≡ (if x == e then is_online e r' else is_online x r))))
unfolding unregister is_online
unregister-IsAgreeing s r a = elim (Option-cases (r.employee_id_by_socket s)) [
  | inl n ↦ (
    record {
      owned = λ x t. ground (arith, a.owned x t);
      inhabited = λ x. ground (arith, a.inhabited x);
    },
    inl (n, ground arith, ground arith),
  )
  | inr (e, n) ↦ (
    record {
      owned = λ x t. ground (
        arith,
        a.owned x t,
        a.owned x s,
        a.owned e t,
        a.owned e s,
        includes-remove_socket s t (or_else (r.socket_ids_by_employee e) []),
      );
      inhabited = λ x. ground (arith, a.inhabited x);
    },
    inr (e, n, ground arith, λ x. ground arith),
  )
]
