-- ===== src/Command/Holds.antt =====
-- How many of the maps of internal/command/registry.go hold a key, over the sections that admit a command.
use yalb_link.Prelude.{
  ℕ, ◌+◌, ◌%◌, ◌^◌, ◌≡◌, ◌≤◌, ◌∙◌, ap, Bool, Option, none, some, arith, if◌then◌else◌, is_some,
  String, refl,
}
use yalb_link.GoMap
use yalb_link.GoMap.Laws.{lookup-insert, lookup-delete}
use yalb_link.Proto.{Timestamp}
use yalb_link.Proto.Transactions.{CommandTransaction}
use yalb_link.Command.Registry.{
  Key, key_beq_iff, key_eq, Pending, Registry, init_locked, remaining, remaining_quarantine,
  admit_idle, admit_free, admit_unpoisoned, new_tx,
}
use yalb_link.Command.Settle.{}

abbrev in_map : Bool → ℕ
in_map b = if b then 1 else 0

-- In how many of the three maps a key is.
unfoldable pub holds : Key → Registry → ℕ
holds k r =
    in_map (is_some (GoMap.lookup k r.inflight))
    + in_map (is_some (GoMap.lookup k r.poisoned))
    + in_map (is_some (GoMap.lookup k r.quarantined))

unfoldable pub Exclusive : Registry → Type 0
Exclusive r = (k : Key) → holds k r ≤ 1

pub init_locked-Exclusive :
    (drawn : String) (r : Registry) → Exclusive r → Exclusive (init_locked drawn r)
unfolding init_locked Exclusive holds
init_locked-Exclusive drawn r h j = ground (arith, h j)

pub remaining-Exclusive :
    (k : Key) (now : Timestamp) (r : Registry) (found : Option Timestamp)
    → Exclusive r
    → Exclusive (remaining k now r found).0
unfolding remaining Exclusive holds
remaining-Exclusive k now r none h j = h j
remaining-Exclusive k now r (some until) h j = ground (arith, h j, lookup-delete k j r.quarantined)

-- Once no quarantine is left, the key is quarantined no more.
pub remaining-lifted :
    (k : Key) (now : Timestamp) (r : Registry) (found : Option Timestamp)
    → GoMap.lookup k r.quarantined ≡ found
    → (remaining k now r found).1 ≡ none
    → GoMap.lookup k (remaining k now r found).0.quarantined ≡ none
unfolding remaining
remaining-lifted k now r none e h = e
remaining-lifted k now r (some until) e h =
    ground (arith, lookup-delete k k r.quarantined, key_beq_iff k k)

pub remaining-poisoned :
    (k : Key) (now : Timestamp) (r : Registry) (found : Option Timestamp)
    → (remaining k now r found).0.poisoned ≡ r.poisoned
unfolding remaining
remaining-poisoned k now r none = refl
remaining-poisoned k now r (some until) = ground arith

pub remaining-inflight :
    (k : Key) (now : Timestamp) (r : Registry) (found : Option Timestamp)
    → (remaining k now r found).0.inflight ≡ r.inflight
unfolding remaining
remaining-inflight k now r none = refl
remaining-inflight k now r (some until) = ground arith

admit_idle-Exclusive :
    (k : Key) (arm : Bool) (issued : Timestamp) (r : Registry) (found : Option Pending)
    → GoMap.lookup k r.poisoned ≡ none
    → GoMap.lookup k r.quarantined ≡ none
    → Exclusive r
    → Exclusive (admit_idle k arm issued r found).0
unfolding admit_idle Exclusive holds
admit_idle-Exclusive k arm issued r (some p) e q h j = h j
admit_idle-Exclusive k arm issued r none e q h j = ground (
  arith,
  h j,
  key_beq_iff k j,
  lookup-insert k j
      (record { tx = new_tx k arm ((r.next_id + 1) % 2 ^ 32) r.epoch issued; ack = none })
      r.inflight,
)

admit_free-Exclusive :
    (k : Key) (arm : Bool) (issued : Timestamp) (x : Registry × Option ℕ)
    → GoMap.lookup k x.0.poisoned ≡ none
    → (x.1 ≡ none → GoMap.lookup k x.0.quarantined ≡ none)
    → Exclusive x.0
    → Exclusive (admit_free k arm issued x).0
unfolding admit_free
admit_free-Exclusive k arm issued (r, some left) e q h = h
admit_free-Exclusive k arm issued (r, none) e q h =
    admit_idle-Exclusive k arm issued r _ e (q refl) h

pub admit_unpoisoned-Exclusive :
    (k : Key) (arm : Bool) (checked issued : Timestamp) (r : Registry)
    (found : Option CommandTransaction)
    → GoMap.lookup k r.poisoned ≡ found
    → Exclusive r
    → Exclusive (admit_unpoisoned k arm checked issued r found).0
unfolding admit_unpoisoned remaining_quarantine
admit_unpoisoned-Exclusive k arm checked issued r (some tx) e h = h
admit_unpoisoned-Exclusive k arm checked issued r none e h =
    admit_free-Exclusive k arm issued (remaining_quarantine k checked r)
      (ap (GoMap.lookup k) (remaining-poisoned k checked r _) ∙ e)
      (remaining-lifted k checked r _ refl) (remaining-Exclusive k checked r _ h)
