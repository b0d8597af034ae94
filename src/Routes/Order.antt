-- ===== src/Routes/Order.antt =====
-- Snapshot of internal/routes/table.go: the entries in the order of their keys.
use mathlib.Core.List.{Perm}
use yalb_link.Prelude.{◌≡◌, true, false, arith, map, IsSorted, sort-perm, sort-IsSorted}
use yalb_link.Routes.{Key, Table, key_le, snapshot}

key_le_total : (a b : Key) → key_le a b ≡ false → key_le b a ≡ true
key_le_total a b h = ground arith

key_le_trans : (a b c : Key) → key_le a b ≡ true → key_le b c ≡ true → key_le a c ≡ true
key_le_trans a b c h k = ground arith

-- A snapshot holds the entries of the table, each once, with ascending system and component ids.
pub snapshot-IsSorted :
    (t : Table)
    → Perm (snapshot t) (map (λ x. x.1) t.entries)
      × IsSorted (λ a b. key_le a.key b.key) (snapshot t)
unfolding snapshot
snapshot-IsSorted t = (
  sort-perm _ (map (λ x. x.1) t.entries),
  sort-IsSorted (λ a b. key_le a.key b.key) (λ a b. key_le_total a.key b.key)
      (λ a b c. key_le_trans a.key b.key c.key) (map (λ x. x.1) t.entries),
)
