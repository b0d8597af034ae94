-- ===== src/Routes/Lookup.antt =====
-- What Upsert, Lookup and Resolve of internal/routes/table.go promise one another.
use yalb_link.Prelude.{
  ℕ, ◌+◌, ◌≤◌, ◌<◌, ◌≡◌, ◌↔◌, true, Option, none, some, arith, if◌then◌else◌, str_eq, ltb,
}
use yalb_link.GoMap
use yalb_link.GoMap.Laws.{lookup-insert, lookup-delete}
use yalb_link.Codec.{LinkId}
use yalb_link.Routes.{
  Key, key_beq, key_beq_iff, key_eq, Entry, Table, route_ttl_ms, expired, upsert, lookup, resolve,
}

-- A route is stale once more than the time to live has passed since it was seen.
pub expired_iff :
    (e : Entry) (now_ms : ℕ) → (expired e now_ms ≡ true) ↔ (e.last_seen_ms + route_ttl_ms < now_ms)
unfolding expired
expired_iff e now_ms = ground arith

abbrev pub live_entry : ℕ → Option Entry → Option Entry
live_entry now_ms none = none
live_entry now_ms (some e) = if expired e now_ms then none else some e

-- The table as a client sees it at a clock reading: the live entry of each key.
abbrev pub view : Table → ℕ → Key → Option Entry
view t now_ms k = live_entry now_ms (GoMap.lookup k t.entries)

abbrev pub link_of_entry : Option Entry → Option LinkId
link_of_entry none = none
link_of_entry (some e) = some e.link

-- Lookup answers by the view.
pub lookup-view : (k : Key) (now_ms : ℕ) (t : Table) → (lookup k now_ms t).1 ≡ view t now_ms k
unfolding lookup
lookup-view k now_ms t = ground arith

-- Resolve answers by the link of the view.
pub resolve-view :
    (k : Key) (now_ms : ℕ) (t : Table) → (resolve k now_ms t).1 ≡ link_of_entry (view t now_ms k)
unfolding resolve lookup
resolve-view k now_ms t = ground arith

-- Lookup removes a stale entry at most: at that reading and at every later one the table looks the
-- same as before.
pub view-lookup :
    (k j : Key) (now_ms later_ms : ℕ) (t : Table)
    → now_ms ≤ later_ms
    → view (lookup k now_ms t).0 later_ms j ≡ view t later_ms j
unfolding lookup expired
view-lookup k j now_ms later_ms t h = ground (arith, lookup-delete k j t.entries, key_beq_iff k j)

pub resolve-lookup :
    (k : Key) (now_ms : ℕ) (t : Table) → (resolve k now_ms t).0 ≡ (lookup k now_ms t).0
unfolding resolve lookup
resolve-lookup k now_ms t = ground arith

-- What Upsert stores: the new link and reading, and the address before where the new one has none.
abbrev pub stored : Option Entry → Entry → ℕ → Entry
stored none e now_ms = record e { last_seen_ms = now_ms }
stored (some prev) e now_ms =
    if str_eq e.src_ip ""
    then record e { last_seen_ms = now_ms; src_ip = prev.src_ip; src_port = prev.src_port }
    else record e { last_seen_ms = now_ms }

-- After Upsert the key has the new link and reading for the time to live and no longer, and every
-- other key is as before.
pub view-upsert :
    (e : Entry) (now_ms later_ms : ℕ) (j : Key) (t : Table)
    → view (upsert e now_ms t) later_ms j ≡ (
        if key_beq e.key j
        then (if ltb (now_ms + route_ttl_ms) later_ms
            then none
            else some (stored (GoMap.lookup e.key t.entries) e now_ms))
        else view t later_ms j)
unfolding upsert expired
view-upsert e now_ms later_ms j t = ground (
  arith,
  lookup-insert e.key j (stored (GoMap.lookup e.key t.entries) e now_ms) t.entries,
  key_beq_iff e.key j,
)
