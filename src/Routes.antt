-- ===== src/Routes.antt =====
-- internal/routes/table.go: the table from MAVLink identities to the links they were heard on, with
-- caller-driven expiry. A clock reading is its milliseconds since the epoch, and a difference of two
-- readings an integer. A method returns the new table beside its result.
pub mod Lookup
pub mod Sweep
pub mod Order
use yalb_link.Prelude.{
  ℕ, pos, sub_ℕ, ltb_ℤ, ◌≡◌, ◌↔◌, Bool, true, ◌&&◌, Option, none, some, List, [], Eq, str_eq, arith,
  ltb, leb, ◌==◌, if◌then◌else◌, map, String, ℤ, sort,
}
use yalb_link.GoMap
use yalb_link.GoMap.{GoMap}
use yalb_link.Codec.{LinkId, heartbeat_ttl_ms}

pub record Key : Type 0 where
  pub sys_id : ℕ
  pub comp_id : ℕ

abbrev pub key_beq : Key → Key → Bool
key_beq a b = a.sys_id == b.sys_id && a.comp_id == b.comp_id

pub key_beq_iff : (a b : Key) → (key_beq a b ≡ true) ↔ (a ≡ b)
key_beq_iff a b = ground arith

instance abbrev pub key_eq : Eq Key
key_eq = record { beq = key_beq; beq_iff = key_beq_iff }

pub record Entry : Type 0 where
  pub link : LinkId
  pub src_ip : String
  pub src_port : ℤ
  pub last_seen_ms : ℕ
  pub key : Key

pub record Table : Type 0 where
  pub entries : GoMap Key Entry

unfoldable pub new_table : Table
new_table = record { entries = [] }

-- routeTTLMs
abbrev pub route_ttl_ms : ℕ
route_ttl_ms = heartbeat_ttl_ms

unfoldable pub expired : Entry → ℕ → Bool
expired e now_ms = ltb_ℤ (pos route_ttl_ms) (sub_ℕ now_ms e.last_seen_ms)

-- The diagnostic address of the entry before is kept where the new one has none.
keep_address : Option Entry → Entry → Entry
keep_address none e = e
keep_address (some prev) e =
    if str_eq e.src_ip "" then record e { src_ip = prev.src_ip; src_port = prev.src_port } else e

unfoldable pub upsert : Entry → ℕ → Table → Table
unfolding keep_address
upsert e now_ms t =
    let stamped = record e { last_seen_ms = now_ms } in
    record t {
      entries = GoMap.insert e.key (keep_address (GoMap.lookup e.key t.entries) stamped) t.entries;
    }

found : Key → ℕ → Table → Option Entry → Table × Option Entry
found key now_ms t none = (t, none)
found key now_ms t (some e) =
    if expired e now_ms
    then (record t { entries = GoMap.delete key t.entries }, none)
    else (t, some e)

unfoldable pub lookup : Key → ℕ → Table → Table × Option Entry
unfolding found
lookup key now_ms t = found key now_ms t (GoMap.lookup key t.entries)

link_of : Table × Option Entry → Table × Option LinkId
link_of (t, none) = (t, none)
link_of (t, some e) = (t, some e.link)

-- `none` is ErrNoRoute.
unfoldable pub resolve : Key → ℕ → Table → Table × Option LinkId
unfolding link_of
resolve key now_ms t = link_of (lookup key now_ms t)

unfoldable pub evict : ℕ → Table → Table × ℕ
evict now_ms t =
    let stale = λ (e : Entry). expired e now_ms in
    (record t { entries = GoMap.delete_where stale t.entries }, GoMap.count_where stale t.entries)

unfoldable pub forget_link : LinkId → Table → Table × ℕ
forget_link link t =
    let on_link = λ (e : Entry). str_eq e.link link in
    (
      record t { entries = GoMap.delete_where on_link t.entries },
      GoMap.count_where on_link t.entries,
    )

-- Len
unfoldable pub len : Table → ℕ
len t = GoMap.size t.entries

-- The comparison of Snapshot says that a comes before b or is its equal.
abbrev pub key_le : Key → Key → Bool
key_le a b = if a.sys_id == b.sys_id then leb a.comp_id b.comp_id else ltb a.sys_id b.sys_id

unfoldable pub snapshot : Table → List Entry
snapshot t = sort (λ a b. key_le a.key b.key) (map (λ x. x.1) t.entries)
