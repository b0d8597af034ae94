-- ===== src/Routes/Sweep.antt =====
-- The sweeps of internal/routes/table.go: Evict and ForgetLink, and the invariant that no key stands
-- twice in a table.
use yalb_link.Prelude.{
  ℕ, ◌+◌, ◌≤◌, ◌≡◌, false, none, Option, some, arith, All, str_eq, Option-cases, inl, inr,
  if◌then◌else◌, Bool-cases,
}
use yalb_link.GoMap
use yalb_link.GoMap.Laws.{
  size-delete_where, delete_where-All, All-insert, All-delete, All-delete_where,
}
use yalb_link.GoMap.Unique.{
  IsUnique, lookup-delete_where, insert-IsUnique, delete-IsUnique, delete_where-IsUnique,
}
use yalb_link.Codec.{LinkId}
use yalb_link.Routes.{
  Key, key_eq, Entry, Table, new_table, expired, upsert, lookup, resolve, evict, forget_link, len,
}
use yalb_link.Routes.Lookup.{view, resolve-lookup}

-- No key stands twice, and each entry stands under its own key.
pub record IsValid (t : Table) : Type 0 where
  pub unique : IsUnique t.entries
  pub own_key : All (λ x. x.1.key ≡ x.0) t.entries

pub new_table-IsValid : IsValid new_table
unfolding new_table
new_table-IsValid = record { unique = tt; own_key = tt }

pub upsert-IsValid : (e : Entry) (now_ms : ℕ) (t : Table) → IsValid t → IsValid (upsert e now_ms t)
unfolding upsert
upsert-IsValid e now_ms t v = record {
  unique = insert-IsUnique e.key _ t.entries v.unique;
  own_key = All-insert (λ k x. x.key ≡ k) e.key _ t.entries (ground arith) v.own_key;
}

delete-IsValid :
    (k : Key) (t : Table) → IsValid t → IsValid (record t { entries = GoMap.delete k t.entries })
delete-IsValid k t v = record {
  unique = delete-IsUnique k t.entries v.unique;
  own_key = All-delete (λ k x. x.key ≡ k) k t.entries v.own_key;
}

pub lookup-IsValid : (k : Key) (now_ms : ℕ) (t : Table) → IsValid t → IsValid (lookup k now_ms t).0
unfolding lookup
lookup-IsValid k now_ms t v = elim (Option-cases (GoMap.lookup k t.entries)) [
  | inl e ↦ rw (e, lookup) v
  | inr (x, e) ↦ elim (Bool-cases (expired x now_ms)) [
    | inl stale ↦ rw (e, lookup) (rw stale (delete-IsValid k t v))
    | inr live ↦ rw (e, lookup) (rw live v)
  ]
]

pub resolve-IsValid :
    (k : Key) (now_ms : ℕ) (t : Table) → IsValid t → IsValid (resolve k now_ms t).0
resolve-IsValid k now_ms t v = rw (resolve-lookup k now_ms t) (lookup-IsValid k now_ms t v)

pub evict-IsValid : (now_ms : ℕ) (t : Table) → IsValid t → IsValid (evict now_ms t).0
unfolding evict
evict-IsValid now_ms t v = record {
  unique = delete_where-IsUnique _ t.entries v.unique;
  own_key = All-delete_where (λ k x. x.key ≡ k) _ t.entries v.own_key;
}

pub forget_link-IsValid : (link : LinkId) (t : Table) → IsValid t → IsValid (forget_link link t).0
unfolding forget_link
forget_link-IsValid link t v = record {
  unique = delete_where-IsUnique _ t.entries v.unique;
  own_key = All-delete_where (λ k x. x.key ≡ k) _ t.entries v.own_key;
}

-- Evict changes nothing that a client can see, at that reading or later: expiry in a sweep and expiry
-- on lookup are one.
pub view-evict :
    (now_ms later_ms : ℕ) (t : Table) (k : Key)
    → IsValid t
    → now_ms ≤ later_ms
    → view (evict now_ms t).0 later_ms k ≡ view t later_ms k
unfolding evict expired
view-evict now_ms later_ms t k v h =
    ground (arith, lookup-delete_where (λ e. expired e now_ms) k t.entries v.unique)

-- After Evict every entry held is live, and its count is the number of entries that went.
pub evict_live :
    (now_ms : ℕ) (t : Table)
    → All (λ x. expired x.1 now_ms ≡ false) (evict now_ms t).0.entries
      × (len (evict now_ms t).0 + (evict now_ms t).1 ≡ len t)
unfolding evict len
evict_live now_ms t = (delete_where-All _ t.entries, size-delete_where _ t.entries)

abbrev pub off_link : LinkId → Option Entry → Option Entry
off_link link none = none
off_link link (some e) = if str_eq e.link link then none else some e

-- ForgetLink takes away the routes over the closed link and no other.
pub view-forget_link :
    (link : LinkId) (now_ms : ℕ) (t : Table) (k : Key)
    → IsValid t
    → view (forget_link link t).0 now_ms k ≡ off_link link (view t now_ms k)
unfolding forget_link
view-forget_link link now_ms t k v =
    ground (arith, lookup-delete_where (λ e. str_eq e.link link) k t.entries v.unique)
