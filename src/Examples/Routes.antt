-- ===== src/Examples/Routes.antt =====
-- internal/routes on two vehicles over one link each.
use yalb_link.Prelude.{pos, ◌≡◌, arith}
use yalb_link.Routes.{key_eq, Entry, Table, new_table, upsert, evict}
use yalb_link.Routes.Lookup.{view}
use yalb_link.Routes.Sweep.{IsValid, new_table-IsValid, upsert-IsValid, view-evict}

abbrev near : Entry
near = record {
  link = "udp:1";
  src_ip = "10.0.0.2";
  src_port = pos 14550;
  last_seen_ms = 0;
  key = record { sys_id = 2; comp_id = 1 };
}

abbrev far : Entry
far = record {
  link = "serial:1";
  src_ip = "";
  src_port = pos 0;
  last_seen_ms = 0;
  key = record { sys_id = 1; comp_id = 1 };
}

abbrev two_routes : Table
two_routes = upsert far 50000 (upsert near 1000 new_table)

two_routes-IsValid : IsValid two_routes
two_routes-IsValid = upsert-IsValid far 50000 _ (upsert-IsValid near 1000 _ new_table-IsValid)

view-evict_example : view (evict 70000 two_routes).0 80000 far.key ≡ view two_routes 80000 far.key
view-evict_example = view-evict 70000 80000 two_routes far.key two_routes-IsValid (omega arith)
