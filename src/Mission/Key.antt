-- ===== src/Mission/Key.antt =====
-- The transaction slot of internal/mission/coordinator.go and the reasons for which a download ends.
use yalb_link.Prelude.{ℕ, ◌==◌, ◌&&◌, Bool, true, Eq, ◌≡◌, ◌↔◌, arith}

pub record Key : Type 0 where
  pub sys_id : ℕ
  pub comp_id : ℕ
  pub mission_type : ℕ

abbrev pub key_beq : Key → Key → Bool
key_beq a b = a.sys_id == b.sys_id && (a.comp_id == b.comp_id && a.mission_type == b.mission_type)

pub key_beq_iff : (a b : Key) → (key_beq a b ≡ true) ↔ (a ≡ b)
key_beq_iff a b = ground arith

instance abbrev pub key_eq : Eq Key
key_eq = record { beq = key_beq; beq_iff = key_beq_iff }

-- `rejected` carries the vehicle's own reason.
pub data DownloadError : Type 0 where
  in_flight no_route write_failed timeout cancelled : DownloadError
  rejected : ℕ → DownloadError
