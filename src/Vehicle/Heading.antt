-- ===== src/Vehicle/Heading.antt =====
-- normaliseHeading of internal/vehicle/fold.go.
use yalb_link.Prelude.{
  ℕ, ℤ, pos, negsuc, pos_part, neg_part, ◌+◌, ◌-◌, ◌*◌, ◌/◌, ◌%◌, ◌≡◌, ◌<◌, arith,
}
use yalb_link.Vehicle.Fold.{normalise_heading}

-- Every heading is brought into 0 to 359, and what was added or taken off is a whole number of turns.
pub normalise_heading_correct :
    (deg : ℤ)
    → (h forward back : ℕ) × (normalise_heading deg ≡ pos h)
      × (h < 360)
      × (pos_part deg + 360 * forward ≡ h + neg_part deg + 360 * back)
unfolding normalise_heading
normalise_heading_correct (pos n) = (n % 360, 0, n / 360, ground arith, ground arith, ground arith)
normalise_heading_correct (negsuc n) =
    (359 - n % 360, n / 360 + 1, 0, ground arith, ground arith, ground arith)
