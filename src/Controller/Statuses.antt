-- ===== src/Controller/Statuses.antt =====
-- The statuses of a Civo volume that the driver names are different texts.
use civo_csi.Base.{String, ◌≢◌, arith}
use text.Mathlib.TextEquality.{eq_iff}

pub attached-ne-attaching : ◌≢◌ {A = String} "attached" "attaching"
attached-ne-attaching = ground (arith, eq_iff "attached" "attaching")

pub attached-ne-available : ◌≢◌ {A = String} "attached" "available"
attached-ne-available = ground (arith, eq_iff "attached" "available")

pub attached-ne-detaching : ◌≢◌ {A = String} "attached" "detaching"
attached-ne-detaching = ground (arith, eq_iff "attached" "detaching")

pub available-ne-attaching : ◌≢◌ {A = String} "available" "attaching"
available-ne-attaching = ground (arith, eq_iff "available" "attaching")

pub available-ne-detaching : ◌≢◌ {A = String} "available" "detaching"
available-ne-detaching = ground (arith, eq_iff "available" "detaching")

pub available-ne-resizing : ◌≢◌ {A = String} "available" "resizing"
available-ne-resizing = ground (arith, eq_iff "available" "resizing")

pub ruleset statuses = (
  attached-ne-attaching, attached-ne-available, attached-ne-detaching, available-ne-attaching,
  available-ne-detaching, available-ne-resizing,
)
