-- ===== src/Vfs/Cost.antt =====
-- vfs/vfs.h: `FileCost`, what a file's tags say about its producer.
use mem_nix_fs.Base.{ℕ, ◌^◌, ◌&&◌, Bool, true, false}

pub data Compute : Type 0 where
  trivial cheap expensive : Compute

pub data Mem : Type 0 where
  small large : Mem

pub data Category : Type 0 where
  no_category system_info threat_hunt per_process yara : Category

pub record FileCost : Type 0 where
  pub compute : Compute
  pub mem : Mem
  pub category : Category

-- `FileCost{}`
abbrev pub default_cost : FileCost
default_cost = record { compute = cheap; mem = small; category = no_category }

abbrev pub is_expensive : Compute → Bool
is_expensive trivial = false
is_expensive cheap = false
is_expensive expensive = true

abbrev pub is_trivial : Compute → Bool
is_trivial trivial = true
is_trivial cheap = false
is_trivial expensive = false

abbrev pub is_small : Mem → Bool
is_small small = true
is_small large = false

-- `FileCost::worth_warming`
abbrev pub worth_warming : FileCost → Bool
worth_warming c = is_expensive c.compute && is_small c.mem

-- `FileCost::cheap_to_size`
abbrev pub cheap_to_size : FileCost → Bool
cheap_to_size c = is_trivial c.compute && is_small c.mem

-- static_cast<unsigned> of a category
abbrev pub category_number : Category → ℕ
category_number no_category = 0
category_number system_info = 1
category_number threat_hunt = 2
category_number per_process = 3
category_number yara = 4

-- `warm_bit`
abbrev pub warm_bit : Category → ℕ
warm_bit c = 2 ^ category_number c
